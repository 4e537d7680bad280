-- ===== src/Normalize/Relational/Lookups.antt =====
-- The lookups of a run: tables by their names, and explosions by their paths.
use elt_pipeline.Prelude.{
  String, some, List, [], ◌∷◌, ◌==◌, ◌≡◌, ◌≢◌, ◌⊎◌, inl, inr, refl, sym, ap, ◌∙◌, All, eq_iff,
  eq_refl, Bool-cases, true-false,
}
use elt_pipeline.Prelude.Dict.{Dict, get, put, get-put}
use elt_pipeline.Normalize.Distinct.{some_eq}
use elt_pipeline.Normalize.Plan.{PlannedArrayExplosion, PlannedTable}
use elt_pipeline.Normalize.Planner.Names.{IsNamed}
use elt_pipeline.Normalize.Planner.Parents.{Lists}
use elt_pipeline.Normalize.Relational.{by_physical_from, next_explosion}

abbrev pub In : {A : Type 0} → A → List A → Type 0
In x [] = ⊥
In x (y ∷ ys) = (x ≡ y) ⊎ In x ys

pub all-In :
    (ts tables : List PlannedTable)
    → ((t : PlannedTable) → In t ts → In t tables)
    → All (λ t. In t tables) ts
all-In [] tables h = tt
all-In (t ∷ ts) tables h = (h t (inl refl), all-In ts tables (λ u i. h u (inr i)))

-- No two entries have one value.
abbrev Differ : (PlannedTable → String) → List PlannedTable → Type 0
Differ of [] = Unit
Differ of (t ∷ ts) = All (λ u. of u ≢ of t) ts × Differ of ts

-- The logical paths of the tables differ.
abbrev pub PathsDiffer : List PlannedTable → Type 0
PathsDiffer = Differ PlannedTable.logical_path

abbrev pub NamesDiffer : List PlannedTable → Type 0
NamesDiffer = Differ PlannedTable.physical_table_name

-- No table has this name.
abbrev pub Unnamed : String → List PlannedTable → Type 0
Unnamed name = All (λ u. PlannedTable.physical_table_name u ≢ name)

-- Names that hold the paths of some tables differ where the paths differ.
Unnamed-of_paths :
    (names : Dict String) (t : PlannedTable) (ts : List PlannedTable)
    → IsNamed names t
    → All (IsNamed names) ts
    → All (λ u. PlannedTable.logical_path u ≢ PlannedTable.logical_path t) ts
    → Unnamed (PlannedTable.physical_table_name t) ts
Unnamed-of_paths names t [] n ns d = tt
Unnamed-of_paths names t (u ∷ us) n ns d = (
  λ same. d.0 (some_eq (sym ns.0 ∙ ap (get names) same ∙ n)),
  Unnamed-of_paths names t us n ns.1 d.1,
)

pub NamesDiffer-of_paths :
    (names : Dict String) (ts : List PlannedTable)
    → All (IsNamed names) ts
    → PathsDiffer ts
    → NamesDiffer ts
NamesDiffer-of_paths names [] ns d = tt
NamesDiffer-of_paths names (t ∷ ts) ns d =
    (Unnamed-of_paths names t ts ns.0 ns.1 d.0, NamesDiffer-of_paths names ts ns.1 d.1)

module _ {V : Type 0} where
  pub get-put_other :
      (d : Dict V) (key other : String) (v : V)
      → key ≢ other
      → get (put d key v) other ≡ get d other
  get-put_other d key other v apart = elim (Bool-cases (key == other)) [
    | inl same ↦ absurd (apart ((eq_iff key other).0 same))
    | inr differs ↦ get-put d key other v ∙ rw differs refl
  ]

  pub get-put_same : (d : Dict V) (key : String) (v : V) → get (put d key v) key ≡ some v
  get-put_same d key v = get-put d key key v ∙ rw (eq_refl key) refl

by_physical-other :
    (d : Dict PlannedTable) (ts : List PlannedTable) (name : String)
    → Unnamed name ts
    → get (by_physical_from d ts) name ≡ get d name
by_physical-other d [] name un = refl
by_physical-other d (t ∷ ts) name un =
    by_physical-other (put d (PlannedTable.physical_table_name t) t) ts name un.1
    ∙ get-put_other d (PlannedTable.physical_table_name t) name t un.0

-- A dict that has each table under its name.
abbrev pub KnownIn : Dict PlannedTable → PlannedTable → Type 0
KnownIn d t = get d (PlannedTable.physical_table_name t) ≡ some t

pub by_physical-Known :
    (d : Dict PlannedTable) (ts : List PlannedTable)
    → NamesDiffer ts
    → All (KnownIn (by_physical_from d ts)) ts
by_physical-Known d [] differ = tt
by_physical-Known d (t ∷ ts) differ = (
  by_physical-other (put d (PlannedTable.physical_table_name t) t) ts _ differ.0
      ∙ get-put_same d (PlannedTable.physical_table_name t) t,
  by_physical-Known (put d (PlannedTable.physical_table_name t) t) ts differ.1,
)

pub next_explosion-Lists :
    (path : String) (es : List PlannedArrayExplosion)
    → Lists path es
    → (e : PlannedArrayExplosion) × (next_explosion path es ≡ some e)
      × In e es
      × (PlannedArrayExplosion.child_table_logical_path e ≡ path)
unfolding next_explosion
next_explosion-Lists path [] l = absurd l
next_explosion-Lists path (e ∷ es) l =
    elim (Bool-cases (PlannedArrayExplosion.child_table_logical_path e == path)) [
      | inl same ↦ (e, rw same refl, inl refl, (eq_iff _ path).0 same)
      | inr apart ↦ elim l [
        | inl here ↦ absurd (true-false (sym ((eq_iff _ path).1 here) ∙ apart))
        | inr later ↦
            let (found, first, inside, at) = next_explosion-Lists path es later in
            (found, rw apart first, inr inside, at)
      ]
    ]
