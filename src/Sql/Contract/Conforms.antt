-- ===== src/Sql/Contract/Conforms.antt =====
-- What an empty difference says of the declared and the actual columns.
use elt_pipeline.Prelude.{
  String, Bool, true, false, not, ◌≡◌, ◌↔◌, refl, sym, ap, ◌∙◌, inl, inr, Option, none, some, List,
  [], ◌∷◌, ◌==◌, ◌&&◌, is_empty, is_some, filter, Bool-cases, Option-cases, arith, eq_iff, eq_refl,
  subst,
}
use Prim.Native.Char.{Char}
use elt_pipeline.Prelude.Names.{elem, sorted, elem-sorted, elem-filter}
use elt_pipeline.Prelude.Dict.{Dict, get, keys}
use elt_pipeline.Sql.Contract.Types.{normalise_type_string}
use elt_pipeline.Sql.Contract.{
  SqlColumnSpec, ActualColumn, diff_is_empty, diff_between, changes, column_change, change_between,
  type_changed, nullable_changed, same_bool,
}

pub elem-keys : {V : Type 0} (d : Dict V) (n : String) → elem n (keys d) ≡ is_some (get d n)
unfolding elem get
elem-keys [] n = refl
elem-keys ((k, v) ∷ d) n = ground (arith, elem-keys d n, eq_iff n k, eq_iff k n)

pub is_empty-of_elem : (xs : List String) → ((n : String) → elem n xs ≡ false) → is_empty xs ≡ true
unfolding elem
is_empty-of_elem [] h = refl
is_empty-of_elem (x ∷ xs) h = ground (arith, h x, eq_refl x)

pub elem-of_empty : (xs : List String) (n : String) → is_empty xs ≡ true → elem n xs ≡ false
unfolding elem
elem-of_empty [] n h = refl
elem-of_empty (x ∷ xs) n h = cc

module _ (upper_of : Char → String) where
  -- A column is as its declaration says, where that says something.
  pub record IsColumn (spec : SqlColumnSpec) (actual : ActualColumn) : Type 0 where
    pub typed :
        (t : String) → spec.data_type ≡ some t → normalise_type_string upper_of t ≡ actual.data_type
    pub nulls : (b : Bool) → spec.nullable ≡ some b → b ≡ actual.nullable

  abbrev pub Matches : Option SqlColumnSpec → Option ActualColumn → Type 0
  Matches none none = Unit
  Matches (some spec) (some actual) = IsColumn spec actual
  Matches _ _ = ⊥

  -- Every name is declared and there, as declared, or neither.
  abbrev pub Conforms : Dict SqlColumnSpec → Dict ActualColumn → Type 0
  Conforms declared actual = (n : String) → Matches (get declared n) (get actual n)

  same_bool_eq : (a b : Bool) → same_bool a b ≡ true → a ≡ b
  same_bool_eq a b h = ground arith

  same_bool_refl : (b : Bool) → same_bool b b ≡ true
  same_bool_refl b = ground arith

  typed-false :
      (d : Option String) (actual : ActualColumn)
      → (type_changed upper_of d actual ≡ false)
        ↔ ((t : String) → d ≡ some t → normalise_type_string upper_of t ≡ actual.data_type)
  typed-false none actual = (λ h t e. cc, λ h. refl)
  typed-false (some s) actual = (
    λ h t e.
        ap (λ (o : Option String). elim o [ none ↦ "" | some u ↦ normalise_type_string upper_of u ])
          (sym e)
        ∙ (eq_iff (normalise_type_string upper_of s) actual.data_type).0 (ground arith),
    λ h. rw ((eq_iff (normalise_type_string upper_of s) actual.data_type).1 (h s refl)) refl,
  )

  nulled-false :
      (d : Option Bool) (actual : ActualColumn)
      → (nullable_changed upper_of d actual ≡ false)
        ↔ ((b : Bool) → d ≡ some b → b ≡ actual.nullable)
  nulled-false none actual = (λ h t e. cc, λ h. refl)
  nulled-false (some b) actual = (
    λ h t e. some_eq (sym e) ∙ same_bool_eq b actual.nullable (ground arith),
    λ h. rw (sym (h b refl)) (rw (same_bool_refl b) refl),
  )
    where
      some_eq : {x y : Bool} → Path (Option Bool) (some x) (some y) → x ≡ y
      some_eq e = cc

  column_change-none :
      (n : String) (spec : SqlColumnSpec) (actual : ActualColumn)
      → (column_change upper_of n spec actual ≡ none) ↔ IsColumn spec actual
  unfolding column_change
  column_change-none n spec actual = (
    λ h. record {
      typed = (typed-false spec.data_type actual).0 (ground arith);
      nulls = (nulled-false spec.nullable actual).0 (ground arith);
    },
    λ h.
        rw
          (
            (typed-false spec.data_type actual).1 h.typed,
            (nulled-false spec.nullable actual).1 h.nulls,
          )
          refl,
  )

  changes-empty :
      (declared : Dict SqlColumnSpec) (actual : Dict ActualColumn) (ns : List String)
      → (is_empty (changes upper_of declared actual ns) ≡ true) ↔ (
          (n : String)
          → elem n ns ≡ true
          → change_between upper_of n (get declared n) (get actual n) ≡ none)
  unfolding changes elem
  changes-empty declared actual [] = (λ h n i. cc, λ h. refl)
  changes-empty declared actual (m ∷ ns) =
      elim (Option-cases (change_between upper_of m (get declared m) (get actual m))) [
        | inr (c, e) ↦ (
          λ h n i. let k : false ≡ true = rw e at h in cc,
          λ h. absurd (ground (arith, e, h m (ground (arith, eq_refl m)))),
        )
        | inl e ↦ (
          λ h n i. elim (Bool-cases (n == m)) [
            | inl same ↦
                subst (λ k. change_between upper_of k (get declared k) (get actual k) ≡ none)
                  (sym ((eq_iff n m).0 same)) e
            | inr other ↦ (changes-empty declared actual ns).0 (rw e at h) n (ground arith)
          ],
          λ h. rw e ((changes-empty declared actual ns).1 (λ n i. h n (ground arith))),
        )
      ]

  -- The three lists are empty, one by one.
  missing-empty :
      {V W : Type 0} (d : Dict V) (e : Dict W)
      → (is_empty (sorted (filter (λ n. not (elem n (keys e))) (keys d))) ≡ true)
        ↔ ((n : String) → is_some (get d n) ≡ true → is_some (get e n) ≡ true)
  missing-empty d e =
      let kept = λ (n : String).
        elem-sorted n (filter (λ m. not (elem m (keys e))) (keys d))
        ∙ elem-filter (λ m. not (elem m (keys e))) n (keys d) in
      (
        λ h n i. ground (
          arith,
          kept n,
          elem-of_empty (sorted (filter (λ m. not (elem m (keys e))) (keys d))) n h,
          elem-keys d n,
          elem-keys e n,
        ),
        λ h.
            is_empty-of_elem (sorted (filter (λ m. not (elem m (keys e))) (keys d)))
              (λ n. ground (arith, kept n, h n, elem-keys d n, elem-keys e n)),
      )

  matching :
      (n : String) (spec : Option SqlColumnSpec) (col : Option ActualColumn)
      → (is_some col ≡ true → is_some spec ≡ true)
      → (is_some spec ≡ true → is_some col ≡ true)
      → (is_some spec ≡ true → is_some col ≡ true → change_between upper_of n spec col ≡ none)
      → Matches spec col
  matching n none none f g h = tt
  matching n (some spec) (some col) f g h = (column_change-none n spec col).0 (h refl refl)
  matching n none (some col) f g h = absurd (ground (arith, f refl))
  matching n (some spec) none f g h = absurd (ground (arith, g refl))

  unchanged :
      (n : String) (spec : Option SqlColumnSpec) (col : Option ActualColumn)
      → Matches spec col
      → (is_some col ≡ is_some spec) × (change_between upper_of n spec col ≡ none)
  unchanged n none none h = (refl, refl)
  unchanged n (some spec) (some col) h = (refl, (column_change-none n spec col).1 h)
  unchanged n none (some col) h = absurd h
  unchanged n (some spec) none h = absurd h

  -- The difference between two tables of columns is empty if and only if they have the same names and
  -- every column has the type and the nullability that its declaration gives.
  pub diff_between_empty :
      (declared : Dict SqlColumnSpec) (actual : Dict ActualColumn)
      → (diff_is_empty (diff_between upper_of declared actual) ≡ true) ↔ Conforms declared actual
  unfolding diff_between
  diff_between_empty declared actual = (
    λ h n.
        matching n (get declared n) (get actual n)
          ((missing-empty actual declared).0 (ground arith) n)
          ((missing-empty declared actual).0 (ground arith) n)
          (λ i j.
            (changes-empty declared actual both).0 (ground arith) n
              (ground (arith, in_both n, elem-keys declared n, elem-keys actual n))),
    λ h.
        all_empty
          ((missing-empty actual declared).1
            (λ n i. sym (unchanged n (get declared n) (get actual n) (h n)).0 ∙ i))
          ((missing-empty declared actual).1
            (λ n i. (unchanged n (get declared n) (get actual n) (h n)).0 ∙ i))
          ((changes-empty declared actual both).1
            (λ n i. (unchanged n (get declared n) (get actual n) (h n)).1)),
  )
    where
      both : List String
      both = sorted (filter (λ n. elem n (keys actual)) (keys declared))

      in_both : (n : String) → elem n both ≡ (elem n (keys declared) && elem n (keys actual))
      in_both n =
          elem-sorted n (filter (λ m. elem m (keys actual)) (keys declared))
          ∙ elem-filter (λ m. elem m (keys actual)) n (keys declared)

      all_empty : {a b c : Bool} → a ≡ true → b ≡ true → c ≡ true → (a && b && c) ≡ true
      all_empty e f g = ground (arith, e, f, g)
