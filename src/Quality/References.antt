-- ===== src/Quality/References.antt =====
-- When every reference is found in the target rows.
use elt_pipeline.Prelude.{
  false-true, String, true, Option, none, some, List, [], ◌∷◌, ◌≡◌, ◌↔◌, refl, inl, inr, ◌⊎◌, All,
  Attempt, ok, raise, ◌>>=◌, if◌then◌else◌, ◌≢◌, Bool-cases, ◌∙◌, sym, subst,
}
use elt_pipeline.Prelude.Dict.{Dict, get}
use elt_pipeline.Quality.Host.{Host}
use elt_pipeline.Quality.Values.{
  Value, null, boolean, number, text, moment, nested, Row, row, not_dict, is_hashable, same_value,
}
use elt_pipeline.Quality.Checks.{CheckStatus, passed, failed}
use elt_pipeline.Quality.Rows.{
  Unhashable, unhashable, valid_keys, add_key, unreferred, refer, is_key,
}
use elt_pipeline.Quality.Evaluate.{status_of}
use elt_pipeline.Quality.Passes.{OnDict, IfPresent}

module _ (h : Host) where
  abbrev pub SameAs : Value h → Option (Value h) → Type 0
  SameAs v none = ⊥
  SameAs v (some w) = same_value h v w ≡ true

  -- A target dict has a value at the column that equals `v`.
  abbrev pub HasKey : String → Value h → List (Row h) → Type 0
  HasKey col v [] = ⊥
  HasKey col v (not_dict w ∷ rows) = HasKey col v rows
  HasKey col v (row d ∷ rows) = SameAs v (get d col) ⊎ HasKey col v rows

  abbrev pub HasHash : Option (Value h) → Type 0
  HasHash none = Unit {0}
  HasHash (some w) = is_hashable h w ≡ true

  -- Every value at the column of a target dict has a hash.
  abbrev pub Hashable : String → List (Row h) → Type 0
  Hashable col [] = Unit {0}
  Hashable col (not_dict w ∷ rows) = Hashable col rows
  Hashable col (row d ∷ rows) = HasHash (get d col) × Hashable col rows

  -- Gathering keys succeeds if `A`, and gives the values that equal one of `B`.
  abbrev pub Gathers : Type 0 → (Value h → Type 0) → Attempt Unhashable (List (Value h)) → Type 0
  Gathers A B keys =
      (A → (ks : List (Value h)) × (keys ≡ ok ks))
      × ((ks : List (Value h)) → keys ≡ ok ks → A × ((v : Value h) → (is_key h v ks ≡ true) ↔ B v))

  abbrev Tried : Type 0
  Tried = Attempt Unhashable (List (Value h))

  abbrev gives : List (Value h) → Tried
  gives ks = ok ks

  ok_eq : {a b : List (Value h)} → gives a ≡ gives b → a ≡ b
  ok_eq {a} {b} e = cc

  raise_ok : {p : Unhashable} {a : List (Value h)} → raise p ≡ gives a → ⊥
  raise_ok {p} {a} e = cc

  is_key_cons :
      (B : Value h → Type 0) (v w : Value h) (ks : List (Value h))
      → (is_key h v ks ≡ true) ↔ B v
      → (is_key h v (w ∷ ks) ≡ true) ↔ ((same_value h v w ≡ true) ⊎ B v)
  is_key_cons B v w ks both = elim (Bool-cases (same_value h v w)) [
    | inl e ↦ rw e (λ i. inl refl, λ i. refl)
    | inr e ↦ rw e (
      λ i. inr (both.0 i),
      λ i. elim i [ inl never ↦ absurd (false-true never) | inr b ↦ both.1 b ],
    )
  ]

  Gathers-add :
      (A : Type 0) (B : Value h → Type 0) (o : Option (Value h))
      (keys : Attempt Unhashable (List (Value h)))
      → Gathers A B keys
      → Gathers (HasHash o × A) (λ v. SameAs v o ⊎ B v) (add_key h o keys)
  Gathers-add A B none keys g = (
    λ a. g.0 a.1,
    λ ks f. (
      (tt, (g.1 ks f).0),
      λ v. (
        λ i. inr (((g.1 ks f).1 v).0 i),
        λ i. elim i [ inl never ↦ absurd never | inr b ↦ ((g.1 ks f).1 v).1 b ],
      ),
    ),
  )
  Gathers-add A B (some w) (raise problem) g =
      (λ a. absurd (raise_ok (g.0 a.1).1), λ ks f. absurd cc)
  Gathers-add A B (some w) (ok rest) g = elim (Bool-cases (is_hashable h w)) [
    | inr other ↦ rw other (λ a. absurd cc, λ ks f. absurd cc)
    | inl hash ↦ rw hash (
      λ a. (w ∷ rest, refl),
      λ ks f. (
        (refl, (g.1 rest refl).0),
        λ v.
            subst (λ l. (is_key h v l ≡ true) ↔ ((same_value h v w ≡ true) ⊎ B v)) (ok_eq f)
              (is_key_cons B v w rest ((g.1 rest refl).1 v)),
      ),
    )
  ]

  pub valid_keys-Gathers :
      (col : String) (targets : List (Row h))
      → Gathers (Hashable col targets) (λ v. HasKey col v targets) (valid_keys h col targets)
  unfolding valid_keys
  valid_keys-Gathers col [] = (
    λ a. ([], refl),
    λ ks f. (
      tt,
      λ v.
          subst (λ l. (is_key h v l ≡ true) ↔ ⊥) (ok_eq f)
            (λ i. absurd (false-true i), λ i. absurd i),
    ),
  )
  valid_keys-Gathers col (not_dict w ∷ rows) = valid_keys-Gathers col rows
  valid_keys-Gathers col (row d ∷ rows) =
      Gathers-add (Hashable col rows) (λ v. HasKey col v rows) (get d col) (valid_keys h col rows)
        (valid_keys-Gathers col rows)

  -- A check that raises has failed, and else passes if it found no record.
  abbrev pub passes : Attempt Unhashable (List (Dict (Value h))) → CheckStatus
  passes (raise problem) = failed
  passes (ok ds) = status_of h ds

  -- A value that refers to a target has a hash and is among the keys.
  abbrev pub Refers : List (Value h) → Option (Value h) → Type 0
  Refers ks o = IfPresent h (λ v. (is_hashable h v ≡ true) × (is_key h v ks ≡ true)) o

  abbrev Added : Dict (Value h) → Attempt Unhashable (List (Dict (Value h))) → Type 0
  Added d rest = passes (rest >>= λ ds. ok (d ∷ ds)) ≢ passed

  never-Added :
      (d : Dict (Value h)) (rest : Attempt Unhashable (List (Dict (Value h)))) → Added d rest
  never-Added d (raise problem) = λ e. cc
  never-Added d (ok ds) = λ e. cc

  same_added :
      (rest : Attempt Unhashable (List (Dict (Value h))))
      → passes (rest >>= λ ds. ok ds) ≡ passes rest
  same_added (raise problem) = refl
  same_added (ok ds) = refl

  abbrev present :
      Dict (Value h)
      → Value h
      → List (Value h)
      → Attempt Unhashable (List (Dict (Value h)))
      → Attempt Unhashable (List (Dict (Value h)))
  present d v ks rest =
      if is_hashable h v
      then (rest >>= λ ds. ok (if is_key h v ks then ds else d ∷ ds))
      else raise unhashable

  passed-present :
      (d : Dict (Value h)) (v : Value h) (ks : List (Value h))
      (rest : Attempt Unhashable (List (Dict (Value h))))
      → (passes (present d v ks rest) ≡ passed)
        ↔ (((is_hashable h v ≡ true) × (is_key h v ks ≡ true)) × (passes rest ≡ passed))
  passed-present d v ks rest = elim (Bool-cases (is_hashable h v)) [
    | inr other ↦ rw other (λ e. absurd cc, λ p. absurd (false-true p.0.0))
    | inl hash ↦ elim (Bool-cases (is_key h v ks)) [
      | inl key ↦
          rw (hash, key)
            (λ e. ((refl, refl), sym (same_added rest) ∙ e), λ p. same_added rest ∙ p.1)
      | inr other ↦
          rw (hash, other) (λ e. absurd (never-Added d rest e), λ p. absurd (false-true p.0.1))
    ]
  ]

  passed-refer :
      (d : Dict (Value h)) (o : Option (Value h)) (ks : List (Value h))
      (rest : Attempt Unhashable (List (Dict (Value h))))
      → (passes (refer h d o ks rest) ≡ passed) ↔ (Refers ks o × (passes rest ≡ passed))
  passed-refer d none ks rest = (λ e. (tt, e), λ p. p.1)
  passed-refer d (some null) ks rest = (λ e. (tt, e), λ p. p.1)
  passed-refer d (some (boolean b)) ks rest = passed-present d (boolean b) ks rest
  passed-refer d (some (number n)) ks rest = passed-present d (number n) ks rest
  passed-refer d (some (text s)) ks rest = passed-present d (text s) ks rest
  passed-refer d (some (moment t)) ks rest = passed-present d (moment t) ks rest
  passed-refer d (some (nested n)) ks rest = passed-present d (nested n) ks rest

  pub passed-unreferred :
      (col : String) (ks : List (Value h)) (rows : List (Row h))
      → (passes (unreferred h col ks rows) ≡ passed)
        ↔ All (OnDict h (λ d. Refers ks (get d col))) rows
  unfolding unreferred
  passed-unreferred col ks [] = (λ e. tt, λ a. refl)
  passed-unreferred col ks (not_dict v ∷ rows) =
      (λ e. absurd (never-Added (("record", v) ∷ []) (unreferred h col ks rows) e), λ a. absurd a.0)
  passed-unreferred col ks (row d ∷ rows) =
      let here = passed-refer d (get d col) ks (unreferred h col ks rows) in
      let later = passed-unreferred col ks rows in
      (λ e. ((here.0 e).0, later.0 (here.0 e).1), λ a. here.1 (a.0, later.1 a.1))
