-- ===== src/Quality/Distinct.antt =====
-- When the keys of the records are distinct.
use elt_pipeline.Prelude.{
  true-false, ℕ, String, true, false, none, some, List, [], ◌∷◌, ◌++◌, ◌≡◌, ◌↔◌, refl, ap, inl, inr,
  All, all, Bool-cases,
}
use elt_pipeline.Prelude.Dict.{Dict}
use elt_pipeline.Quality.Host.{Host}
use elt_pipeline.Quality.Values.{Value, Row, row, not_dict, is_null, is_hashable}
use elt_pipeline.Quality.Unique.{Key, key_of, same_key, Seen, find_seen}
use elt_pipeline.Quality.Passes.{OnDict}

module _ (h : Host) where
  pub none-some : {n : ℕ} → none ≡ some n → ⊥
  none-some {n} e = cc

  -- The key has a value that is not null, and all its values have a hash.
  unfoldable pub IsKeyed : List String → Dict (Value h) → Type 0
  IsKeyed cols d =
      (all (is_null h) (key_of h cols d) ≡ false) × (all (is_hashable h) (key_of h cols d) ≡ true)

  -- The dict's key is none of these.
  abbrev pub Fresh : List String → List (Key h) → Dict (Value h) → Type 0
  Fresh cols ks d = All (λ k. same_key h (key_of h cols d) k ≡ false) ks

  -- Every record is a dict with a key, and no later record has the same key.
  abbrev pub KeysDistinct : List String → List (Row h) → Type 0
  KeysDistinct cols [] = Unit {0}
  KeysDistinct cols (not_dict v ∷ rows) = ⊥
  KeysDistinct cols (row d ∷ rows) =
      IsKeyed cols d
      × All (OnDict h (Fresh cols (key_of h cols d ∷ []))) rows
      × KeysDistinct cols rows

  -- The same, along the loop, with the keys seen so far.
  abbrev pub DistinctFrom : List String → List (Key h) → List (Row h) → Type 0
  DistinctFrom cols ks [] = Unit {0}
  DistinctFrom cols ks (not_dict v ∷ rows) = ⊥
  DistinctFrom cols ks (row d ∷ rows) =
      IsKeyed cols d × Fresh cols ks d × DistinctFrom cols (ks ++ key_of h cols d ∷ []) rows

  Fresh-snoc :
      (cols : List String) (ks : List (Key h)) (k : Key h) (d : Dict (Value h))
      → Fresh cols (ks ++ k ∷ []) d ↔ (Fresh cols ks d × Fresh cols (k ∷ []) d)
  Fresh-snoc cols [] k d = (λ f. (tt, f), λ p. p.1)
  Fresh-snoc cols (k' ∷ ks) k d =
      let rest = Fresh-snoc cols ks k d in
      (λ f. ((f.0, (rest.0 f.1).0), (rest.0 f.1).1), λ p. (p.0.0, rest.1 (p.0.1, p.1)))

  snoc_all :
      (cols : List String) (ks : List (Key h)) (k : Key h) (rows : List (Row h))
      → All (OnDict h (Fresh cols (ks ++ k ∷ []))) rows
        ↔ (All (OnDict h (Fresh cols ks)) rows × All (OnDict h (Fresh cols (k ∷ []))) rows)
  snoc_all cols ks k [] = (λ a. (tt, tt), λ p. tt)
  snoc_all cols ks k (not_dict v ∷ rows) = (λ a. absurd a.0, λ p. absurd p.0.0)
  snoc_all cols ks k (row d ∷ rows) =
      let here = Fresh-snoc cols ks k d in
      let later = snoc_all cols ks k rows in
      (
        λ a. (((here.0 a.0).0, (later.0 a.1).0), ((here.0 a.0).1, (later.0 a.1).1)),
        λ p. (here.1 (p.0.0, p.1.0), later.1 (p.0.1, p.1.1)),
      )

  pub from-distinct :
      (cols : List String) (ks : List (Key h)) (rows : List (Row h))
      → DistinctFrom cols ks rows ↔ (All (OnDict h (Fresh cols ks)) rows × KeysDistinct cols rows)
  from-distinct cols ks [] = (λ a. (tt, tt), λ p. tt)
  from-distinct cols ks (not_dict v ∷ rows) = (λ a. absurd a, λ p. absurd p.1)
  from-distinct cols ks (row d ∷ rows) =
      let k = key_of h cols d in
      let rest = from-distinct cols (ks ++ k ∷ []) rows in
      let all = snoc_all cols ks k rows in
      (
        λ a. ((a.1, (all.0 (rest.0 a.2).0).0), (a.0, (all.0 (rest.0 a.2).0).1, (rest.0 a.2).1)),
        λ p. (p.1.0, p.0.0, rest.1 (all.1 (p.0.1, p.1.1), p.1.2)),
      )

  pub Fresh-everywhere :
      (cols : List String) (rows : List (Row h))
      → KeysDistinct cols rows
      → All (OnDict h (Fresh cols [])) rows
  Fresh-everywhere cols [] a = tt
  Fresh-everywhere cols (not_dict v ∷ rows) a = absurd a
  Fresh-everywhere cols (row d ∷ rows) a = (tt, Fresh-everywhere cols rows a.2)

  abbrev pub seen_keys : Seen h → List (Key h)
  seen_keys [] = []
  seen_keys ((k, n) ∷ seen) = k ∷ seen_keys seen

  pub seen_keys-append :
      (seen : Seen h) (k : Key h) (n : ℕ)
      → seen_keys (seen ++ (k, n) ∷ []) ≡ seen_keys seen ++ k ∷ []
  seen_keys-append [] k n = refl
  seen_keys-append ((j, m) ∷ seen) k n = ap (λ l. j ∷ l) (seen_keys-append seen k n)

  abbrev Unseen : Key h → List (Key h) → Type 0
  Unseen key ks = All (λ k. same_key h key k ≡ false) ks

  pub none-find_seen :
      (key : Key h) (seen : Seen h) → (find_seen h key seen ≡ none) ↔ Unseen key (seen_keys seen)
  unfolding find_seen
  none-find_seen key [] = (λ e. tt, λ a. refl)
  none-find_seen key ((k, n) ∷ seen) = elim (Bool-cases (same_key h key k)) [
    | inl e ↦ rw e (λ f. absurd cc, λ a. absurd (true-false a.0))
    | inr e ↦ let rest = none-find_seen key seen in rw e (λ f. (refl, rest.0 f), λ a. rest.1 a.1)
  ]
