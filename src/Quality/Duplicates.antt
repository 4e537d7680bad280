-- ===== src/Quality/Duplicates.antt =====
-- The loop for duplicates passes if the keys are distinct.
use elt_pipeline.Prelude.{
  true-false, ℕ, zero, suc, String, false, Option, none, some, List, [], ◌∷◌, ◌++◌, ◌≡◌, ◌≢◌, ◌↔◌,
  refl, inl, inr, all, is_empty, Attempt, ok, raise, ◌>>=◌, Bool-cases, arith, ◌∙◌, sym, subst,
}
use elt_pipeline.Prelude.Dict.{Dict}
use elt_pipeline.Quality.Host.{Host}
use elt_pipeline.Quality.Values.{Value, Row, row, not_dict, is_null, is_hashable}
use elt_pipeline.Quality.Checks.{CheckStatus, passed}
use elt_pipeline.Quality.Rows.{Unhashable}
use elt_pipeline.Quality.Unique.{
  Key, key_of, Seen, find_seen, Found, add_first, again, keyed, visit_row, visit_all, duplicates_of,
}
use elt_pipeline.Quality.References.{passes}
use elt_pipeline.Quality.Distinct.{
  DistinctFrom, Fresh, Fresh-everywhere, IsKeyed, KeysDistinct, from-distinct, none-find_seen,
  none-some, seen_keys, seen_keys-append,
}

module _ (h : Host) where
  -- The end of the loop, as a status.
  abbrev ends : Attempt Unhashable (Found h) → CheckStatus
  ends found = passes h (found >>= λ f. ok (Found.duplicates f))

  snoc_filled : (ds : List (Dict (Value h))) (d : Dict (Value h)) → is_empty (ds ++ d ∷ []) ≡ false
  snoc_filled [] d = refl
  snoc_filled (e ∷ ds) d = refl

  add_first_filled :
      (cols : List String) (key : Key h) (rows : List (Row h)) (ds : List (Dict (Value h)))
      → is_empty ds ≡ false
      → is_empty (add_first h cols key rows ds) ≡ false
  unfolding add_first
  add_first_filled cols key [] ds e = e
  add_first_filled cols key (not_dict v ∷ rows) ds e = add_first_filled cols key rows ds e
  add_first_filled cols key (row r ∷ rows) ds e =
      let rest = add_first_filled cols key rows ds e in
      let here = snoc_filled ds r in ground (arith, rest, here)

  abbrev Filled : Attempt Unhashable (Found h) → Type 0
  Filled (raise problem) = Unit {0}
  Filled (ok found) = is_empty (Found.duplicates found) ≡ false

  again_filled :
      (cols : List String) (records : List (Row h)) (key : Key h) (d : Dict (Value h)) (n : ℕ)
      (found : Found h)
      → is_empty (Found.duplicates (again h cols records key d n found)) ≡ false
  again_filled cols records key d zero found =
      add_first_filled cols key records (Found.duplicates found ++ d ∷ [])
        (snoc_filled (Found.duplicates found) d)
  again_filled cols records key d (suc n) found = snoc_filled (Found.duplicates found) d

  keyed_filled :
      (cols : List String) (records : List (Row h)) (key : Key h) (d : Dict (Value h))
      (o : Option ℕ) (found : Found h)
      → is_empty (Found.duplicates found) ≡ false
      → is_empty (Found.duplicates (keyed h cols records key d o found)) ≡ false
  keyed_filled cols records key d none found e = e
  keyed_filled cols records key d (some n) found e = again_filled cols records key d n found

  visit_row-Filled :
      (cols : List String) (records : List (Row h)) (d : Dict (Value h)) (found : Found h)
      → is_empty (Found.duplicates found) ≡ false
      → Filled (visit_row h cols records d found)
  unfolding visit_row
  visit_row-Filled cols records d found e = elim (Bool-cases (all (is_null h) (key_of h cols d))) [
    | inl null ↦ rw null (snoc_filled (Found.duplicates found) d)
    | inr filled ↦ elim (Bool-cases (all (is_hashable h) (key_of h cols d))) [
      | inr other ↦ rw (filled, other) tt
      | inl hash ↦
          rw (filled, hash)
            (keyed_filled cols records (key_of h cols d) d
              (find_seen h (key_of h cols d) (Found.seen found)) found e)
    ]
  ]

  list_fails : (ds : List (Dict (Value h))) → is_empty ds ≡ false → passes h (ok ds) ≢ passed
  list_fails [] e = λ f. absurd (true-false e)
  list_fails (d ∷ ds) e = λ f. cc

  then_fails :
      (next : Found h → Attempt Unhashable (Found h)) (found : Attempt Unhashable (Found h))
      → ((f : Found h) → is_empty (Found.duplicates f) ≡ false → ends (next f) ≢ passed)
      → Filled found
      → ends (found >>= next) ≢ passed
  then_fails next (raise problem) step e = λ f. cc
  then_fails next (ok found) step e = step found e

  visit_all_fails :
      (cols : List String) (records rows : List (Row h)) (found : Found h)
      → is_empty (Found.duplicates found) ≡ false
      → ends (visit_all h cols records rows found) ≢ passed
  unfolding visit_all
  visit_all_fails cols records [] found e = list_fails (Found.duplicates found) e
  visit_all_fails cols records (not_dict v ∷ rows) found e =
      visit_all_fails cols records rows
        record {
          seen = Found.seen found;
          duplicates = Found.duplicates found ++ (("record", v) ∷ []) ∷ [];
        }
        (snoc_filled (Found.duplicates found) (("record", v) ∷ []))
  visit_all_fails cols records (row d ∷ rows) found e =
      then_fails (visit_all h cols records rows) (visit_row h cols records d found)
        (λ f e'. visit_all_fails cols records rows f e') (visit_row-Filled cols records d found e)

  abbrev start : Seen h → Found h
  start seen = record { seen = seen; duplicates = [] }

  abbrev Steps : List String → List (Row h) → List (Row h) → Type 0
  Steps cols records rows =
      (seen : Seen h)
      → (ends (visit_all h cols records rows (start seen)) ≡ passed)
        ↔ DistinctFrom h cols (seen_keys h seen) rows

  keyed_step :
      (cols : List String) (records rows : List (Row h)) (d : Dict (Value h)) (seen : Seen h)
      (o : Option ℕ)
      → find_seen h (key_of h cols d) seen ≡ o
      → Steps cols records rows
      → (ends (
            visit_all h cols records rows (keyed h cols records (key_of h cols d) d o (start seen)))
          ≡ passed)
        ↔ (Fresh h cols (seen_keys h seen) d
            × DistinctFrom h cols (seen_keys h seen ++ key_of h cols d ∷ []) rows)
  keyed_step cols records rows d seen none f step =
      let new = (none-find_seen h (key_of h cols d) seen).0 f in
      let here = step (seen ++ (key_of h cols d, 0) ∷ []) in
      let same = seen_keys-append h seen (key_of h cols d) 0 in
      (
        λ e. (new, subst (λ ks. DistinctFrom h cols ks rows) same (here.0 e)),
        λ a. here.1 (subst (λ ks. DistinctFrom h cols ks rows) (sym same) a.1),
      )
  keyed_step cols records rows d seen (some n) f step = (
    λ e. absurd (
        visit_all_fails cols records rows (again h cols records (key_of h cols d) d n (start seen))
          (again_filled cols records (key_of h cols d) d n (start seen)) e),
    λ a. absurd (none-some h (sym ((none-find_seen h (key_of h cols d) seen).1 a.0) ∙ f)),
  )

  visit_step :
      (cols : List String) (records rows : List (Row h)) (d : Dict (Value h)) (seen : Seen h)
      → Steps cols records rows
      → (ends (visit_row h cols records d (start seen) >>= visit_all h cols records rows) ≡ passed)
        ↔ (IsKeyed h cols d
            × Fresh h cols (seen_keys h seen) d
            × DistinctFrom h cols (seen_keys h seen ++ key_of h cols d ∷ []) rows)
  unfolding visit_row IsKeyed
  visit_step cols records rows d seen step = elim (Bool-cases (all (is_null h) (key_of h cols d))) [
    | inl null ↦ rw null (
      λ e.
          absurd
            (visit_all_fails cols records rows record { seen = seen; duplicates = d ∷ [] } refl e),
      λ a. absurd (true-false a.0.0),
    )
    | inr filled ↦ elim (Bool-cases (all (is_hashable h) (key_of h cols d))) [
      | inr other ↦ rw (filled, other) (λ e. absurd cc, λ a. absurd (true-false (sym a.0.1)))
      | inl hash ↦
          let rest =
            keyed_step cols records rows d seen (find_seen h (key_of h cols d) seen) refl step in
          rw (filled, hash)
            (λ e. ((refl, refl), (rest.0 e).0, (rest.0 e).1), λ a. rest.1 (a.1, a.2))
    ]
  ]

  -- The loop passes from a state without duplicates if the keys that follow are distinct and new.
  passed-visit_all :
      (cols : List String) (records rows : List (Row h)) (seen : Seen h)
      → (ends (visit_all h cols records rows (start seen)) ≡ passed)
        ↔ DistinctFrom h cols (seen_keys h seen) rows
  unfolding visit_all
  passed-visit_all cols records [] seen = (λ e. tt, λ a. refl)
  passed-visit_all cols records (not_dict v ∷ rows) seen = (
    λ e.
        visit_all_fails cols records rows
          record { seen = seen; duplicates = (("record", v) ∷ []) ∷ [] } refl e,
    λ a. absurd a,
  )
  passed-visit_all cols records (row d ∷ rows) seen =
      visit_step cols records rows d seen (λ s. passed-visit_all cols records rows s)

  pub passed-duplicates_of :
      (cols : List String) (records : List (Row h))
      → (passes h (duplicates_of h cols records) ≡ passed) ↔ KeysDistinct h cols records
  unfolding duplicates_of
  passed-duplicates_of cols records =
      let loop = passed-visit_all cols records records [] in
      let same = from-distinct h cols [] records in
      (λ e. (same.0 (loop.0 e)).1, λ a. loop.1 (same.1 (Fresh-everywhere h cols records a, a)))
