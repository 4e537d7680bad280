-- ===== src/Ingest/State/Seeds.antt =====
-- The entry that a backfill starts from.
use elt_pipeline.Prelude.{
  ℕ, String, Bool, true, false, ◌≡◌, ◌≤◌, ◌⊎◌, refl, sym, ap, ◌∙◌, inl, inr, Option, none, some,
  List, [], ◌∷◌, Bool-cases, arith, ok, filter, ltb, leb, subst, ltb→lt, Option-cases, false-true,
}
use elt_pipeline.Ingest.State.{
  CheckpointHistoryEntry, CheckpointStateDocument, Files, list_history, is_eligible, seed_key,
  max_from, seed_of, resolve_backfill_seed,
}

module _ {A : Type 0} where
  -- An entry of a list.
  abbrev pub In : A → List A → Type 0
  In x [] = ⊥
  In x (y ∷ ys) = (x ≡ y) ⊎ In x ys

  pub In-filter : (p : A → Bool) (x : A) (xs : List A) → In x (filter p xs) → In x xs × (p x ≡ true)
  In-filter p x [] i = absurd i
  In-filter p x (y ∷ ys) i = elim (Bool-cases (p y)) [
    | inr out ↦ let (j, h) = In-filter p x ys (rw out at i) in (inr j, h)
    | inl kept ↦ elim (rw kept at i) [
      | inl same ↦ (inl same, ap p same ∙ kept)
      | inr j ↦ let (k, h) = In-filter p x ys j in (inr k, h)
    ]
  ]

  pub filter-In : (p : A → Bool) (x : A) (xs : List A) → In x xs → p x ≡ true → In x (filter p xs)
  filter-In p x [] i h = absurd i
  filter-In p x (y ∷ ys) (inl same) h = rw (ap p (sym same) ∙ h) (inl same)
  filter-In p x (y ∷ ys) (inr j) h = elim (Bool-cases (p y)) [
    | inl kept ↦ rw kept (inr (filter-In p x ys j h))
    | inr out ↦ rw out (filter-In p x ys j h)
  ]

module _ (J : Type 0) (dump : CheckpointStateDocument J → String)
    (validate : String → Option (CheckpointStateDocument J)) where
  -- An entry of the list with the greatest key.
  abbrev IsMax : CheckpointHistoryEntry J → List (CheckpointHistoryEntry J) → Type 0
  IsMax m entries =
      In m entries
      × ((e : CheckpointHistoryEntry J)
          → In e entries
          → seed_key J dump validate e ≤ seed_key J dump validate m)

  max_from_lem :
      (best : CheckpointHistoryEntry J) (entries : List (CheckpointHistoryEntry J))
      → IsMax (max_from J dump validate best entries) (best ∷ entries)
  unfolding max_from
  max_from_lem best [] = (
    inl refl,
    λ e i. elim i [
      | inl same ↦ omega (arith, ap (seed_key J dump validate) same)
      | inr none_left ↦ absurd none_left
    ],
  )
  max_from_lem best (entry ∷ entries) =
      elim (Bool-cases (ltb (seed_key J dump validate best) (seed_key J dump validate entry))) [
        | inl greater ↦
            let (i, top) = max_from_lem entry entries in
            subst (λ m. IsMax m (best ∷ entry ∷ entries)) (sym (rises greater))
              (
                elim i [ inl same ↦ inr (inl same) | inr later ↦ inr (inr later) ],
                λ e j. elim j [
                  | inl first ↦ omega (
                    arith,
                    ap (seed_key J dump validate) first,
                    ltb→lt _ _ greater,
                    top entry (inl refl),
                  )
                  | inr rest ↦ top e rest
                ],
              )
        | inr kept ↦
            let (i, top) = max_from_lem best entries in
            subst (λ m. IsMax m (best ∷ entry ∷ entries)) (sym (stays kept))
              (
                elim i [ inl same ↦ inl same | inr later ↦ inr (inr later) ],
                λ e j. elim j [
                  | inl first ↦ top e (inl first)
                  | inr rest ↦ elim rest [
                    | inl second ↦ omega (
                      arith,
                      ap (seed_key J dump validate) second,
                      not_less _ _ kept,
                      top best (inl refl),
                    )
                    | inr later ↦ top e (inr later)
                  ]
                ],
              )
      ]
    where
      rises :
          ltb (seed_key J dump validate best) (seed_key J dump validate entry) ≡ true
          → max_from J dump validate best (entry ∷ entries) ≡ max_from J dump validate entry entries
      rises e = rw e refl

      stays :
          ltb (seed_key J dump validate best) (seed_key J dump validate entry) ≡ false
          → max_from J dump validate best (entry ∷ entries) ≡ max_from J dump validate best entries
      stays e = rw e refl

      not_less : (a b : ℕ) → ltb a b ≡ false → b ≤ a
      not_less a b h = ground arith

  -- An entry whose window ends at `end`, by a point in time.
  abbrev pub EndsBy : ℕ → ℕ → CheckpointHistoryEntry J → Type 0
  EndsBy start end entry = (entry.window_end ≡ some end) × (end ≤ start)

  -- The seed for a window start: an entry whose window ends by then, and last of those
  -- that do; and none only if no window ends by then.
  abbrev pub IsSeed :
      ℕ → List (CheckpointHistoryEntry J) → Option (CheckpointHistoryEntry J) → Type 0
  IsSeed start entries none =
      (e : CheckpointHistoryEntry J) (end : ℕ) → In e entries → EndsBy start end e → ⊥
  IsSeed start entries (some seed) =
      (last : ℕ) × In seed entries
      × EndsBy start last seed
      × ((e : CheckpointHistoryEntry J) (end : ℕ) → In e entries → EndsBy start end e → end ≤ last)

  eligible-EndsBy :
      (start : ℕ) (e : CheckpointHistoryEntry J)
      → is_eligible J dump validate start e ≡ true
      → (end : ℕ) × EndsBy start end e
  eligible-EndsBy start e h = elim (Option-cases e.window_end) [
    | inl open_end ↦ absurd (false-true (rw open_end at h))
    | inr (end, closed) ↦ (end, (closed, leb_le end start (rw closed at h)))
  ]
    where
      leb_le : (a b : ℕ) → leb a b ≡ true → a ≤ b
      leb_le a b h = ground arith

  EndsBy-eligible :
      (start end : ℕ) (e : CheckpointHistoryEntry J)
      → EndsBy start end e
      → is_eligible J dump validate start e ≡ true
  EndsBy-eligible start end e (closed, early) = rw closed (ground arith)

  -- The key of such an entry is the end of its window.
  seed_key-EndsBy :
      (start end : ℕ) (e : CheckpointHistoryEntry J)
      → EndsBy start end e
      → seed_key J dump validate e ≡ end
  seed_key-EndsBy start end e (closed, early) = rw closed refl

  seed_of-IsSeed :
      (start : ℕ) (entries kept : List (CheckpointHistoryEntry J))
      → kept ≡ filter (is_eligible J dump validate start) entries
      → IsSeed start entries (seed_of J dump validate kept)
  seed_of-IsSeed start entries [] same = λ e end i early. absurd (
      subst (In e) (sym same) (
        filter-In (is_eligible J dump validate start) e entries i
          (EndsBy-eligible start end e early)))
  seed_of-IsSeed start entries (first ∷ kept) same =
      let seed = max_from J dump validate first kept in
      let (i, top) = max_from_lem first kept in
      let (j, fits) =
        In-filter (is_eligible J dump validate start) seed entries (subst (In seed) same i) in
      let (last, ends) = eligible-EndsBy start seed fits in
      (
        last,
        j,
        ends,
        λ e end k early. omega (
          arith,
          seed_key-EndsBy start end e early,
          seed_key-EndsBy start last seed ends,
          top e (
              subst (In e) (sym same) (
                filter-In (is_eligible J dump validate start) e entries k
                  (EndsBy-eligible start end e early))),
        ),
      )

  -- Where the history can be read, the seed of a backfill is an entry of it whose window has an end,
  -- at or before the start of the backfill, and no entry with such an end ends later; and there is no
  -- seed only if no entry has such an end.
  pub resolve_backfill_seed-IsSeed :
      (env source entity : String) (start : ℕ) (files : Files)
      → (entries : List (CheckpointHistoryEntry J))
      → list_history J dump validate env source entity files ≡ ok entries
      → (seed : Option (CheckpointHistoryEntry J)) × (resolve_backfill_seed J dump validate env
            source entity start files
          ≡ ok seed)
        × IsSeed start entries seed
  unfolding resolve_backfill_seed
  resolve_backfill_seed-IsSeed env source entity start files entries h =
      let kept = filter (is_eligible J dump validate start) entries in
      (seed_of J dump validate kept, rw h refl, seed_of-IsSeed start entries kept refl)
