-- ===== src/Ingest/State/Replays.antt =====
-- The entries that a replay takes up.
use elt_pipeline.Prelude.{
  ℕ, String, Bool, true, false, ◌≡◌, ◌≢◌, ◌≤◌, ◌↔◌, refl, sym, ◌∙◌, inl, inr, Option, none, some,
  List, ◌==◌, if◌then◌else◌, Bool-cases, arith, eq_iff, ok, filter,
}
use elt_pipeline.Ingest.State.{
  CheckpointHistoryEntry, CheckpointStateDocument, Files, list_history, find_replay_entries,
  is_replayed, run_differs, before,
}
use elt_pipeline.Ingest.State.Seeds.{In, In-filter, filter-In}

module _ (J : Type 0) (dump : CheckpointStateDocument J → String)
    (validate : String → Option (CheckpointStateDocument J)) where
  before-false :
      (a b : Option ℕ)
      → (before J dump validate a b ≡ false) ↔ ((x y : ℕ) → a ≡ some x → b ≡ some y → y ≤ x)
  before-false none b = (λ h x y e f. cc, λ h. refl)
  before-false (some x) none = (λ h x' y e f. cc, λ h. refl)
  before-false (some x) (some y) =
      (λ h x' y' e f. ground (arith, e, f), λ h. ground (arith, h x y refl refl))

  -- The entry is of the run, if one is named, and its window meets the window that is asked for, as
  -- far as both are given.
  pub record Replays (run_id : Option String) (start end : Option ℕ) (e : CheckpointHistoryEntry J)
      : Type 0 where
    pub run : (r : String) → run_id ≡ some r → r ≢ "" → e.run_id ≡ r
    pub late : (w s : ℕ) → e.window_end ≡ some w → start ≡ some s → s ≤ w
    pub early : (t w : ℕ) → end ≡ some t → e.window_start ≡ some w → w ≤ t

  run_differs-false :
      (run_id : Option String) (e : CheckpointHistoryEntry J)
      → (run_differs J dump validate run_id e ≡ false)
        ↔ ((r : String) → run_id ≡ some r → r ≢ "" → e.run_id ≡ r)
  run_differs-false none e = (λ h r f g. cc, λ h. refl)
  run_differs-false (some s) e = (
    λ h r f g. elim (Bool-cases (e.run_id == s)) [
      | inl same ↦ (eq_iff e.run_id s).0 same ∙ some_eq f
      | inr other ↦ absurd (g (sym (some_eq f) ∙ (eq_iff s "").0 (ground (arith, h, other))))
    ],
    λ h. elim (Bool-cases (s == "")) [
      | inl empty ↦ rw empty refl
      | inr filled ↦
          rw
            (
              filled,
              (eq_iff e.run_id s).1 (h s refl (λ z. ground (arith, (eq_iff s "").1 z, filled))),
            )
            refl
    ],
  )
    where
      some_eq : {x y : String} → Path (Option String) (some x) (some y) → x ≡ y
      some_eq f = cc

  is_replayed-true :
      (run_id : Option String) (start end : Option ℕ) (e : CheckpointHistoryEntry J)
      → (is_replayed J dump validate run_id start end e ≡ true) ↔ Replays run_id start end e
  is_replayed-true run_id start end e = (
    λ h. record {
      run = (run_differs-false run_id e).0 (ground arith);
      late = (before-false e.window_end start).0 (ground arith);
      early = (before-false end e.window_start).0 (ground arith);
    },
    λ h.
        all_pass ((run_differs-false run_id e).1 h.run) ((before-false e.window_end start).1 h.late)
          ((before-false end e.window_start).1 h.early),
  )
    where
      all_pass :
          {a b c : Bool}
          → a ≡ false
          → b ≡ false
          → c ≡ false
          → (if a then false else if b then false else if c then false else true) ≡ true
      all_pass f g k = ground (arith, f, g, k)

  -- Where the history can be read, a replay finds exactly the entries of the history that are of the
  -- run, if one is named, and whose windows meet the window that is asked for, as far as both are given.
  pub find_replay_entries_lem :
      (env source entity : String) (run_id : Option String) (start end : Option ℕ) (files : Files)
      → (entries : List (CheckpointHistoryEntry J))
      → list_history J dump validate env source entity files ≡ ok entries
      → (matches : List (CheckpointHistoryEntry J)) × (find_replay_entries J dump validate env
            source entity run_id start end files
          ≡ ok matches)
        × ((e : CheckpointHistoryEntry J)
            → In e matches ↔ (In e entries × Replays run_id start end e))
  unfolding find_replay_entries
  find_replay_entries_lem env source entity run_id start end files entries h =
      let test = is_replayed J dump validate run_id start end in
      (
        filter test entries,
        rw h refl,
        λ e. (
          λ i.
              let (j, passes) = In-filter test e entries i in
              (j, (is_replayed-true run_id start end e).0 passes),
          λ both. filter-In test e entries both.0 ((is_replayed-true run_id start end e).1 both.1),
        ),
      )
