-- ===== src/Ingest/State.antt =====
-- The checkpoint store: src/elt_pipeline/ingest/state.py with its documents in ingest/models.py and
-- the paths of `LocalArtifactLayout.state_file` below the root. Times are numbers. A checkpoint is a
-- value of `J`. pydantic's text of a document and its reading are `dump` and `validate`.
pub mod Commits
pub mod Seeds
pub mod Replays
mod Paths
pub mod Refines
mod Examples
use elt_pipeline.Prelude.{
  ℕ, String, Bool, true, false, not, Option, none, some, List, [], ◌∷◌, ◌++◌, ◌==◌, ◌&&◌, ◌||◌,
  filter, Attempt, ok, raise, ◌>>=◌, if◌then◌else◌, leb, ltb, eqb,
}
use Prim.Native.Char.{Char, code}
use elt_pipeline.Prelude.Text.{strip, concat}

module _ (J : Type 0) where
  pub record CheckpointHistoryEntry : Type 0 where
    pub run_id : String
    pub recorded_at : ℕ
    pub checkpoint_before : Option J
    pub checkpoint_after : J
    pub window_start : Option ℕ
    pub window_end : Option ℕ
    pub window_label : Option String
    pub manifest_paths : List String

  pub record CheckpointStateDocument : Type 0 where
    pub environment : String
    pub source_name : String
    pub entity_name : String
    pub current_checkpoint : Option J
    pub updated_at : Option ℕ
    pub updated_by_run_id : Option String
    pub history : List CheckpointHistoryEntry

-- The document is malformed: the path, the source and the entity.
pub data StateError : Type 0 where
  malformed : String → String → String → StateError

-- `[A-Za-z0-9._-]`
unfoldable pub is_safe : Char → Bool
is_safe ch =
    let c = code ch in
    leb 65 c && leb c 90
    || leb 97 c && leb c 122
    || leb 48 c && leb c 57
    || eqb c 46
    || eqb c 95
    || eqb c 45

-- `re.sub("[^A-Za-z0-9._-]+", "_", value)`; the flag says that a run is being replaced.
unfoldable pub replace_unsafe : String → Bool → String
unfolding is_safe
replace_unsafe String.[] in_run = String.[]
replace_unsafe (String.◌∷◌ c s) in_run =
    let kept = replace_unsafe s false in
    let cut = replace_unsafe s true in
    if is_safe c then String.◌∷◌ c kept else if in_run then cut else concat "_" cut

unfoldable pub sanitize_path_fragment : String → String
unfolding replace_unsafe strip
sanitize_path_fragment value =
    let cleaned = replace_unsafe (strip value) false in if cleaned == "" then "unknown" else cleaned

-- The environment is no part of the path. The source asserts that `environment=` is not in it; below
-- the root this holds, since a fragment has no `=`.
unfoldable pub state_file : String → String → String → String
unfolding sanitize_path_fragment
state_file environment source_name entity_name = concat "state/source=" (
    concat (sanitize_path_fragment source_name)
      (concat "/entity=" (concat (sanitize_path_fragment entity_name) ".json")))

-- The files below the root.
abbrev pub Files : Type 0
Files = String → Option String

abbrev pub write_text : String → String → Files → Files
write_text path text files q = if path == q then some text else files q

abbrev pub replace : String → String → Files → Files
replace src dst files q = if dst == q then files src else if src == q then none else files q

module _ (J : Type 0) (dump : CheckpointStateDocument J → String)
    (validate : String → Option (CheckpointStateDocument J)) where
  -- The text goes to a temporary file first, which then takes the place of the document.
  unfoldable pub write_state_file : String → CheckpointStateDocument J → Files → Files
  write_state_file path document files =
      let temp_path = concat path ".tmp" in
      replace temp_path path (write_text temp_path (dump document) files)

  abbrev pub new_document : String → String → String → CheckpointStateDocument J
  new_document environment source_name entity_name = record {
    environment = environment;
    source_name = source_name;
    entity_name = entity_name;
    current_checkpoint = none;
    updated_at = none;
    updated_by_run_id = none;
    history = [];
  }

  abbrev pub read_document :
      String
      → String
      → String
      → Option (CheckpointStateDocument J)
      → Attempt StateError (CheckpointStateDocument J)
  read_document path source_name entity_name (some document) = ok document
  read_document path source_name entity_name none = raise (malformed path source_name entity_name)

  abbrev pub load_from :
      String → String → String → Option String → Attempt StateError (CheckpointStateDocument J)
  load_from environment source_name entity_name none =
      ok (new_document environment source_name entity_name)
  load_from environment source_name entity_name (some payload) =
      read_document (state_file environment source_name entity_name) source_name entity_name
        (validate payload)

  -- `LocalCheckpointStore.load`
  unfoldable pub load :
      String → String → String → Files → Attempt StateError (CheckpointStateDocument J)
  load environment source_name entity_name files =
      load_from environment source_name entity_name
        (files (state_file environment source_name entity_name))

  -- The document with an entry added.
  unfoldable pub record_entry :
      CheckpointHistoryEntry J → CheckpointStateDocument J → CheckpointStateDocument J
  record_entry entry document = record document {
    current_checkpoint = some entry.checkpoint_after;
    updated_at = some entry.recorded_at;
    updated_by_run_id = some entry.run_id;
    history = document.history ++ entry ∷ [];
  }

  -- `LocalCheckpointStore.commit`, which leaves the files.
  unfoldable pub commit :
      String → String → String → CheckpointHistoryEntry J → Files → Attempt StateError Files
  unfolding load record_entry write_state_file
  commit environment source_name entity_name entry files = do
    document ← load environment source_name entity_name files
    let path = state_file environment source_name entity_name
    ok (write_state_file path (record_entry entry document) files)

  unfoldable pub list_history :
      String → String → String → Files → Attempt StateError (List (CheckpointHistoryEntry J))
  unfolding load
  list_history environment source_name entity_name files = do
    document ← load environment source_name entity_name files
    ok document.history

  abbrev pub run_differs : Option String → CheckpointHistoryEntry J → Bool
  run_differs none entry = false
  run_differs (some run_id) entry = not (run_id == "") && not (entry.run_id == run_id)

  -- Both are given and the first is less.
  abbrev pub before : Option ℕ → Option ℕ → Bool
  before (some a) (some b) = ltb a b
  before _ _ = false

  abbrev pub is_replayed : Option String → Option ℕ → Option ℕ → CheckpointHistoryEntry J → Bool
  is_replayed run_id window_start window_end entry =
      if run_differs run_id entry
      then false
      else if before entry.window_end window_start
      then false
      else if before window_end entry.window_start
      then false
      else true

  unfoldable pub find_replay_entries :
      String
      → String
      → String
      → Option String
      → Option ℕ
      → Option ℕ
      → Files
      → Attempt StateError (List (CheckpointHistoryEntry J))
  unfolding list_history
  find_replay_entries environment source_name entity_name run_id window_start window_end files = do
    entries ← list_history environment source_name entity_name files
    ok (filter (is_replayed run_id window_start window_end) entries)

  abbrev pub is_eligible : ℕ → CheckpointHistoryEntry J → Bool
  is_eligible window_start entry = elim entry.window_end [
    | none ↦ false
    | some e ↦ leb e window_start
  ]

  -- `entry.window_end or entry.recorded_at`
  abbrev pub seed_key : CheckpointHistoryEntry J → ℕ
  seed_key entry = elim entry.window_end [ some e ↦ e | none ↦ entry.recorded_at ]

  -- `max(entries, key=...)`: the first of the greatest.
  unfoldable pub max_from :
      CheckpointHistoryEntry J → List (CheckpointHistoryEntry J) → CheckpointHistoryEntry J
  max_from best [] = best
  max_from best (entry ∷ entries) =
      let next = if ltb (seed_key best) (seed_key entry) then entry else best in
      max_from next entries

  abbrev pub seed_of : List (CheckpointHistoryEntry J) → Option (CheckpointHistoryEntry J)
  seed_of [] = none
  seed_of (entry ∷ entries) = some (max_from entry entries)

  unfoldable pub resolve_backfill_seed :
      String → String → String → ℕ → Files → Attempt StateError (Option (CheckpointHistoryEntry J))
  unfolding list_history max_from
  resolve_backfill_seed environment source_name entity_name window_start files = do
    entries ← list_history environment source_name entity_name files
    ok (seed_of (filter (is_eligible window_start) entries))
