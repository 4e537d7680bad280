-- ===== src/Ingest/State/Examples.antt =====
-- A store of one document, and the theorems at it. A document is written as the run that updated it
-- last, and read again from a table of the documents that occur.
use elt_pipeline.Prelude.{
  ◌↔◌, List, ℕ, String, ◌≡◌, ◌≢◌, refl, Option, none, some, [], ◌∷◌, ok, raise, ◌==◌, if◌then◌else◌,
  Attempt, eq_iff, arith,
}
use elt_pipeline.Prelude.Dict.{or_else}
use elt_pipeline.Ingest.State.{
  StateError, CheckpointHistoryEntry, CheckpointStateDocument, Files, commit, load, state_file,
  list_history, record_entry, resolve_backfill_seed, write_state_file, sanitize_path_fragment,
  find_replay_entries,
}
use elt_pipeline.Ingest.State.Commits.{with_entry, commit-load, commit_beside}
use elt_pipeline.Ingest.State.Refines.{
  Commit, commit_all, add_commits, ReadBack, Refines, commits_refine,
}
use elt_pipeline.Ingest.State.Replays.{Replays, find_replay_entries_lem}
use elt_pipeline.Ingest.State.Seeds.{In, IsSeed, resolve_backfill_seed-IsSeed}

abbrev Entry : Type 0
Entry = CheckpointHistoryEntry ℕ

abbrev Document : Type 0
Document = CheckpointStateDocument ℕ

abbrev entry : String → ℕ → ℕ → Entry
entry run after end = record {
  run_id = run;
  recorded_at = end;
  checkpoint_before = none;
  checkpoint_after = after;
  window_start = none;
  window_end = some end;
  window_label = none;
  manifest_paths = [];
}

abbrev document : Document
document = record {
  environment = "dev";
  source_name = "shop";
  entity_name = "orders";
  current_checkpoint = some 20;
  updated_at = some 200;
  updated_by_run_id = some "r2";
  history = entry "r1" 10 100 ∷ entry "r2" 20 200 ∷ [];
}

abbrev later : Document
later = record document {
  current_checkpoint = some 30;
  updated_at = some 300;
  updated_by_run_id = some "r3";
  history = entry "r1" 10 100 ∷ entry "r2" 20 200 ∷ entry "r3" 30 300 ∷ [];
}

abbrev dump : Document → String
dump d = or_else d.updated_by_run_id ""

abbrev validate : String → Option Document
validate text = if text == "r2" then some document else if text == "r3" then some later else none

abbrev files : Files
files path = if path == "state/source=shop/entity=orders.json" then some "r2" else none

program : Unit {0}
unfolding commit load state_file list_history resolve_backfill_seed sanitize_path_fragment
    write_state_file record_entry find_replay_entries
program = tt

found : list_history ℕ dump validate "dev" "shop" "orders" files ≡ ok document.history
unfolding program
found = refl

replayed :
    find_replay_entries ℕ dump validate "dev" "shop" "orders" (some "") (some 150) none files
    ≡ ok (entry "r2" 20 200 ∷ [])
unfolding program
replayed = refl

resolve_backfill_seed-IsSeed_example :
    (seed : Option Entry) × (resolve_backfill_seed ℕ dump validate "dev" "shop" "orders" 150 files
      ≡ ok seed)
    × IsSeed ℕ dump validate 150 document.history seed
resolve_backfill_seed-IsSeed_example =
    resolve_backfill_seed-IsSeed ℕ dump validate "dev" "shop" "orders" 150 files document.history
      found

loaded : load ℕ dump validate "dev" "shop" "orders" files ≡ ok document
unfolding program
loaded = refl

understood :
    validate (dump (with_entry ℕ dump validate (entry "r3" 30 300) document))
    ≡ some (with_entry ℕ dump validate (entry "r3" 30 300) document)
unfolding program
understood = refl

commit-load_example :
    (after : Files) × (commit ℕ dump validate "dev" "shop" "orders" (entry "r3" 30 300) files
      ≡ ok after)
    × (load ℕ dump validate "prod" "shop" "orders" after
        ≡ ok (with_entry ℕ dump validate (entry "r3" 30 300) document))
commit-load_example =
    commit-load ℕ dump validate "dev" "prod" "shop" "orders" (entry "r3" 30 300) files document
      loaded understood

abbrev files_of : Attempt StateError Files → Files
files_of (ok after) = after
files_of (raise problem) = files

abbrev after : Files
after = files_of (commit ℕ dump validate "dev" "shop" "orders" (entry "r3" 30 300) files)

done : commit ℕ dump validate "dev" "shop" "orders" (entry "r3" 30 300) files ≡ ok after
unfolding program
done = refl

other_path : state_file "dev" "shop" "orders" ≢ state_file "dev" "shop" "items"
unfolding program
other_path e =
    ground
      (arith, (eq_iff (state_file "dev" "shop" "orders") (state_file "dev" "shop" "items")).1 e)

commit_beside_example :
    load ℕ dump validate "dev" "shop" "items" after
    ≡ load ℕ dump validate "dev" "shop" "items" files
commit_beside_example =
    commit_beside ℕ dump validate "dev" "shop" "orders" "dev" "shop" "items" (entry "r3" 30 300)
      files after other_path done

find_replay_entries_lem_example :
    (matches : List Entry) × (find_replay_entries ℕ dump validate "dev" "shop" "orders"
        (some "r2")
        (some 150)
        none
        files
      ≡ ok matches)
    × ((e : Entry)
        → In e matches
          ↔ (In e document.history × Replays ℕ dump validate (some "r2") (some 150) none e))
find_replay_entries_lem_example =
    find_replay_entries_lem ℕ dump validate "dev" "shop" "orders" (some "r2") (some 150) none files
      document.history found

-- Two commits on an empty store, with the documents that they write.
abbrev opened : Document
opened = record {
  environment = "dev";
  source_name = "shop";
  entity_name = "orders";
  current_checkpoint = some 10;
  updated_at = some 100;
  updated_by_run_id = some "r1";
  history = entry "r1" 10 100 ∷ [];
}

abbrev understand : String → Option Document
understand text = if text == "r1" then some opened else validate text

abbrev commits : List (Commit ℕ dump understand)
commits =
    record {
      environment = "dev";
      source_name = "shop";
      entity_name = "orders";
      entry = entry "r1" 10 100;
    }
    ∷ record {
      environment = "prod";
      source_name = "shop";
      entity_name = "orders";
      entry = entry "r2" 20 200;
    }
    ∷ []

commits-ReadBack : ReadBack ℕ dump understand commits (λ q. none)
unfolding program
commits-ReadBack = (refl, (refl, tt))

commits_refine_example :
    (after : Files) × (commit_all ℕ dump understand commits (λ q. none) ≡ ok after)
    × Refines ℕ dump understand after (add_commits ℕ dump understand commits (λ q. none))
commits_refine_example = commits_refine ℕ dump understand commits commits-ReadBack
