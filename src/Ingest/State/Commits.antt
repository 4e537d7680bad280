-- ===== src/Ingest/State/Commits.antt =====
-- What is read after a commit.
use elt_pipeline.Prelude.{
  ◌++◌, ◌∷◌, [], String, ◌≡◌, ◌≢◌, refl, sym, ap, ◌∙◌, Option, some, arith, eq_iff, eq_refl,
  Attempt, ok, raise, >>=_returns,
}
use elt_pipeline.Prelude.Text.{concat}
use elt_pipeline.Ingest.State.Paths.{temporary_apart}
use elt_pipeline.Ingest.State.{
  CheckpointHistoryEntry, CheckpointStateDocument, StateError, Files, state_file, write_state_file,
  load, load_from, record_entry, commit,
}

module _ (J : Type 0) (dump : CheckpointStateDocument J → String)
    (validate : String → Option (CheckpointStateDocument J)) where
  pub written_at :
      (path : String) (document : CheckpointStateDocument J) (files : Files)
      → write_state_file J dump validate path document files path ≡ some (dump document)
  unfolding write_state_file
  written_at path document files = rw (eq_refl path, eq_refl (concat path ".tmp")) refl

  pub written_beside :
      (path other : String) (document : CheckpointStateDocument J) (files : Files)
      → path ≢ other
      → concat path ".tmp" ≢ other
      → write_state_file J dump validate path document files other ≡ files other
  unfolding write_state_file
  written_beside path other document files h k =
      ground (arith, eq_iff path other, eq_iff (concat path ".tmp") other)

  committed :
      (env source entity : String) (entry : CheckpointHistoryEntry J) (files after : Files)
      → commit J dump validate env source entity entry files ≡ ok after
      → (document : CheckpointStateDocument J) × (load J dump validate env source entity files
          ≡ ok document)
        × (after
            ≡ write_state_file J dump validate
                (state_file env source entity)
                (record_entry J dump validate entry document)
                files)
  unfolding commit
  committed env source entity entry files after h =
      let (document, loaded, rest) =
        >>=_returns (load J dump validate env source entity files) _ h in
      (document, loaded, sym (ok_eq rest))
    where
      ok_eq : {a b : Files} → Path (Attempt StateError Files) (ok a) (ok b) → a ≡ b
      ok_eq {a} {b} e = ap (λ (t : Attempt StateError Files). elim t [ ok f ↦ f | raise p ↦ a ]) e

  -- The document with the entry at the end of its history, and current.
  abbrev pub with_entry :
      CheckpointHistoryEntry J → CheckpointStateDocument J → CheckpointStateDocument J
  with_entry entry document = record {
    environment = document.environment;
    source_name = document.source_name;
    entity_name = document.entity_name;
    current_checkpoint = some entry.checkpoint_after;
    updated_at = some entry.recorded_at;
    updated_by_run_id = some entry.run_id;
    history = document.history ++ entry ∷ [];
  }

  -- A commit to a document that can be read succeeds; and where the reader understands what the
  -- writer made of the new document, the store reads it then, in any environment: the old one with
  -- the entry at the end of its history and the checkpoint of the entry as the current one.
  pub commit-load :
      (env env' source entity : String) (entry : CheckpointHistoryEntry J) (files : Files)
      → (document : CheckpointStateDocument J)
      → load J dump validate env source entity files ≡ ok document
      → validate (dump (with_entry entry document)) ≡ some (with_entry entry document)
      → (after : Files) × (commit J dump validate env source entity entry files ≡ ok after)
        × (load J dump validate env' source entity after ≡ ok (with_entry entry document))
  unfolding load state_file commit record_entry
  commit-load env env' source entity entry files document loaded reads =
      let path = state_file env source entity in
      let new = with_entry entry document in
      (
        write_state_file J dump validate path new files,
        rw loaded refl,
        ap (load_from J dump validate env' source entity) (written_at path new files)
            ∙ rw reads refl,
      )

  -- A commit leaves the document of every source and entity that has another path as it was.
  pub commit_beside :
      (env source entity env' source' entity' : String) (entry : CheckpointHistoryEntry J)
      → (files after : Files) → state_file env source entity ≢ state_file env' source' entity'
      → commit J dump validate env source entity entry files ≡ ok after
      → load J dump validate env' source' entity' after
        ≡ load J dump validate env' source' entity' files
  unfolding load
  commit_beside env source entity env' source' entity' entry files after h done =
      let (document, loaded, same) = committed env source entity entry files after done in
      ap
        (λ (f : Files).
          load_from J dump validate env' source' entity' (f (state_file env' source' entity')))
        same
      ∙ ap (load_from J dump validate env' source' entity') (
          written_beside (state_file env source entity) (state_file env' source' entity') _ files h
            (temporary_apart env source entity env' source' entity'))
