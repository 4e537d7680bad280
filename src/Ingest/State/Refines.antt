-- ===== src/Ingest/State/Refines.antt =====
-- The store as a map from paths to documents.
use elt_pipeline.Prelude.{
  String, Option, none, some, List, [], ◌∷◌, ◌==◌, ◌≡◌, refl, sym, ap, ◌∙◌, if◌then◌else◌,
  Bool-cases, inl, inr, eq_iff, Attempt, ok, ◌>>=◌, true-false,
}
use elt_pipeline.Prelude.Dict.{or_else}
use elt_pipeline.Ingest.State.{
  CheckpointHistoryEntry, CheckpointStateDocument, StateError, Files, state_file, write_state_file,
  new_document, load, load_from, record_entry, commit,
}
use elt_pipeline.Ingest.State.Commits.{with_entry, written_at, written_beside}
use elt_pipeline.Ingest.State.Paths.{temporary_apart}

module _ (J : Type 0) (dump : CheckpointStateDocument J → String)
    (validate : String → Option (CheckpointStateDocument J)) where
  -- A commit: the environment, the source, the entity and the entry.
  pub record Commit : Type 0 where
    pub environment : String
    pub source_name : String
    pub entity_name : String
    pub entry : CheckpointHistoryEntry J

  abbrev pub path_of : Commit → String
  path_of c = state_file (Commit.environment c) (Commit.source_name c) (Commit.entity_name c)

  -- The commits of a run, one after the other.
  unfoldable pub commit_all : List Commit → Files → Attempt StateError Files
  unfolding commit
  commit_all [] files = ok files
  commit_all (c ∷ cs) files =
      commit J dump validate (Commit.environment c) (Commit.source_name c) (Commit.entity_name c)
        (Commit.entry c) files
      >>= commit_all cs

  -- The abstract store: a document or none at each path.
  abbrev pub Documents : Type 0
  Documents = String → Option (CheckpointStateDocument J)

  -- What is there for a source and an entity: the document at their path, or a new one.
  abbrev pub document_at : Documents → String → String → String → CheckpointStateDocument J
  document_at docs env source entity =
      or_else (docs (state_file env source entity)) (new_document J dump validate env source entity)

  abbrev pub committed_document : Commit → Documents → CheckpointStateDocument J
  committed_document c docs =
      with_entry J dump validate (Commit.entry c)
        (document_at docs (Commit.environment c) (Commit.source_name c) (Commit.entity_name c))

  abbrev pub add_commit : Commit → Documents → Documents
  add_commit c docs q = if path_of c == q then some (committed_document c docs) else docs q

  abbrev pub add_commits : List Commit → Documents → Documents
  add_commits [] docs = docs
  add_commits (c ∷ cs) docs = add_commits cs (add_commit c docs)

  -- The reader understands each document that the commits write.
  abbrev pub ReadBack : List Commit → Documents → Type 0
  ReadBack [] docs = Unit {0}
  ReadBack (c ∷ cs) docs =
      (validate (dump (committed_document c docs)) ≡ some (committed_document c docs))
      × ReadBack cs (add_commit c docs)

  -- Every source and entity is read from the files as the abstract store has it.
  abbrev pub Refines : Files → Documents → Type 0
  Refines files docs =
      (env source entity : String)
      → load J dump validate env source entity files ≡ ok (document_at docs env source entity)

  commit_step :
      (c : Commit) (files : Files) (docs : Documents)
      → Refines files docs
      → commit J dump validate
          (Commit.environment c)
          (Commit.source_name c)
          (Commit.entity_name c)
          (Commit.entry c)
          files
        ≡ ok (write_state_file J dump validate (path_of c) (committed_document c docs) files)
  unfolding commit record_entry
  commit_step c files docs refines =
      rw (refines (Commit.environment c) (Commit.source_name c) (Commit.entity_name c)) refl

  Refines-add_commit :
      (c : Commit) (files : Files) (docs : Documents)
      → Refines files docs
      → validate (dump (committed_document c docs)) ≡ some (committed_document c docs)
      → Refines
          (write_state_file J dump validate (path_of c) (committed_document c docs) files)
          (add_commit c docs)
  unfolding load
  Refines-add_commit c files docs refines reads = λ env source entity.
      elim (Bool-cases (path_of c == state_file env source entity)) [
        | inl same ↦ rw same (
            ap (load_from J dump validate env source entity) (
              ap (write_state_file J dump validate (path_of c) (committed_document c docs) files)
                (sym ((eq_iff (path_of c) (state_file env source entity)).0 same))
              ∙ written_at J dump validate (path_of c) (committed_document c docs) files)
            ∙ rw reads refl)
        | inr other ↦ rw other (
            ap (load_from J dump validate env source entity) (
              written_beside J dump validate (path_of c) (state_file env source entity)
                (committed_document c docs) files
                (λ e.
                  true-false
                    (sym ((eq_iff (path_of c) (state_file env source entity)).1 e) ∙ other))
                (temporary_apart (Commit.environment c) (Commit.source_name c)
                  (Commit.entity_name c) env source entity))
            ∙ refines env source entity)
      ]

  commit_all-Refines :
      (cs : List Commit) (files : Files) (docs : Documents)
      → Refines files docs
      → ReadBack cs docs
      → (after : Files) × (commit_all cs files ≡ ok after) × Refines after (add_commits cs docs)
  unfolding commit_all
  commit_all-Refines [] files docs refines reads = (files, refl, refines)
  commit_all-Refines (c ∷ cs) files docs refines reads =
      let step = commit_step c files docs refines in
      let later =
        commit_all-Refines cs
          (write_state_file J dump validate (path_of c) (committed_document c docs) files)
          (add_commit c docs) (Refines-add_commit c files docs refines reads.0) reads.1 in
      (later.0, rw step later.1, later.2)

  -- The commits of a run on an empty store all succeed where the reader understands each document
  -- they write, and then every source and entity has the document that the same commits make in a
  -- map from paths to documents, read in any environment.
  pub commits_refine :
      (cs : List Commit)
      → ReadBack cs (λ q. none)
      → (after : Files) × (commit_all cs (λ q. none) ≡ ok after)
        × Refines after (add_commits cs (λ q. none))
  unfolding load
  commits_refine cs reads =
      commit_all-Refines cs (λ q. none) (λ q. none) (λ env source entity. refl) reads
