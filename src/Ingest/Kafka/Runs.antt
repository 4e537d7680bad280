-- ===== src/Ingest/Kafka/Runs.antt =====
-- What a run consumes, and what repeated runs on one log consume.
use elt_pipeline.Prelude.Int.{ℤ, pos, negsuc}
use elt_pipeline.Prelude.{
  String, ltb, eqb, ◌==◌, ◌&&◌, ℕ, zero, suc, ◌+◌, ◌≤◌, Option, some, List, [], ◌∷◌, ◌++◌, ◌≡◌,
  refl, sym, ap, ◌∙◌, subst, filter, length, All, Attempt, ok, ◌>>=◌, arith, List-cases, inl, inr,
  Bool-cases,
}
use elt_pipeline.Ingest.Kafka.{
  Config, Line, Message, KafkaError, checkpoint, Checkpoint, RunResult, resolve_start_offset,
  read_log, pending, consume_messages, build_checkpoint_after, run, take, max_offset, from_start,
  add_message,
}
use elt_pipeline.Ingest.Kafka.Pending.{
  DistinctOffsets, Rising, Rising-sort, reached, later_pending, drop, take-drop, behind_taken,
  All-sort, max_offset-le,
}

-- Where the next run starts after some messages were consumed from an offset on.
abbrev pub next_start : ℕ → List Message → ℕ
next_start start [] = start
next_start start (m ∷ ms) = max_offset (Message.offset m) ms + 1

resolved_after :
    (config : Config) (before : Option Checkpoint) (start : ℕ) (ms : List Message)
    → Config.starting_position config ≡ checkpoint
    → resolve_start_offset config before ≡ ok start
    → resolve_start_offset config (build_checkpoint_after before ms) ≡ ok (next_start start ms)
unfolding resolve_start_offset build_checkpoint_after
resolved_after config before start [] position resolved = resolved
resolved_after config before start (m ∷ ms) position resolved = rw position refl

-- Taking the first of rising messages leaves those from the next start on.
left_over :
    (n start : ℕ) (ms : List Message)
    → Rising ms
    → filter (reached (next_start start (take (suc n) ms))) ms ≡ drop (suc n) ms
left_over n start [] r = refl
left_over n start (m ∷ ms) r = behind_taken m n ms r

abbrev Later : ℕ → List Message → Type 0
Later start ms = All (λ m. start ≤ Message.offset m) ms

Later-from_start :
    (start : ℕ) (offset : ℤ) (content : String) (ms : List Message)
    → Later start ms
    → Later start (add_message (from_start start offset content) ms)
Later-from_start start (negsuc n) content ms a = a
Later-from_start start (pos n) content ms a = elim (Bool-cases (ltb n start)) [
  | inl e ↦ rw e a
  | inr e ↦ rw e (ground (arith, e), a)
]

Later-read_log :
    (config : Config) (start : ℕ) (lines : List Line) → Later start (read_log config start lines)
unfolding read_log
Later-read_log config start [] = tt
Later-read_log config start (line ∷ lines) =
    elim (Bool-cases (
      Line.topic line == Config.topic config
      && eqb (Line.partition line) (Config.partition config))) [
        | inl e ↦ rw e (
            Later-from_start start (Line.offset line) (Line.content line)
              (read_log config start lines) (Later-read_log config start lines))
        | inr e ↦ rw e (Later-read_log config start lines)
      ]

Later-pending :
    (config : Config) (start : ℕ) (lines : List Line) → Later start (pending config start lines)
unfolding pending
Later-pending config start lines =
    All-sort (λ m. start ≤ Message.offset m) (read_log config start lines)
      (Later-read_log config start lines)

next_start-le :
    (n start : ℕ) (ms : List Message) → Later start ms → start ≤ next_start start (take (suc n) ms)
next_start-le n start [] a = omega arith
next_start-le n start (m ∷ ms) a = omega (arith, a.0, max_offset-le (Message.offset m) (take n ms))

Rising-drop : (n : ℕ) (ms : List Message) → Rising ms → Rising (drop n ms)
Rising-drop zero ms r = r
Rising-drop (suc n) [] r = tt
Rising-drop (suc n) (m ∷ ms) r = Rising-drop n ms r.1

length-drop : (n : ℕ) (ms : List Message) → length (drop n ms) ≤ length ms
length-drop zero ms = omega arith
length-drop (suc n) [] = omega arith
length-drop (suc n) (m ∷ ms) = omega (arith, length-drop n ms)

shorter : (n k : ℕ) (ms : List Message) → length ms ≤ suc k → length (drop (suc n) ms) ≤ k
shorter n k [] l = omega arith
shorter n k (m ∷ ms) l = omega (arith, l, length-drop n ms)

-- The messages after a run are those that it left over.
pending_after :
    (config : Config) (n start : ℕ) (lines : List Line)
    → Rising (pending config start lines)
    → pending config (next_start start (take (suc n) (pending config start lines))) lines
      ≡ drop (suc n) (pending config start lines)
pending_after config n start lines r =
    sym (
      later_pending config start (next_start start (take (suc n) (pending config start lines)))
        lines
        (next_start-le n start (pending config start lines) (Later-pending config start lines)))
    ∙ left_over n start (pending config start lines) r

-- The run from a checkpoint, which starts at an offset.
abbrev pub result_from : Config → Option Checkpoint → ℕ → List Line → RunResult
result_from config before start lines = record {
  messages = consume_messages config start lines;
  checkpoint_after = build_checkpoint_after before (consume_messages config start lines);
}

run_from :
    (config : Config) (before : Option Checkpoint) (start : ℕ) (lines : List Line)
    → resolve_start_offset config before ≡ ok start
    → run config (some lines) before ≡ ok (result_from config before start lines)
unfolding run
run_from config before start lines resolved = rw resolved refl

-- Some runs in a row on one log, and the messages of them all.
unfoldable pub run_times :
    Config → List Line → ℕ → Option Checkpoint → Attempt KafkaError (List Message)
unfolding run
run_times config lines zero before = ok []
run_times config lines (suc k) before = run config (some lines) before >>= λ r.
    run_times config lines k (RunResult.checkpoint_after r) >>= λ ms.
    ok (RunResult.messages r ++ ms)

abbrev the_messages : List Message → Attempt KafkaError (List Message)
the_messages ms = ok ms

-- The runs after the first one.
abbrev continue_with : Config → List Line → ℕ → RunResult → Attempt KafkaError (List Message)
continue_with config lines k r = run_times config lines k (RunResult.checkpoint_after r) >>= λ ms.
    ok (RunResult.messages r ++ ms)

abbrev after_messages :
    Config → List Line → ℕ → Option Checkpoint → List Message → Attempt KafkaError (List Message)
after_messages config lines k before ms =
    run_times config lines k (build_checkpoint_after before ms) >>= λ rest. ok (ms ++ rest)

runs_consume :
    (config : Config) (n : ℕ) (lines : List Line) (k : ℕ) (before : Option Checkpoint) (start : ℕ)
    → Config.starting_position config ≡ checkpoint
    → Config.max_messages config ≡ suc n
    → resolve_start_offset config before ≡ ok start
    → Rising (pending config start lines)
    → length (pending config start lines) ≤ k
    → run_times config lines k before ≡ ok (pending config start lines)
unfolding run_times consume_messages
runs_consume config n lines zero before start position most resolved r l =
    elim (List-cases (pending config start lines)) [
      | inl e ↦ rw e refl
      | inr more ↦ absurd (omega (arith, l, ap length more.2))
    ]
runs_consume config n lines (suc k) before start position most resolved r l =
    let ms = take (suc n) (pending config start lines) in
    let left = pending_after config n start lines r in
    let later =
      runs_consume config n lines k (build_checkpoint_after before ms) (next_start start ms)
        position most (resolved_after config before start ms position resolved)
        (subst Rising (sym left) (Rising-drop (suc n) (pending config start lines) r))
        (subst (λ x. length x ≤ k) (sym left) (shorter n k (pending config start lines) l)) in
    ap (λ (a : Attempt KafkaError RunResult). a >>= continue_with config lines k)
      (run_from config before start lines resolved)
    ∙ ap (after_messages config lines k before) (ap (λ x. take x (pending config start lines)) most)
    ∙ ap (λ (a : Attempt KafkaError (List Message)). a >>= λ rest. ok (ms ++ rest)) later
    ∙ ap (λ (x : List Message). the_messages (ms ++ x)) left
    ∙ ap the_messages (take-drop (suc n) (pending config start lines))

-- Runs from the checkpoint, on one log whose messages of the topic and partition have distinct
-- offsets, consume together all the messages from the start on once each, in the order of their
-- offsets, if they are as many runs as there are such messages and a run may consume at least one.
pub run_times-pending :
    (config : Config) (n : ℕ) (lines : List Line) (k : ℕ) (before : Option Checkpoint) (start : ℕ)
    → Config.starting_position config ≡ checkpoint
    → Config.max_messages config ≡ suc n
    → resolve_start_offset config before ≡ ok start
    → DistinctOffsets (read_log config start lines)
    → length (pending config start lines) ≤ k
    → run_times config lines k before ≡ ok (pending config start lines)
unfolding pending
run_times-pending config n lines k before start position most resolved distinct l =
    runs_consume config n lines k before start position most resolved
      (Rising-sort (read_log config start lines) distinct) l
