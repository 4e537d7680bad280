-- ===== src/Ingest/Kafka/Examples.antt =====
-- A log of three messages of a topic, out of order, and two runs of two messages at most.
use elt_pipeline.Prelude.{
  ℕ, ◌≤◌, String, none, some, List, [], ◌∷◌, ◌≡◌, refl, ok, raise, arith, length,
}
use elt_pipeline.Prelude.Int.{ℤ, pos, negsuc}
use elt_pipeline.Ingest.Kafka.{
  Config, Line, Message, checkpoint, resolve_start_offset, pending, read_log, validate_topic,
  validate_servers, texts, empty_server_entry,
}
use elt_pipeline.Ingest.Kafka.Pending.{DistinctOffsets}
use elt_pipeline.Ingest.Kafka.Runs.{run_times, run_times-pending}

abbrev config : Config
config = record {
  topic = "orders";
  partition = 0;
  starting_position = checkpoint;
  start_offset = some 1;
  max_messages = 2;
}

abbrev line : String → ℤ → String → Line
line topic offset content = record {
  topic = topic;
  partition = 0;
  offset = offset;
  content = content;
}

abbrev log : List Line
log =
    line "orders" (pos 4) "d"
    ∷ line "items" (pos 1) "x"
    ∷ line "orders" (pos 0) "a"
    ∷ line "orders" (negsuc 0) "n"
    ∷ line "orders" (pos 2) "b"
    ∷ line "orders" (pos 3) "c"
    ∷ []

program : Unit {0}
unfolding run_times resolve_start_offset pending read_log validate_topic validate_servers
program = tt

abbrev message : ℕ → String → Message
message offset content = record { offset = offset; content = content }

all_consumed : run_times config log 3 none ≡ ok (message 2 "b" ∷ message 3 "c" ∷ message 4 "d" ∷ [])
unfolding program
all_consumed = refl

blank_entry : validate_servers (some (texts ("a:9092" ∷ " " ∷ []))) ≡ raise empty_server_entry
unfolding program
blank_entry = refl

starts : resolve_start_offset config none ≡ ok 1
unfolding program
starts = refl

log-DistinctOffsets : DistinctOffsets (read_log config 1 log)
unfolding program
log-DistinctOffsets = (
  (λ e. absurd (omega (arith, e)), ((λ e. absurd (omega (arith, e))), tt)),
  (((λ e. absurd (omega (arith, e))), tt), (tt, tt)),
)

enough_runs : length (pending config 1 log) ≤ 3
unfolding program
enough_runs = omega arith

run_times-pending_example : run_times config log 3 none ≡ ok (pending config 1 log)
run_times-pending_example =
    run_times-pending config 1 log 3 none 1 refl refl starts log-DistinctOffsets enough_runs
