-- ===== src/Ingest/Kafka.antt =====
-- The Kafka connector: its configuration and its run in src/elt_pipeline/ingest/connectors/kafka.py,
-- with the log of messages in a file that src/elt_pipeline/ingest/connectors/local_kafka.py reads.
-- Messages carry their topic, partition and offset, and the rest of a line as a text.
pub mod Pending
mod Runs
mod Examples
use elt_pipeline.Prelude.{
  ℕ, zero, suc, ◌+◌, max, String, Bool, true, false, not, Option, none, some, List, [], ◌∷◌, ◌==◌,
  ◌&&◌, leb, ltb, eqb, filter, sort, if◌then◌else◌, Attempt, ok, raise, ◌>>=◌,
}
use elt_pipeline.Prelude.Text.{strip}
use elt_pipeline.Prelude.Int.{ℤ, pos, negsuc}

-- The ValueErrors of the validators, and the ConfigValidationErrors of a log that is not there and of
-- a checkpoint's offset.
pub data KafkaError : Type 0 where
  empty_servers : KafkaError
  empty_server_list : KafkaError
  empty_server_entry : KafkaError
  empty_topic : KafkaError
  missing_log : KafkaError
  offset_not_integer : String → KafkaError

pub data StartingPosition : Type 0 where
  checkpoint : StartingPosition
  earliest : StartingPosition

pub data Servers : Type 0 where
  one_text : String → Servers
  texts : List String → Servers

abbrev stripped_entries : List String → Attempt KafkaError (List String)
stripped_entries [] = ok []
stripped_entries (entry ∷ entries) =
    if strip entry == ""
    then raise empty_server_entry
    else (stripped_entries entries >>= λ rest. ok (strip entry ∷ rest))

-- `_validate_bootstrap_servers`
unfoldable pub validate_servers : Option Servers → Attempt KafkaError (Option Servers)
unfolding strip
validate_servers none = ok none
validate_servers (some (one_text s)) =
    if strip s == "" then raise empty_servers else ok (some (one_text (strip s)))
validate_servers (some (texts [])) = raise empty_server_list
validate_servers (some (texts (s ∷ ss))) =
    stripped_entries (s ∷ ss) >>= λ entries. ok (some (texts entries))

-- `_validate_topic`
unfoldable pub validate_topic : String → Attempt KafkaError String
unfolding strip
validate_topic value = if strip value == "" then raise empty_topic else ok (strip value)

-- KafkaConnectorConfig, as far as a run reads it.
pub record Config : Type 0 where
  pub topic : String
  pub partition : ℕ
  pub starting_position : StartingPosition
  pub start_offset : Option ℕ
  pub max_messages : ℕ

-- A line of the log: an offset that is missing is -1.
pub record Line : Type 0 where
  pub topic : String
  pub partition : ℕ
  pub offset : ℤ
  pub content : String

pub record Message : Type 0 where
  pub offset : ℕ
  pub content : String

-- The offset in a checkpoint, if it has one: `int` reads it or fails on its text.
pub data Offset : Type 0 where
  number : ℕ → Offset
  not_integer : String → Offset

pub record Checkpoint : Type 0 where
  pub offset : Option Offset

abbrev or_configured : Option ℕ → ℕ
or_configured none = 0
or_configured (some n) = n

abbrev from_offset : Config → Option Offset → Attempt KafkaError ℕ
from_offset config none = ok (or_configured (Config.start_offset config))
from_offset config (some (number n)) = ok n
from_offset config (some (not_integer s)) = raise (offset_not_integer s)

abbrev from_checkpoint : Config → Option Checkpoint → Attempt KafkaError ℕ
from_checkpoint config none = ok (or_configured (Config.start_offset config))
from_checkpoint config (some before) = from_offset config (Checkpoint.offset before)

abbrev pub from_position : StartingPosition → Config → Option Checkpoint → Attempt KafkaError ℕ
from_position earliest config before = ok 0
from_position checkpoint config before = from_checkpoint config before

unfoldable pub resolve_start_offset : Config → Option Checkpoint → Attempt KafkaError ℕ
resolve_start_offset config before = from_position (Config.starting_position config) config before

-- The message of a line with an offset from the start on.
abbrev pub from_start : ℕ → ℤ → String → Option Message
from_start start (negsuc n) content = none
from_start start (pos n) content =
    if ltb n start then none else some (record { offset = n; content = content })

abbrev pub read_line : Config → ℕ → Line → Option Message
read_line config start line =
    if Line.topic line == Config.topic config && eqb (Line.partition line) (Config.partition config)
    then from_start start (Line.offset line) (Line.content line)
    else none

abbrev pub add_message : Option Message → List Message → List Message
add_message none rest = rest
add_message (some m) rest = m ∷ rest

unfoldable pub read_log : Config → ℕ → List Line → List Message
read_log config start [] = []
read_log config start (line ∷ lines) =
    add_message (read_line config start line) (read_log config start lines)

abbrev pub by_offset : Message → Message → Bool
by_offset a b = leb (Message.offset a) (Message.offset b)

-- `messages[:n]`
abbrev pub take : ℕ → List Message → List Message
take zero ms = []
take (suc n) [] = []
take (suc n) (m ∷ ms) = m ∷ take n ms

-- All messages from the start on, by offset.
unfoldable pub pending : Config → ℕ → List Line → List Message
unfolding read_log
pending config start lines = sort by_offset (read_log config start lines)

unfoldable pub consume_messages : Config → ℕ → List Line → List Message
unfolding pending
consume_messages config start lines = take (Config.max_messages config) (pending config start lines)

abbrev pub max_offset : ℕ → List Message → ℕ
max_offset best [] = best
max_offset best (m ∷ ms) = max_offset (max best (Message.offset m)) ms

-- `build_checkpoint_after`, without the topic, the partition and the time of the checkpoint.
unfoldable pub build_checkpoint_after : Option Checkpoint → List Message → Option Checkpoint
build_checkpoint_after before [] = before
build_checkpoint_after before (m ∷ ms) =
    some (record { offset = some (number (max_offset (Message.offset m) ms + 1)) })

pub record RunResult : Type 0 where
  pub messages : List Message
  pub checkpoint_after : Option Checkpoint

-- `run` on the log, if its file exists: the messages, which are persisted in this order, and the
-- checkpoint that the store has then.
unfoldable pub run : Config → Option (List Line) → Option Checkpoint → Attempt KafkaError RunResult
unfolding resolve_start_offset consume_messages build_checkpoint_after
run config none before = raise missing_log
run config (some lines) before = resolve_start_offset config before >>= λ start. ok record {
  messages = consume_messages config start lines;
  checkpoint_after = build_checkpoint_after before (consume_messages config start lines);
}
