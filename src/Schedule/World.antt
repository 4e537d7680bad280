-- ===== src/Schedule/World.antt =====
-- What the runner of src/elt_pipeline/_cli_main.py asks of the outside: files, HTTP, subprocesses,
-- random numbers and the clock. The answer to a question may depend on how many came before it.
use elt_pipeline.Prelude.{ℕ, suc, String, Bool, List, Option, ◌+◌}
use elt_pipeline.Prelude.Int.{ℤ}

-- `_invoke_cli_job`: the exit code, and the two texts.
pub record Exit : Type 0 where
  pub exit_code : ℤ
  pub stdout_text : String
  pub stderr_text : String

-- `none` is an exception. Times are in thousandths of a second; `delay k` is how long the k-th
-- action takes, beside the time that a sleep is asked to last.
pub record World : Type 0 where
  pub delay : ℕ → ℕ
  pub path_exists : String → ℕ → Option Bool
  pub path_glob : String → String → ℕ → Option ℕ
  pub http_status : String → ℕ → Option ℤ
  pub uniform : ℕ → ℕ → ℕ
  pub invoke : List String → ℕ → Exit

-- How many actions there were, and `time.monotonic()`.
pub record Clock : Type 0 where
  pub actions : ℕ
  pub now : ℕ

-- One action, in which the caller sleeps for `d`.
abbrev pub pass : World → ℕ → Clock → Clock
pass w d c = record { actions = suc c.actions; now = c.now + d + w.delay c.actions }
