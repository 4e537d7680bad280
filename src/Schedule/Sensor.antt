-- ===== src/Schedule/Sensor.antt =====
-- The sensors of src/elt_pipeline/_cli_main.py: `_wait_for_path_exists`, `_wait_for_path_glob`,
-- `_wait_for_http_2xx` and `_run_schedule_sensor_wait`. The texts of messages are left out.
pub mod Ends
pub mod Gauge
pub mod Logs
pub mod Events
use elt_pipeline.Prelude.{
  ℕ, zero, suc, String, Bool, true, false, Option, none, some, List, [], ◌∷◌, ◌++◌, ◌+◌, ◌-◌, ◌*◌,
  min, max, ltb, leb, ◌==◌, ◌&&◌, if◌then◌else◌, Attempt, ok, raise, ◌>>=◌,
}
use Prim.Native.Nat.{◌^◌, ◌/◌}
use elt_pipeline.Prelude.Int.{ℤ, pos, negsuc}
use elt_pipeline.Prelude.Dict.{Dict, get, or_else}
use elt_pipeline.Schedule.Model.{WaitForSpec, PlanError, overflow_error, out_of_fuel}
use elt_pipeline.Schedule.World.{World, Clock, pass}

pub data PollState : Type 0 where
  error satisfied polling timeout : PollState

abbrev pub same_state : PollState → PollState → Bool
same_state error error = true
same_state satisfied satisfied = true
same_state polling polling = true
same_state timeout timeout = true
same_state _ _ = false

-- `wait_kind` with `wait_target`.
pub data Target : Type 0 where
  path_exists : String → Target
  path_glob : String → String → Target
  http_url : String → Target
  unknown : Target

pub record SensorEvent : Type 0 where
  pub job : String
  pub poll_index : ℕ
  pub state : PollState
  pub target : Target
  pub elapsed : ℕ

pub record GaugeEntry : Type 0 where
  pub job : String
  pub state : PollState
  pub count : ℕ

-- `poll_gauge[(job, state)] = poll_gauge.get((job, state), 0) + 1`
unfoldable pub bump : List GaugeEntry → String → PollState → List GaugeEntry
bump [] job state = record { job = job; state = state; count = 1 } ∷ []
bump (e ∷ es) job state =
    let rest = bump es job state in
    if e.job == job && same_state e.state state
    then record e { count = e.count + 1 } ∷ es
    else e ∷ rest

-- What a sensor appends to, and the clock.
pub record Watch : Type 0 where
  pub clock : Clock
  pub sensor_events : List SensorEvent
  pub poll_gauge : List GaugeEntry

-- One update of the gauge with the event that goes with it.
unfoldable pub note : String → Target → ℕ → ℕ → PollState → Watch → Watch
unfolding bump
note job target index elapsed state s = record s {
  sensor_events =
      s.sensor_events
      ++ record { job = job; poll_index = index; state = state; target = target; elapsed = elapsed }
        ∷ [];
  poll_gauge = bump s.poll_gauge job state;
}

-- What one probe shows: `none` where the source emits nothing.
abbrev pub path_state : Option Bool → Option PollState
path_state none = some error
path_state (some true) = some satisfied
path_state (some false) = some polling

abbrev pub glob_state : Option ℕ → Option PollState
glob_state none = some error
glob_state (some zero) = some polling
glob_state (some (suc n)) = some satisfied

-- The status is -1 after an exception, and then nothing more is said.
abbrev pub http_state : Option ℤ → Option PollState
http_state none = some error
http_state (some (pos code)) = if leb 200 code && ltb code 300 then some satisfied else some polling
http_state (some (negsuc zero)) = none
http_state (some (negsuc (suc n))) = some polling

module _ (w : World) where
  unfoldable pub probe : Target → ℕ → Option PollState
  probe (path_exists path) k = path_state (w.path_exists path k)
  probe (path_glob base pat) k = glob_state (w.path_glob base pat k)
  probe (http_url url) k = http_state (w.http_status url k)
  probe unknown k = none

  -- The seconds before the next HTTP poll: doubled each time, jittered, and cut at the deadline.
  unfoldable pub backoff_sleep : ℕ → ℕ → ℕ → ℕ → ℕ → ℕ
  backoff_sleep poll_sec timeout_sec elapsed attempt k =
      let jitter = w.uniform k (poll_sec / 2) in
      let sleep_s = min (poll_sec * 30) (poll_sec * 2 ^ (attempt - 1)) + jitter in
      min sleep_s (max 100 (timeout_sec - elapsed - 1))

  -- `2 ** 1024` is too large for the product with a float, which is computed before the minimum.
  unfoldable pub http_backoff : ℕ → ℕ → ℕ → ℕ → ℕ → Attempt PlanError ℕ
  unfolding backoff_sleep
  http_backoff poll_sec timeout_sec elapsed attempt k =
      if leb 1024 (attempt - 1)
      then raise overflow_error
      else ok (backoff_sleep poll_sec timeout_sec elapsed attempt k)

  unfoldable pub sleep_for : Target → ℕ → ℕ → ℕ → ℕ → ℕ → Attempt PlanError ℕ
  unfolding http_backoff
  sleep_for (http_url url) poll_sec timeout_sec elapsed index k =
      http_backoff poll_sec timeout_sec elapsed index k
  sleep_for _ poll_sec timeout_sec elapsed index k = ok poll_sec

  module _ (job : String) (target : Target) (poll_sec timeout_sec start : ℕ) where
    abbrev pub noted : Option PollState → ℕ → ℕ → Watch → Watch
    noted none index elapsed s = s
    noted (some state) index elapsed s = note job target index elapsed state s

    abbrev pub is_satisfied : Option PollState → Bool
    is_satisfied (some satisfied) = true
    is_satisfied _ = false

    abbrev pub elapsed_at : Watch → ℕ
    elapsed_at s = s.clock.now - start

    -- The poll with number `index`: the clock is read, the probe is made, and its state is noted.
    unfoldable pub poll : ℕ → Watch → Watch
    unfolding note probe
    poll index s =
        noted (probe target s.clock.actions) index (elapsed_at s)
          (record s { clock = pass w 0 s.clock })

    abbrev pub rested : ℕ → Watch → Watch
    rested sleep_s s = record s { clock = pass w sleep_s s.clock }

    unfoldable pub rest_between : ℕ → ℕ → Watch → Attempt PlanError Watch
    unfolding sleep_for
    rest_between index elapsed s = do
      sleep_s ← sleep_for target poll_sec timeout_sec elapsed index s.clock.actions
      ok (rested sleep_s s)

    -- `while True`, with the rounds that are left.
    unfoldable pub wait_loop : ℕ → ℕ → Watch → Attempt PlanError (Bool × Watch)
    unfolding poll rest_between
    wait_loop zero index s = raise out_of_fuel
    wait_loop (suc fuel) index s =
        let elapsed = elapsed_at s in
        let polled = poll (index + 1) s in
        let next : Attempt PlanError (Bool × Watch) =
          rest_between (index + 1) elapsed polled >>= (λ r. wait_loop fuel (index + 1) r) in
        if is_satisfied (probe target s.clock.actions)
        then ok (true, polled)
        else if leb timeout_sec elapsed
        then ok (false, note job target (index + 1) elapsed timeout polled)
        else next

  -- A round for each thousandth of a second is enough, since each sleep lasts that long.
  unfoldable pub wait_for : String → Target → ℕ → ℕ → Watch → Attempt PlanError (Bool × Watch)
  unfolding wait_loop
  wait_for job target poll_sec timeout_sec s =
      wait_loop job target poll_sec timeout_sec s.clock.now (timeout_sec + 1) 0 s

  abbrev pub target_of : WaitForSpec → Target
  target_of spec = elim spec.path_exists [
    | some path ↦ path_exists path
    | none ↦ elim spec.path_glob [
      | some glob ↦ path_glob (or_else (get glob "base") "") (or_else (get glob "pattern") "")
      | none ↦ elim spec.http_url [ some url ↦ http_url url | none ↦ unknown ]
    ]
  ]

  abbrev pub with_target :
      Target → Attempt PlanError (Bool × Watch) → Attempt PlanError (Bool × Target × Watch)
  with_target target (raise problem) = raise problem
  with_target target (ok (met, s)) = ok (met, target, s)

  abbrev pub wait_on : String → ℕ → ℕ → Watch → Target → Attempt PlanError (Bool × Target × Watch)
  wait_on job poll_sec timeout_sec s unknown = ok (false, unknown, s)
  wait_on job poll_sec timeout_sec s target =
      with_target target (wait_for job target poll_sec timeout_sec s)

  -- `_run_schedule_sensor_wait`: the first kind that is set, or failure.
  unfoldable pub run_schedule_sensor_wait :
      String → WaitForSpec → Watch → Attempt PlanError (Bool × Target × Watch)
  unfolding wait_for
  run_schedule_sensor_wait job spec s =
      wait_on job spec.poll_sec spec.timeout_sec s (target_of spec)
