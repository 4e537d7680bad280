-- ===== src/Schedule/Sensor/Gauge.antt =====
-- The gauge of polls and the event log, counted.
use elt_pipeline.Prelude.{
  ℕ, String, ◌≡◌, true, List, [], ◌∷◌, ◌++◌, ◌+◌, ◌==◌, ◌&&◌, eq_iff, if◌then◌else◌, arith, inl,
  inr, Bool-cases,
}
use elt_pipeline.Schedule.Sensor.{
  Target, Watch, SensorEvent, GaugeEntry, PollState, same_state, bump, note,
}

-- How many events of a job and a state there are, and what the gauge says.
pub event_count : String → PollState → List SensorEvent → ℕ
event_count job state [] = 0
event_count job state (e ∷ es) =
    (if e.job == job && same_state e.state state then 1 else 0) + event_count job state es

pub gauge_count : String → PollState → List GaugeEntry → ℕ
gauge_count job state [] = 0
gauge_count job state (e ∷ es) =
    let rest = gauge_count job state es in
    if e.job == job && same_state e.state state then e.count else rest

event_count-append :
    (job : String) (state : PollState) (es fs : List SensorEvent)
    → event_count job state (es ++ fs) ≡ event_count job state es + event_count job state fs
unfolding event_count
event_count-append job state [] fs = omega arith
event_count-append job state (e ∷ es) fs = omega (arith, event_count-append job state es fs)

same_state_eq : (a b : PollState) → same_state a b ≡ true → a ≡ b
same_state_eq a b h = ground arith

gauge_count-bump :
    (g : List GaugeEntry) (job j : String) (state st : PollState)
    → gauge_count j st (bump g job state)
      ≡ gauge_count j st g + (if job == j && same_state state st then 1 else 0)
unfolding gauge_count bump
gauge_count-bump [] job j state st = ground arith
gauge_count-bump (e ∷ es) job j state st =
    elim (Bool-cases (e.job == job && same_state e.state state)) [
      | inl same ↦ rw same (
          ground (
            arith,
            (eq_iff e.job job).0 (ground arith),
            same_state_eq e.state state (ground arith),
          ))
      | inr other ↦ rw other (
          ground (
            arith,
            gauge_count-bump es job j state st,
            eq_iff e.job j,
            eq_iff job j,
            eq_iff e.job job,
          ))
    ]

-- The gauge says how many events of each job and state were logged.
abbrev pub Agrees : Watch → Type 0
Agrees s =
    (job : String) (state : PollState)
    → gauge_count job state s.poll_gauge ≡ event_count job state s.sensor_events

pub note-Agrees :
    (job : String) (target : Target) (index elapsed : ℕ) (state : PollState) (s : Watch)
    → Agrees s
    → Agrees (note job target index elapsed state s)
unfolding note event_count
note-Agrees job target index elapsed state s h j st = omega (
  arith,
  h j st,
  gauge_count-bump s.poll_gauge job j state st,
  event_count-append j st s.sensor_events _,
)
