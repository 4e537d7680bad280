-- ===== src/Schedule/Sensor/Events.antt =====
-- How the wait of a sensor ends.
use elt_pipeline.Prelude.{
  ℕ, zero, suc, String, ◌≡◌, refl, ◌≢◌, Bool, false, ◌+◌, ◌-◌, ◌*◌, ◌≤◌, ◌<◌, leb, arith, inl, inr,
  Bool-cases, ◌⊎◌, Attempt, ok, raise,
}
use elt_pipeline.Schedule.Model.{WaitForSpec, PlanError, overflow_error}
use elt_pipeline.Schedule.World.{World}
use elt_pipeline.Schedule.Sensor.{
  Target, Watch, is_satisfied, rested, rest_between, with_target, wait_loop, wait_for,
  run_schedule_sensor_wait, wait_on, target_of,
}
use elt_pipeline.Schedule.Sensor.Ends.{IsHttp, sleep_for-cases, Paced, Paced-next, many_polls}
use elt_pipeline.Schedule.Sensor.Logs.{
  IsWait, state_of, elapsed_of, polled, satisfied_state, stop-IsWait, timeout-IsWait, later-IsWait,
  now-polled,
}

-- How a wait may end: as above, or with an exception after more than 1023 poll intervals of HTTP.
abbrev WaitsTo : Target → ℕ → ℕ → Watch → Attempt PlanError (Bool × Watch) → Type 0
WaitsTo target poll_sec timeout_sec s (ok (met, t)) = IsWait timeout_sec met s t
WaitsTo target poll_sec timeout_sec s (raise overflow_error) =
    IsHttp target × (1023 * poll_sec < timeout_sec)
WaitsTo target poll_sec timeout_sec s (raise _) = ⊥

module _ (w : World) (job : String) (target : Target) (poll_sec timeout_sec start : ℕ) where
  module _ (index : ℕ) (s : Watch) where
    later-WaitsTo :
        (n : ℕ) (result : Attempt PlanError (Bool × Watch))
        → is_satisfied w job target poll_sec timeout_sec start
            (state_of w job target poll_sec timeout_sec start index s)
          ≡ false
        → WaitsTo target poll_sec timeout_sec
            (rested w job target poll_sec timeout_sec start n
              (polled w job target poll_sec timeout_sec start index s))
            result
        → WaitsTo target poll_sec timeout_sec s result
    later-WaitsTo n (ok (met, t)) unmet h =
        later-IsWait w job target poll_sec timeout_sec start index s n met t unmet h
    later-WaitsTo n (raise overflow_error) unmet h = h
    later-WaitsTo n (raise _) unmet h = absurd h

  -- With a round for each unit of time that is left, the wait ends.
  wait_loop-WaitsTo :
      (fuel index : ℕ) (s : Watch)
      → 0 < poll_sec
      → timeout_sec + start < s.clock.now + fuel
      → 0 < fuel
      → start ≤ s.clock.now
      → Paced poll_sec timeout_sec index (s.clock.now - start)
      → WaitsTo target poll_sec timeout_sec s
          (wait_loop w job target poll_sec timeout_sec start fuel index s)
  unfolding wait_loop rest_between
  wait_loop-WaitsTo zero index s positive enough some_left later paced = absurd (omega arith)
  wait_loop-WaitsTo (suc fuel) index s positive enough some_left later paced =
      elim (Bool-cases (
        is_satisfied w job target poll_sec timeout_sec start
          (state_of w job target poll_sec timeout_sec start index s))) [
            | inl met ↦ rw met (
                stop-IsWait w job target poll_sec timeout_sec start index s (
                  satisfied_state w job target poll_sec timeout_sec start
                    (state_of w job target poll_sec timeout_sec start index s) met))
            | inr unmet ↦
                elim (Bool-cases
                  (leb timeout_sec (elapsed_of w job target poll_sec timeout_sec start index s))) [
                    | inl late ↦
                        rw (unmet, late)
                          (timeout-IsWait w job target poll_sec timeout_sec start index s unmet
                            (ground arith))
                    | inr early ↦
                        let on_time : s.clock.now < timeout_sec + start = ground arith in
                        elim (sleep_for-cases w target poll_sec timeout_sec
                          (elapsed_of w job target poll_sec timeout_sec start index s) (index + 1)
                          (polled w job target poll_sec timeout_sec start index s).clock.actions
                          positive) [
                            | inl (n, sleeps, moves, low) ↦
                                let r =
                                  rested w job target poll_sec timeout_sec start n
                                    (polled w job target poll_sec timeout_sec start index s) in
                                let clock : s.clock.now + n ≤ r.clock.now = omega (
                                  arith,
                                  now-polled w job target poll_sec timeout_sec start index s,
                                ) in
                                rw (unmet, early, sleeps)
                                  (later-WaitsTo index s n
                                    (wait_loop w job target poll_sec timeout_sec start fuel
                                      (index + 1) r)
                                    unmet
                                    (wait_loop-WaitsTo fuel (index + 1) r positive (omega arith)
                                      (omega arith) (omega arith)
                                      (Paced-next poll_sec timeout_sec index
                                        (elapsed_of w job target poll_sec timeout_sec start index s)
                                        (r.clock.now - start) n paced moves low (omega arith))))
                            | inr (fails, http, many) ↦
                                rw (unmet, early, fails)
                                  (
                                    http,
                                    many_polls poll_sec timeout_sec index (omega arith)
                                        (paced (omega arith)).0,
                                  )
                          ]
                  ]
          ]

-- What a sensor reports: its end, or the exception.
abbrev EndsAs : Target → ℕ → ℕ → Watch → Attempt PlanError (Bool × Target × Watch) → Type 0
EndsAs u poll_sec timeout_sec s result =
    ((met : Bool) × (t : Watch) × (result ≡ ok (met, u, t)) × IsWait timeout_sec met s t)
    ⊎ ((result ≡ raise overflow_error) × IsHttp u × (1023 * poll_sec < timeout_sec))

-- A sensor that is set and polls at intervals ends, and it says so of its own target. It logs polls
-- that go on waiting and then the one that ends the wait: satisfied if the sensor reports success,
-- and otherwise a timeout at or behind the deadline; and the gauge says how many events of each job
-- and state were logged, if it did so before. Or else it raises an overflow error: then it asks for
-- HTTP, and 1023 poll intervals are less than the timeout.
pub run_schedule_sensor_wait-IsWait :
    (w : World) (job : String) (spec : WaitForSpec) (s : Watch)
    → target_of w spec ≢ Target.unknown
    → 0 < spec.poll_sec
    → ((met : Bool) × (t : Watch) × (run_schedule_sensor_wait w job spec s
          ≡ ok (met, target_of w spec, t))
        × IsWait spec.timeout_sec met s t)
      ⊎ ((run_schedule_sensor_wait w job spec s ≡ raise overflow_error)
          × IsHttp (target_of w spec)
          × (1023 * spec.poll_sec < spec.timeout_sec))
unfolding run_schedule_sensor_wait wait_for
run_schedule_sensor_wait-IsWait w job spec s set positive = by_target (target_of w spec) set
  where
    by_result :
        (u : Target) (result : Attempt PlanError (Bool × Watch))
        → WaitsTo u spec.poll_sec spec.timeout_sec s result
        → EndsAs u spec.poll_sec spec.timeout_sec s (with_target w u result)
    by_result u (ok (met, t)) h = inl (met, t, refl, h)
    by_result u (raise overflow_error) h = inr (refl, h.0, h.1)
    by_result u (raise _) h = absurd h

    loop :
        (u : Target)
        → EndsAs u spec.poll_sec spec.timeout_sec s
            (with_target w u (wait_for w job u spec.poll_sec spec.timeout_sec s))
    loop u = by_result u _ (
        wait_loop-WaitsTo w job u spec.poll_sec spec.timeout_sec s.clock.now (spec.timeout_sec + 1)
          0 s positive (omega arith) (omega arith) (omega arith)
          (λ early. (omega arith, omega arith)))

    by_target :
        (u : Target)
        → u ≢ Target.unknown
        → EndsAs u spec.poll_sec spec.timeout_sec s
            (wait_on w job spec.poll_sec spec.timeout_sec s u)
    by_target Target.unknown other = absurd (other refl)
    by_target (Target.path_exists path) other = loop (Target.path_exists path)
    by_target (Target.path_glob base pat) other = loop (Target.path_glob base pat)
    by_target (Target.http_url url) other = loop (Target.http_url url)
