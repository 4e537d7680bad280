-- ===== src/Schedule/Sensor/Logs.antt =====
-- What each poll of a sensor leaves in the event log and in the gauge.
use elt_pipeline.Prelude.{
  ℕ, String, ◌≡◌, refl, sym, ap, ◌≢◌, ◌∙◌, Bool, true, false, Option, none, some, List, [], ◌∷◌,
  ◌++◌, ◌+◌, ◌-◌, ◌≤◌, arith, inl, inr, ◌⊎◌, All,
}
use mathlib.Core.List.{append_assoc, append-nil}
use elt_pipeline.Schedule.World.{World}
use elt_pipeline.Schedule.Sensor.{
  Target, Watch, SensorEvent, PollState, error, satisfied, polling, timeout, note, probe,
  is_satisfied, poll, rested, noted,
}
use elt_pipeline.Schedule.Sensor.Gauge.{Agrees, note-Agrees}

-- A poll that does not end the wait.
abbrev pub IsWaiting : SensorEvent → Type 0
IsWaiting e = (e.state ≡ error) ⊎ (e.state ≡ polling)

abbrev pub ends_with : Bool → PollState
ends_with true = satisfied
ends_with false = timeout

-- From `s` to `t` events that go on waiting were logged, and then the one that ended the wait.
pub record IsWait (timeout_sec : ℕ) (met : Bool) (s t : Watch) : Type 0 where
  pub waiting : List SensorEvent
  pub last : SensorEvent
  pub log : t.sensor_events ≡ s.sensor_events ++ waiting ++ last ∷ []
  pub all_waiting : All IsWaiting waiting
  pub ended : last.state ≡ ends_with met
  pub late : met ≡ false → timeout_sec ≤ last.elapsed
  pub gauge : Agrees s → Agrees t

All-append :
    (es fs : List SensorEvent) → All IsWaiting es → All IsWaiting fs → All IsWaiting (es ++ fs)
All-append [] fs h k = k
All-append (e ∷ es) fs h k = (h.0, All-append es fs h.1 k)

probe-ne-timeout : (w : World) (t : Target) (k : ℕ) → probe w t k ≢ some timeout
unfolding probe
probe-ne-timeout w (Target.path_exists path) k = ground arith
probe-ne-timeout w (Target.path_glob base pat) k = ground arith
probe-ne-timeout w (Target.http_url url) k = ground arith
probe-ne-timeout w Target.unknown k = cc

module _ (w : World) (job : String) (target : Target) (poll_sec timeout_sec start : ℕ) where
  noted-Agrees :
      (state : Option PollState) (index elapsed : ℕ) (s : Watch)
      → Agrees s
      → Agrees (noted w job target poll_sec timeout_sec start state index elapsed s)
  noted-Agrees none index elapsed s h = h
  noted-Agrees (some state) index elapsed s h = note-Agrees job target index elapsed state s h

  pub satisfied_state :
      (o : Option PollState)
      → is_satisfied w job target poll_sec timeout_sec start o ≡ true
      → o ≡ some satisfied
  satisfied_state o h = ground arith

  -- What a poll that does not satisfy the sensor logs.
  waiting_events : Option PollState → ℕ → ℕ → List SensorEvent
  waiting_events none index elapsed = []
  waiting_events (some state) index elapsed =
      record { job = job; poll_index = index; state = state; target = target; elapsed = elapsed }
      ∷ []

  unsatisfied-IsWaiting :
      (o : Option PollState) (index elapsed : ℕ)
      → o ≢ some timeout
      → is_satisfied w job target poll_sec timeout_sec start o ≡ false
      → All IsWaiting (waiting_events o index elapsed)
  unfolding waiting_events
  unsatisfied-IsWaiting none index elapsed other h = tt
  unsatisfied-IsWaiting (some error) index elapsed other h = (inl refl, tt)
  unsatisfied-IsWaiting (some polling) index elapsed other h = (inr refl, tt)
  unsatisfied-IsWaiting (some satisfied) index elapsed other h = cc
  unsatisfied-IsWaiting (some timeout) index elapsed other h = absurd (other refl)

  noted_log :
      (state : Option PollState) (index elapsed : ℕ) (s : Watch)
      → (noted w job target poll_sec timeout_sec start state index elapsed s).sensor_events
        ≡ s.sensor_events ++ waiting_events state index elapsed
  unfolding note waiting_events
  noted_log none index elapsed s = sym (append-nil s.sensor_events)
  noted_log (some state) index elapsed s = refl

  module _ (index : ℕ) (s : Watch) where
    abbrev pub state_of : Option PollState
    state_of = probe w target s.clock.actions

    abbrev pub elapsed_of : ℕ
    elapsed_of = s.clock.now - start

    abbrev pub polled : Watch
    polled = poll w job target poll_sec timeout_sec start (index + 1) s

    abbrev event_of : PollState → SensorEvent
    event_of state = record {
      job = job;
      poll_index = index + 1;
      state = state;
      target = target;
      elapsed = elapsed_of;
    }

    polled_log :
        polled.sensor_events ≡ s.sensor_events ++ waiting_events state_of (index + 1) elapsed_of
    unfolding poll
    polled_log = noted_log state_of (index + 1) elapsed_of _

    polled-Agrees : Agrees s → Agrees polled
    unfolding poll
    polled-Agrees h = noted-Agrees state_of (index + 1) elapsed_of _ h

    -- The poll is satisfied.
    pub stop-IsWait : state_of ≡ some satisfied → IsWait timeout_sec true s polled
    unfolding waiting_events
    stop-IsWait e = record {
      waiting = [];
      last = event_of satisfied;
      log =
          polled_log
          ∙ rw (e, waiting_events)
              (ap (λ (l : List SensorEvent). l ++ event_of satisfied ∷ [])
                (sym (append-nil s.sensor_events)));
      all_waiting = tt;
      ended = refl;
      late = λ no. cc;
      gauge = polled-Agrees;
    }

    -- The poll is not, and the deadline has passed.
    pub timeout-IsWait :
        is_satisfied w job target poll_sec timeout_sec start state_of ≡ false
        → timeout_sec ≤ elapsed_of
        → IsWait timeout_sec false s (note job target (index + 1) elapsed_of timeout polled)
    unfolding note
    timeout-IsWait unmet late = record {
      waiting = waiting_events state_of (index + 1) elapsed_of;
      last = event_of timeout;
      log = ap (λ (l : List SensorEvent). l ++ event_of timeout ∷ []) polled_log;
      all_waiting =
          unsatisfied-IsWaiting state_of (index + 1) elapsed_of
            (probe-ne-timeout w target s.clock.actions) unmet;
      ended = refl;
      late = λ _. late;
      gauge = λ h. note-Agrees job target (index + 1) elapsed_of timeout polled (polled-Agrees h);
    }

    -- The wait goes on after a sleep.
    pub later-IsWait :
        (n : ℕ) (met : Bool) (t : Watch)
        → is_satisfied w job target poll_sec timeout_sec start state_of ≡ false
        → IsWait timeout_sec met (rested w job target poll_sec timeout_sec start n polled) t
        → IsWait timeout_sec met s t
    later-IsWait n met t unmet h = record {
      waiting = waiting_events state_of (index + 1) elapsed_of ++ h.waiting;
      last = h.last;
      log =
          h.log
          ∙ rw polled_log (
              ap (λ (l : List SensorEvent). l ++ h.last ∷ [])
                (append_assoc s.sensor_events (waiting_events state_of (index + 1) elapsed_of)
                  h.waiting));
      all_waiting =
          All-append (waiting_events state_of (index + 1) elapsed_of) h.waiting
            (unsatisfied-IsWaiting state_of (index + 1) elapsed_of
              (probe-ne-timeout w target s.clock.actions) unmet)
            h.all_waiting;
      ended = h.ended;
      late = h.late;
      gauge = λ a. h.gauge (polled-Agrees a);
    }

    pub now-polled : s.clock.now ≤ polled.clock.now
    unfolding poll note
    now-polled = ground arith
