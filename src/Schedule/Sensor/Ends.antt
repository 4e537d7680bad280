-- ===== src/Schedule/Sensor/Ends.antt =====
-- How long a sensor sleeps between two polls, and when there is no sleep that a float can hold.
use elt_pipeline.Prelude.{
  ℕ, zero, suc, String, ◌≡◌, refl, ◌+◌, ◌-◌, ◌*◌, ◌≤◌, ◌<◌, min, max, leb, arith, inl, inr,
  Bool-cases, ◌⊎◌, ok, raise, subst,
}
use Prim.Native.Nat.{◌^◌}
use native.Mathlib.Nat.{pow-suc}
use elt_pipeline.Schedule.Model.{overflow_error}
use elt_pipeline.Schedule.World.{World}
use elt_pipeline.Schedule.Sensor.{Target, backoff_sleep, http_backoff, sleep_for}

pow_pos : (n : ℕ) → 0 < 2 ^ n
pow_pos zero = omega arith
pow_pos (suc n) = omega (arith, pow-suc 2 n, pow_pos n)

-- The sleep before the next HTTP poll lasts at least the poll interval, or else to the deadline or a
-- tenth of a second, whichever is more; and at most that.
pub backoff_sleep_bounds :
    (w : World) (poll_sec timeout_sec elapsed attempt k : ℕ)
    → (min poll_sec (max 100 (timeout_sec - elapsed - 1))
        ≤ backoff_sleep w poll_sec timeout_sec elapsed attempt k)
      × (backoff_sleep w poll_sec timeout_sec elapsed attempt k
          ≤ max 100 (timeout_sec - elapsed - 1))
unfolding backoff_sleep
backoff_sleep_bounds w poll_sec timeout_sec elapsed attempt k =
    let doubled : poll_sec ≤ poll_sec * 2 ^ (attempt - 1) = grind (arith, pow_pos (attempt - 1)) in
    (omega arith, omega arith)

abbrev pub IsHttp : Target → Type 0
IsHttp target = (url : String) × (target ≡ Target.http_url url)

-- There is a sleep, and it takes the clock on by the poll interval or to the deadline; or there is
-- none, from the 1025th HTTP poll.
pub sleep_for-cases :
    (w : World) (target : Target) (poll_sec timeout_sec elapsed index k : ℕ)
    → 0 < poll_sec
    → ((n : ℕ) × (sleep_for w target poll_sec timeout_sec elapsed index k ≡ ok n)
        × (0 < n)
        × (min poll_sec (timeout_sec - elapsed - 1) ≤ n))
      ⊎ ((sleep_for w target poll_sec timeout_sec elapsed index k ≡ raise overflow_error)
          × IsHttp target
          × (1024 ≤ index - 1))
unfolding sleep_for http_backoff
sleep_for-cases w (Target.http_url url) p t e i k h = elim (Bool-cases (leb 1024 (i - 1))) [
  | inl late ↦ inr (rw late refl, (url, refl), ground (arith, late))
  | inr early ↦
      let (low, high) = backoff_sleep_bounds w p t e i k in
      inl (backoff_sleep w p t e i k, rw early refl, omega (arith, low), omega (arith, low))
]
sleep_for-cases w (Target.path_exists path) p t e i k h = inl (p, refl, h, omega arith)
sleep_for-cases w (Target.path_glob base pat) p t e i k h = inl (p, refl, h, omega arith)
sleep_for-cases w Target.unknown p t e i k h = inl (p, refl, h, omega arith)

-- Where the time is not up, so many polls have gone by, and one fewer before the deadline.
abbrev pub Paced : ℕ → ℕ → ℕ → ℕ → Type 0
Paced poll_sec timeout_sec index elapsed =
    elapsed < timeout_sec
    → ((index - 1) * poll_sec < timeout_sec) × (min (index * poll_sec) (timeout_sec - 1) ≤ elapsed)

pub Paced-next :
    (p t i e f n : ℕ)
    → Paced p t i e
    → 0 < n
    → min p (t - e - 1) ≤ n
    → e + n ≤ f
    → Paced p t (i + 1) f
Paced-next p t i e f n paced some_sleep low later early =
    let (before, least) = paced (omega arith) in
    let step : (i + 1) * p ≡ i * p + p = grind arith in
    let same : (i + 1) - 1 ≡ i = omega arith in (rw same (omega arith), omega (arith, step))

pub many_polls : (p t i : ℕ) → 1024 ≤ i → (i - 1) * p < t → 1023 * p < t
many_polls p t i many before =
    let more : (i - 1) * p ≡ 1023 * p + (i - 1024) * p =
      subst (λ k. k * p ≡ 1023 * p + (i - 1024) * p) (split i many) (grind arith) in
    omega (arith, more)
  where
    split : (i : ℕ) → 1024 ≤ i → 1023 + (i - 1024) ≡ i - 1
    split i h = omega arith
