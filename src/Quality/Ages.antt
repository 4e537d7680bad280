-- ===== src/Quality/Ages.antt =====
-- When a value is recent enough.
use elt_pipeline.Prelude.{
  true-false, Bool, true, false, Option, none, some, List, [], ◌∷◌, ◌≡◌, ◌↔◌, refl, ap, inl, inr,
  Bool-cases, if◌then◌else◌, ◌∙◌,
}
use elt_pipeline.Prelude.Dict.{Dict, get}
use elt_pipeline.Quality.Host.{Host}
use elt_pipeline.Quality.Values.{
  Value, null, boolean, number, text, moment, nested, Row, row, not_dict, coerce_datetime,
}
use elt_pipeline.Quality.Checks.{FreshnessCheck}
use elt_pipeline.Quality.Rows.{Ages, ages_of, dated, timed, violations}
use elt_pipeline.Quality.Passes.{IfPresent}

module _ (h : Host) where
  open h use {Num, Time, less, at_most, seconds_between, re_search}

  -- The value of the column is a time of at most the age allowed, where it is not missing.
  unfoldable pub Recent : Time → FreshnessCheck h → Dict (Value h) → Type 0
  unfolding get coerce_datetime
  Recent now c d =
      IfPresent h
        (λ v.
          (t : Time) × (coerce_datetime h v ≡ some t)
          × (less (FreshnessCheck.max_age_seconds c) (seconds_between now t) ≡ false))
        (get d (FreshnessCheck.timestamp_column c))

  abbrev too_old : Time → Num → Option Time → Bool
  too_old now limit none = true
  too_old now limit (some t) = less limit (seconds_between now t)

  abbrev pub stale : Time → Num → Option (Value h) → Bool
  stale now limit none = false
  stale now limit (some null) = false
  stale now limit (some v) = too_old now limit (coerce_datetime h v)

  some_time : {s t : Time} → some s ≡ some t → s ≡ t
  some_time {s} {t} e = cc

  not_too_old :
      (now : Time) (limit : Num) (o : Option Time)
      → (too_old now limit o ≡ false)
        ↔ ((t : Time) × (o ≡ some t) × (less limit (seconds_between now t) ≡ false))
  not_too_old now limit none = (λ e. absurd (true-false e), λ p. absurd cc)
  not_too_old now limit (some t) = (λ e. (t, refl, e), λ p. rw (some_time p.1) p.2)

  not_stale :
      (now : Time) (limit : Num) (o : Option (Value h))
      → (stale now limit o ≡ false)
        ↔ IfPresent h
            (λ v.
              (t : Time) × (coerce_datetime h v ≡ some t)
              × (less limit (seconds_between now t) ≡ false))
            o
  unfolding coerce_datetime
  not_stale now limit none = (λ e. tt, λ p. refl)
  not_stale now limit (some null) = (λ e. tt, λ p. refl)
  not_stale now limit (some (boolean b)) = not_too_old now limit (coerce_datetime h (boolean b))
  not_stale now limit (some (number n)) = not_too_old now limit (coerce_datetime h (number n))
  not_stale now limit (some (text s)) = not_too_old now limit (coerce_datetime h (text s))
  not_stale now limit (some (moment t)) = not_too_old now limit (coerce_datetime h (moment t))
  not_stale now limit (some (nested n)) = not_too_old now limit (coerce_datetime h (nested n))

  violated-dated :
      (now : Time) (limit : Num) (d : Dict (Value h)) (o : Option Time) (rest : Ages h)
      → Ages.violated (dated h now limit d o rest)
        ≡ (if too_old now limit o then d ∷ Ages.violated rest else Ages.violated rest)
  violated-dated now limit d none rest = refl
  violated-dated now limit d (some t) rest =
      elim (Bool-cases (less limit (seconds_between now t))) [
        | inl e ↦ rw e refl
        | inr e ↦ rw e refl
      ]

  violated-timed :
      (now : Time) (limit : Num) (d : Dict (Value h)) (o : Option (Value h)) (rest : Ages h)
      → Ages.violated (timed h now limit d o rest)
        ≡ (if stale now limit o then d ∷ Ages.violated rest else Ages.violated rest)
  unfolding coerce_datetime
  violated-timed now limit d none rest = refl
  violated-timed now limit d (some null) rest = refl
  violated-timed now limit d (some (boolean b)) rest =
      violated-dated now limit d (coerce_datetime h (boolean b)) rest
  violated-timed now limit d (some (number n)) rest =
      violated-dated now limit d (coerce_datetime h (number n)) rest
  violated-timed now limit d (some (text s)) rest =
      violated-dated now limit d (coerce_datetime h (text s)) rest
  violated-timed now limit d (some (moment t)) rest =
      violated-dated now limit d (coerce_datetime h (moment t)) rest
  violated-timed now limit d (some (nested n)) rest =
      violated-dated now limit d (coerce_datetime h (nested n)) rest

  abbrev pub stale_at : Time → FreshnessCheck h → Dict (Value h) → Bool
  stale_at now c d =
      stale now (FreshnessCheck.max_age_seconds c) (get d (FreshnessCheck.timestamp_column c))

  pub violated-ages_of :
      (now : Time) (c : FreshnessCheck h) (rows : List (Row h))
      → Ages.violated (ages_of h now c rows) ≡ violations h (stale_at now c) rows
  unfolding ages_of violations
  violated-ages_of now c [] = refl
  violated-ages_of now c (not_dict v ∷ rows) =
      ap (λ l. (("record", v) ∷ []) ∷ l) (violated-ages_of now c rows)
  violated-ages_of now c (row d ∷ rows) =
      violated-timed now (FreshnessCheck.max_age_seconds c) d
        (get d (FreshnessCheck.timestamp_column c)) (ages_of h now c rows)
      ∙ rw (violated-ages_of now c rows) refl

  pub stale_at-Recent :
      (now : Time) (c : FreshnessCheck h) (d : Dict (Value h))
      → (stale_at now c d ≡ false) ↔ Recent now c d
  unfolding Recent
  stale_at-Recent now c d =
      not_stale now (FreshnessCheck.max_age_seconds c) (get d (FreshnessCheck.timestamp_column c))
