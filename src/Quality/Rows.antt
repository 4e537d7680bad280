-- ===== src/Quality/Rows.antt =====
-- The loops of the checks over the records: which records violate a check.
use elt_pipeline.Prelude.{
  String, Bool, true, false, not, Option, none, some, List, [], ◌∷◌, ◌==◌, ◌||◌, any, if◌then◌else◌,
  Attempt, ok, raise, ◌>>=◌,
}
use elt_pipeline.Prelude.Text.{strip}
use elt_pipeline.Prelude.Dict.{Dict, get}
use elt_pipeline.Quality.Host.{Host}
use elt_pipeline.Quality.Values.{
  Value, null, text, Row, row, not_dict, shown, is_hashable, same_value, coerce_numeric,
  coerce_datetime,
}
use elt_pipeline.Quality.Checks.{RangeCheck, FreshnessCheck, RegexFormatCheck}

-- The TypeError of a list or a dict that is looked up in a dict or a set.
pub data Unhashable : Type 0 where
  unhashable : Unhashable

module _ (h : Host) where
  open h use {Num, Time, less, at_most, seconds_between, re_search}

  -- The dicts that violate a test and all that are no dict, in order.
  unfoldable pub violations : (Dict (Value h) → Bool) → List (Row h) → List (Dict (Value h))
  violations bad [] = []
  violations bad (not_dict v ∷ rows) = shown h (not_dict v) ∷ violations bad rows
  violations bad (row d ∷ rows) = let rest = violations bad rows in if bad d then d ∷ rest else rest

  abbrev pub is_missing : Option (Value h) → Bool
  is_missing none = true
  is_missing (some null) = true
  is_missing (some (text s)) = s == "__MISSING__SENTINEL__"
  is_missing (some v) = false

  -- The test of `_check_not_null`.
  unfoldable pub null_at : String → Dict (Value h) → Bool
  unfolding get
  null_at col d = is_missing (get d col)

  -- Whether a value that gave no number counts as none: it is missing or a blank text.
  abbrev pub is_blank : Option (Value h) → Bool
  is_blank none = true
  is_blank (some null) = true
  is_blank (some (text s)) = strip s == ""
  is_blank (some v) = false

  abbrev pub below : Bool → Option Num → Num → Bool
  below inclusive none n = false
  below true (some low) n = less n low
  below false (some low) n = at_most n low

  abbrev pub above : Bool → Option Num → Num → Bool
  above inclusive none n = false
  above true (some high) n = less high n
  above false (some high) n = at_most high n

  abbrev pub outside_as : RangeCheck h → Option (Value h) → Option Num → Bool
  outside_as c raw none = not (is_blank raw)
  outside_as c raw (some n) =
      below (RangeCheck.inclusive_lower c) (RangeCheck.min_value c) n
      || above (RangeCheck.inclusive_upper c) (RangeCheck.max_value c) n

  -- The test of `_check_range`.
  unfoldable pub outside : RangeCheck h → Dict (Value h) → Bool
  unfolding get coerce_numeric
  outside c d =
      outside_as c (get d (RangeCheck.column c)) (coerce_numeric h (get d (RangeCheck.column c)))

  abbrev pub mismatch : String → Option (Value h) → Bool
  mismatch pattern none = false
  mismatch pattern (some null) = false
  mismatch pattern (some (text s)) = not (re_search pattern s)
  mismatch pattern (some v) = true

  -- The test of `_check_regex`.
  unfoldable pub unmatched : RegexFormatCheck → Dict (Value h) → Bool
  unfolding get
  unmatched c d = mismatch (RegexFormatCheck.pattern c) (get d (RegexFormatCheck.column c))

  -- The loop of `_check_freshness`: the ages of the times read, and the violations.
  pub record Ages : Type 0 where
    pub ages : List Num
    pub violated : List (Dict (Value h))

  abbrev aged : Num → Num → Dict (Value h) → Ages → Ages
  aged limit age d rest =
      if less limit age
      then record { ages = age ∷ Ages.ages rest; violated = d ∷ Ages.violated rest }
      else record { ages = age ∷ Ages.ages rest; violated = Ages.violated rest }

  abbrev pub dated : Time → Num → Dict (Value h) → Option Time → Ages → Ages
  dated now limit d none rest = record { ages = Ages.ages rest; violated = d ∷ Ages.violated rest }
  dated now limit d (some ts) rest = aged limit (seconds_between now ts) d rest

  abbrev pub timed : Time → Num → Dict (Value h) → Option (Value h) → Ages → Ages
  timed now limit d none rest = rest
  timed now limit d (some null) rest = rest
  timed now limit d (some v) rest = dated now limit d (coerce_datetime h v) rest

  unfoldable pub ages_of : Time → FreshnessCheck h → List (Row h) → Ages
  unfolding get coerce_datetime
  ages_of now c [] = record { ages = []; violated = [] }
  ages_of now c (not_dict v ∷ rows) =
      let rest = ages_of now c rows in
      record { ages = Ages.ages rest; violated = shown h (not_dict v) ∷ Ages.violated rest }
  ages_of now c (row d ∷ rows) =
      let rest = ages_of now c rows in
      timed now (FreshnessCheck.max_age_seconds c) d (get d (FreshnessCheck.timestamp_column c))
        rest

  -- `max` of a list that is not empty: the first of the largest.
  abbrev pub largest : Num → List Num → Num
  largest best [] = best
  largest best (n ∷ ns) = largest (if less best n then n else best) ns

  -- `valid_keys`: the target column of the dicts that have it.
  abbrev pub hashed : Value h → List (Value h) → Attempt Unhashable (List (Value h))
  hashed v rest = if is_hashable h v then ok (v ∷ rest) else raise unhashable

  abbrev pub add_key :
      Option (Value h) → Attempt Unhashable (List (Value h)) → Attempt Unhashable (List (Value h))
  add_key none rest = rest
  add_key (some v) rest = rest >>= hashed v

  unfoldable pub valid_keys : String → List (Row h) → Attempt Unhashable (List (Value h))
  unfolding get
  valid_keys col [] = ok []
  valid_keys col (not_dict v ∷ rows) = valid_keys col rows
  valid_keys col (row d ∷ rows) = add_key (get d col) (valid_keys col rows)

  -- `value in keys`
  abbrev pub is_key : Value h → List (Value h) → Bool
  is_key v ks = any (same_value h v) ks

  -- The loop of `_check_referential`.
  abbrev pub refer :
      Dict (Value h)
      → Option (Value h)
      → List (Value h)
      → Attempt Unhashable (List (Dict (Value h)))
      → Attempt Unhashable (List (Dict (Value h)))
  refer d none ks rest = rest
  refer d (some null) ks rest = rest
  refer d (some v) ks rest =
      if is_hashable h v
      then (rest >>= λ ds. ok (if is_key v ks then ds else d ∷ ds))
      else raise unhashable

  unfoldable pub unreferred :
      String → List (Value h) → List (Row h) → Attempt Unhashable (List (Dict (Value h)))
  unfolding get
  unreferred col ks [] = ok []
  unreferred col ks (not_dict v ∷ rows) =
      unreferred col ks rows >>= λ ds. ok (shown h (not_dict v) ∷ ds)
  unreferred col ks (row d ∷ rows) = refer d (get d col) ks (unreferred col ks rows)
