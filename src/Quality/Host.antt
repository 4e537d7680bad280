-- ===== src/Quality/Host.antt =====
-- What the quality checks take from Python: numbers, times, regular expressions and texts of numbers.
-- Lists and dicts inside of a record are one type, `Nested`. Neither floats nor the calendar are modelled, so these are a parameter.
use elt_pipeline.Prelude.{String, Bool, Option}

pub record Host : Type 1 where
  pub Num : Type 0
  pub Time : Type 0
  pub Nested : Type 0
  -- `<`, `<=`, and `==` as dicts and sets use it
  pub less : Num → Num → Bool
  pub at_most : Num → Num → Bool
  pub same_num : Num → Num → Bool
  pub same_time : Time → Time → Bool
  pub same_nested : Nested → Nested → Bool
  pub of_bool : Bool → Num
  -- `float(s)` and `int(s)`, where `none` is a ValueError.
  pub parse_float : String → Option Num
  pub parse_int : String → Option Num
  -- The time itself if it has a zone, and else as UTC.
  pub in_utc : Time → Time
  -- `datetime.fromtimestamp(x, tz=UTC)` and `datetime.fromisoformat`
  pub from_timestamp : Num → Option Time
  pub from_isoformat : String → Option Time
  -- `(now - ts).total_seconds()`, for a `now` with a zone as `datetime.now(tz=UTC)` is; without one
  -- Python raises a TypeError, which is left out.
  pub seconds_between : Time → Time → Num
  -- Whether `re.compile(pattern)` succeeds.
  pub compiles : String → Bool
  -- `re.compile(pattern).search(value) is not None`
  pub re_search : String → String → Bool
