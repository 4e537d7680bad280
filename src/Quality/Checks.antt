-- ===== src/Quality/Checks.antt =====
-- The models of the checks with their validators, and the result of a check.
use elt_pipeline.Prelude.{
  String, Bool, false, not, Option, some, List, ◌==◌, ◌&&◌, is_empty, filter, map, if◌then◌else◌,
  Attempt, ok, raise, ℕ,
}
use elt_pipeline.Prelude.Text.{strip}
use elt_pipeline.Prelude.Dict.{Dict}
use elt_pipeline.Quality.Host.{Host}
use elt_pipeline.Quality.Values.{Value}

-- The ValueErrors of the validators.
pub data CheckInvalid : Type 0 where
  no_columns : CheckInvalid
  max_below_min : CheckInvalid
  age_not_positive : CheckInvalid
  bad_pattern : CheckInvalid

-- QualityCheckStatus, without the members that these checks never give.
pub data CheckStatus : Type 0 where
  passed : CheckStatus
  failed : CheckStatus
  skipped : CheckStatus

pub record UniquenessCheck : Type 0 where
  pub columns : List String

pub record ReferentialIntegrityCheck : Type 0 where
  pub source_column : String
  pub target_dataset_id : String
  pub target_column : String

pub record RegexFormatCheck : Type 0 where
  pub column : String
  pub pattern : String

module _ (h : Host) where
  open h use {Num, less, at_most, of_bool, compiles}

  pub record RangeCheck : Type 0 where
    pub column : String
    pub min_value : Option Num
    pub max_value : Option Num
    pub inclusive_lower : Bool
    pub inclusive_upper : Bool

  pub record FreshnessCheck : Type 0 where
    pub timestamp_column : String
    pub max_age_seconds : Num

  -- The fields of a kind of check; NotNullCheck has one column.
  pub data CheckKind : Type 0 where
    not_null : String → CheckKind
    uniqueness : UniquenessCheck → CheckKind
    range : RangeCheck → CheckKind
    referential_integrity : ReferentialIntegrityCheck → CheckKind
    freshness : FreshnessCheck → CheckKind
    regex_format : RegexFormatCheck → CheckKind

  pub record QualityCheck : Type 0 where
    pub check_name : String
    pub dataset_id : Option String
    pub kind : CheckKind

  -- `[c.strip() for c in v if c and c.strip()]`
  unfoldable pub stripped_columns : List String → List String
  unfolding strip
  stripped_columns v = map strip (filter (λ c. not (c == "") && not (strip c == "")) v)

  abbrev below_min : Option Num → Option Num → Bool
  below_min (some low) (some high) = less high low
  below_min low high = false

  -- What the validators make of a check, where `zero` is the number 0.
  unfoldable pub validate : CheckKind → Attempt CheckInvalid CheckKind
  unfolding stripped_columns
  validate (not_null c) = ok (not_null c)
  validate (uniqueness u) =
      if is_empty (stripped_columns (UniquenessCheck.columns u))
      then raise no_columns
      else ok (uniqueness record { columns = stripped_columns (UniquenessCheck.columns u) })
  validate (range r) =
      if below_min (RangeCheck.min_value r) (RangeCheck.max_value r)
      then raise max_below_min
      else ok (range r)
  validate (referential_integrity r) = ok (referential_integrity r)
  validate (freshness f) =
      if at_most (FreshnessCheck.max_age_seconds f) (of_bool false)
      then raise age_not_positive
      else ok (freshness f)
  validate (regex_format r) =
      if compiles (RegexFormatCheck.pattern r) then ok (regex_format r) else raise bad_pattern

  -- An observed or expected value.
  pub data Measure : Type 0 where
    nothing : Measure
    amount : ℕ → Measure
    seconds : Num → Measure

  pub record CheckResult : Type 0 where
    pub check_name : String
    pub kind : String
    pub dataset_id : Option String
    pub dataset_name : Option String
    pub status : CheckStatus
    pub observed_value : Measure
    pub expected_value : Measure
    pub violated_records : List (Dict (Value h))
