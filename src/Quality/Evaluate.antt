-- ===== src/Quality/Evaluate.antt =====
-- The checks of one dataset, and their results in the form of the quality adapter.
use elt_pipeline.Prelude.{
  ℕ, String, Bool, true, false, Option, none, some, List, [], ◌∷◌, ◌==◌, ◌||◌, length, is_empty,
  filter, map, if◌then◌else◌, Attempt, ok, raise, ◌>>=◌, zero, suc, eqb,
}
use Prim.Native.Char.{code}
use elt_pipeline.Prelude.Dict.{Dict, get, or_else}
use elt_pipeline.Quality.Host.{Host}
use elt_pipeline.Quality.Values.{Value, Row}
use elt_pipeline.Quality.Checks.{
  CheckKind, QualityCheck, CheckResult, CheckStatus, passed, failed, skipped, Measure, nothing,
  amount, seconds, not_null, uniqueness, range, referential_integrity, freshness, regex_format,
  RangeCheck, FreshnessCheck, RegexFormatCheck, UniquenessCheck, ReferentialIntegrityCheck,
}
use elt_pipeline.Quality.Rows.{
  Unhashable, violations, null_at, outside, unmatched, ages_of, largest, valid_keys, unreferred,
  Ages,
}
use elt_pipeline.Quality.Unique.{duplicates_of}

-- QualityDatasetRef, where an empty text is no name, with the records if they are a list.
pub record Dataset (h : Host) : Type 0 where
  pub dataset_id : Option String
  pub dataset_name : Option String
  pub records : List (Row h)

abbrev pub equals_option : String → Option String → Bool
equals_option s none = false
equals_option s (some t) = s == t

abbrev matches_id : Option String → Option String → Option String → Bool
matches_id none id name = true
matches_id (some sid) id name = equals_option sid id || equals_option sid name

-- What follows the last dot.
abbrev or_rest : Bool → String → Option String → Option String
or_rest dot s (some t) = some t
or_rest true s none = some s
or_rest false s none = none

abbrev after_dot : String → Option String
after_dot String.[] = none
after_dot (String.◌∷◌ c s) = or_rest (eqb (code c) 46) s (after_dot s)

-- `s.split(".")[-1]`
unfoldable pub last_part : String → String
last_part s = or_else (after_dot s) s

module _ (h : Host) where
  open h use {Num, Time}

  unfoldable pub dataset_matches : QualityCheck h → Dataset h → Bool
  dataset_matches check d =
      matches_id (QualityCheck.dataset_id check) (Dataset.dataset_id d) (Dataset.dataset_name d)

  abbrev pub kind_name : CheckKind h → String
  kind_name (not_null c) = "not_null"
  kind_name (uniqueness c) = "uniqueness"
  kind_name (range c) = "range"
  kind_name (referential_integrity c) = "referential_integrity"
  kind_name (freshness c) = "freshness"
  kind_name (regex_format c) = "regex_format"

  -- What a check decides: the status, the observed and the expected value, the violating records.
  pub record Verdict : Type 0 where
    pub status : CheckStatus
    pub observed : Measure h
    pub expected : Measure h
    pub violated : List (Dict (Value h))

  abbrev pub status_of : List (Dict (Value h)) → CheckStatus
  status_of [] = passed
  status_of (d ∷ ds) = failed

  -- A verdict that counts the violating records and expects none.
  unfoldable pub counted : List (Dict (Value h)) → Verdict
  counted violated = record {
    status = status_of violated;
    observed = amount (length violated);
    expected = amount 0;
    violated = violated;
  }

  -- A verdict without values and records.
  abbrev pub bare : CheckStatus → Verdict
  bare status = record { status = status; observed = nothing; expected = nothing; violated = [] }

  unfoldable pub check_not_null : String → List (Row h) → Verdict
  unfolding counted violations null_at
  check_not_null col records = counted (violations h (null_at h col) records)

  unfoldable pub check_uniqueness : UniquenessCheck → List (Row h) → Attempt Unhashable Verdict
  unfolding counted duplicates_of
  check_uniqueness c records =
      duplicates_of h (UniquenessCheck.columns c) records >>= λ ds. ok (counted ds)

  abbrev pub bounded : Option Num → Option Num → Verdict → Verdict
  bounded none none verdict = bare skipped
  bounded (some low) high verdict = verdict
  bounded none (some high) verdict = verdict

  unfoldable pub check_range : RangeCheck h → List (Row h) → Verdict
  unfolding counted violations outside
  check_range c records =
      bounded (RangeCheck.min_value c) (RangeCheck.max_value c)
        (counted (violations h (outside h c) records))

  -- `a or b` on optional lists.
  abbrev pub or_list : Option (List (Row h)) → Option (List (Row h)) → Option (List (Row h))
  or_list none other = other
  or_list (some []) other = other
  or_list (some (r ∷ rs)) other = some (r ∷ rs)

  abbrev pub refer_to :
      ReferentialIntegrityCheck → List (Row h) → Option (List (Row h)) → Attempt Unhashable Verdict
  refer_to c records none = ok (bare skipped)
  refer_to c records (some targets) =
      valid_keys h (ReferentialIntegrityCheck.target_column c) targets >>= λ ks.
      unreferred h (ReferentialIntegrityCheck.source_column c) ks records >>= λ ds. ok (counted ds)

  -- The rows of the target dataset.
  unfoldable pub target_records :
      ReferentialIntegrityCheck → Dict (List (Row h)) → Option (List (Row h))
  unfolding get last_part
  target_records c references =
      let target = ReferentialIntegrityCheck.target_dataset_id c in
      or_list (get references target) (get references (last_part target))

  unfoldable pub check_referential :
      ReferentialIntegrityCheck → List (Row h) → Dict (List (Row h)) → Attempt Unhashable Verdict
  unfolding target_records valid_keys unreferred counted
  check_referential c records references = refer_to c records (target_records c references)

  abbrev oldest : List Num → Measure h
  oldest [] = nothing
  oldest (n ∷ ns) = seconds (largest h n ns)

  unfoldable pub check_freshness : FreshnessCheck h → List (Row h) → Time → Verdict
  unfolding ages_of
  check_freshness c records now =
      let found = ages_of h now c records in
      record {
        status = status_of (Ages.violated found);
        observed = oldest (Ages.ages found);
        expected = seconds (FreshnessCheck.max_age_seconds c);
        violated = Ages.violated found;
      }

  unfoldable pub check_regex : RegexFormatCheck → List (Row h) → Verdict
  unfolding counted violations unmatched
  check_regex c records = counted (violations h (unmatched h c) records)

  unfoldable pub evaluate_one_check :
      CheckKind h → List (Row h) → Dict (List (Row h)) → Time → Attempt Unhashable Verdict
  unfolding check_not_null check_uniqueness check_range check_referential check_freshness
      check_regex
  evaluate_one_check (not_null c) records references now = ok (check_not_null c records)
  evaluate_one_check (uniqueness c) records references now = check_uniqueness c records
  evaluate_one_check (range c) records references now = ok (check_range c records)
  evaluate_one_check (referential_integrity c) records references now =
      check_referential c records references
  evaluate_one_check (freshness c) records references now = ok (check_freshness c records now)
  evaluate_one_check (regex_format c) records references now = ok (check_regex c records)

  unfoldable pub result_of : QualityCheck h → Dataset h → Verdict → CheckResult h
  result_of check d v = record {
    check_name = QualityCheck.check_name check;
    kind = kind_name (QualityCheck.kind check);
    dataset_id = Dataset.dataset_id d;
    dataset_name = Dataset.dataset_name d;
    status = Verdict.status v;
    observed_value = Verdict.observed v;
    expected_value = Verdict.expected v;
    violated_records = Verdict.violated v;
  }

  -- `except Exception`: the check has failed.
  abbrev pub caught : Attempt Unhashable Verdict → Verdict
  caught (raise problem) = bare failed
  caught (ok v) = v

  unfoldable pub evaluate_builtin_checks :
      Dataset h → List (QualityCheck h) → Dict (List (Row h)) → Time → List (CheckResult h)
  unfolding dataset_matches evaluate_one_check result_of
  evaluate_builtin_checks d checks references now =
      let applicable = filter (λ c. dataset_matches c d) checks in
      let unread = map (λ c. result_of c d (bare skipped)) applicable in
      let evaluated =
        map
          (λ c.
            result_of c d (
              caught (evaluate_one_check (QualityCheck.kind c) (Dataset.records d) references now)))
          applicable in
      if is_empty (Dataset.records d) then unread else evaluated

  -- QualityCheckResult, with the count and the sample of the violations as its context.
  pub record AdapterResult : Type 0 where
    pub backend_type : String
    pub blocking : Bool
    pub result : CheckResult h
    pub context : Option (ℕ × List (Dict (Value h)))

  abbrev take : ℕ → List (Dict (Value h)) → List (Dict (Value h))
  take zero ds = []
  take (suc n) [] = []
  take (suc n) (d ∷ ds) = d ∷ take n ds

  abbrev sample_of : List (Dict (Value h)) → Option (ℕ × List (Dict (Value h)))
  sample_of [] = none
  sample_of (d ∷ ds) = some (length (d ∷ ds), take 10 (d ∷ ds))

  unfoldable pub to_adapter : String → Bool → CheckResult h → AdapterResult
  to_adapter backend_type blocking r = record {
    backend_type = backend_type;
    blocking = blocking;
    result = r;
    context = sample_of (CheckResult.violated_records r);
  }
