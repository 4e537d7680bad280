-- ===== src/Quality/Correct.antt =====
-- The status of each kind of check, and the results of a dataset.
use elt_pipeline.Prelude.{
  true-false, String, true, false, Option, none, some, List, [], ◌∷◌, ◌≡◌, ◌↔◌, refl, ap, All,
  Attempt, ok, raise, ◌>>=◌, ◌∙◌, sym, subst, filter, map, is_empty, Bool-cases, inl, inr,
  if◌then◌else◌,
}
use elt_pipeline.Prelude.Dict.{Dict, get}
use elt_pipeline.Quality.Host.{Host}
use elt_pipeline.Quality.Values.{
  Value, null, boolean, number, text, moment, nested, Row, row, not_dict, is_hashable,
}
use elt_pipeline.Quality.Checks.{
  CheckKind, QualityCheck, CheckResult, CheckStatus, passed, skipped, not_null, uniqueness, range,
  referential_integrity, freshness, regex_format, RangeCheck, UniquenessCheck,
  ReferentialIntegrityCheck,
}
use elt_pipeline.Quality.Rows.{Unhashable, outside, is_key, violations, valid_keys, unreferred}
use elt_pipeline.Quality.Unique.{duplicates_of}
use elt_pipeline.Quality.Evaluate.{
  Verdict, bare, bounded, counted, caught, check_not_null, check_uniqueness, check_range,
  check_referential, check_freshness, check_regex, evaluate_one_check, refer_to, target_records,
  status_of, Dataset, dataset_matches, result_of, evaluate_builtin_checks,
}
use elt_pipeline.Quality.Passes.{
  OnDict, IfPresent, NotNull, Matches, InRange, passed-violations, null_at-NotNull,
  unmatched-Matches, outside-InRange,
}
use elt_pipeline.Quality.Ages.{Recent, violated-ages_of, stale_at, stale_at-Recent}
use elt_pipeline.Quality.References.{
  HasKey, Hashable, passes, Refers, Gathers, valid_keys-Gathers, passed-unreferred,
}
use elt_pipeline.Quality.Distinct.{KeysDistinct}
use elt_pipeline.Quality.Duplicates.{passed-duplicates_of}

module _ (h : Host) where
  open h use {Num, Time}

  -- A bound is given.
  abbrev pub Bounded : Option Num → Option Num → Type 0
  Bounded none none = ⊥
  Bounded (some low) high = Unit {0}
  Bounded none (some high) = Unit {0}

  -- The value has a hash and equals a value of the target column.
  abbrev pub FoundIn : String → List (Row h) → Option (Value h) → Type 0
  FoundIn col targets o = IfPresent h (λ v. (is_hashable h v ≡ true) × HasKey h col v targets) o

  abbrev pub ReferencesHold :
      ReferentialIntegrityCheck → List (Row h) → Option (List (Row h)) → Type 0
  ReferencesHold c records none = ⊥
  ReferencesHold c records (some targets) =
      Hashable h (ReferentialIntegrityCheck.target_column c) targets
      × All
          (OnDict h (λ d.
            FoundIn (ReferentialIntegrityCheck.target_column c) targets
              (get d (ReferentialIntegrityCheck.source_column c))))
          records

  -- What a check asks of the records.
  abbrev pub Holds : CheckKind h → List (Row h) → Dict (List (Row h)) → Time → Type 0
  Holds (not_null c) records references now = All (OnDict h (NotNull h c)) records
  Holds (uniqueness c) records references now = KeysDistinct h (UniquenessCheck.columns c) records
  Holds (range c) records references now =
      Bounded (RangeCheck.min_value c) (RangeCheck.max_value c)
      × All (OnDict h (InRange h c)) records
  Holds (referential_integrity c) records references now =
      ReferencesHold c records (target_records h c references)
  Holds (freshness c) records references now = All (OnDict h (Recent h now c)) records
  Holds (regex_format c) records references now = All (OnDict h (Matches h c)) records

  abbrev pub status : Attempt Unhashable (Verdict h) → CheckStatus
  status verdict = Verdict.status (caught h verdict)

  status-counted :
      (ds : Attempt Unhashable (List (Dict (Value h))))
      → status (ds >>= λ l. ok (counted h l)) ≡ passes h ds
  unfolding counted
  status-counted (raise problem) = refl
  status-counted (ok ds) = refl

  passed-bounded :
      (low high : Option Num) (v : Verdict h)
      → (Verdict.status (bounded h low high v) ≡ passed)
        ↔ (Bounded low high × (Verdict.status v ≡ passed))
  passed-bounded none none v = (λ e. absurd cc, λ p. absurd p.0)
  passed-bounded (some low) high v = (λ e. (tt, e), λ p. p.1)
  passed-bounded none (some high) v = (λ e. (tt, e), λ p. p.1)

  Refers-found :
      (col : String) (targets : List (Row h)) (ks : List (Value h))
      → ((v : Value h) → (is_key h v ks ≡ true) ↔ HasKey h col v targets)
      → (o : Option (Value h)) → Refers h ks o ↔ FoundIn col targets o
  Refers-found col targets ks keys none = (λ r. tt, λ f. tt)
  Refers-found col targets ks keys (some null) = (λ r. tt, λ f. tt)
  Refers-found col targets ks keys (some (boolean b)) =
      (λ r. (r.0, (keys (boolean b)).0 r.1), λ f. (f.0, (keys (boolean b)).1 f.1))
  Refers-found col targets ks keys (some (number n)) =
      (λ r. (r.0, (keys (number n)).0 r.1), λ f. (f.0, (keys (number n)).1 f.1))
  Refers-found col targets ks keys (some (text s)) =
      (λ r. (r.0, (keys (text s)).0 r.1), λ f. (f.0, (keys (text s)).1 f.1))
  Refers-found col targets ks keys (some (moment t)) =
      (λ r. (r.0, (keys (moment t)).0 r.1), λ f. (f.0, (keys (moment t)).1 f.1))
  Refers-found col targets ks keys (some (nested n)) =
      (λ r. (r.0, (keys (nested n)).0 r.1), λ f. (f.0, (keys (nested n)).1 f.1))

  all_iff :
      (P Q : Dict (Value h) → Type 0) (rows : List (Row h))
      → ((d : Dict (Value h)) → P d ↔ Q d)
      → All (OnDict h P) rows ↔ All (OnDict h Q) rows
  all_iff P Q [] iff = (λ a. tt, λ a. tt)
  all_iff P Q (not_dict v ∷ rows) iff = (λ a. absurd a.0, λ a. absurd a.0)
  all_iff P Q (row d ∷ rows) iff =
      let rest = all_iff P Q rows iff in
      (λ a. ((iff d).0 a.0, rest.0 a.1), λ a. ((iff d).1 a.0, rest.1 a.1))

  abbrev the_keys : Attempt Unhashable (List (Value h)) → Attempt Unhashable (List (Value h))
  the_keys keys = keys

  raise_ok : {p : Unhashable} {ks : List (Value h)} → the_keys (raise p) ≡ ok ks → ⊥
  raise_ok {p} {ks} e = cc

  passed_with :
      (col : String) (targets records : List (Row h)) (source : String)
      (keys : Attempt Unhashable (List (Value h)))
      → Gathers h (Hashable h col targets) (λ v. HasKey h col v targets) keys
      → (status (keys >>= λ ks. unreferred h source ks records >>= λ ds. ok (counted h ds))
          ≡ passed)
        ↔ (Hashable h col targets
            × All (OnDict h (λ d. FoundIn col targets (get d source))) records)
  passed_with col targets records source (raise problem) g =
      (λ e. absurd cc, λ p. absurd (raise_ok (g.0 p.0).1))
  passed_with col targets records source (ok ks) g =
      let found = passed-unreferred h source ks records in
      let same =
        all_iff (λ d. Refers h ks (get d source)) (λ d. FoundIn col targets (get d source)) records
          (λ d. Refers-found col targets ks (g.1 ks refl).1 (get d source)) in
      let counts = status-counted (unreferred h source ks records) in
      (
        λ e. ((g.1 ks refl).0, same.0 (found.0 (sym counts ∙ e))),
        λ p. counts ∙ found.1 (same.1 p.1),
      )

  passed-refer_to :
      (c : ReferentialIntegrityCheck) (records : List (Row h)) (targets : Option (List (Row h)))
      → (status (refer_to h c records targets) ≡ passed) ↔ ReferencesHold c records targets
  passed-refer_to c records none = (λ e. absurd cc, λ p. absurd p)
  passed-refer_to c records (some targets) =
      passed_with (ReferentialIntegrityCheck.target_column c) targets records
        (ReferentialIntegrityCheck.source_column c)
        (valid_keys h (ReferentialIntegrityCheck.target_column c) targets)
        (valid_keys-Gathers h (ReferentialIntegrityCheck.target_column c) targets)

  -- The status of a check is `passed`, with an error counted as failed, if and only if the check
  -- holds of the records: every record is a dict with a value that is not null; has a key and no
  -- later record has its key; has a number in the bounds, of which one is given, or no value; has
  -- a value found in the target, which is supplied and has hashable keys, or no value; has a time
  -- that is recent enough, or no value; has a text that the pattern is found in, or no value.
  pub evaluate_one_check_passed :
      (c : CheckKind h) (records : List (Row h)) (references : Dict (List (Row h))) (now : Time)
      → (status (evaluate_one_check h c records references now) ≡ passed)
        ↔ Holds c records references now
  unfolding evaluate_one_check check_not_null check_uniqueness check_range check_referential
      check_freshness check_regex counted
  evaluate_one_check_passed (not_null c) records references now =
      passed-violations h _ (NotNull h c) (null_at-NotNull h c) records
  evaluate_one_check_passed (uniqueness c) records references now =
      let counts = status-counted (duplicates_of h (UniquenessCheck.columns c) records) in
      let found = passed-duplicates_of h (UniquenessCheck.columns c) records in
      (λ e. found.0 (sym counts ∙ e), λ a. counts ∙ found.1 a)
  evaluate_one_check_passed (range c) records references now =
      let within = passed-violations h (outside h c) (InRange h c) (outside-InRange h c) records in
      let bounds =
        passed-bounded (RangeCheck.min_value c) (RangeCheck.max_value c)
          (counted h (violations h (outside h c) records)) in
      (λ e. ((bounds.0 e).0, within.0 (bounds.0 e).1), λ p. bounds.1 (p.0, within.1 p.1))
  evaluate_one_check_passed (referential_integrity c) records references now =
      passed-refer_to c records (target_records h c references)
  evaluate_one_check_passed (freshness c) records references now =
      let recent =
        passed-violations h (stale_at h now c) (Recent h now c) (stale_at-Recent h now c) records in
      let same = ap (status_of h) (violated-ages_of h now c records) in
      (λ e. recent.0 (sym same ∙ e), λ a. same ∙ recent.1 a)
  evaluate_one_check_passed (regex_format c) records references now =
      passed-violations h _ (Matches h c) (unmatched-Matches h c) records

  skipped_passed : skipped ≡ passed → ⊥
  skipped_passed e = cc

  -- The result belongs to the check, and is `passed` if there are records and the check holds.
  abbrev pub IsResultOf :
      Dataset h → Dict (List (Row h)) → Time → QualityCheck h → CheckResult h → Type 0
  IsResultOf d references now c r =
      (CheckResult.check_name r ≡ QualityCheck.check_name c)
      × ((CheckResult.status r ≡ passed) ↔ (
          (is_empty (Dataset.records d) ≡ false)
          × Holds (QualityCheck.kind c) (Dataset.records d) references now))

  -- Two lists of one length whose entries are related in order.
  abbrev pub Paired :
      (QualityCheck h → CheckResult h → Type 0)
      → List (QualityCheck h)
      → List (CheckResult h)
      → Type 0
  Paired R [] [] = Unit {0}
  Paired R [] (r ∷ rs) = ⊥
  Paired R (c ∷ cs) [] = ⊥
  Paired R (c ∷ cs) (r ∷ rs) = R c r × Paired R cs rs

  Paired-map :
      (R : QualityCheck h → CheckResult h → Type 0) (f : QualityCheck h → CheckResult h)
      → ((c : QualityCheck h) → R c (f c))
      → (cs : List (QualityCheck h)) → Paired R cs (map f cs)
  Paired-map R f holds [] = tt
  Paired-map R f holds (c ∷ cs) = (holds c, Paired-map R f holds cs)

  -- The results stand in the order of the checks that apply to the dataset, one for each, and a
  -- result is `passed` if and only if the dataset has records and the check holds of them.
  pub evaluate_builtin_checks_results :
      (d : Dataset h) (checks : List (QualityCheck h)) (references : Dict (List (Row h)))
      (now : Time)
      → Paired
          (IsResultOf d references now)
          (filter (λ c. dataset_matches h c d) checks)
          (evaluate_builtin_checks h d checks references now)
  unfolding evaluate_builtin_checks result_of
  evaluate_builtin_checks_results d checks references now =
      let applicable = filter (λ c. dataset_matches h c d) checks in
      let unread = map (λ c. result_of h c d (bare h skipped)) applicable in
      let evaluated =
        map
          (λ c. result_of h c d (
            caught h
              (evaluate_one_check h (QualityCheck.kind c) (Dataset.records d) references now)))
          applicable in
      elim (Bool-cases (is_empty (Dataset.records d))) [
        | inl e ↦
            subst
              (λ b.
                Paired (IsResultOf d references now) applicable (if b then unread else evaluated))
              (sym e)
              (Paired-map (IsResultOf d references now) (λ c. result_of h c d (bare h skipped))
                (λ c.
                  (refl, (λ f. absurd (skipped_passed f), λ p. absurd (true-false (sym e ∙ p.0)))))
                applicable)
        | inr e ↦
            subst
              (λ b.
                Paired (IsResultOf d references now) applicable (if b then unread else evaluated))
              (sym e)
              (Paired-map (IsResultOf d references now)
                (λ c. result_of h c d (
                  caught h (
                    evaluate_one_check h (QualityCheck.kind c) (Dataset.records d) references now)))
                (λ c.
                  let one =
                    evaluate_one_check_passed (QualityCheck.kind c) (Dataset.records d) references
                      now in
                  (refl, (λ f. (e, one.0 f), λ p. one.1 p.1)))
                applicable)
      ]
