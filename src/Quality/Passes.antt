-- ===== src/Quality/Passes.antt =====
-- When a check passes, said of the records and apart from the loops.
use elt_pipeline.Prelude.{
  true-false, String, Bool, true, false, not, Option, none, some, List, [], ◌∷◌, ◌==◌, ◌||◌, ◌≡◌,
  ◌≢◌, ◌↔◌, refl, ap, subst, inl, inr, All, Bool-cases, arith, eq_iff, ◌∙◌, sym,
}
use elt_pipeline.Prelude.Dict.{Dict, get}
use elt_pipeline.Quality.Host.{Host}
use elt_pipeline.Quality.Values.{
  Value, null, boolean, number, text, moment, nested, Row, row, not_dict, coerce_numeric,
}
use elt_pipeline.Quality.Checks.{RangeCheck, RegexFormatCheck, passed}
use elt_pipeline.Quality.Rows.{
  violations, below, above, null_at, outside, outside_as, unmatched, mismatch, is_missing, is_blank,
}
use elt_pipeline.Quality.Evaluate.{status_of}

module _ (h : Host) where
  open h use {Num, Time, less, at_most, seconds_between, re_search}

  -- A dict with a property; a record that is no dict has none.
  abbrev pub OnDict : (Dict (Value h) → Type 0) → Row h → Type 0
  OnDict P (row d) = P d
  OnDict P (not_dict v) = ⊥

  -- A fact about the value of a column, where there is one and it is not null.
  abbrev pub IfPresent : (Value h → Type 0) → Option (Value h) → Type 0
  IfPresent P none = Unit {0}
  IfPresent P (some null) = Unit {0}
  IfPresent P (some v) = P v

  pub passed-violations :
      (bad : Dict (Value h) → Bool) (P : Dict (Value h) → Type 0)
      → ((d : Dict (Value h)) → bad d ≡ false ↔ P d)
      → (rows : List (Row h)) → (status_of h (violations h bad rows) ≡ passed) ↔ All (OnDict P) rows
  unfolding violations
  passed-violations bad P iff [] = (λ e. tt, λ a. refl)
  passed-violations bad P iff (not_dict v ∷ rows) = (λ e. absurd cc, λ a. absurd a.0)
  passed-violations bad P iff (row d ∷ rows) = elim (Bool-cases (bad d)) [
    | inl b ↦ rw b (λ e. absurd cc, λ a. absurd (true-false (sym b ∙ (iff d).1 a.0)))
    | inr g ↦
        let rest = passed-violations bad P iff rows in
        rw g (λ e. ((iff d).0 g, rest.0 e), λ a. rest.1 a.1)
  ]

  -- The column is there and its value is neither null nor the text that stands for a missing one.
  unfoldable pub NotNull : String → Dict (Value h) → Type 0
  unfolding get
  NotNull col d =
      (v : Value h) × (get d col ≡ some v) × (v ≢ null) × (v ≢ text "__MISSING__SENTINEL__")

  some_eq : {v w : Value h} → some v ≡ some w → v ≡ w
  some_eq {v} {w} e = cc

  abbrev the_text : String → Value h
  the_text s = text s

  text_eq : {s t : String} → the_text s ≡ the_text t → s ≡ t
  text_eq {s} {t} e = cc

  not_missing :
      (o : Option (Value h))
      → (is_missing h o ≡ false)
        ↔ ((v : Value h) × (o ≡ some v) × (v ≢ null) × (v ≢ text "__MISSING__SENTINEL__"))
  not_missing none = (λ e. cc, λ p. cc)
  not_missing (some null) = (λ e. cc, λ p. absurd (p.2 (sym (some_eq p.1))))
  not_missing (some (boolean b)) = (λ e. (boolean b, refl, λ f. cc, λ f. cc), λ p. refl)
  not_missing (some (number n)) = (λ e. (number n, refl, λ f. cc, λ f. cc), λ p. refl)
  not_missing (some (moment t)) = (λ e. (moment t, refl, λ f. cc, λ f. cc), λ p. refl)
  not_missing (some (nested n)) = (λ e. (nested n, refl, λ f. cc, λ f. cc), λ p. refl)
  not_missing (some (text s)) = (
    λ e. (text s, refl, λ f. cc, λ f. ground (arith, text_eq f, eq_iff s "__MISSING__SENTINEL__")),
    λ p. elim (Bool-cases (s == "__MISSING__SENTINEL__")) [
      | inr other ↦ other
      | inl same ↦
          absurd (p.3 (sym (some_eq p.1) ∙ ap text ((eq_iff s "__MISSING__SENTINEL__").0 same)))
    ],
  )

  -- The pattern is found in the text of the column, where the value is not missing.
  unfoldable pub Matches : RegexFormatCheck → Dict (Value h) → Type 0
  unfolding get
  Matches c d =
      IfPresent
        (λ v. (s : String) × (v ≡ text s) × (re_search (RegexFormatCheck.pattern c) s ≡ true))
        (get d (RegexFormatCheck.column c))

  not_mismatch :
      (pattern : String) (o : Option (Value h))
      → (mismatch h pattern o ≡ false)
        ↔ IfPresent (λ v. (s : String) × (v ≡ text s) × (re_search pattern s ≡ true)) o
  not_mismatch pattern none = (λ e. tt, λ p. refl)
  not_mismatch pattern (some null) = (λ e. tt, λ p. refl)
  not_mismatch pattern (some (text s)) =
      (λ e. (s, refl, ground arith), λ p. rw (text_eq p.1) (ap not p.2))
  not_mismatch pattern (some (boolean b)) = (λ e. cc, λ p. cc)
  not_mismatch pattern (some (number n)) = (λ e. cc, λ p. cc)
  not_mismatch pattern (some (moment t)) = (λ e. cc, λ p. cc)
  not_mismatch pattern (some (nested n)) = (λ e. cc, λ p. cc)

  abbrev pub AtLeast : Bool → Option Num → Num → Type 0
  AtLeast inclusive none n = Unit {0}
  AtLeast true (some low) n = less n low ≡ false
  AtLeast false (some low) n = at_most n low ≡ false

  abbrev pub AtMost : Bool → Option Num → Num → Type 0
  AtMost inclusive none n = Unit {0}
  AtMost true (some high) n = less high n ≡ false
  AtMost false (some high) n = at_most high n ≡ false

  -- The value of the column is a number within the bounds, or it is missing or blank.
  unfoldable pub InRange : RangeCheck h → Dict (Value h) → Type 0
  unfolding get coerce_numeric
  InRange c d =
      ((n : Num)
        → coerce_numeric h (get d (RangeCheck.column c)) ≡ some n
        → AtLeast (RangeCheck.inclusive_lower c) (RangeCheck.min_value c) n
          × AtMost (RangeCheck.inclusive_upper c) (RangeCheck.max_value c) n)
      × (coerce_numeric h (get d (RangeCheck.column c)) ≡ none
          → is_blank h (get d (RangeCheck.column c)) ≡ true)

  not_below : (i : Bool) (low : Option Num) (n : Num) → (below h i low n ≡ false) ↔ AtLeast i low n
  not_below i none n = (λ e. tt, λ p. refl)
  not_below true (some low) n = (λ e. e, λ p. p)
  not_below false (some low) n = (λ e. e, λ p. p)

  not_above :
      (i : Bool) (high : Option Num) (n : Num) → (above h i high n ≡ false) ↔ AtMost i high n
  not_above i none n = (λ e. tt, λ p. refl)
  not_above true (some high) n = (λ e. e, λ p. p)
  not_above false (some high) n = (λ e. e, λ p. p)

  not_or : {a b : Bool} → (a || b) ≡ false → (a ≡ false) × (b ≡ false)
  not_or {a} {b} e = ground (arith, e)

  abbrev Within : RangeCheck h → Num → Type 0
  Within c n =
      AtLeast (RangeCheck.inclusive_lower c) (RangeCheck.min_value c) n
      × AtMost (RangeCheck.inclusive_upper c) (RangeCheck.max_value c) n

  some_num : {m n : Num} → some m ≡ some n → m ≡ n
  some_num {m} {n} e = cc

  not_outside_as :
      (c : RangeCheck h) (raw : Option (Value h)) (n : Option Num)
      → (outside_as h c raw n ≡ false) ↔ (
          ((m : Num)
            → n ≡ some m
            → AtLeast (RangeCheck.inclusive_lower c) (RangeCheck.min_value c) m
              × AtMost (RangeCheck.inclusive_upper c) (RangeCheck.max_value c) m)
          × (n ≡ none → is_blank h raw ≡ true))
  not_outside_as c raw none =
      (λ e. (λ m f. cc, λ f. ground (arith, e)), λ p. ground (arith, p.1 refl))
  not_outside_as c raw (some n) = (
    λ e.
        let parts = not_or e in
        let low = (not_below (RangeCheck.inclusive_lower c) (RangeCheck.min_value c) n).0 parts.0 in
        let high =
          (not_above (RangeCheck.inclusive_upper c) (RangeCheck.max_value c) n).0 parts.1 in
        (λ m f. subst (Within c) (some_num f) (low, high), λ f. cc),
    λ p.
        let low =
          (not_below (RangeCheck.inclusive_lower c) (RangeCheck.min_value c) n).1 (p.0 n refl).0 in
        let high =
          (not_above (RangeCheck.inclusive_upper c) (RangeCheck.max_value c) n).1 (p.0 n refl).1 in
        ground (arith, low, high),
  )

  pub outside-InRange :
      (c : RangeCheck h) (d : Dict (Value h)) → (outside h c d ≡ false) ↔ InRange c d
  unfolding outside InRange
  outside-InRange c d =
      not_outside_as c (get d (RangeCheck.column c))
        (coerce_numeric h (get d (RangeCheck.column c)))

  pub null_at-NotNull : (c : String) (d : Dict (Value h)) → (null_at h c d ≡ false) ↔ NotNull c d
  unfolding null_at NotNull
  null_at-NotNull c d = not_missing (get d c)

  pub unmatched-Matches :
      (c : RegexFormatCheck) (d : Dict (Value h)) → (unmatched h c d ≡ false) ↔ Matches c d
  unfolding unmatched Matches
  unmatched-Matches c d =
      not_mismatch (RegexFormatCheck.pattern c) (get d (RegexFormatCheck.column c))
