-- ===== src/Quality/Examples.antt =====
-- The checks on small datasets, with numbers for floats, times and nested values.
use elt_pipeline.Prelude.{
  ℕ, ◌-◌, String, Bool, true, false, none, some, List, [], ◌∷◌, ◌==◌, ◌≡◌, ◌↔◌, refl, ltb, leb, eqb,
  ok, filter, if◌then◌else◌,
}
use elt_pipeline.Quality.Host.{Host}
use elt_pipeline.Quality.Values.{number, text, Row, row}
use elt_pipeline.Quality.Checks.{
  CheckKind, QualityCheck, passed, skipped, uniqueness, referential_integrity,
}
use elt_pipeline.Quality.Unique.{duplicates_of}
use elt_pipeline.Quality.Evaluate.{
  evaluate_one_check, Dataset, dataset_matches, evaluate_builtin_checks, target_records,
}
use elt_pipeline.Quality.Correct.{
  Holds, status, evaluate_one_check_passed, evaluate_builtin_checks_results, Paired, IsResultOf,
}

abbrev one_if : Bool → ℕ
one_if true = 1
one_if false = 0

abbrev host : Host
host = record {
  Num = ℕ;
  Time = ℕ;
  Nested = String;
  less = ltb;
  at_most = leb;
  same_num = eqb;
  same_time = eqb;
  same_nested = λ s t. s == t;
  of_bool = one_if;
  parse_float = λ s. none;
  parse_int = λ s. if s == "7" then some 7 else none;
  in_utc = λ t. t;
  from_timestamp = λ n. some n;
  from_isoformat = λ s. none;
  seconds_between = λ now t. now - t;
  compiles = λ p. true;
  re_search = λ p s. p == s;
}

abbrev order : ℕ → String → Row host
order n customer = row (("id", number n) ∷ ("customer", text customer) ∷ [])

abbrev orders : List (Row host)
orders = order 1 "ada" ∷ order 2 "bob" ∷ []

abbrev customers : List (Row host)
customers = row (("name", text "ada") ∷ []) ∷ row (("name", text "bob") ∷ []) ∷ []

abbrev by_customer : CheckKind host
by_customer = referential_integrity record {
  source_column = "customer";
  target_dataset_id = "crm.customers";
  target_column = "name";
}

abbrev by_id : CheckKind host
by_id = uniqueness record { columns = "id" ∷ [] }

program : Unit {0}
unfolding evaluate_one_check evaluate_builtin_checks dataset_matches duplicates_of target_records
program = tt

references_pass :
    status host (evaluate_one_check host by_customer orders (("customers", customers) ∷ []) 0)
    ≡ passed
unfolding program
references_pass = refl

-- The target is known by its dotted name and has no rows: the check is skipped.
empty_target_skips :
    status host (evaluate_one_check host by_customer orders (("crm.customers", []) ∷ []) 0)
    ≡ skipped
unfolding program
empty_target_skips = refl

-- The second row with a key is listed twice, the first row not at all, if a row that equals the first stands between.
abbrev tagged : Row host
tagged = row (("id", number 1) ∷ ("tag", text "b") ∷ [])

abbrev plain : Row host
plain = row (("id", number 1) ∷ [])

listed_twice :
    duplicates_of host ("id" ∷ []) (plain ∷ plain ∷ tagged ∷ [])
    ≡ ok (
        (("id", number 1) ∷ [])
        ∷ (("id", number 1) ∷ ("tag", text "b") ∷ [])
        ∷ (("id", number 1) ∷ ("tag", text "b") ∷ [])
        ∷ [])
unfolding program
listed_twice = refl

evaluate_one_check_passed_example :
    (status host (evaluate_one_check host by_customer orders (("customers", customers) ∷ []) 0)
      ≡ passed)
    ↔ Holds host by_customer orders (("customers", customers) ∷ []) 0
evaluate_one_check_passed_example =
    evaluate_one_check_passed host by_customer orders (("customers", customers) ∷ []) 0

abbrev sales : Dataset host
sales = record { dataset_id = some "crm.orders"; dataset_name = some "orders"; records = orders }

abbrev checks : List (QualityCheck host)
checks =
    record { check_name = "id"; dataset_id = some "orders"; kind = by_id }
    ∷ record { check_name = "other"; dataset_id = some "items"; kind = by_id }
    ∷ record { check_name = "customer"; dataset_id = none; kind = by_customer }
    ∷ []

evaluate_builtin_checks_results_example :
    Paired host
      (IsResultOf host sales (("customers", customers) ∷ []) 0)
      (filter (λ c. dataset_matches host c sales) checks)
      (evaluate_builtin_checks host sales checks (("customers", customers) ∷ []) 0)
evaluate_builtin_checks_results_example =
    evaluate_builtin_checks_results host sales checks (("customers", customers) ∷ []) 0
