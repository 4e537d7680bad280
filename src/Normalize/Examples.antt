-- ===== src/Normalize/Examples.antt =====
-- Names under a short limit, where the second of two tables with one base name gets a digest.
use elt_pipeline.Prelude.{
  ℕ, ◌≤◌, String, List, [], ◌∷◌, ◌==◌, ◌≡◌, refl, inl, inr, if◌then◌else◌, ok, raise,
}
use elt_pipeline.Normalize.Identifiers.{
  Policy, Given, make_table_name, sanitize_identifier, length_too_small, size,
}
use elt_pipeline.Normalize.Bounds.{make_table_name_bounded}
use elt_pipeline.Normalize.Distinct.{Table, name_all, name_all_distinct}

abbrev policy : ℕ → Policy
policy limit = record {
  max_identifier_length = limit;
  separator = "__";
  lower = λ s. s;
  digest = λ s. if s == "$.a" then "0a1b2c3d" else "4e5f6a7b";
}

program : Unit {0}
unfolding sanitize_identifier make_table_name name_all
program = tt

sanitized : sanitize_identifier (policy 63) " net  value% " ≡ "net_value"
unfolding program
sanitized = refl

too_small : make_table_name (policy 4) ("orders" ∷ []) "$.a" [] ≡ raise (length_too_small 4)
unfolding program
too_small = refl

abbrev tables : List Table
tables = ("orders" ∷ "line-items" ∷ [], "$.a") ∷ ("orders" ∷ "line.items" ∷ [], "$.b") ∷ []

abbrev names : List String
names = "orders__line_items" ∷ "orders__li__4e5f6a7b" ∷ []

named : name_all (policy 20) tables [] ≡ ok names
unfolding program
named = refl

abbrev given : Given
given = (("orders__li__0a1b2c3d", "$.a") ∷ [], "orders__li__0a1b2c3d")

gives : make_table_name (policy 20) ("orders" ∷ "line-items-of-a-kind" ∷ []) "$.a" [] ≡ ok given
unfolding program
gives = refl

make_table_name_bounded_example : size given.1 ≤ 20
make_table_name_bounded_example =
    make_table_name_bounded (policy 20) ("orders" ∷ "line-items-of-a-kind" ∷ []) "$.a" [] given
      gives

-- The first table once more, behind the other.
abbrev repeated : List Table
repeated =
    ("orders" ∷ "line-items" ∷ [], "$.a")
    ∷ ("orders" ∷ "line.items" ∷ [], "$.b")
    ∷ ("orders" ∷ "line-items" ∷ [], "$.a")
    ∷ []

repeated_named :
    name_all (policy 20) repeated []
    ≡ ok ("orders__line_items" ∷ "orders__li__4e5f6a7b" ∷ "orders__line_items" ∷ [])
unfolding program
repeated_named = refl

name_all_distinct_example : ◌≡◌ {A = String} "$.a" "$.a"
name_all_distinct_example =
    name_all_distinct (policy 20) repeated
      ("orders__line_items" ∷ "orders__li__4e5f6a7b" ∷ "orders__line_items" ∷ [])
      "orders__line_items" "$.a" "$.a" repeated_named (inl (refl, refl))
      (inr (inr (inl (refl, refl))))
