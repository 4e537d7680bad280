-- ===== src/Sql/Merge/Examples.antt =====
-- A MERGE of two columns, and the theorems at it.
use elt_pipeline.Prelude.{
  ◌==◌, eq_iff, arith, Bool-cases, inl, inr, String, Bool, ◌≡◌, refl, List, [], ◌∷◌, ok, ◌||◌, ◌&&◌,
  not, leb, is_empty, if◌then◌else◌,
}
use Prim.Native.Char.{Char, code}
use elt_pipeline.Prelude.Names.{elem, count, add}
use elt_pipeline.Prelude.Text.{strip}
use elt_pipeline.Schedule.Model.{bit}
use elt_pipeline.Sql.Merge.{
  build_merge_into_sql, MergeRequest, build_merge_into_from_schema, ident, update_columns,
  insert_columns, distinct_into, from_schema,
}
use elt_pipeline.Sql.Merge.Returns.{AllNamed, build_merge_into_sql_returns}
use elt_pipeline.Sql.Merge.Columns.{from_schema_columns, updated, inserted, values}

-- The letters and digits of ASCII.
abbrev is_alnum : Char → Bool
is_alnum c =
    leb 48 (code c) && leb (code c) 57
    || leb 65 (code c) && leb (code c) 90
    || leb 97 (code c) && leb (code c) 122

program : Unit {0}
unfolding build_merge_into_from_schema ident update_columns insert_columns distinct_into elem add
    strip from_schema
program = tt

abbrev schema : List String
schema = "id" ∷ "net total" ∷ []

merged :
    build_merge_into_from_schema is_alnum "gold.orders" "select * from stage" schema ("id" ∷ []) []
    ≡ ok
        "MERGE INTO gold.orders t\nUSING (select * from stage) s\n  ON t.id = s.id\n  WHEN MATCHED THEN UPDATE SET t.`net total` = s.`net total`\n  WHEN NOT MATCHED THEN INSERT (id, `net total`) VALUES (s.id, s.`net total`)\n"
unfolding program
merged = refl

-- With no column beside the key, the key is set.
keys_only :
    build_merge_into_from_schema is_alnum "gold.ids" "select id" ("id" ∷ []) ("id" ∷ []) []
    ≡ ok
        "MERGE INTO gold.ids t\nUSING (select id) s\n  ON t.id = s.id\n  WHEN MATCHED THEN UPDATE SET t.id = s.id\n  WHEN NOT MATCHED THEN INSERT (id) VALUES (s.id)\n"
unfolding program
keys_only = refl

from_schema_columns_example :
    (count "id" (inserted is_alnum "gold.orders" "q" schema ("id" ∷ []) [])
      ≡ bit (elem "id" schema || elem "id" ("id" ∷ []) || elem "id" []))
    × (elem "id" (updated is_alnum "gold.orders" "q" schema ("id" ∷ []) []) ≡ (
        if is_empty (values is_alnum "gold.orders" "q" schema ("id" ∷ []) [])
        then elem "id" [] || elem "id" ("id" ∷ [])
        else elem "id" schema && not (elem "id" ("id" ∷ []))))
from_schema_columns_example =
    from_schema_columns is_alnum "gold.orders" "q" schema ("id" ∷ []) [] "id"

abbrev request : MergeRequest is_alnum
request = from_schema is_alnum "gold.orders" "select * from stage" schema ("id" ∷ []) []

id_named : AllNamed ("id" ∷ [])
unfolding program
id_named n i = elim (Bool-cases (n == "id")) [
  | inl same ↦ rw ((eq_iff n "id").0 same) refl
  | inr other ↦ absurd (ground arith)
]

total_named : AllNamed ("net total" ∷ [])
unfolding program
total_named n i = elim (Bool-cases (n == "net total")) [
  | inl same ↦ rw ((eq_iff n "net total").0 same) refl
  | inr other ↦ absurd (ground arith)
]

nothing_named : AllNamed []
unfolding program
nothing_named n i = cc

build_merge_into_sql_returns_example :
    (sql : String) × (build_merge_into_sql is_alnum request ≡ ok sql)
unfolding program
build_merge_into_sql_returns_example =
    build_merge_into_sql_returns is_alnum request refl refl refl refl id_named total_named
      nothing_named
