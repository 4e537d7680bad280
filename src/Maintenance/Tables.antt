-- ===== src/Maintenance/Tables.antt =====
-- The tables of a maintenance run.
use elt_pipeline.Prelude.{
  String, Bool, true, false, Option, none, some, List, [], ◌∷◌, ◌++◌, ◌==◌, ◌||◌, eqb,
  if◌then◌else◌,
}
use Prim.Native.Char.{code}
use elt_pipeline.Prelude.Text.{concat}
use elt_pipeline.Prelude.Names.{add, sorted}
use elt_pipeline.Prelude.Dict.{get}
use elt_pipeline.Maintenance.Jobs.{
  Row, Job, Engine, show_namespaces, show_tables, ask, and_then, give,
}

-- A name that is not empty.
abbrev named : Option String → Option String
named none = none
named (some s) = if s == "" then none else some s

-- `_sql_row_first`
abbrev pub row_first : Row → Option String
row_first [] = none
row_first ((column, value) ∷ rest) = value

-- The second column of a row without a column `tableName`, or the first if there is one only.
abbrev second_or_first : Row → Option String
second_or_first [] = none
second_or_first ((c, v) ∷ []) = v
second_or_first ((c, v) ∷ (d, w) ∷ rest) = w

abbrev name_or : Option (Option String) → Option String → Option String
name_or none other = other
name_or (some value) other = value

-- The name of a table from a row of SHOW TABLES, below a domain and below the stage.
unfoldable pub domain_table : Row → Option String
unfolding get
domain_table row = named (name_or (get row "tableName") (second_or_first row))

unfoldable pub stage_table : Row → Option String
unfolding get
stage_table row = named (name_or (get row "tableName") (row_first row))

abbrev with_name : String → Option String → List String → List String
with_name namespace none rest = rest
with_name namespace (some name) rest = concat namespace (concat "." name) ∷ rest

abbrev tables_below : (Row → Option String) → String → List Row → List String
tables_below name_of namespace [] = []
tables_below name_of namespace (row ∷ rows) =
    with_name namespace (name_of row) (tables_below name_of namespace rows)

abbrev has_dot : String → Bool
has_dot String.[] = false
has_dot (String.◌∷◌ c s) = eqb (code c) 46 || has_dot s

unfoldable pub child_namespace : String → String → String → String
child_namespace catalog parent name =
    if has_dot name then concat catalog (concat "." name) else concat parent (concat "." name)

abbrev pub to_set : List String → List String → List String
to_set s [] = s
to_set s (x ∷ xs) = to_set (add x s) xs

-- `sorted(set(xs))`
unfoldable pub sorted_set : List String → List String
unfolding add sorted
sorted_set xs = sorted (to_set [] xs)

module _ (e : Engine) where
  abbrev pub domain_tables : Option String → String → Job (List String)
  domain_tables none parent = give []
  domain_tables (some name) parent =
      let namespace = child_namespace (Engine.catalog_name e) parent name in
      and_then (ask e (show_tables namespace))
        (λ rows. give (tables_below domain_table namespace rows))

  unfoldable pub all_domains : String → List Row → Job (List String)
  unfolding ask domain_table child_namespace
  all_domains parent [] = give []
  all_domains parent (row ∷ rows) =
      and_then (domain_tables (named (row_first row)) parent)
        (λ tables. and_then (all_domains parent rows) (λ rest. give (tables ++ rest)))

  abbrev pub or_flat : String → List String → Job (List String)
  or_flat parent [] =
      and_then (ask e (show_tables parent)) (λ rows. give (tables_below stage_table parent rows))
  or_flat parent (t ∷ tables) = give (t ∷ tables)

  abbrev pub flat_then : String → List String → Job (List String)
  flat_then parent tables = and_then (or_flat parent tables) (λ found. give (sorted_set found))

  abbrev pub domains_then : String → List Row → Job (List String)
  domains_then parent rows = and_then (all_domains parent rows) (flat_then parent)

  abbrev pub stage_namespace : String → String
  stage_namespace stage = concat (Engine.catalog_name e) (concat "." stage)

  unfoldable pub discover_tables_for_stage : String → Job (List String)
  unfolding ask all_domains stage_table sorted_set
  discover_tables_for_stage stage =
      and_then (ask e (show_namespaces (stage_namespace stage)))
        (domains_then (stage_namespace stage))

  abbrev pub stage_if : Bool → String → Job (List String)
  stage_if false stage = give []
  stage_if true stage = discover_tables_for_stage stage

  abbrev pub fourth_then : List String → Bool → List String → Job (List String)
  fourth_then table_fqns all_level4 third =
      and_then (stage_if all_level4 "level4")
        (λ fourth. give (sorted_set (table_fqns ++ third ++ fourth)))

  -- The tables named, and those of the stages asked for.
  unfoldable pub resolve_table_selection : List String → Bool → Bool → Job (List String)
  unfolding discover_tables_for_stage sorted_set
  resolve_table_selection table_fqns all_level3 all_level4 =
      and_then (stage_if all_level3 "level3") (fourth_then table_fqns all_level4)
