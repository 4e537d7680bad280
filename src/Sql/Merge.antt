-- ===== src/Sql/Merge.antt =====
-- src/elt_pipeline/sql/merge_sql_generator.py. `is_alnum` is `str.isalnum` of one character, from the
-- Unicode tables.
pub mod Columns
pub mod Returns
mod Examples
use elt_pipeline.Prelude.{
  String, Bool, true, false, not, Option, none, some, List, [], ◌∷◌, ◌++◌, ◌==◌, ◌&&◌, ◌||◌,
  is_empty, filter, Attempt, ok, raise, ◌>>=◌, ◌>>◌, guard, if◌then◌else◌, eqb,
}
use Prim.Native.Char.{Char, code}
use elt_pipeline.Prelude.Text.{strip, concat}
use elt_pipeline.Prelude.Names.{elem, add}
use elt_pipeline.Prelude.Dict.{or_else}

-- What the functions raise.
pub data MergeError : Type 0 where
  empty_identifier empty_columns no_key_column : MergeError
  no_target_table no_source_query no_clause : MergeError

abbrev pub all_chars : (Char → Bool) → String → Bool
all_chars p String.[] = true
all_chars p (String.◌∷◌ c s) = p c && all_chars p s

-- `cleaned.replace("`", "``")`
abbrev pub double_quotes : String → String
double_quotes String.[] = String.[]
double_quotes (String.◌∷◌ c s) =
    let rest = double_quotes s in
    if eqb (code c) 96 then String.◌∷◌ c (String.◌∷◌ c rest) else String.◌∷◌ c rest

-- `separator.join(parts)`
abbrev pub join : String → List String → String
join separator [] = ""
join separator (part ∷ []) = part
join separator (part ∷ next ∷ parts) =
    concat part (concat separator (join separator (next ∷ parts)))

-- The names in order of first occurrence, behind those that are there.
unfoldable pub distinct_into : List String → List String → List String
unfolding add
distinct_into seen [] = seen
distinct_into seen (col ∷ cols) = distinct_into (add col seen) cols

-- `updateable_value_cols`: no value columns, or an empty list of them, stands for the partition and
-- the key columns.
unfoldable pub update_columns : List String → Option (List String) → List String → List String
unfolding distinct_into elem
update_columns keys none parts = distinct_into [] (parts ++ keys)
update_columns keys (some []) parts = distinct_into [] (parts ++ keys)
update_columns keys (some (v ∷ vs)) parts = filter (λ c. not (elem c keys)) (v ∷ vs)

-- `insert_cols_order`
unfoldable pub insert_columns : List String → Option (List String) → List String → List String
unfolding distinct_into update_columns
insert_columns keys values parts =
    distinct_into [] (keys ++ update_columns keys values parts ++ parts)

-- `" AND (condition)"` where there is a condition.
abbrev and_condition : Option String → String
and_condition none = ""
and_condition (some condition) =
    if condition == "" then "" else concat " AND (" (concat condition ")")

module _ (is_alnum : Char → Bool) where
  unfoldable pub ident : String → Attempt MergeError String
  unfolding strip
  ident name =
      let cleaned = strip name in
      if cleaned == ""
      then raise empty_identifier
      else if all_chars (λ c. is_alnum c || eqb (code c) 95) cleaned
      then ok cleaned
      else ok (concat "`" (concat (double_quotes cleaned) "`"))

  -- A list of texts made of the identifiers of the names, or the first error.
  unfoldable pub each_ident : (String → String) → List String → Attempt MergeError (List String)
  unfolding ident
  each_ident f [] = ok []
  each_ident f (n ∷ ns) = do i ← ident n; rest ← each_ident f ns; ok (f i ∷ rest)

  unfoldable pub col_list : List String → String → Attempt MergeError String
  unfolding each_ident
  col_list names prefix = do
    guard (not (is_empty names)) empty_columns
    parts ← each_ident (λ i. concat prefix i) names
    ok (join ", " parts)

  -- `target.name = source.name`
  abbrev pub assignment : String → String → String → String
  assignment target_alias source_alias i =
      concat target_alias
        (concat "." (concat i (concat " = " (concat source_alias (concat "." i)))))

  unfoldable pub value_alias_list : List String → String → String → Attempt MergeError String
  unfolding each_ident
  value_alias_list names source_alias target_alias = do
    parts ← each_ident (assignment target_alias source_alias) names
    ok (join ", " parts)

  unfoldable pub merge_key_condition : List String → String → String → Attempt MergeError String
  unfolding each_ident
  merge_key_condition key_cols target_alias source_alias = do
    guard (not (is_empty key_cols)) no_key_column
    parts ← each_ident (assignment target_alias source_alias) key_cols
    ok (join " AND " parts)

  -- The parameters of `build_merge_into_sql`.
  pub record MergeRequest : Type 0 where
    pub target_table : String
    pub source_query : String
    pub key_columns : List String
    pub value_columns : Option (List String)
    pub partition_columns : List String
    pub target_alias : String
    pub source_alias : String
    pub when_matched_update : Bool
    pub when_not_matched_insert : Bool
    pub matched_condition : Option String
    pub not_matched_condition : Option String

  -- `WHEN MATCHED`, where there is something to set.
  unfoldable pub matched_clause : MergeRequest → List String → Attempt MergeError (List String)
  unfolding value_alias_list
  matched_clause r cols =
      if r.when_matched_update && not (is_empty cols)
      then (do
        set_clause ← value_alias_list cols r.source_alias r.target_alias
        ok (
            concat "  WHEN MATCHED"
              (concat (and_condition r.matched_condition) (concat " THEN UPDATE SET " set_clause))
            ∷ []))
      else ok []

  -- `WHEN NOT MATCHED`, where there is something to insert.
  unfoldable pub not_matched_clause : MergeRequest → List String → Attempt MergeError (List String)
  unfolding col_list
  not_matched_clause r cols =
      if r.when_not_matched_insert && not (is_empty cols)
      then (do
        columns ← col_list cols ""
        values ← col_list cols (if r.source_alias == "" then "" else concat r.source_alias ".")
        ok (
            concat "  WHEN NOT MATCHED" (
              concat (and_condition r.not_matched_condition) (
                concat " THEN INSERT (" (concat columns (concat ") VALUES (" (concat values ")")))))
            ∷ []))
      else ok []

  -- The statement, from its parts.
  abbrev pub merge_text : MergeRequest → String → List String → String
  merge_text r on_clause clauses = concat "MERGE INTO " (
      concat r.target_table (
        concat " " (
          concat r.target_alias (
            concat "\nUSING (" (
              concat r.source_query (
                concat ") " (
                  concat r.source_alias (
                    concat "\n  ON "
                      (concat on_clause (concat "\n" (concat (join "\n" clauses) "\n")))))))))))

  unfoldable pub build_merge_into_sql : MergeRequest → Attempt MergeError String
  unfolding update_columns insert_columns merge_key_condition matched_clause not_matched_clause
  build_merge_into_sql r = do
    guard (not (r.target_table == "")) no_target_table
    guard (not (r.source_query == "")) no_source_query
    guard (r.when_matched_update || r.when_not_matched_insert) no_clause
    on_clause ← merge_key_condition r.key_columns r.target_alias r.source_alias
    matched ← matched_clause r (update_columns r.key_columns r.value_columns r.partition_columns)
    not_matched ←
        not_matched_clause r (insert_columns r.key_columns r.value_columns r.partition_columns)
    ok (merge_text r on_clause (matched ++ not_matched))

  -- `build_merge_into_from_schema`: the columns of the schema that are no keys are the values.
  unfoldable pub from_schema :
      String → String → List String → List String → List String → MergeRequest
  unfolding elem
  from_schema target_table source_query schema_columns key_columns partition_columns = record {
    target_table = target_table;
    source_query = source_query;
    key_columns = key_columns;
    value_columns = some (filter (λ c. not (elem c key_columns)) schema_columns);
    partition_columns = partition_columns;
    target_alias = "t";
    source_alias = "s";
    when_matched_update = true;
    when_not_matched_insert = true;
    matched_condition = none;
    not_matched_condition = none;
  }

  unfoldable pub build_merge_into_from_schema :
      String → String → List String → List String → List String → Attempt MergeError String
  unfolding from_schema build_merge_into_sql
  build_merge_into_from_schema target_table source_query schema_columns key_columns
        partition_columns =
      build_merge_into_sql
        (from_schema target_table source_query schema_columns key_columns partition_columns)
