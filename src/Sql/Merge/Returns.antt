-- ===== src/Sql/Merge/Returns.antt =====
-- When a MERGE is written.
use elt_pipeline.Prelude.{
  String, Bool, true, false, not, ◌≡◌, refl, inl, inr, Option, none, some, List, [], ◌∷◌, ◌==◌,
  ◌&&◌, ◌||◌, if◌then◌else◌, Bool-cases, arith, Attempt, ok, is_empty, eqb, eq_refl, ◌++◌,
}
use Prim.Native.Char.{Char, code}
use elt_pipeline.Prelude.Text.{strip, concat}
use elt_pipeline.Prelude.Names.{elem, count-of_elem}
use elt_pipeline.Sql.Merge.Columns.{
  insert_columns_once, update_columns_values, update_columns_default,
}
use elt_pipeline.Sql.Merge.{
  MergeError, MergeRequest, all_chars, double_quotes, assignment, join, merge_text, ident,
  each_ident, col_list, value_alias_list, merge_key_condition, matched_clause, not_matched_clause,
  build_merge_into_sql, update_columns, insert_columns,
}

-- None of the names is blank.
abbrev pub AllNamed : List String → Type 0
AllNamed names = (n : String) → elem n names ≡ true → (strip n == "") ≡ false

module _ (is_alnum : Char → Bool) where
  abbrev Gives : {A : Type 0} → Attempt MergeError A → Type 0
  Gives {A} a = (v : A) × (a ≡ ok v)

  ident_returns : (n : String) → (strip n == "") ≡ false → Gives (ident is_alnum n)
  unfolding ident
  ident_returns n h = elim (Bool-cases (all_chars (λ c. is_alnum c || eqb (code c) 95) (strip n))) [
    | inl plain ↦ (strip n, rw (h, plain) refl)
    | inr quoted ↦ (concat "`" (concat (double_quotes (strip n)) "`"), rw (h, quoted) refl)
  ]

  each_ident_returns :
      (f : String → String) (names : List String)
      → AllNamed names
      → Gives (each_ident is_alnum f names)
  unfolding each_ident elem
  each_ident_returns f [] h = ([], refl)
  each_ident_returns f (n ∷ ns) h =
      let (i, e) = ident_returns n (h n (ground (arith, eq_refl n))) in
      let (rest, g) = each_ident_returns f ns (λ m j. h m (ground arith)) in
      (f i ∷ rest, rw (e, g) refl)

  col_list_returns :
      (names : List String) (prefix : String)
      → not (is_empty names) ≡ true
      → AllNamed names
      → Gives (col_list is_alnum names prefix)
  unfolding col_list
  col_list_returns names prefix filled h =
      let (parts, e) = each_ident_returns (λ i. concat prefix i) names h in
      (join ", " parts, rw (filled, e) refl)

  matched_returns :
      (r : MergeRequest is_alnum) (cols : List String)
      → AllNamed cols
      → Gives (matched_clause is_alnum r cols)
  unfolding matched_clause value_alias_list
  matched_returns r cols h = elim (Bool-cases (r.when_matched_update && not (is_empty cols))) [
    | inr out ↦ rw out ([], refl)
    | inl some_cols ↦
        let (parts, e) =
          each_ident_returns (assignment is_alnum r.target_alias r.source_alias) cols h in
        rw some_cols (rw e (_, refl))
  ]

  not_matched_returns :
      (r : MergeRequest is_alnum) (cols : List String)
      → AllNamed cols
      → Gives (not_matched_clause is_alnum r cols)
  unfolding not_matched_clause
  not_matched_returns r cols h =
      elim (Bool-cases (r.when_not_matched_insert && not (is_empty cols))) [
        | inr out ↦ rw out ([], refl)
        | inl some_cols ↦
            let filled : not (is_empty cols) ≡ true = ground arith in
            let (columns, e) = col_list_returns cols "" filled h in
            let (values, f) =
              col_list_returns cols (if r.source_alias == "" then "" else concat r.source_alias ".")
                filled h in
            rw some_cols (rw (e, f) (_, refl))
      ]

  abbrev pub values_of : Option (List String) → List String
  values_of none = []
  values_of (some vs) = vs

  named_update :
      (keys parts : List String) (values : Option (List String))
      → AllNamed keys
      → AllNamed (values_of values)
      → AllNamed parts
      → AllNamed (update_columns keys values parts)
  unfolding update_columns
  named_update keys parts none k v p n i = ground (arith, elem-default n, k n, p n)
    where
      elem-default :
          (n : String) → elem n (update_columns keys none parts) ≡ (elem n parts || elem n keys)
      elem-default n = update_columns_default n keys parts
  named_update keys parts (some []) k v p n i =
      ground (arith, update_columns_default n keys parts, k n, p n)
  named_update keys parts (some (x ∷ xs)) k v p n i =
      v n (ground (arith, update_columns_values n keys x xs parts))

  named_insert :
      (keys parts : List String) (values : Option (List String))
      → AllNamed keys
      → AllNamed (values_of values)
      → AllNamed parts
      → AllNamed (insert_columns keys values parts)
  named_insert keys parts values k v p n i = ground (
    arith,
    k n,
    p n,
    named_update keys parts values k v p n,
    insert_columns_once n keys values parts,
    count-of_elem n (insert_columns keys values parts) i,
  )

  -- A MERGE into a named table from a query is written, if there is a key column, at least one of the
  -- two clauses is asked for, and none of the key, value and partition columns is blank.
  pub build_merge_into_sql_returns :
      (r : MergeRequest is_alnum)
      → (r.target_table == "") ≡ false
      → (r.source_query == "") ≡ false
      → (r.when_matched_update || r.when_not_matched_insert) ≡ true
      → is_empty r.key_columns ≡ false
      → AllNamed r.key_columns
      → AllNamed (values_of r.value_columns)
      → AllNamed r.partition_columns
      → (sql : String) × (build_merge_into_sql is_alnum r ≡ ok sql)
  unfolding build_merge_into_sql merge_key_condition
  build_merge_into_sql_returns r t q c e k v p =
      let (conjuncts, ons) =
        each_ident_returns (assignment is_alnum r.target_alias r.source_alias) r.key_columns k in
      let (matched, m) =
        matched_returns r (update_columns r.key_columns r.value_columns r.partition_columns)
          (named_update r.key_columns r.partition_columns r.value_columns k v p) in
      let (not_matched, n) =
        not_matched_returns r (insert_columns r.key_columns r.value_columns r.partition_columns)
          (named_insert r.key_columns r.partition_columns r.value_columns k v p) in
      (
        merge_text is_alnum r (join " AND " conjuncts) (matched ++ not_matched),
        rw (t, q, c, e, ons) (rw (m, n) refl),
      )
