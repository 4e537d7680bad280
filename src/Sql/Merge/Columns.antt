-- ===== src/Sql/Merge/Columns.antt =====
-- The columns of the two clauses of a MERGE.
use elt_pipeline.Prelude.{
  String, Bool, true, false, not, ◌≡◌, refl, ◌∙◌, inl, inr, Option, some, List, [], ◌∷◌, ◌++◌, ◌&&◌,
  ◌||◌, ◌≤◌, filter, if◌then◌else◌, Bool-cases, arith, eq_iff, is_empty,
}
use Prim.Native.Char.{Char}
use elt_pipeline.Prelude.Names.{
  elem, add, count, elem-append, elem-add, elem-filter, count-append, count-of_not_elem,
  elem-of_count, count-of_elem,
}
use elt_pipeline.Schedule.Model.{bit}
use elt_pipeline.Sql.Merge.{
  distinct_into, update_columns, insert_columns, from_schema, MergeRequest,
}

pub elem-distinct_into :
    (n : String) (seen cols : List String)
    → elem n (distinct_into seen cols) ≡ (elem n seen || elem n cols)
unfolding distinct_into elem
elem-distinct_into n seen [] = ground arith
elem-distinct_into n seen (c ∷ cols) =
    ground (arith, elem-distinct_into n (add c seen) cols, elem-add n c seen)

count-add : (n c : String) (seen : List String) → count n seen ≤ 1 → count n (add c seen) ≤ 1
unfolding add count
count-add n c seen h = elim (Bool-cases (elem c seen)) [
  | inl there ↦ rw there h
  | inr new ↦
      rw new
        (ground (arith, count-append n seen (c ∷ []), count-of_not_elem c seen new, eq_iff n c))
]

count-distinct_into :
    (n : String) (seen cols : List String)
    → count n seen ≤ 1
    → count n (distinct_into seen cols) ≤ 1
unfolding distinct_into
count-distinct_into n seen [] h = h
count-distinct_into n seen (c ∷ cols) h =
    count-distinct_into n (add c seen) cols (count-add n c seen h)

count_nil : (n : String) → count n [] ≤ 1
unfolding count
count_nil n = omega arith

elem_nil : (n : String) → elem n [] ≡ false
unfolding elem
elem_nil n = refl

-- The INSERT clause names each key, each updated and each partition column once, and no other.
pub insert_columns_once :
    (n : String) (keys : List String) (values : Option (List String)) (parts : List String)
    → count n (insert_columns keys values parts)
      ≡ bit (elem n keys || elem n (update_columns keys values parts) || elem n parts)
unfolding insert_columns
insert_columns_once n keys values parts =
    let all_cols = keys ++ update_columns keys values parts ++ parts in
    ground (
      arith,
      count-distinct_into n [] all_cols (count_nil n),
      elem-distinct_into n [] all_cols,
      elem_nil n,
      elem-append n (keys ++ update_columns keys values parts) parts,
      elem-append n keys (update_columns keys values parts),
      elem-of_count n (distinct_into [] all_cols),
      count-of_elem n (distinct_into [] all_cols),
      count-of_not_elem n (distinct_into [] all_cols),
    )

-- The columns that the UPDATE clause sets.
pub update_columns_values :
    (n : String) (keys : List String) (v : String) (vs parts : List String)
    → elem n (update_columns keys (some (v ∷ vs)) parts) ≡ (elem n (v ∷ vs) && not (elem n keys))
unfolding update_columns
update_columns_values n keys v vs parts = elem-filter (λ c. not (elem c keys)) n (v ∷ vs)

pub update_columns_default :
    (n : String) (keys parts : List String)
    → elem n (update_columns keys (some []) parts) ≡ (elem n parts || elem n keys)
unfolding update_columns elem
update_columns_default n keys parts =
    elem-distinct_into n [] (parts ++ keys) ∙ elem-append n parts keys

module _ (is_alnum : Char → Bool) (target query : String) (schema keys parts : List String) where
  abbrev request : MergeRequest is_alnum
  request = from_schema is_alnum target query schema keys parts

  abbrev pub updated : List String
  updated = update_columns keys request.value_columns parts

  abbrev pub inserted : List String
  inserted = insert_columns keys request.value_columns parts

  abbrev pub values : List String
  values = filter (λ c. not (elem c keys)) schema

  update_cases :
      (n : String) (vs : List String)
      → elem n (update_columns keys (some vs) parts)
        ≡ (if is_empty vs then elem n parts || elem n keys else elem n vs && not (elem n keys))
  update_cases n [] = update_columns_default n keys parts
  update_cases n (v ∷ vs) = update_columns_values n keys v vs parts

  -- A MERGE from a schema inserts each column of the schema, of the keys and of the partitions once.
  -- It updates the columns of the schema that are no keys; and if there is none, it updates the
  -- partition columns and the keys instead.
  pub from_schema_columns :
      (n : String)
      → (count n inserted ≡ bit (elem n schema || elem n keys || elem n parts))
        × (elem n updated ≡ (
            if is_empty values
            then elem n parts || elem n keys
            else elem n schema && not (elem n keys)))
  unfolding from_schema
  from_schema_columns n =
      let kept = elem-filter (λ c. not (elem c keys)) n schema in
      (
        ground (
          arith,
          insert_columns_once n keys (some values) parts,
          update_cases n values,
          kept,
          none_kept values,
        ),
        ground (arith, update_cases n values, kept),
      )
    where
      none_kept : (vs : List String) → is_empty vs ≡ true → elem n vs ≡ false
      none_kept [] e = elem_nil n
      none_kept (v ∷ vs) e = cc
