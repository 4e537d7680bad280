-- ===== src/Lineage/Impact.antt =====
-- The searches of `run_lineage_impact_analysis` in the graph of the lineage events.
use elt_pipeline.Prelude.{
  ℕ, String, Bool, true, ◌≡◌, refl, inl, inr, some, List, [], ◌∷◌, ◌++◌, ◌+◌, ◌==◌, if◌then◌else◌,
  Bool-cases, Option-cases, arith, All, eq_refl, length,
}
use elt_pipeline.Prelude.Dict.{Dict, get, get_or}
use elt_pipeline.Lineage.{
  LineageGraph, Column, Direction, table_neighbours, column_neighbours, all_tables, all_columns,
  bfs_table, bfs_columns, same_column, flat,
}
use elt_pipeline.Lineage.Search.{Found, bfs}
use elt_pipeline.Lineage.Search.Ends.{IsListed, AllListed, bfs_ends}
use elt_pipeline.Lineage.Search.Paths.{IsFound, bfs-IsFound}

same_column_refl : (c : Column) → same_column c c ≡ true
same_column_refl c = ground (arith, eq_refl c.0, eq_refl c.1)

module _ {N : Type 0} (same : N → N → Bool) (neighbours : N → List N) (depth : ℕ)
    (same_refl : (n : N) → same n n ≡ true) where
  abbrev Listed : N → List N → Type 0
  Listed = IsListed same neighbours depth same_refl

  abbrev ListedAll : List N → List N → Type 0
  ListedAll = AllListed same neighbours depth same_refl

  Listed-left : (n : N) (ns ms : List N) → Listed n ns → Listed n (ns ++ ms)
  Listed-left n [] ms i = absurd i
  Listed-left n (k ∷ ns) ms (inl e) = inl e
  Listed-left n (k ∷ ns) ms (inr i) = inr (Listed-left n ns ms i)

  Listed-right : (n : N) (ns ms : List N) → Listed n ms → Listed n (ns ++ ms)
  Listed-right n [] ms i = i
  Listed-right n (k ∷ ns) ms i = inr (Listed-right n ns ms i)

  all_in : (xs ys : List N) → ((n : N) → Listed n xs → Listed n ys) → ListedAll ys xs
  all_in [] ys h = tt
  all_in (x ∷ xs) ys h = (h x (inl refl), all_in xs ys (λ n i. h n (inr i)))

  -- The search of a finite graph gives a result, and all of it is reachable.
  search_result :
      (nodes : List N) (start : N)
      → ((n m : N) → Listed m (neighbours n) → Listed m nodes)
      → (results : List (Found N)) × (bfs same neighbours depth (1 + length nodes) start
          ≡ some results)
        × All (IsFound same neighbours depth start) results
  search_result nodes start h =
      elim (Option-cases (bfs same neighbours depth (1 + length nodes) start)) [
        | inl e ↦ absurd (
            bfs_ends same neighbours depth same_refl nodes (λ n. all_in (neighbours n) nodes (h n))
              start e)
        | inr (results, e) ↦
            (results, e, bfs-IsFound same neighbours depth start (1 + length nodes) results e)
      ]

module _ (graph : LineageGraph) (direction : Direction) (depth : ℕ) where
  tables-Listed :
      (table : Dict (List String)) (n m : String)
      → Listed ◌==◌ (table_neighbours graph direction) depth eq_refl m (get_or table n [])
      → Listed ◌==◌ (table_neighbours graph direction) depth eq_refl m (all_tables table)
  unfolding get_or get
  tables-Listed [] n m i = i
  tables-Listed ((k, names) ∷ table) n m i = elim (Bool-cases (k == n)) [
    | inl here ↦
        Listed-left ◌==◌ (table_neighbours graph direction) depth eq_refl m names (all_tables table)
          (rw here at i)
    | inr there ↦
        Listed-right ◌==◌ (table_neighbours graph direction) depth eq_refl m names
          (all_tables table) (tables-Listed table n m (rw there at i))
  ]

  -- The search over tables gives a result; and each table of it, with its depth, is the end of a path
  -- of that many steps from the start, at least one and at most the depth that is asked for.
  pub bfs_table_result :
      (start : String)
      → (results : List (Found String)) × (bfs_table graph start direction depth ≡ some results)
        × All (IsFound ◌==◌ (table_neighbours graph direction) depth start) results
  unfolding bfs_table
  bfs_table_result start =
      search_result ◌==◌ (table_neighbours graph direction) depth eq_refl
        (all_tables (if direction then graph.table_parents else graph.table_children)) start
        (λ n m i.
          tables-Listed (if direction then graph.table_parents else graph.table_children) n m i)

  abbrev ColumnListed : Column → List Column → Type 0
  ColumnListed = Listed same_column (column_neighbours graph direction) depth same_column_refl

  columns-Listed :
      (columns : Dict (List Column)) (n : String) (m : Column)
      → ColumnListed m (get_or columns n [])
      → ColumnListed m (flat (λ e. e.1) columns)
  unfolding get_or get
  columns-Listed [] n m i = i
  columns-Listed ((k, cs) ∷ columns) n m i = elim (Bool-cases (k == n)) [
    | inl here ↦
        Listed-left same_column (column_neighbours graph direction) depth same_column_refl m cs
          (flat (λ e. e.1) columns) (rw here at i)
    | inr there ↦
        Listed-right same_column (column_neighbours graph direction) depth same_column_refl m cs
          (flat (λ e. e.1) columns) (columns-Listed columns n m (rw there at i))
  ]

  nested-Listed :
      (table : Dict (Dict (List Column))) (n m : Column)
      → ColumnListed m (get_or (get_or table n.0 []) n.1 [])
      → ColumnListed m (all_columns table)
  unfolding get_or get
  nested-Listed [] n m i = i
  nested-Listed ((k, columns) ∷ table) n m i = elim (Bool-cases (k == n.0)) [
    | inl here ↦
        Listed-left same_column (column_neighbours graph direction) depth same_column_refl m
          (flat (λ e. e.1) columns) (all_columns table)
          (columns-Listed columns n.1 m (rw here at i))
    | inr there ↦
        Listed-right same_column (column_neighbours graph direction) depth same_column_refl m
          (flat (λ e. e.1) columns) (all_columns table) (nested-Listed table n m (rw there at i))
  ]

  -- The search over columns gives a result; and each column of it, with its depth, is the end of a
  -- path of that many steps from the start, at least one and at most the depth that is asked for.
  pub bfs_columns_result :
      (start : Column)
      → (results : List (Found Column)) × (bfs_columns graph start direction depth ≡ some results)
        × All (IsFound same_column (column_neighbours graph direction) depth start) results
  unfolding bfs_columns
  bfs_columns_result start =
      search_result same_column (column_neighbours graph direction) depth same_column_refl
        (all_columns (if direction then graph.column_upstream else graph.column_downstream)) start
        (λ n m i.
          nested-Listed (if direction then graph.column_upstream else graph.column_downstream) n m
            i)
