-- ===== src/Lineage/Analysis.antt =====
-- `run_lineage_impact_analysis` and `_build_display_lines` of
-- src/elt_pipeline/shared/lineage_impact.py, for the events of the lineage files.
use elt_pipeline.Prelude.{
  ℕ, String, Bool, Option, none, some, List, [], ◌∷◌, ◌++◌, ◌==◌, ◌&&◌, ◌||◌, map, sort, eqb, ltb,
  if◌then◌else◌, Attempt, ok, raise, ◌>>=◌, ◌>>◌, guard, is_empty, not,
}
use Prim.Native.Char.{code}
use elt_pipeline.Prelude.Text.{concat, decimal}
use elt_pipeline.Prelude.Names.{add, sorted, leb_name}
use elt_pipeline.Lineage.{
  LineageGraph, LineageEvent, Column, upstream, downstream, bfs_table, bfs_columns,
  build_lineage_graph,
}
use elt_pipeline.Lineage.Search.{Found}

pub data ImpactError : Type 0 where
  depth_too_small column_form out_of_rounds : ImpactError

-- `column.rsplit(".", 1)`: the two pieces about the last dot.
unfoldable pub rsplit_dot : String → Option (String × String)
rsplit_dot String.[] = none
rsplit_dot (String.◌∷◌ c s) = elim (rsplit_dot s) [
  | some parts ↦ some (String.◌∷◌ c parts.0, parts.1)
  | none ↦ if eqb (code c) 46 then some ("", s) else none
]

-- The order of `(depth, dataset, column)`.
unfoldable pub col_sort : Found Column → Found Column → Bool
unfolding leb_name
col_sort ((d, c), i) ((e, f), j) =
    ltb i j || eqb i j && (not (d == e) && leb_name d e || d == e && leb_name c f)

pub record Impact : Type 0 where
  pub datasets : List String
  pub columns : List (Found Column)

pub record ImpactReport : Type 0 where
  pub dataset : String
  pub column_name : String
  pub depth : ℕ
  pub up : Impact
  pub down : Impact

abbrev pub add_all : List String → List String → List String
add_all [] set = set
add_all (n ∷ ns) set = add_all ns (add n set)

abbrev pub finished : {A : Type 0} → Option A → Attempt ImpactError A
finished none = raise out_of_rounds
finished (some a) = ok a

-- The tables of the columns found and the tables found, and the columns in order.
unfoldable pub impact_of : List (Found Column) → List (Found String) → Impact
unfolding add sorted col_sort
impact_of columns tables = record {
  datasets = sorted (add_all (map (λ r. r.0) tables) (add_all (map (λ r. r.0.0) columns) []));
  columns = sort col_sort columns;
}

unfoldable pub analyse : LineageGraph → Column → ℕ → Attempt ImpactError ImpactReport
unfolding bfs_columns bfs_table impact_of
analyse graph start depth = do
  upstream_cols ← finished (bfs_columns graph start upstream depth)
  downstream_cols ← finished (bfs_columns graph start downstream depth)
  upstream_rows ← finished (bfs_table graph start.0 upstream depth)
  downstream_rows ← finished (bfs_table graph start.0 downstream depth)
  ok (record {
    dataset = start.0;
    column_name = start.1;
    depth = depth;
    up = impact_of upstream_cols upstream_rows;
    down = impact_of downstream_cols downstream_rows;
  })

abbrev pub split_column : String → Attempt ImpactError Column
split_column column = elim (rsplit_dot column) [ none ↦ raise column_form | some c ↦ ok c ]

unfoldable pub run_lineage_impact_analysis :
    List LineageEvent → String → ℕ → Attempt ImpactError ImpactReport
unfolding rsplit_dot analyse build_lineage_graph
run_lineage_impact_analysis events column depth = do
  guard (ltb 0 depth) depth_too_small
  start ← split_column column
  analyse (build_lineage_graph events) start depth

abbrev repeat_equals : String → String
repeat_equals String.[] = ""
repeat_equals (String.◌∷◌ c s) = concat "=" (repeat_equals s)

abbrev join_comma : List String → String
join_comma [] = ""
join_comma (s ∷ []) = s
join_comma (s ∷ t ∷ ts) = concat s (concat ", " (join_comma (t ∷ ts)))

abbrev column_line : Found Column → String
column_line ((d, c), i) =
    concat "    depth=" (concat (decimal i) (concat "  " (concat d (concat "." c))))

abbrev impact_lines : Impact → List String
impact_lines impact =
    if is_empty impact.datasets
    then "  (none found)" ∷ []
    else concat "  datasets affected: " (join_comma impact.datasets)
      ∷ (if is_empty impact.columns then [] else "  columns:" ∷ map column_line impact.columns)

-- `_build_display_lines`
unfoldable pub build_display_lines : ImpactReport → List String
unfolding decimal
build_display_lines r =
    let title = concat "Impact analysis for column: " (
      concat r.dataset
        (concat "." (concat r.column_name (concat " (depth=" (concat (decimal r.depth) ")"))))) in
    (title ∷ repeat_equals title ∷ "" ∷ "UPSTREAM dependencies (ancestors):" ∷ [])
    ++ impact_lines r.up
    ++ ("" ∷ "DOWNSTREAM dependencies (descendants):" ∷ [])
    ++ impact_lines r.down
