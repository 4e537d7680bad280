-- ===== src/Lineage.antt =====
-- src/elt_pipeline/shared/lineage_impact.py. A lineage event is a record of the fields that are read,
-- as src/elt_pipeline/shared/lineage.py writes them: text or nothing.
pub mod Search
pub mod Impact
pub mod Analysis
pub mod Report
mod Examples
use elt_pipeline.Prelude.{
  ℕ, String, Bool, true, false, not, Option, none, some, List, [], ◌∷◌, ◌++◌, ◌+◌, ◌==◌, ◌&&◌, ◌||◌,
  if◌then◌else◌, map, length, any, ltb,
}
use elt_pipeline.Prelude.Text.{concat}
use elt_pipeline.Prelude.Names.{elem, add, sorted}
use elt_pipeline.Prelude.Dict.{Dict, get, put, get_or}
use elt_pipeline.Lineage.Search.{bfs, Found}

pub record LineageEdge : Type 0 where
  pub source_dataset : String
  pub target_dataset : String
  pub source_column : Option String
  pub target_column : Option String

abbrev pub Column : Type 0
Column = String × String

pub record LineageGraph : Type 0 where
  pub edges : List LineageEdge
  pub table_parents : Dict (List String)
  pub table_children : Dict (List String)
  pub column_upstream : Dict (Dict (List Column))
  pub column_downstream : Dict (Dict (List Column))

abbrev pub empty_graph : LineageGraph
empty_graph = record {
  edges = [];
  table_parents = [];
  table_children = [];
  column_upstream = [];
  column_downstream = [];
}

abbrev pub same_column : Column → Column → Bool
same_column a b = a.0 == b.0 && a.1 == b.1

abbrev pub add_column : Column → List Column → List Column
add_column pair pairs = if any (same_column pair) pairs then pairs else pairs ++ pair ∷ []

-- `setdefault(key, [])`, and the name added if it is not there.
unfoldable pub link_table : Dict (List String) → String → String → Dict (List String)
unfolding get_or get put add elem
link_table table key name = put table key (add name (get_or table key []))

unfoldable pub link_column : Dict (Dict (List Column)) → Column → Column → Dict (Dict (List Column))
unfolding get_or get put
link_column table key pair =
    let columns : Dict (List Column) = get_or table key.0 [] in
    put table key.0 (put columns key.1 (add_column pair (get_or columns key.1 [])))

-- The name of a column, unless it is missing or empty.
abbrev pub given : Option String → Option String
given none = none
given (some s) = if s == "" then none else some s

abbrev pub link_columns : LineageEdge → Option String → Option String → LineageGraph → LineageGraph
link_columns edge (some target) (some source) graph =
    if edge.source_dataset == "" then graph else record graph {
      column_upstream =
          link_column graph.column_upstream (edge.target_dataset, target)
            (edge.source_dataset, source);
      column_downstream =
          link_column graph.column_downstream (edge.source_dataset, source)
            (edge.target_dataset, target);
    }
link_columns edge _ _ graph = graph

-- `LineageGraph.add_edge`
unfoldable pub add_edge : LineageEdge → LineageGraph → LineageGraph
unfolding link_table link_column
add_edge edge graph =
    link_columns edge (given edge.target_column) (given edge.source_column) (record graph {
      edges = graph.edges ++ edge ∷ [];
      table_parents = link_table graph.table_parents edge.target_dataset edge.source_dataset;
      table_children = link_table graph.table_children edge.source_dataset edge.target_dataset;
    })

unfoldable pub add_edges : List LineageEdge → LineageGraph → LineageGraph
unfolding add_edge
add_edges [] graph = graph
add_edges (edge ∷ edges) graph = add_edges edges (add_edge edge graph)

pub record InputField : Type 0 where
  pub namespace : Option String
  pub name : Option String
  pub field_name : Option String

pub record DatasetRef : Type 0 where
  pub namespace : Option String
  pub name : Option String
  pub fields : List (String × List InputField)

pub record LineageEvent : Type 0 where
  pub event_type : String
  pub job_namespace : Option String
  pub inputs : List DatasetRef
  pub outputs : List DatasetRef

-- `a or b`
abbrev pub or_given : Option String → String → String
or_given o default = elim (given o) [ some s ↦ s | none ↦ default ]

abbrev pub qualified : String → String → String
qualified namespace name =
    if namespace == "elt_pipeline" then name else concat namespace (concat ":" name)

-- `_build_dataset_fqn`
unfoldable pub build_dataset_fqn : LineageEvent → DatasetRef → String
build_dataset_fqn event ref =
    let ref_ns = or_given ref.namespace (or_given event.job_namespace "elt_pipeline") in
    elim (given ref.name) [ none ↦ "" | some name ↦ qualified ref_ns name ]

-- The edge of one input field, if it has a name and a column.
abbrev pub input_edge : String → String → InputField → List LineageEdge
input_edge target target_col inp = elim (given inp.name) [
  | none ↦ []
  | some name ↦ elim (given inp.field_name) [
    | none ↦ []
    | some source_col ↦
        record {
          source_dataset = qualified (or_given inp.namespace "elt_pipeline") name;
          target_dataset = target;
          source_column = some source_col;
          target_column = some target_col;
        }
        ∷ []
  ]
]

abbrev pub flat : {A B : Type 0} → (A → List B) → List A → List B
flat f [] = []
flat f (x ∷ xs) = f x ++ flat f xs

-- `_extract_column_lineage_from_output_facet`
unfoldable pub extract_column_lineage : String → List (String × List InputField) → List LineageEdge
extract_column_lineage target fields = flat (λ f. flat (input_edge target f.0) f.1) fields

abbrev pub filled : List String → List String
filled [] = []
filled (s ∷ ss) = let rest = filled ss in if s == "" then rest else s ∷ rest

abbrev pub table_edge : String → String → LineageEdge
table_edge target source = record {
  source_dataset = source;
  target_dataset = target;
  source_column = none;
  target_column = none;
}

unfoldable pub output_edges : LineageEvent → DatasetRef → List LineageEdge
unfolding build_dataset_fqn extract_column_lineage
output_edges event out =
    let target = build_dataset_fqn event out in
    let sources = filled (map (build_dataset_fqn event) event.inputs) in
    if target == ""
    then []
    else map (table_edge target) sources ++ extract_column_lineage target out.fields

unfoldable pub event_edges : LineageEvent → List LineageEdge
unfolding output_edges
event_edges event =
    if event.event_type == "COMPLETE" then flat (output_edges event) event.outputs else []

-- `build_lineage_graph`, for the events in the order in which they are read.
unfoldable pub build_lineage_graph : List LineageEvent → LineageGraph
unfolding add_edges event_edges
build_lineage_graph events = add_edges (flat event_edges events) empty_graph

abbrev pub Direction : Type 0
Direction = Bool

abbrev pub upstream : Direction
upstream = true

abbrev pub downstream : Direction
downstream = false

unfoldable pub table_neighbours : LineageGraph → Direction → String → List String
unfolding get_or get
table_neighbours graph direction node =
    get_or (if direction then graph.table_parents else graph.table_children) node []

unfoldable pub column_neighbours : LineageGraph → Direction → Column → List Column
unfolding get_or get
column_neighbours graph direction node =
    let columns : Dict (List Column) =
      get_or (if direction then graph.column_upstream else graph.column_downstream) node.0 [] in
    get_or columns node.1 []

-- The neighbours of all nodes of an adjacency.
abbrev pub all_tables : Dict (List String) → List String
all_tables [] = []
all_tables ((k, names) ∷ table) = names ++ all_tables table

abbrev pub all_columns : Dict (Dict (List Column)) → List Column
all_columns [] = []
all_columns ((k, columns) ∷ table) = flat (λ e. e.1) columns ++ all_columns table

-- `_bfs_table`. Each name is queued once, so there are no more rounds than neighbours, and one.
unfoldable pub bfs_table : LineageGraph → String → Direction → ℕ → Option (List (Found String))
unfolding table_neighbours
bfs_table graph start_dataset direction max_depth =
    bfs ◌==◌ (table_neighbours graph direction) max_depth
      (1 + length (all_tables (if direction then graph.table_parents else graph.table_children)))
      start_dataset

-- `_bfs_columns`
unfoldable pub bfs_columns : LineageGraph → Column → Direction → ℕ → Option (List (Found Column))
unfolding column_neighbours
bfs_columns graph start direction max_depth =
    bfs same_column (column_neighbours graph direction) max_depth
      (1
        + length
            (all_columns (if direction then graph.column_upstream else graph.column_downstream)))
      start
