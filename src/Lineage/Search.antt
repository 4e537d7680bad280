-- ===== src/Lineage/Search.antt =====
-- The breadth-first search that `_bfs_table` and `_bfs_columns` share, for nodes of any type.
pub mod Ends
pub mod Paths
use elt_pipeline.Prelude.{
  ℕ, zero, suc, Bool, true, false, Option, none, some, List, [], ◌∷◌, ◌++◌, if◌then◌else◌, any, ltb,
  leb,
}

-- A node with its depth.
abbrev pub Found : Type 0 → Type 0
Found N = N × ℕ

module _ {N : Type 0} (same : N → N → Bool) (neighbours : N → List N) (max_depth : ℕ) where
  abbrev pub visited_in : N → List N → Bool
  visited_in n visited = any (same n) visited

  -- The queue and the visited nodes after the neighbours of a node at a depth.
  unfoldable pub push_neighbours : ℕ → List N → List (Found N) → List N → List (Found N) × List N
  push_neighbours depth [] queue visited = (queue, visited)
  push_neighbours depth (n ∷ ns) queue visited =
      let skip = push_neighbours depth ns queue visited in
      let take = push_neighbours depth ns (queue ++ (n, suc depth) ∷ []) (n ∷ visited) in
      if visited_in n visited then skip else take

  -- What a node adds to the results.
  abbrev pub reported : N → ℕ → List (Found N)
  reported n depth = if ltb 0 depth then (n, depth) ∷ [] else []

  abbrev pub expanded : N → ℕ → List N
  expanded n depth = if leb max_depth depth then [] else neighbours n

  -- `while queue`, with the rounds that are left.
  unfoldable pub search : ℕ → List (Found N) → List N → List (Found N) → Option (List (Found N))
  unfolding push_neighbours
  search zero [] visited results = some results
  search zero (x ∷ queue) visited results = none
  search (suc fuel) [] visited results = some results
  search (suc fuel) ((n, depth) ∷ queue) visited results =
      let pushed = push_neighbours depth (expanded n depth) queue visited in
      search fuel pushed.0 pushed.1 (results ++ reported n depth)

  unfoldable pub bfs : ℕ → N → Option (List (Found N))
  unfolding search
  bfs fuel start = search fuel ((start, 0) ∷ []) [] []
