-- ===== src/Lineage/Search/Ends.antt =====
-- The search ends within a round for each node that can be queued, and one for the start.
use elt_pipeline.Prelude.{
  ℕ, zero, suc, Bool, true, false, ◌≡◌, ◌≢◌, refl, inl, inr, none, List, [], ◌∷◌, ◌++◌, ◌+◌, ◌≤◌,
  ◌<◌, if◌then◌else◌, Bool-cases, length, length-append, leb, arith, ◌⊎◌, subst,
}
use elt_pipeline.Lineage.Search.{
  Found, visited_in, push_neighbours, expanded, search, bfs, reported,
}

module _ {N : Type 0} (same : N → N → Bool) (neighbours : N → List N) (max_depth : ℕ)
    (same_refl : (n : N) → same n n ≡ true) where
  -- How many of the nodes have not been visited.
  abbrev unvisited : List N → List N → ℕ
  unvisited visited [] = 0
  unvisited visited (n ∷ ns) =
      (if visited_in same neighbours max_depth n visited then 0 else 1) + unvisited visited ns

  unvisited_mono :
      (n : N) (visited nodes : List N) → unvisited (n ∷ visited) nodes ≤ unvisited visited nodes
  unvisited_mono n visited [] = omega arith
  unvisited_mono n visited (m ∷ nodes) = ground (arith, unvisited_mono n visited nodes)

  -- The node stands in the list, up to `same`, at the place that is tested.
  abbrev pub IsListed : N → List N → Type 0
  IsListed n [] = ⊥
  IsListed n (m ∷ ms) = (n ≡ m) ⊎ IsListed n ms

  unvisited_less :
      (n : N) (visited nodes : List N)
      → IsListed n nodes
      → visited_in same neighbours max_depth n visited ≡ false
      → unvisited (n ∷ visited) nodes < unvisited visited nodes
  unvisited_less n visited [] i h = absurd i
  unvisited_less n visited (m ∷ nodes) (inl here) h =
      subst (λ k. unvisited (n ∷ visited) (k ∷ nodes) < unvisited visited (k ∷ nodes)) here
        (ground (arith, same_refl n, h, unvisited_mono n visited nodes))
  unvisited_less n visited (m ∷ nodes) (inr later) h =
      ground (arith, unvisited_less n visited nodes later h)

  module _ (nodes : List N) where
    abbrev pub AllListed : List N → Type 0
    AllListed [] = Unit
    AllListed (n ∷ ns) = IsListed n nodes × AllListed ns

    push_measure :
        (depth : ℕ) (ns : List N) (queue : List (Found N)) (visited : List N)
        → AllListed ns
        → let pushed = push_neighbours same neighbours max_depth depth ns queue visited in
          length pushed.0 + unvisited pushed.1 nodes ≤ length queue + unvisited visited nodes
    unfolding push_neighbours
    push_measure depth [] queue visited h = omega arith
    push_measure depth (n ∷ ns) queue visited h =
        elim (Bool-cases (visited_in same neighbours max_depth n visited)) [
          | inl seen ↦ rw seen (push_measure depth ns queue visited h.1)
          | inr new ↦ rw new (
              omega (
                arith,
                push_measure depth ns (queue ++ (n, suc depth) ∷ []) (n ∷ visited) h.1,
                length-append queue ((n, suc depth) ∷ []),
                unvisited_less n visited nodes h.0 new,
              ))
        ]

    expanded_listed :
        ((n : N) → AllListed (neighbours n))
        → (n : N) (depth : ℕ) → AllListed (expanded same neighbours max_depth n depth)
    expanded_listed h n depth = elim (Bool-cases (leb max_depth depth)) [
      | inl deep ↦ rw deep tt
      | inr shallow ↦ rw shallow (h n)
    ]

    search_ends :
        ((n : N) → AllListed (neighbours n))
        → (fuel : ℕ) (queue : List (Found N)) (visited : List N) (results : List (Found N))
        → length queue + unvisited visited nodes ≤ fuel
        → search same neighbours max_depth fuel queue visited results ≢ none
    unfolding search
    search_ends h zero [] visited results few = λ e. cc
    search_ends h zero (x ∷ queue) visited results few = absurd (omega arith)
    search_ends h (suc fuel) [] visited results few = λ e. cc
    search_ends h (suc fuel) ((n, depth) ∷ queue) visited results few =
        let pushed =
          push_neighbours same neighbours max_depth depth
            (expanded same neighbours max_depth n depth) queue visited in
        search_ends h fuel pushed.0 pushed.1 (results ++ reported same neighbours max_depth n depth)
          (omega (
            arith,
            few,
            push_measure depth (expanded same neighbours max_depth n depth) queue visited
                (expanded_listed h n depth),
          ))

    unvisited_all : (ns : List N) → unvisited [] ns ≡ length ns
    unvisited_all [] = refl
    unvisited_all (n ∷ ns) = omega (arith, unvisited_all ns)

    -- With a round for each node of a list that has all neighbours, and one, the search gives a result.
    pub bfs_ends :
        ((n : N) → AllListed (neighbours n))
        → (start : N) → bfs same neighbours max_depth (1 + length nodes) start ≢ none
    unfolding bfs
    bfs_ends h start =
        search_ends h (1 + length nodes) ((start, 0) ∷ []) [] []
          (omega (arith, unvisited_all nodes))
