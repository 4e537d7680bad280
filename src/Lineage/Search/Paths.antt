-- ===== src/Lineage/Search/Paths.antt =====
-- What the search finds is reachable, in as many steps as its depth says.
use elt_pipeline.Prelude.{
  ℕ, zero, suc, Bool, ◌≡◌, refl, inl, inr, Option, none, some, List, [], ◌∷◌, ◌++◌, ◌≤◌, ◌<◌,
  Bool-cases, arith, All, leb, ltb, ltb→lt, subst,
}
use elt_pipeline.Lineage.Search.{
  Found, visited_in, push_neighbours, expanded, search, bfs, reported,
}
use elt_pipeline.Ingest.State.Seeds.{In}

module _ {N : Type 0} (same : N → N → Bool) (neighbours : N → List N) (max_depth : ℕ)
    (start : N) where
  -- A path of steps from a node to one of its neighbours.
  pub data IsPath : ℕ → N → Type 0 where
    here : IsPath zero start
    step : {k : ℕ} {m n : N} → IsPath k m → In n (neighbours m) → IsPath (suc k) n

  abbrev IsReached : Found N → Type 0
  IsReached (n, depth) = IsPath depth n × (depth ≤ max_depth)

  abbrev pub IsFound : Found N → Type 0
  IsFound (n, depth) = IsPath depth n × (0 < depth) × (depth ≤ max_depth)

  All-append :
      (P : Found N → Type 0) (xs ys : List (Found N)) → All P xs → All P ys → All P (xs ++ ys)
  All-append P [] ys h k = k
  All-append P (x ∷ xs) ys h k = (h.0, All-append P xs ys h.1 k)

  push-IsReached :
      (depth : ℕ) (m : N) (ns : List N) (queue : List (Found N)) (visited : List N)
      → IsPath depth m
      → suc depth ≤ max_depth
      → ((n : N) → In n ns → In n (neighbours m))
      → All IsReached queue
      → All IsReached (push_neighbours same neighbours max_depth depth ns queue visited).0
  unfolding push_neighbours
  push-IsReached depth m [] queue visited p d h q = q
  push-IsReached depth m (n ∷ ns) queue visited p d h q =
      elim (Bool-cases (visited_in same neighbours max_depth n visited)) [
        | inl seen ↦ rw seen (push-IsReached depth m ns queue visited p d (λ k i. h k (inr i)) q)
        | inr new ↦ rw new (
            push-IsReached depth m ns (queue ++ (n, suc depth) ∷ []) (n ∷ visited) p d
              (λ k i. h k (inr i))
              (All-append IsReached queue ((n, suc depth) ∷ []) q
                ((step p (h n (inl refl)), d), tt)))
      ]

  expand-IsReached :
      (depth : ℕ) (m : N) (queue : List (Found N)) (visited : List N)
      → IsPath depth m
      → All IsReached queue
      → All IsReached
          (push_neighbours same neighbours max_depth depth
            (expanded same neighbours max_depth m depth)
            queue
            visited).0
  unfolding push_neighbours
  expand-IsReached depth m queue visited p q = elim (Bool-cases (leb max_depth depth)) [
    | inl deep ↦ rw deep q
    | inr shallow ↦
        rw shallow
          (push-IsReached depth m (neighbours m) queue visited p (ground arith) (λ n i. i) q)
  ]

  report-IsFound :
      (n : N) (depth : ℕ)
      → IsPath depth n
      → depth ≤ max_depth
      → All IsFound (reported same neighbours max_depth n depth)
  report-IsFound n depth p d = elim (Bool-cases (ltb 0 depth)) [
    | inl below ↦ rw below ((p, ltb→lt 0 depth below, d), tt)
    | inr at ↦ rw at tt
  ]

  AllFound : Option (List (Found N)) → Type 0
  AllFound none = Unit
  AllFound (some results) = All IsFound results

  search-IsFound :
      (fuel : ℕ) (queue : List (Found N)) (visited : List N) (results : List (Found N))
      → All IsReached queue
      → All IsFound results
      → AllFound (search same neighbours max_depth fuel queue visited results)
  unfolding search AllFound
  search-IsFound zero [] visited results q r = r
  search-IsFound zero (x ∷ queue) visited results q r = tt
  search-IsFound (suc fuel) [] visited results q r = r
  search-IsFound (suc fuel) ((n, depth) ∷ queue) visited results q r =
      let pushed =
        push_neighbours same neighbours max_depth depth (expanded same neighbours max_depth n depth)
          queue visited in
      search-IsFound fuel pushed.0 pushed.1 (results ++ reported same neighbours max_depth n depth)
        (expand-IsReached depth n queue visited q.0.0 q.1)
        (All-append IsFound results (reported same neighbours max_depth n depth) r
          (report-IsFound n depth q.0.0 q.0.1))

  pub bfs-IsFound :
      (fuel : ℕ) (results : List (Found N))
      → bfs same neighbours max_depth fuel start ≡ some results
      → All IsFound results
  unfolding bfs AllFound
  bfs-IsFound fuel results h =
      subst AllFound h (search-IsFound fuel ((start, 0) ∷ []) [] [] ((here, omega arith), tt) tt)
