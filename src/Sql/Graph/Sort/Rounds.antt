-- ===== src/Sql/Graph/Sort/Rounds.antt =====
-- The rounds of the sort: each places the head of the queue, and they end with an empty queue.
use elt_pipeline.Prelude.{
  ℕ, zero, suc, ◌+◌, ◌≤◌, String, true, false, not, List, [], ◌∷◌, ◌++◌, ◌≡◌, sym, ap, ◌∙◌, length,
  length-append, is_empty, arith, eq_iff, List-cases, inl, inr, ok,
}
use mathlib.Core.List.{append-nil, append_assoc}
use elt_pipeline.Prelude.Names.{
  elem, count, count-append, count-sort, count-of_elem, elem-append, elem-sorted, sorted, leb_name,
}
use elt_pipeline.Prelude.Dict.{Dict}
use elt_pipeline.Sql.Graph.Pushes.{Within}
use elt_pipeline.Sql.Graph.Sort.{Sorting, place, sort_ready}
use elt_pipeline.Sql.Graph.Sort.Counts.{AtMost, length-AtMost}
use elt_pipeline.Sql.Graph.Sort.Loop.{
  one_if, set_of, empty_no_elem, Respects, Inv, visit_children-Inv,
}

pub count-sorted : (n : String) (xs : List String) → count n (sorted xs) ≡ count n xs
unfolding sorted
count-sorted n xs = count-sort leb_name n xs

module _ (inbound outgoing : Dict (List String)) (ids : List String) where
  -- The outgoing edges are the inbound ones, each once.
  abbrev pub IsDual : Type 0
  IsDual =
      (d n : String)
      → (elem n (set_of outgoing d) ≡ elem d (set_of inbound n)) × (count n (set_of outgoing d) ≤ 1)

  module _ (id : String) (rest : List String) (s : Sorting) (h : Inv inbound ids id [] s)
      (queue : Sorting.ready s ≡ id ∷ rest) where
    head_placed :
        count id (Sorting.ordered s)
          + count id (id ∷ rest)
          + one_if (not (is_empty (set_of (Sorting.remaining_inbound s) id)))
        ≡ one_if (elem id ids)
    head_placed = rw queue at h.placed id

    fresh : elem id (Sorting.ordered s) ≡ false
    unfolding count
    fresh = ground (arith, head_placed, eq_iff id id, count-of_elem id (Sorting.ordered s))

    drained : is_empty (set_of (Sorting.remaining_inbound s) id) ≡ true
    unfolding count
    drained = ground (arith, head_placed, eq_iff id id)

    -- All dependencies of the head are placed.
    free-Within : Within (set_of inbound id) (Sorting.ordered s)
    unfolding elem
    free-Within = λ x i.
        ground
          (arith, i, h.left id x, empty_no_elem (set_of (Sorting.remaining_inbound s) id) drained x)

    popped : Sorting
    popped = record s { ready = rest; ordered = Sorting.ordered s ++ id ∷ [] }

    Respects-snoc :
        (seen xs : List String)
        → Respects inbound ids seen xs
        → Within (set_of inbound id) (seen ++ xs)
        → Respects inbound ids seen (xs ++ id ∷ [])
    Respects-snoc seen [] r w = (rw append-nil at w, tt)
    Respects-snoc seen (x ∷ xs) r w =
        (r.0, Respects-snoc (seen ++ x ∷ []) xs r.1 (rw append_assoc w))

    popped-Inv : IsDual → Inv inbound ids id (sorted (set_of outgoing id)) popped
    unfolding popped count elem
    popped-Inv dual = record {
      left = λ n x. ground (
        arith,
        h.left n x,
        h.left n id,
        elem-append x (Sorting.ordered s) (id ∷ []),
        elem-sorted n (set_of outgoing id),
        dual id n,
        eq_iff x id,
        fresh,
      );
      placed = λ n.
          ground (arith, (rw queue at h.placed n), count-append n (Sorting.ordered s) (id ∷ []));
      before = Respects-snoc [] (Sorting.ordered s) h.before free-Within;
      unique = h.unique;
    }

    placed_done : elem id (Sorting.ordered popped) ≡ true
    unfolding popped elem
    placed_done = ground (arith, elem-append id (Sorting.ordered s) (id ∷ []), eq_iff id id)

    -- The next round starts from the same facts, with one id more placed.
    place-Inv :
        IsDual
        → Inv inbound ids id [] (place outgoing id rest s)
          × (length (Sorting.ordered (place outgoing id rest s)) ≡ suc (length (Sorting.ordered s)))
    unfolding popped
    place-Inv dual =
        let visit =
          visit_children-Inv inbound ids id (sorted (set_of outgoing id)) popped (popped-Inv dual)
            (λ c i. sym (dual id c).0 ∙ sym (elem-sorted c (set_of outgoing id)) ∙ i) placed_done
            (λ c. omega (arith, count-sorted c (set_of outgoing id), (dual id c).1)) in
        (visit.0, omega (arith, ap length visit.1, length-append (Sorting.ordered s) (id ∷ [])))

  -- No child is left to visit, whatever the id.
  any_id : (d e : String) (s : Sorting) → Inv inbound ids d [] s → Inv inbound ids e [] s
  unfolding elem
  any_id d e s h = record {
    left = λ n x. ground (arith, h.left n x);
    placed = h.placed;
    before = h.before;
    unique = h.unique;
  }

  ordered-AtMost :
      (d : String) (s : Sorting) → Inv inbound ids d [] s → AtMost (Sorting.ordered s) ids
  ordered-AtMost d s h = λ n. ground (arith, h.placed n, count-of_elem n ids)

  -- A queue that is not empty leaves room for another round.
  room :
      (d id : String) (rest : List String) (s : Sorting)
      → Inv inbound ids d [] s
      → Sorting.ready s ≡ id ∷ rest
      → length (Sorting.ordered s ++ id ∷ []) ≤ length ids
  unfolding count
  room d id rest s h queue = length-AtMost (Sorting.ordered s ++ id ∷ []) ids (λ n. ground (
    arith,
    (rw queue at h.placed n),
    count-append n (Sorting.ordered s) (id ∷ []),
    count-of_elem n ids,
  ))

  pub sort_ready_ends :
      (rounds : ℕ) (d : String) (s : Sorting)
      → IsDual
      → Inv inbound ids d [] s
      → length ids ≤ rounds + length (Sorting.ordered s)
      → (s' : Sorting) × (sort_ready rounds outgoing s ≡ ok s')
        × Inv inbound ids d [] s'
        × (Sorting.ready s' ≡ [])
  unfolding sort_ready
  sort_ready_ends zero d s dual h enough = elim (List-cases (Sorting.ready s)) [
    | inl empty ↦ (s, simp (empty, sort_ready), h, empty)
    | inr (id, rest, queue) ↦
        absurd
          (omega (arith, room d id rest s h queue, length-append (Sorting.ordered s) (id ∷ [])))
  ]
  sort_ready_ends (suc rounds) d s dual h enough = elim (List-cases (Sorting.ready s)) [
    | inl empty ↦ (s, simp (empty, sort_ready), h, empty)
    | inr (id, rest, queue) ↦
        let next = place-Inv id rest s (any_id d id s h) queue dual in
        let (s', ends, inv, empty) =
          sort_ready_ends rounds id (place outgoing id rest s) dual next.0 (omega arith) in
        (s', rw (queue, sort_ready) ends, any_id id d s' inv, empty)
  ]
