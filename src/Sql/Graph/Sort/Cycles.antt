-- ===== src/Sql/Graph/Sort/Cycles.antt =====
-- When the sort returns, and what a cycle error names.
use elt_pipeline.Prelude.{
  ℕ, zero, suc, ◌+◌, ◌≤◌, ◌<◌, String, Bool, true, false, not, List, [], ◌∷◌, ◌≡◌, ◌⊎◌, refl, sym,
  ap, ◌∙◌, map, length, is_empty, eqb, eqb→eq, arith, eq_iff, Bool-cases, List-cases, inl, inr, ok,
  raise, Attempt, subst, true-false,
}
use elt_pipeline.Prelude.Names.{elem, count, elem-of_count, count-of_not_elem, elem-sorted, sorted}
use elt_pipeline.Prelude.Dict.{Dict, keys, get, get_or, IsUnique}
use elt_pipeline.Sql.Graph.{
  GraphError, dependency_cycle, Model, model_id, models_by_id, resolve_dependency_ids,
}
use elt_pipeline.Sql.Graph.Closure.{resolve_references-Within}
use elt_pipeline.Sql.Graph.Pushes.{first_elem}
use elt_pipeline.Sql.Graph.Sort.{
  Edges, connect_all, edges_from, build_edges, Sorting, with_sets, finish,
  topologically_sort_sql_models,
}
use elt_pipeline.Sql.Graph.Sort.Counts.{length-AtMost}
use elt_pipeline.Sql.Graph.Sort.Loop.{one_if, set_of, Inv}
use elt_pipeline.Sql.Graph.Sort.Built.{In, DependsOn, IsBuilt}
use elt_pipeline.Sql.Graph.Sort.Models.{elem-models_by_id}
use elt_pipeline.Sql.Graph.Sort.Correct.{
  length-ids, by_id, ids, built-Ends, ordered-AtMost, full-IsSorted, IsSorted,
}

-- The ids whose set is not empty.
elem-with_sets :
    (d : Dict (List String)) (n : String)
    → IsUnique d
    → elem n (with_sets false d) ≡ not (is_empty (set_of d n))
unfolding elem get get_or
elem-with_sets [] n u = refl
elem-with_sets ((id, set) ∷ d) n u =
    ground (arith, elem-with_sets d n u.1, u.0, eq_iff id n, eq_iff n id)

cycle_eq :
    {a b : List String}
    → Path
        (Attempt GraphError (List Model))
        (raise (dependency_cycle a))
        (raise (dependency_cycle b))
    → a ≡ b
cycle_eq e = cc

abbrev left_over : Sorting → List String
left_over s = sorted (with_sets false (Sorting.remaining_inbound s))

is_false : (b : Bool) → (b ≡ true → ⊥) → b ≡ false
is_false true h = absurd (h refl)
is_false false h = refl

module _ (models : List Model) where
  -- Each of the named ids depends on one of them, which may be itself.
  abbrev pub IsCyclic : List String → Type 0
  IsCyclic named =
      (n : String)
      → elem n named ≡ true
      → (d : String) × (elem d named ≡ true) × DependsOn (by_id models) (ids models) models n d

  abbrev pub Resolves : Type 0
  Resolves =
      (m : Model)
      → In m models
      → (ds : List String) × (resolve_dependency_ids (models_by_id models) m ≡ ok ds)

  edges_from_returns :
      (ms : List Model) (e : Edges)
      → ((m : Model)
          → In m ms
          → (ds : List String) × (resolve_dependency_ids (by_id models) m ≡ ok ds))
      → (e' : Edges) × (edges_from (by_id models) ms e ≡ ok e')
  unfolding edges_from
  edges_from_returns [] e all = (e, refl)
  edges_from_returns (m ∷ ms) e all =
      let (ds, resolves) = all m (inl refl) in
      let (e', returns) =
        edges_from_returns ms (connect_all (model_id m) ds e) (λ n i. all n (inr i)) in
      (e', rw resolves returns)

  build_edges_returns : Resolves → (e : Edges) × (build_edges models ≡ ok e)
  unfolding build_edges
  build_edges_returns all = edges_from_returns models _ all

  -- The ids that are left over when the loop has ended.
  module _ (e : Edges) (s : Sorting) (inv : Inv (Edges.inbound e) (ids models) "" [] s)
      (empty : Sorting.ready s ≡ []) (built : IsBuilt (by_id models) (ids models) models e) where
    elem-over :
        (n : String)
        → elem n (left_over s) ≡ not (is_empty (set_of (Sorting.remaining_inbound s) n))
    elem-over n =
        elem-sorted n (with_sets false (Sorting.remaining_inbound s))
        ∙ elem-with_sets (Sorting.remaining_inbound s) n inv.unique

    settled :
        (n : String)
        → count n (Sorting.ordered s)
            + one_if (not (is_empty (set_of (Sorting.remaining_inbound s) n)))
          ≡ one_if (elem n (ids models))
    unfolding count
    settled n = omega (arith, rw empty at inv.placed n)

    -- An id that is left over waits for another one.
    waits_for :
        (n x : String)
        → elem x (set_of (Sorting.remaining_inbound s) n) ≡ true
        → (elem x (set_of (Edges.inbound e) n) ≡ true) × (elem x (Sorting.ordered s) ≡ false)
    unfolding elem
    waits_for n x i = (ground (arith, inv.left n x, i), ground (arith, inv.left n x, i))

    dependency-elem :
        (n d : String)
        → DependsOn (by_id models) (ids models) models n d
        → elem d (ids models) ≡ true
    unfolding resolve_dependency_ids
    dependency-elem n d (m, ds, i, named, resolves, listed) =
        resolve_references-Within (by_id models) m (Model.depends_on m) ds resolves d listed

    over-IsCyclic : IsCyclic (left_over s)
    over-IsCyclic n i = elim (List-cases (set_of (Sorting.remaining_inbound s) n)) [
      | inl none_left ↦
          absurd (true-false (sym i ∙ elem-over n ∙ ap (λ l. not (is_empty l)) none_left))
      | inr (x, rest, has) ↦
          let waits = waits_for n x (ap (elem x) has ∙ first_elem x rest) in
          let depends = built.origin n x waits.0 in
          let known = dependency-elem n x depends in
          (
            x,
            elem-over x
                ∙ ground (arith, settled x, known, count-of_not_elem x (Sorting.ordered s) waits.1),
            depends,
          )
    ]

    -- If none is left over and no id is repeated, the order is full.
    none_over-full :
        ((n : String) → count n (map model_id models) ≤ 1)
        → ((n : String) → elem n (left_over s) ≡ false)
        → length (Sorting.ordered s) ≡ length models
    none_over-full once none_left = omega (
      arith,
      length-ids models,
      length-AtMost (Sorting.ordered s) (map model_id models) (ordered-AtMost models e s inv),
      length-AtMost (map model_id models) (Sorting.ordered s) (λ n. ground (
        arith,
        once n,
        none_left n,
        elem-over n,
        settled n,
        elem-models_by_id models n,
        elem-of_count n (map model_id models),
      )),
    )

    -- If no id is repeated and the order is short, one is left over.
    some_left :
        ((n : String) → count n (map model_id models) ≤ 1)
        → eqb (length (Sorting.ordered s)) (length models) ≡ false
        → (n : String) × (elem n (left_over s) ≡ true)
    unfolding elem
    some_left once short = elim (List-cases (left_over s)) [
      | inl none_left ↦
          let full = none_over-full once (λ n. ap (elem n) none_left) in
          absurd (ground (arith, full, short))
      | inr (x, rest, has) ↦ (x, ap (elem x) has ∙ first_elem x rest)
    ]

  -- If all references resolve, the sort ends: it returns an order, or it raises the cycle error, and
  -- then each of the ids that the error names depends on one of them, which may be itself. The error
  -- may name none if an id is repeated.
  pub topologically_sort_sql_models_ends :
      Resolves
      → ((result : List Model) × (topologically_sort_sql_models models ≡ ok result))
        ⊎ ((named : List String) × (topologically_sort_sql_models models
              ≡ raise (dependency_cycle named))
            × IsCyclic named)
  unfolding topologically_sort_sql_models finish
  topologically_sort_sql_models_ends all =
      let (e, builds) = build_edges_returns all in
      let (s, ends, inv, empty, built, covers) = built-Ends models e builds in
      elim (Bool-cases (eqb (length (Sorting.ordered s)) (length models))) [
        | inl full ↦
            let (result, found, good) = full-IsSorted models e s inv covers (eqb→eq _ _ full) in
            inl (result, rw builds (rw ends (rw full found)))
        | inr short ↦
            inr
              (left_over s, rw builds (rw ends (rw short refl)), over-IsCyclic e s inv empty built)
      ]

  -- If all references resolve and no id is repeated, the cycle error names an id, and each of the ids
  -- that it names depends on one of them, which may be itself.
  pub topologically_sort_sql_models_cycle :
      Resolves
      → ((n : String) → count n (map model_id models) ≤ 1)
      → (named : List String)
      → topologically_sort_sql_models models ≡ raise (dependency_cycle named)
      → ((n : String) × (elem n named ≡ true)) × IsCyclic named
  unfolding topologically_sort_sql_models finish
  topologically_sort_sql_models_cycle all once named raises =
      let (e, builds) = build_edges_returns all in
      let (s, ends, inv, empty, built, covers) = built-Ends models e builds in
      elim (Bool-cases (eqb (length (Sorting.ordered s)) (length models))) [
        | inl full ↦
            let (result, found, good) = full-IsSorted models e s inv covers (eqb→eq _ _ full) in
            absurd cc
        | inr short ↦
            let same : left_over s ≡ named = cycle_eq (rw (builds, ends, short) at raises) in
            subst (λ l. ((n : String) × (elem n l ≡ true)) × IsCyclic l) same
              (some_left e s inv empty built once short, over-IsCyclic e s inv empty built)
      ]

  -- No named id is below a bound of the ranks, if dependencies have lower ranks.
  unranked :
      (rank : String → ℕ)
      → ((n d : String) → DependsOn (by_id models) (ids models) models n d → rank d < rank n)
      → (named : List String) → IsCyclic named
      → (bound : ℕ) (n : String) → rank n < bound
      → elem n named ≡ true
      → ⊥
  unranked rank lower named cyclic zero n below i = omega (arith, below)
  unranked rank lower named cyclic (suc bound) n below i =
      let (d, j, depends) = cyclic n i in
      unranked rank lower named cyclic bound d (omega (arith, below, lower n d depends)) j

  -- If all references resolve, no id is repeated, and dependencies can be given lower ranks, the sort
  -- returns such an order.
  pub topologically_sort_sql_models_complete :
      (rank : String → ℕ)
      → Resolves
      → ((n : String) → count n (map model_id models) ≤ 1)
      → ((n d : String)
          → DependsOn (models_by_id models) (keys (models_by_id models)) models n d
          → rank d < rank n)
      → (result : List Model) × (topologically_sort_sql_models models ≡ ok result)
        × IsSorted models result
  unfolding topologically_sort_sql_models finish
  topologically_sort_sql_models_complete rank all once lower =
      let (e, builds) = build_edges_returns all in
      let (s, ends, inv, empty, built, covers) = built-Ends models e builds in
      let none_left = λ (n : String). is_false (elem n (left_over s)) (
        unranked rank lower (left_over s) (over-IsCyclic e s inv empty built) (suc (rank n)) n
          (omega arith)) in
      let full = none_over-full e s inv empty built once none_left in
      let (result, found, good) = full-IsSorted models e s inv covers full in
      (result, rw builds (rw ends (ground (arith, full, found))), good)
