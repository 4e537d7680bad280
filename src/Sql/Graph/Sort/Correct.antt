-- ===== src/Sql/Graph/Sort/Correct.antt =====
-- What the sort of SQL models returns, and when.
use elt_pipeline.Prelude.{
  String, true, List, [], ◌∷◌, ◌++◌, ◌≡◌, refl, sym, ap, ◌∙◌, subst, map, All, length, eqb, eqb→eq,
  arith, eq_iff, Bool-cases, inl, inr, ok, raise, >>=_returns,
}
use elt_pipeline.Prelude.Names.{elem, count, count-of_elem}
use elt_pipeline.Prelude.Dict.{Dict, keys}
use elt_pipeline.Sql.Graph.{GraphError, Model, model_id, models_by_id, resolve_dependency_ids}
use elt_pipeline.Sql.Graph.Pushes.{Within}
use elt_pipeline.Sql.Graph.Sort.{
  Edges, build_edges, Sorting, sort_ready, start, models_of, finish, topologically_sort_sql_models,
}
use elt_pipeline.Sql.Graph.Sort.Counts.{AtMost, AtMost-full}
use elt_pipeline.Sql.Graph.Sort.Loop.{Inv, Respects}
use elt_pipeline.Sql.Graph.Sort.Rounds.{sort_ready_ends}
use elt_pipeline.Sql.Graph.Sort.Built.{
  In, IsBuilt, Covers, edges_from-IsBuilt, empty-IsBuilt, start-Inv, ok_of,
}
use elt_pipeline.Sql.Graph.Sort.Models.{elem-models_by_id, count-models_by_id, models_of-ids}

pub length-ids : (ms : List Model) → length (map model_id ms) ≡ length ms
length-ids [] = refl
length-ids (m ∷ ms) = omega (arith, length-ids ms)

id-elem : (m : Model) (ms : List Model) → In m ms → elem (model_id m) (map model_id ms) ≡ true
unfolding elem
id-elem m [] i = absurd i
id-elem m (n ∷ ns) (inl same) = ground (arith, ap model_id same, eq_iff (model_id m) (model_id n))
id-elem m (n ∷ ns) (inr later) = ground (arith, id-elem m ns later)

ok_models : {a b : List Model} → ok_of a ≡ ok_of b → a ≡ b
ok_models h = cc

module _ (models : List Model) where
  abbrev pub by_id : Dict Model
  by_id = models_by_id models

  abbrev pub ids : List String
  ids = keys by_id

  -- Each model stands after those that it depends on.
  abbrev pub DepsBefore : List String → List Model → Type 0
  DepsBefore seen [] = Unit
  DepsBefore seen (m ∷ ms) =
      ((ds : List String) → resolve_dependency_ids (models_by_id models) m ≡ ok ds → Within ds seen)
      × DepsBefore (seen ++ model_id m ∷ []) ms

  -- Every model once, after its dependencies.
  abbrev pub IsSorted : List Model → Type 0
  IsSorted result =
      ((n : String) → count n (map model_id result) ≡ count n (map model_id models))
      × DepsBefore [] result

  -- The end of the loop: the edges, and an empty queue.
  abbrev pub Ends : Edges → Type 0
  Ends e =
      (s : Sorting) × (sort_ready (length ids) (Edges.outgoing e) (start (Edges.inbound e)) ≡ ok s)
      × Inv (Edges.inbound e) ids "" [] s
      × (Sorting.ready s ≡ [])
      × IsBuilt by_id ids models e
      × ((m : Model) → In m models → Covers by_id ids models e m)

  pub built-Ends : (e : Edges) → build_edges models ≡ ok e → Ends e
  unfolding build_edges
  built-Ends e builds =
      let (built, keeps, covers) =
        edges_from-IsBuilt by_id ids models models _ e builds
          (λ m i. (i, elem-models_by_id models (model_id m) ∙ id-elem m models i))
          (empty-IsBuilt by_id ids models (count-models_by_id models)) in
      let (s, ends, inv, empty) =
        sort_ready_ends (Edges.inbound e) (Edges.outgoing e) ids (length ids) ""
          (start (Edges.inbound e)) built.dual (start-Inv by_id ids models e built) (omega arith) in
      (s, ends, inv, empty, built, covers)

  module _ (e : Edges) (s : Sorting) (inv : Inv (Edges.inbound e) ids "" [] s) where
    ordered-Within : Within (Sorting.ordered s) ids
    ordered-Within = λ x i. ground (arith, inv.placed x, count-of_elem x (Sorting.ordered s) i)

    pub ordered-AtMost : AtMost (Sorting.ordered s) (map model_id models)
    ordered-AtMost = λ n.
        ground
          (arith, inv.placed n, elem-models_by_id models n, count-of_elem n (map model_id models))

    sorted-DepsBefore :
        ((m : Model) → In m models → Covers by_id ids models e m)
        → (seen : List String) (result : List Model) → All (λ m. In m models) result
        → Respects (Edges.inbound e) ids seen (map model_id result)
        → DepsBefore seen result
    sorted-DepsBefore covers seen [] inside r = tt
    sorted-DepsBefore covers seen (m ∷ ms) inside r = (
      λ ds resolves x i. r.0 x (covers m inside.0 ds resolves x i),
      sorted-DepsBefore covers (seen ++ model_id m ∷ []) ms inside.1 r.1,
    )

    -- The models of a full order.
    pub full-IsSorted :
        ((m : Model) → In m models → Covers by_id ids models e m)
        → length (Sorting.ordered s) ≡ length models
        → (result : List Model) × (models_of by_id (Sorting.ordered s) ≡ ok result)
          × IsSorted result
    full-IsSorted covers full =
        let (result, found, same, inside) =
          models_of-ids models (Sorting.ordered s) ordered-Within in
        let more =
          AtMost-full (Sorting.ordered s) (map model_id models) ordered-AtMost
            (omega (arith, full, length-ids models)) in
        (
          result,
          found,
          (
            λ n. rw same (omega (arith, ordered-AtMost n, more n)),
            sorted-DepsBefore covers [] result inside
                (subst (Respects (Edges.inbound e) ids []) (sym same) inv.before),
          ),
        )

  -- An order that the sort returns has every model exactly once, after the models it depends on.
  pub topologically_sort_sql_models_sound :
      (result : List Model) → topologically_sort_sql_models models ≡ ok result → IsSorted result
  unfolding topologically_sort_sql_models finish
  topologically_sort_sql_models_sound result h =
      let (e, builds, rest) = >>=_returns (build_edges models) _ h in
      let (s, ends, inv, empty, built, covers) = built-Ends e builds in
      let finishes : finish models s ≡ ok result = rw ends at rest in
      elim (Bool-cases (eqb (length (Sorting.ordered s)) (length models))) [
        | inl full ↦
            let (result', found, good) = full-IsSorted e s inv covers (eqb→eq _ _ full) in
            subst IsSorted (ok_models (sym found ∙ (rw full at finishes))) good
        | inr short ↦ absurd (raise_ok (rw short at finishes))
      ]
    where
      raise_ok : {g : GraphError} → raise g ≡ ok_of result → ⊥
      raise_ok h = cc
