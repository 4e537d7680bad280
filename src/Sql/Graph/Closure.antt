-- ===== src/Sql/Graph/Closure.antt =====
-- The selection with its dependencies is the least closed one.
use elt_pipeline.Prelude.{
  ℕ, zero, suc, ◌+◌, ◌≤◌, String, true, false, Option, none, some, List, [], ◌∷◌, ◌==◌, ◌≡◌, refl,
  sym, ap, ◌∙◌, subst, map, length, arith, eq_iff, Bool-cases, inl, inr, true-false, Attempt, ok,
  >>=_returns,
}
use elt_pipeline.Prelude.Names.{elem}
use elt_pipeline.Prelude.Dict.{Dict, get, keys}
use elt_pipeline.Sql.Graph.{
  GraphError, Model, model_id, models_by_id, known_id, normalize_dependency_reference,
  resolve_references, resolve_dependency_ids, dependencies_of, dependencies_at, push_new,
  close_over, resolve_selected_model_ids,
}
use elt_pipeline.Sql.Graph.Pushes.{
  Within, outside, first_elem, elem_more, push_keeps, push_covers, push-Within, push_stack,
  push_new_ones, push_resolved, push_measure,
}

abbrev found : List String → Attempt GraphError (List String)
found ids = ok ids

found_eq : {a b : List String} → found a ≡ found b → a ≡ b
found_eq {a} {b} e = cc

abbrev found_one : String → Attempt GraphError String
found_one id = ok id

found_one_eq : {a b : String} → found_one a ≡ found_one b → a ≡ b
found_one_eq {a} {b} e = cc

module _ (by_id : Dict Model) where
  known_id-elem :
      (owner reference id known : String)
      → known_id by_id owner reference id ≡ ok known
      → elem known (keys by_id) ≡ true
  known_id-elem owner reference id known = elim (Bool-cases (elem id (keys by_id))) [
    | inl e ↦ rw e (λ same. subst (λ x. elem x (keys by_id) ≡ true) (found_one_eq same) e)
    | inr e ↦ rw e (λ same. absurd cc)
  ]

  one_of :
      (x d : String) (ds : List String)
      → elem x (d ∷ ds) ≡ true
      → elem d (keys by_id) ≡ true
      → (elem x ds ≡ true → elem x (keys by_id) ≡ true)
      → elem x (keys by_id) ≡ true
  unfolding elem
  one_of x d ds i here later = ground (arith, i, here, later, eq_iff x d)

  -- The dependencies that are resolved are models.
  pub resolve_references-Within :
      (m : Model) (rs ds : List String)
      → resolve_references by_id m rs ≡ ok ds
      → Within ds (keys by_id)
  unfolding resolve_references elem
  resolve_references-Within m [] ds returns =
      λ x i. absurd (true-false (sym i ∙ ap (elem x) (sym (found_eq returns))))
  resolve_references-Within m (r ∷ rs) ds returns = λ x i.
      let first =
        >>=_returns (normalize_dependency_reference r (Model.stage m) (Model.domain m)) _ returns in
      let second = >>=_returns (known_id by_id (model_id m) r first.0) _ first.2 in
      let third = >>=_returns (resolve_references by_id m rs) _ second.2 in
      let here = known_id-elem (model_id m) r first.0 second.0 second.1 in
      let later = resolve_references-Within m rs third.0 third.1 in
      one_of x second.0 third.0 (ap (elem x) (found_eq third.2) ∙ i) here (later x)

  dependencies_at-Within :
      (id : String) (o : Option Model) (ds : List String)
      → dependencies_at by_id id o ≡ ok ds
      → Within ds (keys by_id)
  unfolding resolve_dependency_ids
  dependencies_at-Within id none ds returns = absurd cc
  dependencies_at-Within id (some m) ds returns =
      resolve_references-Within m (Model.depends_on m) ds returns

  dependencies_of-Within :
      (id : String) (ds : List String) → dependencies_of by_id id ≡ ok ds → Within ds (keys by_id)
  unfolding dependencies_of
  dependencies_of-Within id ds returns = dependencies_at-Within id (get by_id id) ds returns

  -- The references of every model can be resolved.
  abbrev pub Resolvable : Type 0
  Resolvable =
      (id : String)
      → elem id (keys by_id) ≡ true
      → (ds : List String) × (dependencies_of by_id id ≡ ok ds)

  -- A set of names with the dependencies of each.
  abbrev pub IsClosed : List String → Type 0
  IsClosed set =
      (id : String) (ds : List String)
      → elem id set ≡ true
      → dependencies_of by_id id ≡ ok ds
      → Within ds set

  -- The least closed set above some names.
  abbrev pub IsLeastAbove : List String → List String → Type 0
  IsLeastAbove names ids =
      Within names ids
      × IsClosed ids
      × ((set : List String) → Within names set → IsClosed set → Within ids set)

  -- The resolved names whose dependencies are not all resolved are on the stack.
  abbrev DoneOff : List String → List String → Type 0
  DoneOff stack resolved =
      (id : String) (ds : List String)
      → elem id resolved ≡ true
      → elem id stack ≡ false
      → dependencies_of by_id id ≡ ok ds
      → Within ds resolved

  off_stack :
      (id x : String) (ds stack resolved : List String)
      → (x == id) ≡ false
      → elem x (push_new ds stack resolved).0 ≡ false
      → elem x (id ∷ stack) ≡ false
  unfolding elem
  off_stack id x ds stack resolved apart o = elim (Bool-cases (elem x stack)) [
    | inl on ↦ absurd (true-false (sym (push_stack ds stack resolved x on) ∙ o))
    | inr off ↦ ground (arith, apart, off)
  ]

  DoneOff-push_new :
      (id : String) (ds stack resolved : List String)
      → dependencies_of by_id id ≡ ok ds
      → DoneOff (id ∷ stack) resolved
      → DoneOff (push_new ds stack resolved).0 (push_new ds stack resolved).1
  DoneOff-push_new id ds stack resolved is done x es i o deps =
      elim (Bool-cases (elem x resolved)) [
        | inr new ↦ absurd (true-false (sym (push_new_ones ds stack resolved x i new) ∙ o))
        | inl old ↦ elim (Bool-cases (x == id)) [
          | inl same ↦ λ y j. push_covers ds stack resolved y (
              subst (λ l. elem y l ≡ true)
                (found_eq (sym deps ∙ ap (dependencies_of by_id) ((eq_iff x id).0 same) ∙ is)) j)
          | inr apart ↦ λ y j.
              push_keeps ds stack resolved y
                (done x es old (off_stack id x ds stack resolved apart o) deps y j)
        ]
      ]

  close_over-IsLeastAbove :
      (rounds : ℕ) (stack resolved : List String)
      → Resolvable
      → Within stack resolved
      → Within resolved (keys by_id)
      → DoneOff stack resolved
      → length stack + outside resolved (keys by_id) ≤ rounds
      → (ids : List String) × (close_over rounds by_id stack resolved ≡ ok ids)
        × IsLeastAbove resolved ids
  unfolding close_over
  close_over-IsLeastAbove zero [] resolved all stacked known done few =
      (resolved, refl, (λ x i. i, λ id ds i. done id ds i refl, λ set w c. w))
  close_over-IsLeastAbove (suc rounds) [] resolved all stacked known done few =
      (resolved, refl, (λ x i. i, λ id ds i. done id ds i refl, λ set w c. w))
  close_over-IsLeastAbove zero (id ∷ stack) resolved all stacked known done few =
      absurd (omega (arith, few))
  close_over-IsLeastAbove (suc rounds) (id ∷ stack) resolved all stacked known done few =
      let here = stacked id (first_elem id stack) in
      let (ds, is) = all id (known id here) in
      let models = dependencies_of-Within id ds is in
      let rest =
        close_over-IsLeastAbove rounds (push_new ds stack resolved).0 (push_new ds stack resolved).1
          all (push_resolved ds stack resolved (λ x i. stacked x (elem_more id x stack i)))
          (push-Within ds stack resolved (keys by_id) models known)
          (DoneOff-push_new id ds stack resolved is done)
          (omega (arith, few, push_measure ds stack resolved (keys by_id) models)) in
      (
        rest.0,
        rw is rest.1,
        (
          λ x i. rest.2.0 x (push_keeps ds stack resolved x i),
          rest.2.1,
          λ set w c. rest.2.2 set (push-Within ds stack resolved set (c id ds (w id here) is) w) c,
        ),
      )

outside-le : (set names : List String) → outside set names ≤ length names
outside-le set [] = omega arith
outside-le set (n ∷ ns) = ground (arith, outside-le set ns)

-- If the references of every model resolve and the selected models are among them, the selection
-- with dependencies gives the least set of names that has the selected ones and, with each name,
-- those of its dependencies.
pub resolve_selected_model_ids-IsLeastAbove :
    (all_models selected_models : List Model)
    → Resolvable (models_by_id all_models)
    → Within (map model_id selected_models) (keys (models_by_id all_models))
    → (ids : List String) × (resolve_selected_model_ids all_models selected_models true ≡ ok ids)
      × IsLeastAbove (models_by_id all_models) (map model_id selected_models) ids
unfolding resolve_selected_model_ids
resolve_selected_model_ids-IsLeastAbove all_models selected_models all known =
    let selected = map model_id selected_models in
    close_over-IsLeastAbove (models_by_id all_models)
      (length selected + length (keys (models_by_id all_models))) selected selected all (λ x i. i)
      known (λ id ds i o. absurd (true-false (sym i ∙ o)))
      (omega (arith, outside-le selected (keys (models_by_id all_models))))
