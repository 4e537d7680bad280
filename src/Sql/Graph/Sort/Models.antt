-- ===== src/Sql/Graph/Sort/Models.antt =====
-- The models by id, and the list of models that an order of ids gives.
use elt_pipeline.Prelude.{
  ◌≤◌, String, true, false, Option, some, List, [], ◌∷◌, ◌==◌, ◌||◌, ◌≡◌, ◌⊎◌, refl, sym, ap, ◌∙◌,
  map, All, arith, eq_iff, Bool-cases, inl, inr, ok,
}
use elt_pipeline.Prelude.Names.{elem, count, count-of_not_elem}
use elt_pipeline.Prelude.Dict.{Dict, get, put, get-put, keys}
use elt_pipeline.Sql.Graph.{Model, model_id, models_by_id, by_id_from}
use elt_pipeline.Sql.Graph.Pushes.{Within, first_elem, elem_more}
use elt_pipeline.Sql.Graph.Sort.{models_of}
use elt_pipeline.Sql.Graph.Sort.Built.{In}

module _ {V : Type 0} where
  elem-keys :
      (d : Dict V) (k n : String) (v : V) → elem n (keys (put d k v)) ≡ (n == k || elem n (keys d))
  unfolding put elem
  elem-keys [] k n v = refl
  elem-keys ((j, w) ∷ d) k n v =
      ground (arith, elem-keys d k n v, eq_iff j k, eq_iff n k, eq_iff n j)

  count-keys :
      (d : Dict V) (k n : String) (v : V) → count n (keys d) ≤ 1 → count n (keys (put d k v)) ≤ 1
  unfolding put count
  count-keys [] k n v h = ground arith
  count-keys ((j, w) ∷ d) k n v h = elim (Bool-cases (j == k)) [
    | inl same ↦ rw same h
    | inr apart ↦ rw apart (
        ground (
          arith,
          h,
          apart,
          count-keys d k n v,
          count-of_not_elem n (keys d),
          other_key d k n v,
          eq_iff n j,
          eq_iff n k,
          eq_iff j k,
        ))
  ]
    where
      other_key :
          (d : Dict V) (k n : String) (v : V)
          → (n == k) ≡ false
          → count n (keys (put d k v)) ≡ count n (keys d)
      other_key [] k n v apart = ground (arith, apart)
      other_key ((j, w) ∷ d) k n v apart =
          ground (arith, apart, other_key d k n v apart, eq_iff j k)

  pub key_value : (d : Dict V) (n : String) → elem n (keys d) ≡ true → (v : V) × (get d n ≡ some v)
  unfolding get elem
  key_value [] n i = absurd cc
  key_value ((j, w) ∷ d) n i = elim (Bool-cases (j == n)) [
    | inl same ↦ (w, rw same refl)
    | inr apart ↦
        let (v, at) = key_value d n (ground (arith, i, apart, eq_iff n j, eq_iff j n)) in
        (v, rw apart at)
  ]

elem-by_id_from :
    (d : Dict Model) (ms : List Model) (n : String)
    → elem n (keys (by_id_from d ms)) ≡ (elem n (map model_id ms) || elem n (keys d))
unfolding elem
elem-by_id_from d [] n = refl
elem-by_id_from d (m ∷ ms) n =
    ground (arith, elem-by_id_from (put d (model_id m) m) ms n, elem-keys d (model_id m) n m)

-- The keys are the ids of the models, each once.
pub elem-models_by_id :
    (models : List Model) (n : String)
    → elem n (keys (models_by_id models)) ≡ elem n (map model_id models)
unfolding models_by_id elem
elem-models_by_id models n = ground (arith, elem-by_id_from [] models n)

once_from :
    (d : Dict Model) (ms : List Model) (n : String)
    → count n (keys d) ≤ 1
    → count n (keys (by_id_from d ms)) ≤ 1
once_from d [] n h = h
once_from d (m ∷ ms) n h = once_from (put d (model_id m) m) ms n (count-keys d (model_id m) n m h)

pub count-models_by_id :
    (models : List Model) (n : String) → count n (keys (models_by_id models)) ≤ 1
unfolding models_by_id count
count-models_by_id models n = once_from [] models n (omega arith)

some_model : {a b : Model} → Path (Option Model) (some a) (some b) → a ≡ b
some_model h = cc

-- What stands under an id is a model with the id.
get-by_id_from :
    (d : Dict Model) (ms : List Model) (n : String) (m : Model)
    → get (by_id_from d ms) n ≡ some m
    → (In m ms × (model_id m ≡ n)) ⊎ (get d n ≡ some m)
get-by_id_from d [] n m h = inr h
get-by_id_from d (k ∷ ms) n m h = elim (get-by_id_from (put d (model_id k) k) ms n m h) [
  | inl (i, e) ↦ inl (inr i, e)
  | inr at ↦ elim (Bool-cases (model_id k == n)) [
    | inr apart ↦ inr (sym (get-put d (model_id k) n k ∙ rw apart refl) ∙ at)
    | inl same ↦
        let this : k ≡ m = some_model (sym (get-put d (model_id k) n k ∙ rw same refl) ∙ at) in
        inl (inl (sym this), ap model_id (sym this) ∙ (eq_iff (model_id k) n).0 same)
  ]
]

get-models_by_id :
    (models : List Model) (id : String) (m : Model)
    → get (models_by_id models) id ≡ some m
    → In m models × (model_id m ≡ id)
unfolding models_by_id get
get-models_by_id models id m at = elim (get-by_id_from [] models id m at) [
  | inl found ↦ found
  | inr nothing ↦ absurd cc
]

-- Ids of models give models with these ids, in the order of the ids.
module _ (models : List Model) where
  pub models_of-ids :
      (ids : List String)
      → Within ids (keys (models_by_id models))
      → (result : List Model) × (models_of (models_by_id models) ids ≡ ok result)
        × (map model_id result ≡ ids)
        × All (λ m. In m models) result
  unfolding models_of
  models_of-ids [] w = ([], refl, refl, tt)
  models_of-ids (id ∷ ids) w =
      let (m, at) = key_value (models_by_id models) id (w id (first_elem id ids)) in
      let (rest, found, same, inside) = models_of-ids ids (λ x i. w x (elem_more id x ids i)) in
      let (i, e) = get-models_by_id models id m at in
      (m ∷ rest, rw at (rw found refl), (λ k. e k ∷ same k), (i, inside))
