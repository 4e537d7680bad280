-- ===== src/Sql/Graph/Sort/Built.antt =====
-- The sets of edges that the sort starts from.
use elt_pipeline.Prelude.{
  ◌≤◌, String, true, List, [], ◌∷◌, ◌==◌, ◌||◌, ◌≡◌, ◌⊎◌, refl, sym, ap, ◌∙◌, subst, is_some,
  if◌then◌else◌, arith, eq_iff, Bool-cases, inl, inr, ok, >>=_returns, Attempt, true-false,
}
use elt_pipeline.Prelude.Names.{elem, add, count, count-append, elem-add, count-of_not_elem}
use elt_pipeline.Prelude.Dict.{Dict, get, get_or, get_or-put, get-put, IsUnique, put-IsUnique}
use elt_pipeline.Sql.Graph.{GraphError, Model, model_id, resolve_dependency_ids}
use elt_pipeline.Sql.Graph.Pushes.{Within}
use elt_pipeline.Sql.Graph.Sort.{
  Edges, empty_sets, connect, connect_all, edges_from, with_sets, start,
}
use elt_pipeline.Sql.Graph.Sort.Loop.{set_of, Inv}
use elt_pipeline.Sql.Graph.Sort.Rounds.{IsDual, count-sorted}
use elt_pipeline.Sql.Graph.Sort.Sets.{
  empty_sets-get, empty_sets-set_of, empty_sets-IsUnique, count-with_sets, unkeyed,
}

abbrev pub In : Model → List Model → Type 0
In m [] = ⊥
In m (n ∷ ns) = (m ≡ n) ⊎ In m ns

count-add : (n m : String) (s : List String) → count n s ≤ 1 → count n (add m s) ≤ 1
unfolding add count
count-add n m s h = ground (arith, h, count-append n s (m ∷ []), count-of_not_elem n s, eq_iff n m)

abbrev pub ok_of : {A : Type 0} → A → Attempt GraphError A
ok_of a = ok a

ok_edges : {a b : Edges} → ok_of a ≡ ok_of b → a ≡ b
ok_edges h = cc

pub ok_names : {a b : List String} → ok_of a ≡ ok_of b → a ≡ b
ok_names h = cc

module _ (by_id : Dict Model) (ids : List String) (models : List Model) where
  -- A model with this id lists the dependency.
  abbrev pub DependsOn : String → String → Type 0
  DependsOn n d =
      (m : Model) × (ds : List String) × In m models
      × (model_id m ≡ n)
      × (resolve_dependency_ids by_id m ≡ ok ds)
      × (elem d ds ≡ true)

  -- What holds of the edges while they are added.
  pub record IsBuilt (e : Edges) : Type 0 where
    pub dual : IsDual (Edges.inbound e) (Edges.outgoing e) ids
    pub unique : IsUnique (Edges.inbound e)
    pub keyed : (n : String) → is_some (get (Edges.inbound e) n) ≡ elem n ids
    pub origin : (n d : String) → elem d (set_of (Edges.inbound e) n) ≡ true → DependsOn n d

  module _ (id d : String) (e : Edges) (known : elem id ids ≡ true) (depends : DependsOn id d)
      (h : IsBuilt e) where
    added :
        (n c : String)
        → elem c (set_of (Edges.inbound (connect id d e)) n) ≡ (
            if id == n
            then c == d || elem c (set_of (Edges.inbound e) id)
            else elem c (set_of (Edges.inbound e) n))
    added n c = ground (
      arith,
      get_or-put (Edges.inbound e) id n (add d (set_of (Edges.inbound e) id)) [],
      elem-add c d (set_of (Edges.inbound e) id),
    )

    added_out :
        (c n : String)
        → elem n (set_of (Edges.outgoing (connect id d e)) c) ≡ (
            if d == c
            then n == id || elem n (set_of (Edges.outgoing e) d)
            else elem n (set_of (Edges.outgoing e) c))
    added_out c n = ground (
      arith,
      get_or-put (Edges.outgoing e) d c (add id (set_of (Edges.outgoing e) d)) [],
      elem-add n id (set_of (Edges.outgoing e) d),
    )

    DependsOn-added :
        (n c : String) → elem c (set_of (Edges.inbound (connect id d e)) n) ≡ true → DependsOn n c
    DependsOn-added n c i = elim (Bool-cases (id == n)) [
      | inr apart ↦ h.origin n c (ground (arith, i, apart, added n c))
      | inl same ↦
          subst (λ m. DependsOn m c) ((eq_iff id n).0 same)
            (elim (Bool-cases (c == d)) [
              | inl this ↦ subst (DependsOn id) (sym ((eq_iff c d).0 this)) depends
              | inr other ↦ h.origin id c (ground (arith, i, same, other, added n c))
            ])
    ]

    connect-IsBuilt : IsBuilt (connect id d e)
    connect-IsBuilt = record {
      dual = λ c n. (
        added_out c n
            ∙ ground (
              arith,
              (h.dual c n).0,
              (h.dual d n).0,
              (h.dual c id).0,
              (h.dual d id).0,
              eq_iff d c,
              eq_iff c d,
              eq_iff id n,
              eq_iff n id,
            )
            ∙ sym (added n c),
        ground (
          arith,
          (h.dual c n).1,
          (h.dual d n).1,
          get_or-put (Edges.outgoing e) d c (add id (set_of (Edges.outgoing e) d)) [],
          count-add n id (set_of (Edges.outgoing e) d),
        ),
      );
      unique = put-IsUnique (Edges.inbound e) id _ h.unique;
      keyed = λ n. ground (
        arith,
        get-put (Edges.inbound e) id n (add d (set_of (Edges.inbound e) id)),
        h.keyed n,
        eq_iff id n,
        known,
      );
      origin = DependsOn-added;
    }

  -- Edges are only added.
  abbrev pub Keeps : Edges → Edges → Type 0
  Keeps e e' = (n : String) → Within (set_of (Edges.inbound e) n) (set_of (Edges.inbound e') n)

  connect_all-IsBuilt :
      (id : String) (ds : List String) (e : Edges)
      → elem id ids ≡ true
      → ((d : String) → elem d ds ≡ true → DependsOn id d)
      → IsBuilt e
      → IsBuilt (connect_all id ds e)
        × Keeps e (connect_all id ds e)
        × Within ds (set_of (Edges.inbound (connect_all id ds e)) id)
  unfolding connect_all elem
  connect_all-IsBuilt id [] e known depends h = (h, (λ n x i. i), λ x i. absurd cc)
  connect_all-IsBuilt id (d ∷ ds) e known depends h =
      let here = depends d (ground (arith, eq_iff d d)) in
      let e1 = connect id d e in
      let rest =
        connect_all-IsBuilt id ds e1 known (λ x i. depends x (ground (arith, i)))
          (connect-IsBuilt id d e known here h) in
      (
        rest.0,
        λ n x i. rest.1 n x (ground (arith, i, added id d e known here h n x, eq_iff id n)),
        λ x i. elim (Bool-cases (x == d)) [
          | inl same ↦
              rest.1 id x (ground (arith, same, added id d e known here h id x, eq_iff id id))
          | inr apart ↦ rest.2 x (ground (arith, i, apart))
        ],
      )

  -- The dependencies of a model are among the inbound edges of its id.
  abbrev pub Covers : Edges → Model → Type 0
  Covers e m =
      (ds : List String)
      → resolve_dependency_ids by_id m ≡ ok ds
      → Within ds (set_of (Edges.inbound e) (model_id m))

  pub edges_from-IsBuilt :
      (ms : List Model) (e e' : Edges)
      → edges_from by_id ms e ≡ ok e'
      → ((m : Model) → In m ms → In m models × (elem (model_id m) ids ≡ true))
      → IsBuilt e
      → IsBuilt e' × Keeps e e' × ((m : Model) → In m ms → Covers e' m)
  unfolding edges_from
  edges_from-IsBuilt [] e e' returns inside h =
      subst (λ x. IsBuilt x × Keeps e x × ((m : Model) → In m [] → Covers x m)) (ok_edges returns)
        (h, (λ n x i. i), λ m i. absurd i)
  edges_from-IsBuilt (m ∷ ms) e e' returns inside h =
      let (ds, resolves, more) = >>=_returns (resolve_dependency_ids by_id m) _ returns in
      let at = inside m (inl refl) in
      let first =
        connect_all-IsBuilt (model_id m) ds e at.1 (λ d i. (m, ds, at.0, refl, resolves, i)) h in
      let rest =
        edges_from-IsBuilt ms (connect_all (model_id m) ds e) e' more (λ n i. inside n (inr i))
          first.0 in
      (
        rest.0,
        λ n x i. rest.1 n x (first.1 n x i),
        λ n i. elim i [
          | inl same ↦ subst (Covers e') (sym same) (λ es is x j.
              rest.1 (model_id m) x
                (first.2 x (subst (λ l. elem x l ≡ true) (ok_names (sym is ∙ resolves)) j)))
          | inr later ↦ rest.2 n later
        ],
      )

module _ (by_id : Dict Model) (ids : List String) (models : List Model) where
  pub empty-IsBuilt :
      ((n : String) → count n ids ≤ 1)
      → IsBuilt by_id ids models (record { inbound = empty_sets ids; outgoing = [] })
  unfolding elem count get get_or
  empty-IsBuilt once = record {
    dual = λ d n. (rw (empty_sets-set_of ids n) refl, omega arith);
    unique = empty_sets-IsUnique ids once;
    keyed = λ n. ground (arith, empty_sets-get ids n);
    origin = λ n d i. absurd (true-false (sym i ∙ ap (elem d) (empty_sets-set_of ids n)));
  }

  pub start-Inv :
      (e : Edges)
      → IsBuilt by_id ids models e
      → Inv (Edges.inbound e) ids "" [] (start (Edges.inbound e))
  unfolding elem count
  start-Inv e h = record {
    left = λ n x. ground arith;
    placed = λ n. ground (
      arith,
      count-sorted n (with_sets true (Edges.inbound e)),
      count-with_sets (Edges.inbound e) n h.unique,
      h.keyed n,
      unkeyed (Edges.inbound e) n,
    );
    before = tt;
    unique = h.unique;
  }
