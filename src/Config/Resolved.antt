-- ===== src/Config/Resolved.antt =====
-- Where the extraction of a resolved entity comes from.
use elt_pipeline.Prelude.{
  String, Bool, Option, none, some, List, [], ◌∷◌, ◌≡◌, refl, sym, ap, ◌∙◌, Attempt, ok, raise,
  subst, >>=_returns, All, Bool-cases, inl, inr,
}
use elt_pipeline.Prelude.Dict.{get}
use elt_pipeline.Config.Tree.{Node, leaf, tree, Fields, get_field}
use elt_pipeline.Config.Leaves.{
  leaf_at, find_leaf, if_unsettled, last_leaf, deep_merge_leaves, IsFields, IsTreeAt,
  get_field-IsTreeAt,
}
use elt_pipeline.Config.Resolve.{
  ConfigError, ConfigLayer, EntityConfig, SourceConfig, PipelineConfig, ResolvedEntityConfig,
  get_source, get_entity, known_environment, or_empty, resolved, resolve_entity_config,
}

ok_eq : {A : Type 0} {a b : A} → Path (Attempt ConfigError A) (ok a) (ok b) → a ≡ b
ok_eq e = cc

no_raise :
    {A : Type 0} {problem : ConfigError} {a : A}
    → Path (Attempt ConfigError A) (raise problem) (ok a)
    → ⊥
no_raise e = cc

module _ {L : Type 0} (truthy : L → Bool) where
  abbrev Has : Option (Node L) → Fields L → Type 0
  Has o x = IsFields x × ((k : String) (ks : List String) → leaf_at x k ks ≡ find_leaf o (k ∷ ks))

  -- The dict that the resolution takes for a value has the leaves below the value.
  or_empty_leaves :
      (o : Option (Node L)) {x : Fields L}
      → or_empty truthy o ≡ ok x
      → IsTreeAt o
      → IsFields x × ((k : String) (ks : List String) → leaf_at x k ks ≡ find_leaf o (k ∷ ks))
  unfolding find_leaf leaf_at IsFields get_field
  or_empty_leaves none {x} e t = subst (Has none) (ok_eq e) (tt, λ k ks. refl)
  or_empty_leaves (some (tree d)) {x} e t = subst (Has (some (tree d))) (ok_eq e) (t, λ k ks. refl)
  or_empty_leaves (some (leaf l)) {x} e t = elim (Bool-cases (truthy l)) [
    | inl is_true ↦ absurd (no_raise (rw is_true at e))
    | inr is_false ↦ subst (Has (some (leaf l))) (ok_eq (rw is_false at e)) (tt, λ k ks. refl)
  ]

  -- The extraction of a resolved entity, if no dict in question has a key twice, has at each path the
  -- leaf of the entity's own extraction where that settles the path, or else that of the source's
  -- where that settles it, or else the leaf below the key `extraction` of the source's defaults.
  pub resolve_entity_config_extraction :
      (config : PipelineConfig L) (environment source_name entity_name : String)
      (paths : Option (L × L)) (source : SourceConfig L) (entity : EntityConfig L)
      {r : ResolvedEntityConfig L}
      → get_source (PipelineConfig.sources config) source_name ≡ ok source
      → get_entity (SourceConfig.name source) (SourceConfig.entities source) entity_name ≡ ok entity
      → IsFields (ConfigLayer.defaults (SourceConfig.layer source))
      → All IsFields (
          ConfigLayer.extraction (SourceConfig.layer source)
          ∷ ConfigLayer.extraction (EntityConfig.layer entity)
          ∷ [])
      → resolve_entity_config truthy config environment source_name entity_name paths ≡ ok r
      → (k : String) (ks : List String)
      → leaf_at (ResolvedEntityConfig.extraction r) k ks
        ≡ last_leaf
            (leaf_at (ConfigLayer.defaults (SourceConfig.layer source)) "extraction" (k ∷ ks))
            (ConfigLayer.extraction (SourceConfig.layer source)
              ∷ ConfigLayer.extraction (EntityConfig.layer entity)
              ∷ [])
            k
            ks
  unfolding resolve_entity_config resolved last_leaf leaf_at
  resolve_entity_config_extraction config environment source_name entity_name paths source entity
        finds has d fields returns k ks =
      let cascade = get_field (ConfigLayer.defaults (SourceConfig.layer source)) "extraction" in
      let (overlay, known, rest) =
        >>=_returns
          (known_environment environment (get (PipelineConfig.environments config) environment)) _
          (rw (finds, has) at returns) in
      let (first, taken, gives) = >>=_returns (or_empty truthy cascade) _ rest in
      let (unique, leaves) = or_empty_leaves cascade taken (get_field-IsTreeAt _ "extraction" d) in
      ap (λ (s : ResolvedEntityConfig L). leaf_at (ResolvedEntityConfig.extraction s) k ks)
        (sym (ok_eq gives))
      ∙ deep_merge_leaves
          (first
            ∷ ConfigLayer.extraction (SourceConfig.layer source)
            ∷ ConfigLayer.extraction (EntityConfig.layer entity)
            ∷ [])
          k ks (unique, fields)
      ∙ ap
          (λ o.
            last_leaf o
              (ConfigLayer.extraction (SourceConfig.layer source)
                ∷ ConfigLayer.extraction (EntityConfig.layer entity)
                ∷ [])
              k ks)
          (sym (if_unsettled (get_field first k) ks) ∙ leaves k ks)
