-- ===== src/Sql/Contract/Enforced.antt =====
-- What `enforce_data_contract_at_write` lets pass.
use elt_pipeline.Prelude.{
  String, true, ◌≡◌, sym, ap, ◌∙◌, inl, inr, Option, none, some, List, [], ◌∷◌, ◌++◌, if◌then◌else◌,
  Bool-cases, Attempt, ok, raise, >>=_returns, subst, ◌>>=◌,
}
use mathlib.Core.List.{append-nil}
use Prim.Native.Char.{Char}
use elt_pipeline.Prelude.Dict.{Dict}
use elt_pipeline.Sql.Contract.Types.{StructField}
use elt_pipeline.Sql.Contract.{
  ActualColumn, DataContractDiff, DataContractWarningRecord, CompiledSqlModel, ContractError, warn,
  strict, dataframe_schema, catalog_schema, diff_is_empty, compute_contract_diff,
  extract_schema_fields, declared_by_name, decide, enforce_data_contract_at_write,
  apply_contract_decision, check_catalog, ComparisonTarget, decide_as, enforce_as,
}
use elt_pipeline.Sql.Contract.Conforms.{Conforms, diff_between_empty}

module _ (upper_of : Char → String) (model : CompiledSqlModel) where
  -- The catalog columns, where they are given, are as declared.
  abbrev pub CatalogConforms : Option (Dict ActualColumn) → Type 0
  CatalogConforms none = Unit
  CatalogConforms (some columns) = Conforms upper_of (declared_by_name model.columns) columns

  decide-strict :
      (target : ComparisonTarget) (diff : DataContractDiff) (ws vs : List DataContractWarningRecord)
      → model.contract ≡ strict
      → decide upper_of model target diff ws ≡ ok vs
      → (diff_is_empty diff ≡ true) × (vs ≡ ws)
  unfolding apply_contract_decision
  decide-strict target diff ws vs e h = elim (Bool-cases (diff_is_empty diff)) [
    | inl empty ↦ (empty, ok_eq (rw empty at h))
    | inr other ↦
        let blocked : decide_as upper_of model.contract model target diff ws ≡ ok vs =
          rw other at h in
        absurd (refused (subst (λ m. decide_as upper_of m model target diff ws ≡ ok vs) e blocked))
  ]
    where
      ok_eq :
          {a b : List DataContractWarningRecord}
          → Path (Attempt ContractError (List DataContractWarningRecord)) (ok a) (ok b)
          → b ≡ a
      ok_eq e = cc

      refused :
          {problem : ContractError} {a : List DataContractWarningRecord}
          → Path (Attempt ContractError (List DataContractWarningRecord)) (raise problem) (ok a)
          → ⊥
      refused e = cc

  abbrev pub frame_diff : List StructField → DataContractDiff
  frame_diff schema =
      compute_contract_diff upper_of model.columns (extract_schema_fields upper_of schema)

  catalog-strict :
      (catalog : Option (Dict ActualColumn)) (ws vs : List DataContractWarningRecord)
      → model.contract ≡ strict
      → check_catalog upper_of model catalog ws ≡ ok vs
      → CatalogConforms catalog × (vs ≡ ws)
  unfolding compute_contract_diff
  catalog-strict none ws vs e h = (tt, ok_eq h)
    where
      ok_eq :
          {a b : List DataContractWarningRecord}
          → Path (Attempt ContractError (List DataContractWarningRecord)) (ok a) (ok b)
          → b ≡ a
      ok_eq e = cc
  catalog-strict (some columns) ws vs e h =
      let (empty, same) =
        decide-strict catalog_schema (compute_contract_diff upper_of model.columns columns) ws vs e
          h in
      ((diff_between_empty upper_of (declared_by_name model.columns) columns).0 empty, same)

  -- Strict mode lets a write pass only if the columns of the data frame, and those of the catalog
  -- where they are given, are the declared ones, with the declared types and nullability; and it
  -- adds no warning.
  pub enforce_data_contract_at_write_strict :
      (schema : List StructField) (catalog : Option (Dict ActualColumn))
      → (ws vs : List DataContractWarningRecord) → model.contract ≡ strict
      → enforce_data_contract_at_write upper_of model (some schema) none catalog ws ≡ ok vs
      → Conforms upper_of (declared_by_name model.columns) (extract_schema_fields upper_of schema)
        × CatalogConforms catalog
        × (vs ≡ ws)
  unfolding enforce_data_contract_at_write compute_contract_diff
  enforce_data_contract_at_write_strict schema catalog ws vs e h =
      let h' = subst (λ m. enforce_as upper_of m model (some schema) none catalog ws ≡ ok vs) e h in
      let (us, framed, rest) =
        >>=_returns (decide upper_of model dataframe_schema (frame_diff schema) ws)
          (λ warned. check_catalog upper_of model catalog warned) h' in
      let (empty, kept) = decide-strict dataframe_schema (frame_diff schema) ws us e framed in
      let (conforms, same) = catalog-strict catalog us vs e rest in
      (
        (diff_between_empty upper_of (declared_by_name model.columns)
              (extract_schema_fields upper_of schema)).0
            empty,
        conforms,
        same ∙ kept,
      )

  -- The record for a difference, unless it is empty.
  abbrev pub warned : ComparisonTarget → DataContractDiff → List DataContractWarningRecord
  warned target diff =
      if diff_is_empty diff
      then []
      else record {
        model_id = model.model_id;
        mode = warn;
        comparison_target = target;
        diff = diff;
      }
        ∷ []

  abbrev pub catalog_warned : Option (Dict ActualColumn) → List DataContractWarningRecord
  catalog_warned none = []
  catalog_warned (some columns) =
      warned catalog_schema (compute_contract_diff upper_of model.columns columns)

  decide-warn :
      (target : ComparisonTarget) (diff : DataContractDiff) (ws : List DataContractWarningRecord)
      → model.contract ≡ warn
      → decide upper_of model target diff ws ≡ ok (ws ++ warned target diff)
  unfolding apply_contract_decision
  decide-warn target diff ws e = elim (Bool-cases (diff_is_empty diff)) [
    | inl empty ↦ rw empty (ap ok (sym (append-nil ws)))
    | inr other ↦ rw other (ap (λ m. decide_as upper_of m model target diff ws) e)
  ]

  -- In warn mode no write is blocked, and a warning is added for the data frame and for the catalog
  -- where each differs from the declared columns.
  pub enforce_data_contract_at_write_warn :
      (schema : List StructField) (catalog : Option (Dict ActualColumn))
      → (ws : List DataContractWarningRecord) → model.contract ≡ warn
      → enforce_data_contract_at_write upper_of model (some schema) none catalog ws
        ≡ ok ((ws ++ warned dataframe_schema (frame_diff schema)) ++ catalog_warned catalog)
  unfolding enforce_data_contract_at_write
  enforce_data_contract_at_write_warn schema catalog ws e =
      ap (λ m. enforce_as upper_of m model (some schema) none catalog ws) e
      ∙ ap (λ a. a >>= (λ v. check_catalog upper_of model catalog v))
          (decide-warn dataframe_schema (frame_diff schema) ws e)
      ∙ by_catalog catalog (ws ++ warned dataframe_schema (frame_diff schema))
    where
      by_catalog :
          (c : Option (Dict ActualColumn)) (v : List DataContractWarningRecord)
          → check_catalog upper_of model c v ≡ ok (v ++ catalog_warned c)
      by_catalog none v = ap ok (sym (append-nil v))
      by_catalog (some columns) v =
          decide-warn catalog_schema (compute_contract_diff upper_of model.columns columns) v e
