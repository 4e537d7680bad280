-- ===== src/Config/Resolve.antt =====
-- The configuration of one entity and the runtime defaults, resolved from the layers.
use elt_pipeline.Prelude.{
  String, Bool, Option, none, some, List, [], ◌∷◌, ◌++◌, ◌==◌, if◌then◌else◌, Attempt, ok, raise,
  ◌>>=◌,
}
use elt_pipeline.Prelude.Dict.{Dict, get, or_else}
use elt_pipeline.Config.Tree.{Node, leaf, tree, Fields, empty, get_field, put_field, deep_merge}

-- The ConfigValidationErrors of the resolution, and the AttributeError of a value that is no dict
-- where `_deep_merge` wants one.
pub data ConfigError : Type 0 where
  unknown_source : String → ConfigError
  unknown_entity : String → String → ConfigError
  unknown_environment : String → ConfigError
  no_mapping : ConfigError

-- ConfigLayer, with the fields that are not declared and not None in `extra`.
pub record ConfigLayer (L : Type 0) : Type 0 where
  pub trigger_mode : Option String
  pub level2_mode : String
  pub auth : Fields L
  pub extraction : Fields L
  pub persistence : Fields L
  pub state : Fields L
  pub settings : Fields L
  pub defaults : Fields L
  pub extra : Fields L

-- The field `level2_mode` of a layer whose file may set none.
unfoldable pub level2_field : Option String → String
level2_field none = "required_level2"
level2_field (some mode) = mode

-- `payload.pop(key, default)`
abbrev pub or_default : Option String → Option String → Option String
or_default none default = default
or_default (some mode) default = some mode

-- `to_payload` at the two modes: a field that is None is left out.
abbrev pub modes_payload : {L : Type 0} → ConfigLayer L → Dict String
modes_payload layer = elim (ConfigLayer.trigger_mode layer) [
  | none ↦ ("level2_mode", ConfigLayer.level2_mode layer) ∷ []
  | some mode ↦ ("trigger_mode", mode) ∷ ("level2_mode", ConfigLayer.level2_mode layer) ∷ []
]

pub record EntityConfig (L : Type 0) : Type 0 where
  pub name : String
  pub layer : ConfigLayer L

pub record SourceConfig (L : Type 0) : Type 0 where
  pub name : String
  pub connector_type : String
  pub layer : ConfigLayer L
  pub entities : List (EntityConfig L)

-- The runtime section as `model_dump(exclude_none=True)` gives it.
pub record EnvironmentOverlay (L : Type 0) : Type 0 where
  pub defaults : Fields L
  pub runtime : Fields L

pub record PipelineConfig (L : Type 0) : Type 0 where
  pub schema_version : String
  pub defaults : Fields L
  pub environments : Dict (EnvironmentOverlay L)
  pub sources : List (SourceConfig L)
  pub runtime : Fields L

-- Without `raw`, the two layers as they were read.
pub record ResolvedEntityConfig (L : Type 0) : Type 0 where
  pub schema_version : String
  pub environment : String
  pub source_name : String
  pub entity_name : String
  pub connector_type : String
  pub trigger_mode : Option String
  pub level2_mode : String
  pub auth : Fields L
  pub extraction : Fields L
  pub persistence : Fields L
  pub state : Fields L
  pub settings : Fields L
  pub resolved_defaults : Fields L

module _ {L : Type 0} where
  unfoldable pub get_source : List (SourceConfig L) → String → Attempt ConfigError (SourceConfig L)
  get_source [] name = raise (unknown_source name)
  get_source (source ∷ sources) name =
      let later = get_source sources name in
      if SourceConfig.name source == name then ok source else later

  unfoldable pub get_entity :
      String → List (EntityConfig L) → String → Attempt ConfigError (EntityConfig L)
  get_entity source [] name = raise (unknown_entity source name)
  get_entity source (entity ∷ entities) name =
      let later = get_entity source entities name in
      if EntityConfig.name entity == name then ok entity else later

  abbrev pub overlay_defaults : Option (EnvironmentOverlay L) → Fields L
  overlay_defaults none = empty
  overlay_defaults (some overlay) = EnvironmentOverlay.defaults overlay

  abbrev pub known_environment :
      String → Option (EnvironmentOverlay L) → Attempt ConfigError (EnvironmentOverlay L)
  known_environment name none = raise (unknown_environment name)
  known_environment name (some overlay) = ok overlay

  -- `d.setdefault(key, value)`
  abbrev set_missing : Fields L → String → L → Option (Node L) → Fields L
  set_missing d key value none = put_field d key (leaf value)
  set_missing d key value (some old) = d

  unfoldable pub set_default : Fields L → String → L → Fields L
  unfolding get_field put_field
  set_default d key value = set_missing d key value (get_field d key)

  -- The directory and the path of the configuration file, if it is given.
  abbrev pub with_paths : Option (L × L) → Fields L → Fields L
  with_paths none settings = settings
  with_paths (some paths) settings =
      set_default (set_default settings "config_file_dir" paths.0) "config_file_path" paths.1

  module _ (truthy : L → Bool) where
    -- `source.defaults.get("extraction") or {}`, as an argument of `_deep_merge`.
    abbrev pub or_empty : Option (Node L) → Attempt ConfigError (Fields L)
    or_empty none = ok empty
    or_empty (some (tree d)) = ok d
    or_empty (some (leaf l)) = if truthy l then raise no_mapping else ok empty

    -- The part after the lookups.
    unfoldable pub resolved :
        PipelineConfig L
        → String
        → Option (L × L)
        → SourceConfig L
        → EntityConfig L
        → EnvironmentOverlay L
        → Fields L
        → ResolvedEntityConfig L
    unfolding deep_merge get set_default
    resolved config environment paths source entity overlay source_defaults_extraction =
        let above = SourceConfig.layer source in
        let own = EntityConfig.layer entity in
        let merged_defaults = deep_merge (
          PipelineConfig.defaults config
          ∷ overlay_defaults (get (PipelineConfig.environments config) "default")
          ∷ EnvironmentOverlay.defaults overlay
          ∷ ConfigLayer.defaults above
          ∷ ConfigLayer.defaults own
          ∷ []) in
        record {
          schema_version = PipelineConfig.schema_version config;
          environment = environment;
          source_name = SourceConfig.name source;
          entity_name = EntityConfig.name entity;
          connector_type = SourceConfig.connector_type source;
          trigger_mode =
              or_default (get (modes_payload own) "trigger_mode")
                (get (modes_payload above) "trigger_mode");
          level2_mode =
              or_else (get (modes_payload own) "level2_mode")
                (or_else (get (modes_payload above) "level2_mode") "required_level2");
          auth = deep_merge (ConfigLayer.auth above ∷ ConfigLayer.auth own ∷ []);
          extraction = deep_merge (
              source_defaults_extraction
              ∷ ConfigLayer.extraction above
              ∷ ConfigLayer.extraction own
              ∷ []);
          persistence =
              deep_merge (ConfigLayer.persistence above ∷ ConfigLayer.persistence own ∷ []);
          state = deep_merge (ConfigLayer.state above ∷ ConfigLayer.state own ∷ []);
          settings = with_paths paths (
              deep_merge (
                merged_defaults
                ∷ ConfigLayer.settings above
                ∷ ConfigLayer.settings own
                ∷ ConfigLayer.extra above
                ∷ ConfigLayer.extra own
                ∷ []));
          resolved_defaults = merged_defaults;
        }

    unfoldable pub resolve_entity_config :
        PipelineConfig L
        → String
        → String
        → String
        → Option (L × L)
        → Attempt ConfigError (ResolvedEntityConfig L)
    unfolding resolved get_source get_entity get get_field
    resolve_entity_config config environment source_name entity_name paths =
        get_source (PipelineConfig.sources config) source_name >>= λ source.
        get_entity (SourceConfig.name source) (SourceConfig.entities source) entity_name
        >>= λ entity.
            known_environment environment (get (PipelineConfig.environments config) environment)
            >>= λ overlay.
                or_empty (get_field (ConfigLayer.defaults (SourceConfig.layer source)) "extraction")
                >>= λ extraction.
                    ok (resolved config environment paths source entity overlay extraction)

  abbrev overlay_runtime : Option (EnvironmentOverlay L) → List (Fields L)
  overlay_runtime none = []
  overlay_runtime (some overlay) = EnvironmentOverlay.runtime overlay ∷ []

  abbrev selected_runtime : Option String → Dict (EnvironmentOverlay L) → List (Fields L)
  selected_runtime none environments = []
  selected_runtime (some name) environments =
      if name == "" then [] else overlay_runtime (get environments name)

  -- The layers of the runtime section, from the lowest precedence.
  unfoldable pub runtime_layers : PipelineConfig L → Option String → List (Fields L)
  unfolding get
  runtime_layers config environment =
      PipelineConfig.runtime config
      ∷ (overlay_runtime (get (PipelineConfig.environments config) "default")
          ++ selected_runtime environment (PipelineConfig.environments config))

  -- Without a file there are no overrides; else `validate` is the round trip through RuntimeConfig.
  unfoldable pub load_runtime_overrides :
      (Fields L → Attempt ConfigError (Fields L))
      → Option (PipelineConfig L)
      → Option String
      → Attempt ConfigError (Fields L)
  unfolding runtime_layers deep_merge
  load_runtime_overrides validate none environment = ok empty
  load_runtime_overrides validate (some config) environment =
      validate (deep_merge (runtime_layers config environment))
