-- ===== src/Config/Examples.antt =====
-- A small configuration: one source with one entity, and two environments.
use elt_pipeline.Prelude.{String, not, Option, none, some, [], ◌∷◌, ◌==◌, ◌≡◌, refl, ok, All}
use elt_pipeline.Prelude.Dict.{get}
use elt_pipeline.Config.Tree.{leaf, tree, Fields, empty, field, deep_merge, get_field}
use elt_pipeline.Config.Leaves.{leaf_at, last_leaf, deep_merge_leaves, IsFields}
use elt_pipeline.Config.Resolve.{
  ConfigLayer, EntityConfig, SourceConfig, EnvironmentOverlay, PipelineConfig, ResolvedEntityConfig,
  get_source, get_entity, resolved, resolve_entity_config, level2_field,
}
use elt_pipeline.Config.Resolved.{resolve_entity_config_extraction}

abbrev one : String → String → Fields String
one key value = field key (leaf value) empty

abbrev base : Fields String
base = field "spark" (tree (field "master" (leaf "local") (one "memory" "2g"))) (one "zone" "UTC")

abbrev overlay : Fields String
overlay = field "spark" (tree (one "memory" "8g")) (one "zone" "CET")

program : Unit {0}
unfolding deep_merge leaf_at last_leaf IsFields resolve_entity_config level2_field
program = tt

merged :
    deep_merge (base ∷ overlay ∷ [])
    ≡ field "spark" (tree (field "master" (leaf "local") (one "memory" "8g"))) (one "zone" "CET")
unfolding program
merged = refl

one-IsFields : (key value : String) → IsFields (one key value)
unfolding program get_field
one-IsFields key value = (refl, tt, tt)

base-IsFields : IsFields base
unfolding program get_field
base-IsFields = (refl, (refl, tt, (refl, tt, tt)), (refl, tt, tt))

overlay-IsFields : IsFields overlay
unfolding program get_field
overlay-IsFields = (refl, (refl, tt, tt), (refl, tt, tt))

empty-IsFields : IsFields {L = String} empty
unfolding program
empty-IsFields = tt

layers-IsFields : All IsFields (base ∷ overlay ∷ [])
unfolding program get_field
layers-IsFields = (base-IsFields, (overlay-IsFields, tt))

deep_merge_leaves_example :
    leaf_at (deep_merge (base ∷ overlay ∷ [])) "spark" ("memory" ∷ [])
    ≡ last_leaf none (base ∷ overlay ∷ []) "spark" ("memory" ∷ [])
deep_merge_leaves_example =
    deep_merge_leaves (base ∷ overlay ∷ []) "spark" ("memory" ∷ []) layers-IsFields

abbrev layer : Option String → Fields String → Fields String → ConfigLayer String
layer mode extraction defaults = record {
  trigger_mode = none;
  level2_mode = level2_field mode;
  auth = empty;
  extraction = extraction;
  persistence = empty;
  state = empty;
  settings = empty;
  defaults = defaults;
  extra = empty;
}

abbrev invoices : EntityConfig String
invoices = record { name = "invoices"; layer = layer none (one "table" "inv") empty }

-- The defaults of the source, with an extraction for its entities.
abbrev shared : Fields String
shared = field "extraction" (tree (one "mode" "full")) empty

abbrev erp : SourceConfig String
erp = record {
  name = "erp";
  connector_type = "sql";
  layer = layer (some "bypass_level2") (one "schema" "dbo") shared;
  entities = invoices ∷ [];
}

abbrev dev : EnvironmentOverlay String
dev = record { defaults = one "zone" "EST"; runtime = empty }

abbrev config : PipelineConfig String
config = record {
  schema_version = "1";
  defaults = base;
  environments = ("dev", dev) ∷ [];
  sources = erp ∷ [];
  runtime = empty;
}

abbrev result : ResolvedEntityConfig String
unfolding resolved
result = resolved (λ s. not (s == "")) config "dev" none erp invoices dev (one "mode" "full")

result_gives :
    resolve_entity_config (λ s. not (s == "")) config "dev" "erp" "invoices" none ≡ ok result
unfolding program result get_source get_entity get get_field
result_gives = refl

-- The source asks for "bypass_level2", and the entity says nothing.
source_mode_lost : ResolvedEntityConfig.level2_mode result ≡ "required_level2"
unfolding program result
source_mode_lost = refl

erp_found : get_source (PipelineConfig.sources config) "erp" ≡ ok erp
unfolding get_source
erp_found = refl

invoices_found : get_entity "erp" (SourceConfig.entities erp) "invoices" ≡ ok invoices
unfolding get_entity
invoices_found = refl

shared-IsFields : IsFields shared
unfolding program get_field
shared-IsFields = (refl, (refl, tt, tt), tt)

resolve_entity_config_extraction_example :
    leaf_at (ResolvedEntityConfig.extraction result) "mode" []
    ≡ last_leaf
        (leaf_at shared "extraction" ("mode" ∷ []))
        (one "schema" "dbo" ∷ one "table" "inv" ∷ [])
        "mode"
        []
resolve_entity_config_extraction_example =
    resolve_entity_config_extraction (λ s. not (s == "")) config "dev" "erp" "invoices" none erp
      invoices erp_found invoices_found shared-IsFields
      (one-IsFields "schema" "dbo", (one-IsFields "table" "inv", tt)) result_gives "mode" []
