-- ===== src/Pipeline/Build.antt =====
-- src/crawler/pipeline/config.py and builder.py: which steps of a registry run.
use web_crawler.Prelude.{Bool, true, List, [], ◌∷◌, Text, text_eq, if◌then◌else◌, keep}

-- `StepConfig`; its `params` are read nowhere.
pub record StepConfig : Type 0 where
  pub enabled : Bool

-- The `steps` of both pipelines, by the steps' names.
pub record PipelineConfig : Type 0 where
  pub normalizer : List (Text × StepConfig)
  pub filter : List (Text × StepConfig)

abbrev pub default_config : PipelineConfig
default_config = record { normalizer = []; filter = [] }

-- `steps.get(name, StepConfig()).enabled`
unfoldable pub is_enabled : List (Text × StepConfig) → Text → Bool
is_enabled [] name = true
is_enabled ((key, c) ∷ steps) name = if text_eq key name then c.enabled else is_enabled steps name

-- The loops of `build_normalization_pipeline` and `build_filter_pipeline`.
unfoldable pub build {ℓ} : {S : Type ℓ} → (S → Text) → List S → List (Text × StepConfig) → List S
unfolding is_enabled
build name registry steps = keep (λ s. is_enabled steps (name s)) registry
