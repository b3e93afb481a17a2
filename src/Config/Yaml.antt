-- ===== src/Config/Yaml.antt =====
-- The reading of configurations from YAML files: `CrawlerConfig.from_yaml` of src/crawler/types.py,
-- `PipelineConfig.from_yaml` of src/crawler/pipeline/config.py, and the choice of a pipeline
-- configuration in src/crawler/url_normalizer.py and src/crawler/url_filter.py. The YAML parser and
-- the validation by pydantic are arguments.
use web_crawler.Prelude.{◌≡◌, Bool, true, false, Option, none, some, Text, lit, ◌++◌}
use web_crawler.Types.{CrawlerConfig, Error, ErrorKind, Result, ok, err}
use web_crawler.Pipeline.Build.{PipelineConfig, default_config}

-- A YAML document: empty, a mapping, or anything else, by the name of its Python type and its truth.
pub data Loaded (M : Type 0) : Type 0 where
  empty : Loaded M
  mapping : M → Loaded M
  other : Text → Bool → Loaded M

-- `safe_load` opens the file and loads its document; the two others are the classes' constructors on
-- the items of a mapping. `no_items` is the mapping without items, for which the fields of a
-- PipelineConfig take their defaults.
pub record Yaml : Type 1 where
  pub Mapping : Type 0
  pub no_items : Mapping
  pub safe_load : Text → Result (Loaded Mapping)
  pub crawler_config : Mapping → Result CrawlerConfig
  pub pipeline_config : Mapping → Result PipelineConfig
  pub defaults : pipeline_config no_items ≡ ok default_config

-- The TypeError of `cls(**x)` where x is no mapping.
abbrev pub not_mapping : Text → Text → Error
not_mapping name type = record {
  kind = ErrorKind.other;
  message = name ++ (lit "() argument after ** must be a mapping, not " ++ type);
}

module _ (yaml : Yaml) where
  open yaml use {Mapping, no_items, safe_load, crawler_config, pipeline_config}

  -- `cls(**data)`
  abbrev pub from_document : Loaded Mapping → Result CrawlerConfig
  from_document empty = err (not_mapping (lit "crawler.types.CrawlerConfig") (lit "NoneType"))
  from_document (mapping m) = crawler_config m
  from_document (other type truth) = err (not_mapping (lit "crawler.types.CrawlerConfig") type)

  abbrev pub on_loaded {ℓ} :
      {A : Type ℓ} → (Loaded Mapping → Result A) → Result (Loaded Mapping) → Result A
  on_loaded f (ok document) = f document
  on_loaded f (err e) = err e

  unfoldable pub from_yaml : Text → Result CrawlerConfig
  from_yaml path = on_loaded from_document (safe_load path)

  -- `cls(**(data or {}))`
  abbrev pub pipeline_of_document : Loaded Mapping → Result PipelineConfig
  pipeline_of_document empty = pipeline_config no_items
  pipeline_of_document (mapping m) = pipeline_config m
  pipeline_of_document (other type false) = pipeline_config no_items
  pipeline_of_document (other type true) =
      err (not_mapping (lit "crawler.pipeline.config.PipelineConfig") type)

  unfoldable pub pipeline_from_yaml : Text → Result PipelineConfig
  pipeline_from_yaml path = on_loaded pipeline_of_document (safe_load path)

  -- The `config_path` of `URLNormalizer` and `URLFilter`.
  abbrev pub pipeline_at : Option Text → Result PipelineConfig
  pipeline_at none = ok default_config
  pipeline_at (some path) = pipeline_from_yaml path

  -- An empty pipeline file is as good as none: all steps run.
  pub empty_pipeline :
      (path : Text) → safe_load path ≡ ok empty → pipeline_at (some path) ≡ pipeline_at none
  unfolding pipeline_from_yaml
  empty_pipeline path e = rw e yaml.defaults
