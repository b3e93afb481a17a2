-- ===== src/Pipeline/Filter.antt =====
-- src/crawler/pipeline/filter_steps.py, context.py, pipelines.py (`FilterPipeline`) and src/crawler/url_filter.py.
pub mod Acceptance
pub mod Fresh
pub mod Choice
use web_crawler.Prelude.{
  ℕ, Bool, true, false, not, Option, none, some, List, [], ◌∷◌, Text, text_eq, lit, if◌then◌else◌,
}
use web_crawler.Prelude.Int.{ℤ, pos, lez}
use web_crawler.Types.{Error, Result, ok, err}
use web_crawler.Config.{ParsedUrl, is_http}
use web_crawler.Store.{Store}
use web_crawler.Store.Queries.{exists}
use web_crawler.Pipeline.Build.{PipelineConfig, default_config, build}

-- The patterns are those of the filter's configuration, and the depth limit is its `max_depth`.
pub record FilterContext : Type 0 where
  pub url : Text
  pub parsed : ParsedUrl
  pub depth : ℕ
  pub seed_domain : Text
  pub max_depth : Option ℤ
  pub include_patterns : List Text
  pub exclude_patterns : List Text
  pub store : Store

pub data FilterStep : Type 0 where
  scheme_check domain_match depth_check : FilterStep
  exclude_pattern include_pattern deduplication : FilterStep

abbrev pub step_name : FilterStep → Text
step_name scheme_check = lit "scheme_check"
step_name domain_match = lit "domain_match"
step_name depth_check = lit "depth_check"
step_name exclude_pattern = lit "exclude_pattern"
step_name include_pattern = lit "include_pattern"
step_name deduplication = lit "deduplication"

-- FILTER_STEPS
abbrev pub filter_steps : List FilterStep
filter_steps =
    scheme_check ∷ domain_match ∷ depth_check ∷ exclude_pattern ∷ include_pattern ∷ deduplication
    ∷ []

abbrev pub is_host : Option Text → Text → Bool
is_host none domain = false
is_host (some host) domain = text_eq host domain

abbrev pub is_within : Option ℤ → ℕ → Bool
is_within none depth = true
is_within (some limit) depth = lez (pos depth) limit

-- `re.search(pattern, text)`, which may raise.
abbrev pub Search : Type 0
Search = Text → Text → Result Bool

abbrev pub negated : Result Bool → Result Bool
negated (ok b) = ok (not b)
negated (err e) = err e

-- An exception of a step rejects, as a step that returns False does.
abbrev pub accepted : Result Bool → Bool
accepted (ok b) = b
accepted (err e) = false

module _ (search : Search) where
  -- Whether a pattern matches; the loop stops at the first that does, or that raises.
  unfoldable pub search_any : List Text → Text → Result Bool
  search_any [] url = ok false
  search_any (p ∷ ps) url =
      let rest = search_any ps url in
      elim (search p url) [ err e ↦ err e | ok found ↦ if found then ok true else rest ]

  included : List Text → Text → Result Bool
  included [] url = ok true
  included (p ∷ ps) url = search_any (p ∷ ps) url

  unfoldable pub execute_step : FilterStep → FilterContext → Result Bool
  unfolding included
  execute_step scheme_check ctx = ok (is_http ctx.parsed.scheme)
  execute_step domain_match ctx = ok (is_host ctx.parsed.hostname ctx.seed_domain)
  execute_step depth_check ctx = ok (is_within ctx.max_depth ctx.depth)
  execute_step exclude_pattern ctx = negated (search_any ctx.exclude_patterns ctx.url)
  execute_step include_pattern ctx = included ctx.include_patterns ctx.url
  execute_step deduplication ctx = ok (not (exists ctx.url ctx.store))

  -- The loop of `execute`: the first rejection ends it.
  unfoldable pub run_steps : List FilterStep → FilterContext → Bool
  run_steps [] ctx = true
  run_steps (s ∷ rest) ctx =
      let onward = run_steps rest ctx in if accepted (execute_step s ctx) then onward else false

  unfoldable pub execute : PipelineConfig → FilterContext → Bool
  execute config ctx = run_steps (build step_name filter_steps config.filter) ctx
