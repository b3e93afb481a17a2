-- ===== src/Pipeline/Normalizer.antt =====
-- src/crawler/pipeline/normalization_steps.py, pipelines.py (`NormalizationPipeline`) and
-- src/crawler/url_normalizer.py.
pub mod Sorting
pub mod Laws
pub mod Parts
use web_crawler.Prelude.{
  ℕ, Bool, true, false, ◌&&◌, ◌||◌, Option, none, some, List, [], ◌∷◌, ◌++◌, map, Text, text_eq,
  lit, lower, leb, ltb, ◌==◌, if◌then◌else◌, decimal,
}
use web_crawler.Types.{Result, ok, err}
use web_crawler.Config.{ParsedUrl, is_blank}
use web_crawler.Pipeline.Percent.{uppercase_percent_encoding, decode_unreserved}
use web_crawler.Pipeline.Context.{NormalizationContext, UrlLib, Params, trailing_slash}
use web_crawler.Pipeline.Build.{PipelineConfig, build}

pub data NormalizationStep : Type 0 where
  parse_url lowercase remove_default_port remove_fragment : NormalizationStep
  sort_query_params uppercase_encoding decode_unreserved_step trailing_slash_step :
      NormalizationStep

abbrev pub step_name : NormalizationStep → Text
step_name parse_url = lit "parse_url"
step_name lowercase = lit "lowercase"
step_name remove_default_port = lit "remove_default_port"
step_name remove_fragment = lit "remove_fragment"
step_name sort_query_params = lit "sort_query_params"
step_name uppercase_encoding = lit "uppercase_percent_encoding"
step_name decode_unreserved_step = lit "decode_unreserved"
step_name trailing_slash_step = lit "trailing_slash"

-- NORMALIZATION_STEPS
abbrev pub normalization_steps : List NormalizationStep
normalization_steps =
    parse_url ∷ lowercase ∷ remove_default_port ∷ remove_fragment ∷ sort_query_params
    ∷ uppercase_encoding ∷ decode_unreserved_step ∷ trailing_slash_step ∷ []

-- `a <= b` of two strings, by code points.
unfoldable pub text_le : Text → Text → Bool
text_le [] t = true
text_le (a ∷ s) [] = false
text_le (a ∷ s) (b ∷ t) = if ltb a b then true else if a == b then text_le s t else false

-- `(name, value) <= (name, value)`, as tuples compare.
unfoldable pub pair_le : Text × Text → Text × Text → Bool
unfolding text_le
pair_le (n, v) (m, w) = if text_eq n m then text_le v w else text_le n m

unfoldable pub insert_param : Text × Text → Params → Params
insert_param p [] = p ∷ []
insert_param p (q ∷ qs) = if pair_le p q then p ∷ q ∷ qs else q ∷ insert_param p qs

-- `params.sort(key=...)`
unfoldable pub sort_params : Params → Params
sort_params [] = []
sort_params (p ∷ ps) = insert_param p (sort_params ps)

-- `_DEFAULT_PORTS.get(scheme) == port`
abbrev pub is_default_port : Text → ℕ → Bool
is_default_port scheme port =
    if text_eq scheme (lit "http")
    then port == 80
    else if text_eq scheme (lit "https")
    then port == 443
    else false

abbrev pub drop_default_port : Text → Option ℕ → Option ℕ
drop_default_port scheme none = none
drop_default_port scheme (some port) = if is_default_port scheme port then none else some port

-- `not raw_url or not raw_url.strip()`
unfoldable pub is_all_space : (ℕ → Bool) → Text → Bool
is_all_space is_space [] = true
is_all_space is_space (c ∷ t) = is_space c && is_all_space is_space t

-- The host, with the port behind it where there is one.
abbrev pub netloc_of : Text → Option ℕ → Text
netloc_of host none = host
netloc_of host (some port) = host ++ b':' ∷ decimal port

module _ (lib : UrlLib) where
  open lib use {is_space, urlparse, urlunparse, parse_qsl, urlencode}

  abbrev pub reject : NormalizationContext → Result NormalizationContext
  reject ctx = ok (record ctx { rejected = true })

  -- The context takes the parts of the URL; reading the port may raise.
  take_parts :
      NormalizationContext
      → ParsedUrl
      → Option Text
      → Result (Option ℕ)
      → Result NormalizationContext
  take_parts ctx parsed host (err e) = err e
  take_parts ctx parsed none (ok port) = reject ctx
  take_parts ctx parsed (some host) (ok port) = ok (record ctx {
    scheme = parsed.scheme;
    host = host;
    port = port;
    path = parsed.path;
    query = parsed.query;
  })

  parse_step : NormalizationContext → Result ParsedUrl → Result NormalizationContext
  unfolding take_parts
  parse_step ctx (err e) = err e
  parse_step ctx (ok parsed) =
      if is_blank (some parsed.scheme) || is_blank parsed.hostname
      then reject ctx
      else take_parts ctx parsed parsed.hostname parsed.port

  unfoldable pub execute_step :
      NormalizationStep → NormalizationContext → Result NormalizationContext
  unfolding parse_step is_all_space
  execute_step parse_url ctx =
      if is_all_space is_space ctx.raw_url
      then reject ctx
      else parse_step ctx (urlparse ctx.raw_url)
  execute_step lowercase ctx =
      ok (record ctx { scheme = map lower ctx.scheme; host = map lower ctx.host })
  execute_step remove_default_port ctx =
      ok (record ctx { port = drop_default_port ctx.scheme ctx.port })
  execute_step remove_fragment ctx = ok ctx
  execute_step sort_query_params ctx =
      ok (record ctx { query = urlencode (sort_params (parse_qsl ctx.query)) })
  execute_step uppercase_encoding ctx = ok (record ctx {
    path = uppercase_percent_encoding ctx.path;
    query = uppercase_percent_encoding ctx.query;
  })
  execute_step decode_unreserved_step ctx =
      ok (record ctx { path = decode_unreserved ctx.path; query = decode_unreserved ctx.query })
  execute_step trailing_slash_step ctx = ok (record ctx { path = trailing_slash ctx.path })

  abbrev pub netloc : NormalizationContext → Text
  netloc ctx = netloc_of ctx.host ctx.port

  unfoldable pub reconstruct : NormalizationContext → Text
  reconstruct ctx = urlunparse ctx.scheme (netloc ctx) ctx.path ctx.query

  -- The loop of `execute`: an exception or a rejection ends it with None.
  unfoldable pub run_steps : List NormalizationStep → NormalizationContext → Option Text
  run_steps [] ctx = some (reconstruct ctx)
  run_steps (s ∷ rest) ctx = elim (execute_step s ctx) [
    | err e ↦ none
    | ok next ↦ if next.rejected then none else run_steps rest next
  ]

  abbrev pub context_of : Text → NormalizationContext
  context_of raw_url = record {
    raw_url = raw_url;
    scheme = [];
    host = [];
    port = none;
    path = [];
    query = [];
    rejected = false;
  }

  unfoldable pub normalize : PipelineConfig → Text → Option Text
  normalize config raw_url =
      run_steps (build step_name normalization_steps config.normalizer) (context_of raw_url)
