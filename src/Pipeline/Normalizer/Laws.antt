-- ===== src/Pipeline/Normalizer/Laws.antt =====
-- What the default normalizer of src/crawler/url_normalizer.py returns, and that it returns it
-- again.
use web_crawler.Prelude.{
  ℕ, ◌≡◌, refl, ap, ◌∙◌, false, Option, none, some, List, [], ◌∷◌, map, Text, lower, arith,
  if◌then◌else◌, Bool-cases, inl, inr,
}
use web_crawler.Types.{Result, ok}
use web_crawler.Config.{ParsedUrl, is_blank}
use web_crawler.Pipeline.Percent.{uppercase_percent_encoding, decode_unreserved}
use web_crawler.Pipeline.Percent.Laws.{IsEncoded}
use web_crawler.Pipeline.Percent.Canonical.{
  canonical_path, canonical_path_idem, IsCanonical, IsPlain, uppercase-canonical, decode-canonical,
}
use web_crawler.Pipeline.Context.{NormalizationContext, UrlLib}
use web_crawler.Pipeline.Build.{default_config, build}
use web_crawler.Pipeline.Normalizer.{
  normalize, normalization_steps, step_name, context_of, run_steps, execute_step, reconstruct,
  netloc, netloc_of, sort_params, is_all_space, drop_default_port, is_default_port, take_parts,
  parse_step, reject, parse_url, NormalizationStep,
}
use web_crawler.Pipeline.Normalizer.Sorting.{IsSorted-sort_params, sort_params_sorted}

lower_idem : (c : ℕ) → lower (lower c) ≡ lower c
unfolding lower
lower_idem c = ground arith

map-lower_idem : (t : Text) → map lower (map lower t) ≡ map lower t
map-lower_idem [] = refl
map-lower_idem (c ∷ t) = ground (arith, lower_idem c, map-lower_idem t)

drop_default_port_idem :
    (scheme : Text) (port : Option ℕ)
    → drop_default_port scheme (drop_default_port scheme port) ≡ drop_default_port scheme port
drop_default_port_idem scheme none = refl
drop_default_port_idem scheme (some port) = elim (Bool-cases (is_default_port scheme port)) [
  | inl e ↦ rw e refl
  | inr e ↦ rw e (rw e refl)
]

build_default : build step_name normalization_steps [] ≡ normalization_steps
unfolding build
build_default = refl

module _ (lib : UrlLib) where
  open lib use {is_space, urlparse, urlunparse, parse_qsl, urlencode}

  run_steps_ok :
      (s : NormalizationStep) (rest : List NormalizationStep) (ctx next : NormalizationContext)
      → execute_step lib s ctx ≡ ok next
      → next.rejected ≡ false
      → run_steps lib (s ∷ rest) ctx ≡ run_steps lib rest next
  unfolding run_steps
  run_steps_ok s rest ctx next e e' = rw (e, run_steps) (rw e' refl)

  -- The query that the steps make of a query.
  abbrev pub canonical_query : Text → Text
  canonical_query query =
      decode_unreserved (uppercase_percent_encoding (urlencode (sort_params (parse_qsl query))))

  -- The parts that the steps make of those of a parsed URL.
  abbrev pub canonical_context : Text → ParsedUrl → Text → Option ℕ → NormalizationContext
  canonical_context raw parsed host port = record {
    raw_url = raw;
    scheme = map lower parsed.scheme;
    host = map lower host;
    port = drop_default_port (map lower parsed.scheme) port;
    path = canonical_path parsed.path;
    query = canonical_query parsed.query;
    rejected = false;
  }

  module _ (url : Text) (parsed : ParsedUrl) (host : Text) (port : Option ℕ)
      (visible : is_all_space is_space url ≡ false) (parses : urlparse url ≡ ok parsed)
      (schemed : is_blank (some parsed.scheme) ≡ false) (hosted : parsed.hostname ≡ some host)
      (named : is_blank (some host) ≡ false) (ported : parsed.port ≡ ok port) where
    parsed_context : NormalizationContext
    parsed_context = record {
      raw_url = url;
      scheme = parsed.scheme;
      host = host;
      port = port;
      path = parsed.path;
      query = parsed.query;
      rejected = false;
    }

    parse_step_ok :
        (h : Option Text) (p : Result (Option ℕ))
        → h ≡ some host
        → p ≡ ok port
        → take_parts lib (context_of lib url) parsed h p ≡ ok parsed_context
    unfolding take_parts parsed_context
    parse_step_ok h p e e' = rw (e, e') refl

    parse_url_ok : execute_step lib parse_url (context_of lib url) ≡ ok parsed_context
    unfolding execute_step
    parse_url_ok = rw visible (
        ap (parse_step lib (context_of lib url)) parses
        ∙ (rw (schemed) (
            ap
              (λ h.
                if◌then◌else◌ (is_blank h) (reject lib (context_of lib url))
                  (take_parts lib (context_of lib url) parsed parsed.hostname parsed.port))
              hosted
            ∙ rw named (parse_step_ok parsed.hostname parsed.port hosted ported))))

    -- A URL that is not blank and has a scheme, a host and a readable port is normalized to its
    -- canonical parts: scheme and host in small letters, no default port, the parameters sorted,
    -- percent encodings in capitals and only where needed, and no slash behind the path.
    pub normalize_lem :
        normalize lib default_config url
        ≡ some (reconstruct lib (canonical_context url parsed host port))
    unfolding normalize parsed_context
    normalize_lem =
        ap (λ steps. run_steps lib steps (context_of lib url)) build_default
        ∙ (run_steps_ok parse_url _ _ _ parse_url_ok refl
            ∙ (unfold run_steps execute_step parsed_context in refl))

  reconstruct_eq :
      (a b : NormalizationContext)
      → a.scheme ≡ b.scheme
      → a.host ≡ b.host
      → a.port ≡ b.port
      → a.path ≡ b.path
      → a.query ≡ b.query
      → reconstruct lib a ≡ reconstruct lib b
  unfolding reconstruct
  reconstruct_eq a b s h p q r =
      ap (λ x. urlunparse x (netloc lib a) a.path a.query) s
      ∙ (ap (λ x. urlunparse b.scheme x a.path a.query) (netloc_eq a.host b.host a.port b.port h p)
          ∙ (ap (λ x. urlunparse b.scheme (netloc lib b) x a.query) q
              ∙ ap (λ x. urlunparse b.scheme (netloc lib b) b.path x) r))
    where
      netloc_eq :
          (h h' : Text) (p p' : Option ℕ) → h ≡ h' → p ≡ p' → netloc_of h p ≡ netloc_of h' p'
      netloc_eq h h' p p' e f = ap (λ x. netloc_of x p) e ∙ ap (netloc_of h') f

  -- The canonical query is what `urlencode` writes, and is read back and written again.
  canonical_query_idem :
      (query : Text)
      → let params = sort_params (parse_qsl query) in
        IsCanonical (urlencode params)
        → parse_qsl (urlencode params) ≡ params
        → canonical_query (canonical_query query) ≡ canonical_query query
  canonical_query_idem query written read =
      let params = sort_params (parse_qsl query) in
      let same : canonical_query query ≡ urlencode params =
        ap decode_unreserved (uppercase-canonical written) ∙ decode-canonical written in
      let sorted : sort_params (parse_qsl (urlencode params)) ≡ params =
        ap sort_params read ∙ sort_params_sorted params (IsSorted-sort_params (parse_qsl query)) in
      ap canonical_query same
      ∙ ap (λ ps. decode_unreserved (uppercase_percent_encoding (urlencode ps))) sorted

  blank-lower : (t : Text) → is_blank (some (map lower t)) ≡ is_blank (some t)
  blank-lower [] = refl
  blank-lower (c ∷ t) = refl

  -- A URL that is not blank and has a scheme, a host and a readable port is normalized, and the
  -- normalized URL is normalized to itself, provided that the percent signs of the path begin
  -- triplets and the path, once decoded, is no row of two slashes or more, that in the query that
  -- `urllib` writes the percent signs begin canonical triplets, that the normalized URL is not
  -- blank, and that `urllib` reads back from it the parts that it was written from, and from the
  -- query its parameters.
  pub normalize_idem :
      (url : Text) (parsed again : ParsedUrl) (host : Text) (port : Option ℕ)
      → let ctx = canonical_context url parsed host port in
        let params = sort_params (parse_qsl parsed.query) in
        is_all_space is_space url ≡ false
        → urlparse url ≡ ok parsed
        → is_blank (some parsed.scheme) ≡ false
        → parsed.hostname ≡ some host
        → is_blank (some host) ≡ false
        → parsed.port ≡ ok port
        → IsEncoded parsed.path
        → IsPlain (decode_unreserved (uppercase_percent_encoding parsed.path))
        → IsCanonical (urlencode params)
        → parse_qsl (urlencode params) ≡ params
        → is_all_space is_space (reconstruct lib ctx) ≡ false
        → urlparse (reconstruct lib ctx) ≡ ok again
        → again.scheme ≡ ctx.scheme
        → again.hostname ≡ some ctx.host
        → again.port ≡ ok ctx.port
        → again.path ≡ ctx.path
        → again.query ≡ ctx.query
        → (normalize lib default_config url ≡ some (reconstruct lib ctx))
          × (normalize lib default_config (reconstruct lib ctx) ≡ some (reconstruct lib ctx))
  normalize_idem url parsed again host port visible parses schemed hosted named ported encoded plain
        written read visible' parses' scheme' host' port' path' query' =
      let ctx = canonical_context url parsed host port in
      let first = normalize_lem url parsed host port visible parses schemed hosted named ported in
      let second =
        normalize_lem (reconstruct lib ctx) again ctx.host ctx.port visible' parses'
          (ap (λ t. is_blank (some t)) scheme' ∙ (blank-lower parsed.scheme ∙ schemed)) host'
          (blank-lower host ∙ named) port' in
      let scheme : map lower again.scheme ≡ map lower parsed.scheme =
        ap (map lower) scheme' ∙ map-lower_idem parsed.scheme in
      let same =
        reconstruct_eq (canonical_context (reconstruct lib ctx) again ctx.host ctx.port) ctx scheme
          (map-lower_idem host)
          (ap (λ t. drop_default_port t ctx.port) scheme
            ∙ drop_default_port_idem (map lower parsed.scheme) port)
          (ap canonical_path path' ∙ canonical_path_idem parsed.path encoded plain)
          (ap canonical_query query' ∙ canonical_query_idem parsed.query written read) in
      (first, second ∙ ap some same)
