-- ===== src/Pipeline/Tests.antt =====
-- URLs that go through the normalizer and the filter of src/crawler/pipeline.
use web_crawler.Prelude.{
  ◌≡◌, refl, ◌↔◌, inl, inr, true, false, none, some, [], ◌∷◌, ◌++◌, Text, lit, text_eq, ◌==◌,
  if◌then◌else◌, arith, lower,
}
use web_crawler.Types.{ok, err, ErrorKind}
use web_crawler.Store.Tests.{done, store_of}
use web_crawler.Config.{ParsedUrl}
use web_crawler.Store.Queries.{exists}
use web_crawler.Pipeline.Percent.{uppercase_percent_encoding, decode_unreserved, is_triplet}
use web_crawler.Pipeline.Percent.Laws.{IsEncoded}
use web_crawler.Pipeline.Percent.Canonical.{IsCanonical, IsPlain}
use web_crawler.Pipeline.Context.{UrlLib, Params, trailing_slash}
use web_crawler.Pipeline.Build.{PipelineConfig, default_config, build, is_enabled}
use web_crawler.Pipeline.Normalizer.{normalize, reconstruct, sort_params}
use web_crawler.Pipeline.Normalizer.Laws.{canonical_context, normalize_idem}
use web_crawler.Pipeline.Filter.{
  FilterContext, Search, execute, filter_steps, run_steps, execute_step, search_any,
}
use web_crawler.Pipeline.Filter.Acceptance.{IsWanted, execute_iff}

abbrev pub raw : Text
raw = lit "http://A:80/%7ex/?b=2&a=1"

abbrev pub parsed : ParsedUrl
parsed = record {
  scheme = lit "http";
  netloc = lit "A:80";
  hostname = some (lit "a");
  port = ok (some 80);
  path = lit "/%7ex/";
  query = lit "b=2&a=1";
}

abbrev again : ParsedUrl
again = record {
  scheme = lit "http";
  netloc = lit "a";
  hostname = some (lit "a");
  port = ok none;
  path = lit "/~x";
  query = lit "a=1&b=2";
}

abbrev a_and_b : Params
a_and_b = (lit "a", lit "1") ∷ (lit "b", lit "2") ∷ []

-- A library for the two URLs, and for the parameters of both.
abbrev pub lib : UrlLib
lib = record {
  is_space = λ c. c == b' ';
  urlparse = λ url. ok (if text_eq url raw then parsed else again);
  urlunparse =
      λ scheme netloc path query. scheme ++ (lit "://" ++ (netloc ++ (path ++ (b'?' ∷ query))));
  parse_qsl = λ query.
      if text_eq query (lit "b=2&a=1")
      then (lit "b", lit "2") ∷ (lit "a", lit "1") ∷ []
      else a_and_b;
  urlencode = λ params. lit "a=1&b=2";
}

IsEncoded-path : IsEncoded (lit "/%7ex/")
unfolding is_triplet lit
IsEncoded-path = IsEncoded.plain b'/' (lit "%7ex/") refl (
    IsEncoded.triplet b'%' b'7' b'e' (lit "x/") refl
      (IsEncoded.plain b'x' (lit "/") refl (IsEncoded.plain b'/' [] refl IsEncoded.nil)))

IsPlain-path : IsPlain (decode_unreserved (uppercase_percent_encoding (lit "/%7ex/")))
unfolding decode_unreserved web_crawler.Pipeline.Percent.sub uppercase_percent_encoding lit
    is_triplet web_crawler.Pipeline.Percent.upper_triplet web_crawler.Pipeline.Percent.upper
    web_crawler.Pipeline.Percent.decode_triplet
IsPlain-path = inl (inr (inl (λ e. omega arith)))

canonical_query : IsCanonical (lit "a=1&b=2")
unfolding lit
canonical_query = IsCanonical.plain b'a' (lit "=1&b=2") refl (
    IsCanonical.plain b'=' (lit "1&b=2") refl (
      IsCanonical.plain b'1' (lit "&b=2") refl (
        IsCanonical.plain b'&' (lit "b=2") refl (
          IsCanonical.plain b'b' (lit "=2") refl (
            IsCanonical.plain b'=' (lit "2") refl
              (IsCanonical.plain b'2' [] refl IsCanonical.nil))))))

pub normalizes : normalize lib default_config raw ≡ some (lit "http://a/~x?a=1&b=2")
unfolding normalize web_crawler.Pipeline.Normalizer.run_steps web_crawler.Pipeline.Build.build
    web_crawler.Pipeline.Normalizer.execute_step lit text_eq reconstruct lower trailing_slash
    decode_unreserved web_crawler.Pipeline.Percent.sub uppercase_percent_encoding is_triplet
    web_crawler.Pipeline.Percent.upper_triplet web_crawler.Pipeline.Percent.upper
    web_crawler.Pipeline.Percent.decode_triplet
normalizes = refl

normalize_idem_example :
    (normalize lib default_config raw
      ≡ some (reconstruct lib (canonical_context lib raw parsed (lit "a") (some 80))))
    × (normalize lib default_config
          (reconstruct lib (canonical_context lib raw parsed (lit "a") (some 80)))
        ≡ some (reconstruct lib (canonical_context lib raw parsed (lit "a") (some 80))))
unfolding web_crawler.Pipeline.Normalizer.is_all_space lit text_eq sort_params
    web_crawler.Pipeline.Normalizer.insert_param web_crawler.Pipeline.Normalizer.pair_le reconstruct
    lower trailing_slash decode_unreserved web_crawler.Pipeline.Percent.sub
    uppercase_percent_encoding is_triplet web_crawler.Pipeline.Percent.upper_triplet
    web_crawler.Pipeline.Percent.upper web_crawler.Pipeline.Percent.decode_triplet
normalize_idem_example =
    normalize_idem lib raw parsed again (lit "a") (some 80) refl refl refl refl refl refl
      IsEncoded-path IsPlain-path canonical_query refl refl refl refl refl refl refl refl

-- A pattern matches only itself, and the empty one raises.
abbrev search : Search
search [] url = err (record { kind = ErrorKind.value; message = [] })
search (c ∷ p) url = ok (text_eq (c ∷ p) url)

abbrev context : Text → FilterContext
context seed_domain = record {
  url = lit "http://a/~x";
  parsed = again;
  depth = 2;
  seed_domain = seed_domain;
  max_depth = none;
  include_patterns = [];
  exclude_patterns = lit "http://a/y" ∷ [];
  store = store_of done;
}

passes : execute search default_config (context (lit "a")) ≡ true
unfolding execute run_steps web_crawler.Pipeline.Build.build execute_step text_eq lit
    web_crawler.Pipeline.Filter.search_any web_crawler.Store.Queries.exists
passes = refl

execute_iff_example :
    (execute search default_config (context (lit "a")) ≡ true) ↔ IsWanted search (context (lit "a"))
execute_iff_example = execute_iff search (context (lit "a"))

-- The step on the host does not run.
abbrev any_host : PipelineConfig
any_host = record {
  normalizer = [];
  filter = (lit "domain_match", record { enabled = false }) ∷ [];
}

host_free : execute search any_host (context (lit "b")) ≡ true
unfolding execute build is_enabled run_steps execute_step lit text_eq search_any exists
host_free = refl
