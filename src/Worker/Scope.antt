-- ===== src/Worker/Scope.antt =====
-- The scope of the crawl: which URLs the workers of src/crawler/worker.py put into the store under
-- the default filter of src/crawler/url_filter.py.
use web_crawler.Prelude.{
  ℕ, ◌≡◌, refl, subst, true, Bool, Option, some, List, [], ◌∷◌, ◌⊎◌, Text, any, inl, inr, ◌++◌,
  Bool-cases, All-append,
}
use web_crawler.Types.{Result, ok, err}
use web_crawler.Types.Results.{is_ok}
use web_crawler.Config.{ParsedUrl, is_http}
use web_crawler.Store.{UrlRecord, has_key}
use web_crawler.Store.Frontier.{enqueue, new_record, parent_known}
use web_crawler.Store.Quiet.{AllAt}
use web_crawler.Processors.{Media}
use web_crawler.Pipeline.Build.{default_config}
use web_crawler.Pipeline.Context.{UrlLib}
use web_crawler.Pipeline.Filter.{FilterContext, Search, is_within, execute}
use web_crawler.Pipeline.Filter.Acceptance.{IsWanted, NoneMatches, SomeMatches, execute_iff}
use web_crawler.Worker.{Worker, UrlFilter, passes}
use web_crawler.Worker.Effects.{Admits, Keeps}

module _ (lib : UrlLib) (find : Search) where
  -- A URL at a depth of the crawl that the filter's settings allow.
  pub record IsInScope (f : UrlFilter) (key : Text) (depth : ℕ) : Type 0 where
    pub parsed : ParsedUrl
    pub parses : lib.urlparse key ≡ ok parsed
    pub http : is_http parsed.scheme ≡ true
    pub domain : parsed.hostname ≡ some f.seed_domain
    pub depth_limit : is_within f.max_depth depth ≡ true
    pub excluded : NoneMatches find f.exclude_patterns key
    pub included : (f.include_patterns ≡ []) ⊎ SomeMatches find f.include_patterns key

  -- Every URL of the store is in scope at its depth.
  abbrev pub IsScoped : UrlFilter → List UrlRecord → Type 0
  IsScoped f rows = AllAt (IsInScope f) rows

  module _ (media : Media) (w : Worker) (default : w.url_filter.pipeline ≡ default_config) where
    Admits-IsInScope :
        (key : Text) (depth : ℕ)
        → Admits lib find media w key depth
        → IsInScope w.url_filter key depth
    unfolding passes
    Admits-IsInScope key depth (t, e) = scoped (lib.urlparse key) refl e
      where
        context : ParsedUrl → FilterContext
        context parsed = record {
          url = key;
          parsed = parsed;
          depth = depth;
          seed_domain = w.url_filter.seed_domain;
          max_depth = w.url_filter.max_depth;
          include_patterns = w.url_filter.include_patterns;
          exclude_patterns = w.url_filter.exclude_patterns;
          store = t;
        }

        in_scope :
            (parsed : ParsedUrl)
            → lib.urlparse key ≡ ok parsed
            → IsWanted find (context parsed)
            → IsInScope w.url_filter key depth
        in_scope p e want = record {
          parsed = p;
          parses = e;
          http = want.http;
          domain = want.domain;
          depth_limit = want.depth;
          excluded = want.excluded;
          included = want.included;
        }

        scoped :
            (r : Result ParsedUrl)
            → lib.urlparse key ≡ r
            → (elim r as (λ _. Result Bool) [
              | ok p ↦ ok (execute find w.url_filter.pipeline (context p))
              | err x ↦ err x
            ])
              ≡ ok true
            → IsInScope w.url_filter key depth
        scoped (ok p) parse e =
            let passed = subst (λ c. execute find c (context p) ≡ true) default (is_ok e) in
            in_scope p parse ((execute_iff find (context p)).0 passed)
        scoped (err x) parse e = absurd (cc)

    pub IsScoped-enqueue :
        (now : ℕ) (key url : Text) (depth : ℕ) (parent : Option Text) (redirects : ℕ)
        → Admits lib find media w key depth
        → Keeps (IsScoped w.url_filter) (enqueue now key url depth parent redirects)
    unfolding enqueue new_record
    IsScoped-enqueue now key url depth parent redirects admitted s h =
        let rows = s.records ++ new_record now key url depth parent redirects ∷ [] in
        elim (Bool-cases (any (has_key key) s.records)) [
          | inl there ↦ rw there h
          | inr fresh ↦ elim (Bool-cases (parent_known parent rows)) [
            | inl known ↦
                rw (fresh, known)
                  (All-append (λ r. IsInScope w.url_filter r.normalized_url r.crawl_depth) s.records
                    _ h (Admits-IsInScope key depth admitted, tt))
            | inr unknown ↦ rw (fresh, unknown) h
          ]
        ]
