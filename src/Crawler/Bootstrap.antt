-- ===== src/Crawler/Bootstrap.antt =====
-- src/crawler/crawler.py: `start` and `resume` up to the call of `run`, with the objects that they
-- wire, and `stop`. The file system, the opening of the database and the reading of the YAML file are
-- arguments.
use web_crawler.Prelude.{
  ℕ, Bool, true, false, Option, none, some, List, [], ◌∷◌, ◌++◌, Text, lit, if◌then◌else◌,
}
use web_crawler.Types.{CrawlerConfig, CrawlResult, Error, ErrorKind, Result, ok, err}
use web_crawler.Store.{Store, Action, ◌>>=◌, ◌>>◌, pure}
use web_crawler.Store.Settings.{Json, store_config, load_config, load_seed_domain}
use web_crawler.Config.{ParsedUrl, validate_config, validate_seed_url}
use web_crawler.Processors.{lift}
use web_crawler.Pipeline.Context.{UrlLib}
use web_crawler.Pipeline.Build.{default_config}
use web_crawler.Pipeline.Normalizer.{normalize}
use web_crawler.Worker.{Worker}
use web_crawler.Scheduler.{init}
use web_crawler.Crawler.{processors, build_result}

-- `urlparse` on the texts of seed URLs, `base_path / subdir`, `mkdir(parents=True, exist_ok=True)`,
-- and `MetadataStore.init`, which may fail to open the database.
pub record Host : Type 0 where
  pub json : Json
  pub lib : UrlLib
  pub urlparse : Text → ParsedUrl
  pub join : Text → Text → Text
  pub mkdir : Text → Result (Unit {0})
  pub open_store : Result (Unit {0})

-- `ConnectionError` and `TimeoutError` are `OSError`s.
abbrev pub is_os : ErrorKind → Bool
is_os ErrorKind.os = true
is_os ErrorKind.connection = true
is_os ErrorKind.timeout = true
is_os _ = false

abbrev pub cannot_create : Text → Error → Error
cannot_create dir_path e =
    if is_os e.kind
    then record {
      kind = ErrorKind.os;
      message = lit "Cannot create output directory '" ++ dir_path ++ lit "': " ++ e.message;
    }
    else e

abbrev pub on_error {ℓ} : {A : Type ℓ} → (Error → Error) → Result A → Result A
on_error f (ok a) = ok a
on_error f (err e) = err (f e)

abbrev pub runtime_error : Text → Error → Error
runtime_error what e = record { kind = ErrorKind.runtime; message = what ++ e.message }

abbrev pub output_subdirs : List Text
output_subdirs = lit "html" ∷ lit "images" ∷ lit "videos" ∷ lit "pdfs" ∷ []

abbrev pub no_stored_config : Error
no_stored_config = record {
  kind = ErrorKind.runtime;
  message =
      lit
        "No stored configuration found in database. Cannot resume without a previous crawl session.";
}

-- The worker that `_create_worker` of the scheduler builds from the objects that are wired. The rate
-- limiter and the fetcher stand in what is fetched, which is an argument of the worker.
abbrev pub wire : CrawlerConfig → Text → Text → Worker
wire config seed_domain output_path = record {
  config = config;
  normalizer = default_config;
  url_filter = record {
    seed_domain = seed_domain;
    max_depth = config.max_depth;
    include_patterns = config.include_patterns;
    exclude_patterns = config.exclude_patterns;
    pipeline = default_config;
  };
  processors = processors;
  output_dir = output_path;
}

-- `seed_domain or parsed_seed.netloc`
abbrev pub domain_or : Option Text → Text → Text
domain_or none netloc = netloc
domain_or (some []) netloc = netloc
domain_or (some (c ∷ t)) netloc = c ∷ t

module _ (host : Host) where
  open host use {json, lib, urlparse, join, mkdir, open_store}

  abbrev pub create_directories : Text → List Text → Result (Unit {0})
  create_directories base [] = ok tt
  create_directories base (subdir ∷ subdirs) =
      let rest = create_directories base subdirs in
      elim (on_error (cannot_create (join base subdir)) (mkdir (join base subdir))) [
        | ok u ↦ rest
        | err e ↦ err e
      ]

  unfoldable pub create_output_directories : Text → Result (Unit {0})
  create_output_directories base = create_directories base output_subdirs

  -- The scheduler is handed its objects, and set up.
  abbrev pub init_scheduler : ℕ → CrawlerConfig → Text → Text → Action Worker
  init_scheduler now config seed_domain output_path =
      init json (normalize lib default_config) (λ url. (urlparse url).netloc) now config
      >> pure (wire config seed_domain output_path)

  -- The store is there: the configuration is frozen, and the scheduler set up.
  unfoldable pub launch : ℕ → CrawlerConfig → Text → Text → Action Worker
  launch now config seed_domain output_path s =
      init_scheduler now config seed_domain output_path (store_config json config seed_domain s)

  -- `start` up to the call of `run`, with what `from_yaml` returns or raises.
  unfoldable pub start : Result CrawlerConfig → Text → ℕ → Action Worker
  start from_yaml output_path now = lift from_yaml >>= λ config.
      lift (validate_config config) >>= λ valid.
      lift (validate_seed_url urlparse config.seed_url) >>= λ seed_domain.
      lift (create_output_directories output_path) >>= λ made.
      lift (on_error (runtime_error (lit "MetadataStore unavailable at bootstrap: ")) open_store)
      >>= λ opened. launch now config seed_domain output_path

  abbrev pub stored_config : Option CrawlerConfig → Result CrawlerConfig
  stored_config none = err no_stored_config
  stored_config (some config) = ok config

  -- `resume` up to the call of `run`; the domain is read from the store before anything is written.
  unfoldable pub resume : Text → ℕ → Action Worker
  resume output_path now s =
      (lift (on_error (runtime_error (lit "MetadataStore unavailable for resume: ")) open_store)
          >>= λ opened. lift (stored_config (load_config json s)) >>= λ config.
              lift (create_output_directories output_path) >>= λ made.
              init_scheduler now config
                (domain_or (load_seed_domain s) (urlparse config.seed_url).netloc) output_path)
        s

  -- The whole of a session, where `runs` is what the crawl of a worker leaves of a store, and `ended`
  -- the time at which it ends.
  module _ (runs : Worker → Store → Store) (now ended : ℕ) where
    abbrev pub run_session : Worker → Action CrawlResult
    run_session w s = let left = runs w s in (left, ok (build_result ended now (some left)))

    abbrev pub start_session : Result CrawlerConfig → Text → Action CrawlResult
    start_session from_yaml output_path = start from_yaml output_path now >>= run_session

    abbrev pub resume_session : Text → Action CrawlResult
    resume_session output_path = resume output_path now >>= run_session
