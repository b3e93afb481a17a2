-- ===== src/Store/Settings.antt =====
-- src/crawler/metadata_store.py: `store_config`, `load_config`, `load_seed_domain`.
use web_crawler.Prelude.{Option, none, some, List, [], ◌∷◌, Text, ◌≡◌, ◌≢◌, refl, arith}
use web_crawler.Prelude.Int.{pos}
use web_crawler.Types.{CrawlerConfig}
use web_crawler.Store.{ConfigRow, Store}

-- `json` on lists of strings: what `dumps` writes is not empty, and `loads` reads it back.
pub record Json : Type 0 where
  pub dumps : List Text → Text
  pub loads : Text → List Text
  pub loads-dumps : (ts : List Text) → loads (dumps ts) ≡ ts
  pub dumps-ne-nil : (ts : List Text) → dumps ts ≢ []

module _ (json : Json) where
  open json use {dumps, loads}

  unfoldable pub store_config : CrawlerConfig → Text → Store → Store
  store_config c seed_domain s = record s {
    config = some (record {
      seed_url = c.seed_url;
      seed_domain = seed_domain;
      max_depth = c.max_depth;
      max_concurrency = c.max_concurrency;
      max_retries = c.max_retries;
      max_content_size = c.max_content_size;
      lease_timeout_ms = c.lease_timeout_ms;
      batch_size = c.batch_size;
      include_patterns = dumps c.include_patterns;
      exclude_patterns = dumps c.exclude_patterns;
    });
  }

  -- `json.loads(text) if text else []`
  read_patterns : Text → List Text
  read_patterns [] = []
  read_patterns (c ∷ cs) = loads (c ∷ cs)

  -- Fields that the table has no column for take the model's defaults.
  read_config : ConfigRow → CrawlerConfig
  unfolding read_patterns
  read_config row = record {
    seed_url = row.seed_url;
    max_depth = row.max_depth;
    max_concurrency = row.max_concurrency;
    max_retries = row.max_retries;
    max_content_size = row.max_content_size;
    max_redirects = pos 5;
    include_patterns = read_patterns row.include_patterns;
    exclude_patterns = read_patterns row.exclude_patterns;
    lease_timeout_ms = row.lease_timeout_ms;
    batch_size = row.batch_size;
    progress_interval_ms = 10000;
  }

  unfoldable pub load_config : Store → Option CrawlerConfig
  unfolding read_config
  load_config s = elim s.config [ none ↦ none | some row ↦ some (read_config row) ]

  read_patterns-dumps : (ts : List Text) → read_patterns (dumps ts) ≡ ts
  unfolding read_patterns
  read_patterns-dumps ts = go (dumps ts) refl
    where
      go : (t : Text) → dumps ts ≡ t → read_patterns t ≡ ts
      go [] e = absurd (json.dumps-ne-nil ts e)
      go (c ∷ cs) e = ground (arith, json.loads-dumps ts)

  -- What `store_config` writes `load_config` reads back, but for the two settings that the table
  -- has no column for: the redirect limit and the progress interval come back as the defaults.
  pub load_config-store_config :
      (c : CrawlerConfig) (seed_domain : Text) (s : Store)
      → load_config (store_config c seed_domain s)
        ≡ some (record c { max_redirects = pos 5; progress_interval_ms = 10000 })
  unfolding load_config store_config
  load_config-store_config c seed_domain s =
      ground (arith, read_patterns-dumps c.include_patterns, read_patterns-dumps c.exclude_patterns)

unfoldable pub load_seed_domain : Store → Option Text
load_seed_domain s = elim s.config [ none ↦ none | some row ↦ some row.seed_domain ]
