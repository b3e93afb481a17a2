-- ===== src/Crawler/Resume.antt =====
-- The second session of a crawl: `resume` of src/crawler/crawler.py on a store that `start` has set up
-- and that crawls have changed since.
use web_crawler.Prelude.{
  ℕ, ◌≡◌, ◌≢◌, refl, Option, [], ◌∷◌, sym, ◌∙◌, ap, true, none, some, Text, any, arith,
}
use web_crawler.Prelude.Int.{pos}
use web_crawler.Types.{CrawlerConfig, Result, ok, err}
use web_crawler.Store.{Store, has_key}
use web_crawler.Store.Frontier.{enqueue}
use web_crawler.Store.Settings.{
  store_config, load_config, load_seed_domain, load_config-store_config,
}
use web_crawler.Pipeline.Build.{default_config}
use web_crawler.Pipeline.Normalizer.{normalize}
use web_crawler.Worker.{Worker}
use web_crawler.Crawler.Bootstrap.{
  Host, wire, create_output_directories, start, resume, domain_or, on_error, stored_config,
  no_stored_config,
}
use web_crawler.Crawler.Sessions.{initialized, lift_lem, init_scheduler_lem, start-ok}

-- What `store_config` keeps of a configuration.
abbrev pub frozen : CrawlerConfig → CrawlerConfig
frozen c = record c { max_redirects = pos 5; progress_interval_ms = 10000 }

module _ (host : Host) where
  open host use {json, lib, urlparse, open_store}

  -- On a store that holds no configuration, `resume` raises a `RuntimeError` and leaves the store as it
  -- is.
  pub resume_missing :
      (out : Text) (now : ℕ) (s : Store)
      → open_store ≡ ok tt
      → s.config ≡ none
      → resume host out now s ≡ (s, err no_stored_config)
  unfolding resume load_config
  resume_missing out now s opened e = rw (opened, e) refl

  initialized_rows :
      (now : ℕ) (c : CrawlerConfig) (key : Text) (s : Store)
      → any (has_key key) s.records ≡ true
      → initialized host now c key s ≡ store_config json c (urlparse key).netloc s
  unfolding enqueue store_config
  initialized_rows now c key s there = rw (there, initialized) refl

  module _ (out : Text) (now : ℕ) (s : Store) (c : CrawlerConfig) (key : Text) where
    -- On a store with a configuration and a row for its seed, `resume` hands the scheduler the stored
    -- configuration and the stored domain; it leaves every row as it is, and the configuration can be
    -- loaded again.
    pub resume_lem :
        open_store ≡ ok tt
        → create_output_directories host out ≡ ok tt
        → load_config json s ≡ some c
        → normalize lib default_config c.seed_url ≡ some key
        → any (has_key key) s.records ≡ true
        → ((resume host out now s).1
            ≡ ok (wire c (domain_or (load_seed_domain s) (urlparse c.seed_url).netloc) out))
          × ((resume host out now s).0.records ≡ s.records)
          × (load_config json (resume host out now s).0 ≡ some (frozen c))
    unfolding resume store_config
    resume_lem opened made loaded found there =
        let domain = domain_or (load_seed_domain s) (urlparse c.seed_url).netloc in
        let same : resume host out now s
            ≡ (store_config json c (urlparse key).netloc s, ok (wire c domain out)) =
          lift_lem (on_error _ open_store) _ tt s (ap (on_error _) opened)
          ∙ lift_lem (stored_config host (load_config json s)) _ c s
              (ap (stored_config host) loaded)
          ∙ lift_lem (create_output_directories host out) _ tt s made
          ∙ init_scheduler_lem host now c domain out key s found
          ∙ ap (λ t. (t, ok (wire c domain out))) (initialized_rows now c key s there) in
        (
          ap (λ p. p.1) same,
          ap (λ p. p.0.records) same,
          ap (λ p. load_config json p.0) same
              ∙ load_config-store_config json c (urlparse key).netloc s,
        )

  load_config_cong :
      (s t : Store)
      → s.config ≡ t.config
      → (load_config json s ≡ load_config json t) × (load_seed_domain s ≡ load_seed_domain t)
  unfolding load_config load_seed_domain
  load_config_cong s t e = (rw e refl, rw e refl)

  initialized-config :
      (now : ℕ) (c : CrawlerConfig) (key : Text) (s : Store)
      → (initialized host now c key s).config ≡ (store_config json c (urlparse key).netloc s).config
  unfolding enqueue
  initialized-config now c key s = ground arith

  resume_stored :
      (out : Text) (later : ℕ) (c : CrawlerConfig) (key : Text) (s t : Store)
      → open_store ≡ ok tt
      → create_output_directories host out ≡ ok tt
      → normalize lib default_config c.seed_url ≡ some key
      → t.config ≡ (store_config json c (urlparse key).netloc s).config
      → any (has_key key) t.records ≡ true
      → ((resume host out later t).1
          ≡ ok (
              wire
                (frozen c)
                (domain_or (some (urlparse key).netloc) (urlparse c.seed_url).netloc)
                out))
        × ((resume host out later t).0.records ≡ t.records)
  unfolding load_seed_domain store_config
  resume_stored out later c key s t opened made found e there =
      let (config, domain) = load_config_cong t (store_config json c (urlparse key).netloc s) e in
      let loaded = config ∙ load_config-store_config json c (urlparse key).netloc s in
      let (result, rows, again) =
        resume_lem out later t (frozen c) key opened made loaded found there in
      (
        result
            ∙ ap (λ d. ok (wire (frozen c) (domain_or d (urlparse c.seed_url).netloc) out)) domain,
        rows,
      )

domain_or-stored : (domain netloc : Text) → domain ≢ [] → domain_or (some domain) netloc ≡ domain
domain_or-stored [] netloc h = absurd (h refl)
domain_or-stored (c ∷ t) netloc h = refl

same_key : {o : Option Text} → {a b : Text} → o ≡ some a → o ≡ some b → a ≡ b
same_key e f = cc

-- A session that `start` has set up is resumed, while its seed has a row, with the same configuration,
-- but for the redirect limit and the progress interval, which come back as the defaults, and with the
-- domain of the normalized seed URL in place of that of the seed URL, where the former has one; no row
-- is changed.
pub resume_started :
    (host : Host) (from_yaml : Result CrawlerConfig) (out : Text) (now later : ℕ) (s t : Store)
    (w : Worker) (key : Text)
    → (start host from_yaml out now s).1 ≡ ok w
    → normalize host.lib default_config w.config.seed_url ≡ some key
    → (host.urlparse key).netloc ≢ []
    → t.config ≡ (start host from_yaml out now s).0.config
    → any (has_key key) t.records ≡ true
    → ((resume host out later t).1 ≡ ok (wire (frozen w.config) (host.urlparse key).netloc out))
      × ((resume host out later t).0.records ≡ t.records)
resume_started host from_yaml out now later s t w key e found named kept there =
    let (c, domain, key', read, valid, seeded, found', made, opened, wired, stored) =
      start-ok host from_yaml out now s w e in
    let same : w.config ≡ c = ap (λ v. v.config) wired in
    let keys : key' ≡ key =
      same_key (ap (λ d. normalize host.lib default_config d.seed_url) same ∙ found') found in
    let begun = store_config host.json c domain s in
    let config_kept =
      kept
      ∙ ap (λ u. u.config) stored
      ∙ initialized-config host now c key' begun
      ∙ ap (λ k. (store_config host.json c (host.urlparse k).netloc begun).config) keys
      ∙ ap (λ d. (store_config host.json d (host.urlparse key).netloc begun).config) (sym same) in
    let (result, rows) =
      resume_stored host out later w.config key begun t opened made found config_kept there in
    (
      result
          ∙ ap (λ d. ok (wire (frozen w.config) d out))
              (domain_or-stored (host.urlparse key).netloc (host.urlparse w.config.seed_url).netloc
                named),
      rows,
    )
