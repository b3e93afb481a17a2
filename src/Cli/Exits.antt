-- ===== src/Cli/Exits.antt =====
-- What src/crawler/__main__.py makes of the errors of a session.
use web_crawler.Prelude.{ℕ, ◌≡◌, refl, ◌≢◌, ap, true, Bool, none, some, Text, lit, ◌++◌}
use web_crawler.Types.{CrawlerConfig, CrawlResult, Error, ErrorKind, Result, ok, err}
use web_crawler.Store.{Store, Action, continue}
use web_crawler.Config.{validate_config}
use web_crawler.Config.Errors.{IsValueError, validate_config-IsValueError}
use web_crawler.Config.Ranges.{InRange, validate_config-ok}
use web_crawler.Worker.{Worker}
use web_crawler.Crawler.Bootstrap.{
  Host, start, start_session, resume_session, run_session, no_stored_config,
}
use web_crawler.Crawler.Resume.{resume_missing}
use web_crawler.Cli.{crawl, resume, returned, Exit, failed, crashed, Session, main, exit_of}
use web_crawler.Config.Yaml.{
  Yaml, Loaded, empty, mapping, other, from_document, from_yaml, not_mapping,
}

-- A session that is not interrupted.
abbrev pub uninterrupted : Action CrawlResult → Session
uninterrupted m s = let (left, result) = m s in (left, returned result)

range_error_of :
    (c : CrawlerConfig)
    → (InRange c → ⊥)
    → (e : Error) × (validate_config c ≡ err e) × (e.kind ≡ ErrorKind.value)
range_error_of c bad = go (validate_config c) refl (validate_config-IsValueError c)
  where
    go :
        (r : Result (Unit {0}))
        → validate_config c ≡ r
        → IsValueError r
        → (e : Error) × (validate_config c ≡ err e) × (e.kind ≡ ErrorKind.value)
    go (ok u) same h = absurd (bad ((validate_config-ok c).0 same))
    go (err e) same h = (e, same, h)

no_mapping :
    (yaml : Yaml) (document : Loaded yaml.Mapping)
    → ((m : yaml.Mapping) → document ≢ mapping m)
    → (type : Text) × (from_document yaml document
        ≡ err (not_mapping (lit "crawler.types.CrawlerConfig") type))
no_mapping yaml empty odd = (lit "NoneType", refl)
no_mapping yaml (mapping m) odd = absurd (odd m refl)
no_mapping yaml (other type truth) odd = (type, refl)

module _ (host : Host) (runs : Worker → Store → Store) (now ended : ℕ) (exists : Text → Bool)
    (out : Text) (s : Store) where
  -- The command `crawl` on a configuration with a value out of its range ends with a message on the
  -- configuration, and before it touches the database.
  pub main_rejects :
      (from_yaml : Result CrawlerConfig) (c : CrawlerConfig) (path : Text) (resumes : Session)
      → exists path ≡ true
      → from_yaml ≡ ok c
      → (InRange c → ⊥)
      → (message : Text) × (main exists
            (λ p. uninterrupted (start_session host runs now ended from_yaml out))
            resumes
            (some (crawl path))
            s
          ≡ (s, failed (lit "Configuration error: " ++ message)))
  unfolding main start
  main_rejects from_yaml c path resumes there read bad =
      let (e, invalid, kind) = range_error_of c bad in
      (e.message, rw there (rw read (rw invalid (rw kind refl))))

  -- The command `resume` on a database without a stored configuration ends with a message that says
  -- so, and leaves the database as it is.
  pub main_nothing_stored :
      (starts : Text → Session)
      → host.open_store ≡ ok tt
      → s.config ≡ none
      → main exists starts (uninterrupted (resume_session host runs now ended out)) (some resume) s
        ≡ (s, failed (lit "Runtime error: " ++ no_stored_config.message))
  unfolding main
  main_nothing_stored starts opened e =
      ap (λ p. of_ending (run_on p)) (resume_missing host out now s opened e)
    where
      run_on : Store × Result Worker → Store × Result CrawlResult
      run_on p = continue p.1 (run_session host runs now ended) p.0

      of_ending : Store × Result CrawlResult → Store × Exit
      of_ending p = (p.0, exit_of (returned p.1))

  -- The command `crawl` on a file whose document is empty, or is no mapping, ends with a TypeError that
  -- `main` does not catch, and leaves the database as it is.
  pub main_unread :
      (yaml : Yaml) (path : Text) (resumes : Session) (document : Loaded yaml.Mapping)
      → exists path ≡ true
      → yaml.safe_load path ≡ ok document
      → ((m : yaml.Mapping) → document ≢ mapping m)
      → (type : Text) × (main exists
            (λ p. uninterrupted (start_session host runs now ended (from_yaml yaml p) out))
            resumes
            (some (crawl path))
            s
          ≡ (s, crashed (not_mapping (lit "crawler.types.CrawlerConfig") type)))
  unfolding main start from_yaml
  main_unread yaml path resumes document there read odd =
      let (type, raises) = no_mapping yaml document odd in (type, rw there (rw (read, raises) refl))

  -- On a mapping that is refused by a ValueError it ends with a message on the configuration.
  pub main_refused :
      (yaml : Yaml) (path : Text) (resumes : Session) (m : yaml.Mapping) (e : Error)
      → exists path ≡ true
      → yaml.safe_load path ≡ ok (mapping m)
      → yaml.crawler_config m ≡ err e
      → e.kind ≡ ErrorKind.value
      → main exists
          (λ p. uninterrupted (start_session host runs now ended (from_yaml yaml p) out))
          resumes
          (some (crawl path))
          s
        ≡ (s, failed (lit "Configuration error: " ++ e.message))
  unfolding main start from_yaml
  main_refused yaml path resumes m e there read refused kind =
      rw there (rw (read, refused) (rw kind refl))
