-- ===== src/Crawler/Sessions.antt =====
-- The sessions of src/crawler/crawler.py: what `start` and `resume` leave in the store and hand to the
-- scheduler, and what holds of the crawl that then runs.
use web_crawler.Prelude.{
  ℕ, ◌≡◌, refl, sym, ◌∙◌, ap, Option, none, some, ◌++◌, Text, lit, arith, inl, inr, Option-cases,
}
use web_crawler.Types.Results.{is_ok, err_not_ok}
use web_crawler.Types.{CrawlerConfig, Error, Result, ok, err}
use web_crawler.Store.{Store, Action, continue, ◌>>=◌, pure}
use web_crawler.Store.Frontier.{enqueue}
use web_crawler.Store.Settings.{store_config}
use web_crawler.Config.{value_error, validate_config, validate_seed_url}
use web_crawler.Processors.{lift}
use web_crawler.Pipeline.Build.{default_config}
use web_crawler.Pipeline.Normalizer.{normalize}
use web_crawler.Worker.{Worker}
use web_crawler.Scheduler.{init}
use web_crawler.Crawler.Bootstrap.{
  Host, wire, create_output_directories, init_scheduler, start, launch, on_error,
}

on_error-ok :
    {A : Type 0} → (f : Error → Error) (r : Result A) (a : A) → on_error f r ≡ ok a → r ≡ ok a
on_error-ok f (ok b) a e = e
on_error-ok f (err b) a e = absurd (cc)

-- An action that begins with a check and succeeds has passed the check, and goes on from the same
-- store.
lift-ok :
    {A B : Type 0}
    → (r : Result A) (f : A → Action B) (s : Store) (b : B) → ((lift r >>= f) s).1 ≡ ok b
    → (a : A) × (r ≡ ok a) × ((lift r >>= f) s ≡ f a s)
lift-ok (ok a) f s b e = (a, refl, refl)
lift-ok (err x) f s b e = absurd (cc)

pub lift_lem :
    {A B : Type 0}
    → (r : Result A) (f : A → Action B) (a : A) (s : Store) → r ≡ ok a
    → (lift r >>= f) s ≡ f a s
lift_lem r f a s e = ap (λ t. continue t f s) e

module _ (host : Host) where
  open host use {json, lib, urlparse, open_store}

  abbrev norm : Text → Option Text
  norm = normalize lib default_config

  abbrev netloc : Text → Text
  netloc url = (urlparse url).netloc

  -- What `Scheduler.init` leaves of a store.
  abbrev pub initialized : ℕ → CrawlerConfig → Text → Store → Store
  initialized now c key s =
      (enqueue now key c.seed_url 0 none 0 (store_config json c (netloc key) s)).0

  enqueue_seed : (now : ℕ) (key url : Text) (s : Store) → (enqueue now key url 0 none 0 s).1 ≡ ok tt
  unfolding enqueue
  enqueue_seed now key url s = ground arith

  init_found :
      (normal : Text → Option Text) (now : ℕ) (c : CrawlerConfig) (key : Text) (s : Store)
      → normal c.seed_url ≡ some key
      → init json normal netloc now c s ≡ (initialized now c key s, ok tt)
  unfolding init
  init_found normal now c key s e =
      rw (e, init)
        (ap (λ r. (initialized now c key s, r))
          (enqueue_seed now key c.seed_url (store_config json c (netloc key) s)))

  init_missing :
      (normal : Text → Option Text) (now : ℕ) (c : CrawlerConfig) (s : Store)
      → normal c.seed_url ≡ none
      → (e : Error) × (init json normal netloc now c s ≡ (s, err e))
  unfolding init
  init_missing normal now c s e =
      (value_error (lit "Invalid seed URL: " ++ c.seed_url), rw (e, init) refl)

  -- With a seed that can be normalized the scheduler is set up, and its row is put into the frontier
  -- unless it is there.
  pub init_scheduler_lem :
      (now : ℕ) (c : CrawlerConfig) (domain out key : Text) (s : Store)
      → norm c.seed_url ≡ some key
      → init_scheduler host now c domain out s ≡ (initialized now c key s, ok (wire c domain out))
  init_scheduler_lem now c domain out key s e =
      ap (λ p. continue p.1 (λ u. pure (wire c domain out)) p.0) (init_found norm now c key s e)

  init_scheduler-ok :
      (now : ℕ) (c : CrawlerConfig) (domain out : Text) (s : Store) (w : Worker)
      → (init_scheduler host now c domain out s).1 ≡ ok w
      → (key : Text) × (norm c.seed_url ≡ some key)
        × (w ≡ wire c domain out)
        × ((init_scheduler host now c domain out s).0 ≡ initialized now c key s)
  init_scheduler-ok now c domain out s w e = elim (Option-cases (norm c.seed_url)) [
    | inl missing ↦
        let (x, fails) = init_missing norm now c s missing in
        absurd (
          err_not_ok
            (sym (ap (λ p. (continue p.1 (λ u. pure (wire c domain out)) p.0).1) fails) ∙ e))
    | inr (key, found) ↦
        let same = init_scheduler_lem now c domain out key s found in
        (key, found, is_ok (sym e ∙ ap (λ p. p.1) same), ap (λ p. p.0) same)
  ]

  -- `start` succeeds only with a configuration and a seed URL that pass the checks, directories that
  -- could be made and a store that could be opened; the scheduler is then set up on the store in which
  -- the configuration has been stored.
  pub start-ok :
      (from_yaml : Result CrawlerConfig) (out : Text) (now : ℕ) (s : Store) (w : Worker)
      → (start host from_yaml out now s).1 ≡ ok w
      → (c : CrawlerConfig) × (domain : Text) × (key : Text) × (from_yaml ≡ ok c)
        × (validate_config c ≡ ok tt)
        × (validate_seed_url urlparse c.seed_url ≡ ok domain)
        × (norm c.seed_url ≡ some key)
        × (create_output_directories host out ≡ ok tt)
        × (open_store ≡ ok tt)
        × (w ≡ wire c domain out)
        × ((start host from_yaml out now s).0
            ≡ initialized now c key (store_config json c domain s))
  unfolding start launch
  start-ok from_yaml out now s w e =
      let (c, read, to_c) = lift-ok from_yaml _ s w e in
      let e₁ = sym (ap (λ p. p.1) to_c) ∙ e in
      let (v, valid, to_v) = lift-ok (validate_config c) _ s w e₁ in
      let e₂ = sym (ap (λ p. p.1) to_v) ∙ e₁ in
      let (domain, seeded, to_d) = lift-ok (validate_seed_url urlparse c.seed_url) _ s w e₂ in
      let e₃ = sym (ap (λ p. p.1) to_d) ∙ e₂ in
      let (m, made, to_m) = lift-ok (create_output_directories host out) _ s w e₃ in
      let e₄ = sym (ap (λ p. p.1) to_m) ∙ e₃ in
      let (o, opened, to_o) = lift-ok (on_error _ open_store) _ s w e₄ in
      let e₅ = sym (ap (λ p. p.1) to_o) ∙ e₄ in
      let (key, found, wired, stored) =
        init_scheduler-ok now c domain out (store_config json c domain s) w e₅ in
      (
        c,
        domain,
        key,
        read,
        valid,
        seeded,
        found,
        made,
        on_error-ok _ open_store o opened,
        wired,
        ap (λ p. p.0) (to_c ∙ to_v ∙ to_d ∙ to_m ∙ to_o) ∙ stored,
      )

  -- Where the checks pass, `start` stores the configuration, sets up the scheduler and hands it the
  -- objects that it wires.
  pub start_lem :
      (from_yaml : Result CrawlerConfig) (out : Text) (now : ℕ) (s : Store) (c : CrawlerConfig)
      (domain key : Text)
      → from_yaml ≡ ok c
      → validate_config c ≡ ok tt
      → validate_seed_url urlparse c.seed_url ≡ ok domain
      → create_output_directories host out ≡ ok tt
      → open_store ≡ ok tt
      → norm c.seed_url ≡ some key
      → start host from_yaml out now s
        ≡ (initialized now c key (store_config json c domain s), ok (wire c domain out))
  unfolding start launch
  start_lem from_yaml out now s c domain key read valid seeded made opened found =
      lift_lem from_yaml _ c s read
      ∙ lift_lem (validate_config c) _ tt s valid
      ∙ lift_lem (validate_seed_url urlparse c.seed_url) _ domain s seeded
      ∙ lift_lem (create_output_directories host out) _ tt s made
      ∙ lift_lem (on_error _ open_store) _ tt s (ap (on_error _) opened)
      ∙ init_scheduler_lem now c domain out key (store_config json c domain s) found
