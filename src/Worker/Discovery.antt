-- ===== src/Worker/Discovery.antt =====
-- Which URLs the links of a page add to the frontier: `_enqueue_discovered_urls` of
-- src/crawler/worker.py against a description by sets.
pub mod Order
mod Tests
use web_crawler.Prelude.{
  ℕ, suc, ◌≡◌, refl, sym, ◌∙◌, ap, subst, Bool, true, false, Option, none, some, List, [], ◌∷◌,
  ◌++◌, Text, text_eq, text_eq_iff, text_eq_refl, any, arith, inl, inr, Bool-cases, if◌then◌else◌,
}
use web_crawler.Types.Results.{Result-cases, err_not_ok}
use web_crawler.Types.{Result, ok, err}
use web_crawler.Store.{Store, UrlRecord, Action, has_key, empty_store, continue}
use web_crawler.Store.Frontier.{enqueue, new_record}
use web_crawler.Store.Queries.{exists}
use web_crawler.Store.Discovery.{enqueue_known}
use web_crawler.Processors.{Media}
use web_crawler.Pipeline.Build.{build}
use web_crawler.Pipeline.Context.{UrlLib}
use web_crawler.Pipeline.Normalizer.{normalize}
use web_crawler.Pipeline.Filter.{Search, execute}
use web_crawler.Pipeline.Filter.Fresh.{run_steps-new}
use web_crawler.Worker.{Worker, passes, when_passed, enqueue_normalized, enqueue_discovered_urls}
use web_crawler.Worker.KeySet.{has, insert_keys, known, known_grown}

exists-append :
    (key : Text) (rows : List UrlRecord) (r : UrlRecord)
    → any (has_key key) (rows ++ r ∷ []) ≡ (if has_key key r then true else any (has_key key) rows)
exists-append key [] r = refl
exists-append key (x ∷ rows) r = ground (arith, exists-append key rows r)

exists-enqueue :
    (k : Text) (now : ℕ) (key url : Text) (depth redirects : ℕ) (s : Store)
    → exists key s ≡ false
    → exists k (enqueue now key url depth none redirects s).0
      ≡ (if text_eq key k then true else exists k s)
unfolding exists enqueue
exists-enqueue k now key url depth redirects s e =
    rw e (exists-append k s.records (new_record now key url depth none redirects))

exists_same :
    (k key : Text) (s : Store)
    → exists key s ≡ true
    → exists k s ≡ (if text_eq key k then true else exists k s)
exists_same k key s e = elim (Bool-cases (text_eq key k)) [
  | inl same ↦ rw same (subst (λ t. exists t s ≡ true) ((text_eq_iff key k).0 same) e)
  | inr other ↦ rw other refl
]

one_key :
    (same rest : Bool)
    → (if same then true else rest) ≡ (if (if same then true else false) then true else rest)
one_key true rest = refl
one_key false rest = refl

-- A key that the filter lets through.
abbrev pub let_through : Result Bool → Text → Option Text
let_through (ok true) key = some key
let_through (ok false) key = none
let_through (err e) key = none

abbrev pub with_key : Option Text → List Text → List Text
with_key none keys = keys
with_key (some key) keys = key ∷ keys

module _ (lib : UrlLib) (search : Search) (media : Media) (w : Worker) where
  -- The key under which a link is to be known: that of its normalization, if the filter lets it
  -- through.
  abbrev pub normal_key : ℕ → Option Text → Option Text
  normal_key depth none = none
  normal_key depth (some []) = none
  normal_key depth (some (c ∷ key)) =
      let_through (passes lib search media w (c ∷ key) depth empty_store) (c ∷ key)

  abbrev pub wanted_keys : ℕ → List Text → List Text
  wanted_keys depth [] = []
  wanted_keys depth (link ∷ links) =
      with_key (normal_key depth (normalize lib w.normalizer link)) (wanted_keys depth links)

  passes-new :
      (key : Text) (depth : ℕ) (s : Store)
      → exists key s ≡ false
      → passes lib search media w key depth s ≡ passes lib search media w key depth empty_store
  unfolding passes execute
  passes-new key depth s e = elim (Result-cases (lib.urlparse key)) [
    | inl (parsed, read) ↦ rw (read, passes) (ap ok (run_steps-new search _ _ e))
    | inr (x, raised) ↦ rw (raised, passes) refl
  ]

  put_known :
      (k key url : Text) (now depth : ℕ) (s : Store) (result : Result Bool)
      → exists key s ≡ true
      → (when_passed lib search media w result (enqueue now key url depth none 0) s).0 ≡ s
  put_known k key url now depth s (ok true) e =
      ap (λ t. t.0) (enqueue_known now key url depth none 0 s e)
  put_known k key url now depth s (ok false) e = refl
  put_known k key url now depth s (err x) e = refl

  known_through :
      (k key : Text) (s : Store) (result : Result Bool)
      → exists key s ≡ true
      → exists k s ≡ (if has k (with_key (let_through result key) []) then true else exists k s)
  known_through k key s (ok true) e = exists_same k key s e ∙ one_key (text_eq key k) (exists k s)
  known_through k key s (ok false) e = refl
  known_through k key s (err x) e = refl

  put_new :
      (k key url : Text) (now depth : ℕ) (s : Store) (result : Result Bool)
      → exists key s ≡ false
      → exists k (when_passed lib search media w result (enqueue now key url depth none 0) s).0
        ≡ (if has k (with_key (let_through result key) []) then true else exists k s)
  put_new k key url now depth s (ok true) e =
      exists-enqueue k now key url depth 0 s e ∙ one_key (text_eq key k) (exists k s)
  put_new k key url now depth s (ok false) e = refl
  put_new k key url now depth s (err x) e = refl

  -- What one link adds.
  enqueue_normalized-known :
      (k : Text) (o : Option Text) (now : ℕ) (url : Text) (depth : ℕ) (s : Store)
      → exists k (enqueue_normalized lib search media w o now url depth none 0 s).0
        ≡ (if has k (with_key (normal_key depth o) []) then true else exists k s)
  unfolding enqueue_normalized
  enqueue_normalized-known k none now url depth s = refl
  enqueue_normalized-known k (some []) now url depth s = refl
  enqueue_normalized-known k (some (c ∷ key)) now url depth s =
      elim (Bool-cases (exists (c ∷ key) s)) [
        | inl old ↦
            ap (exists k) (put_known k (c ∷ key) url now depth s _ old)
            ∙ known_through k (c ∷ key) s _ old
        | inr new ↦
            rw (passes-new (c ∷ key) depth s new) (put_new k (c ∷ key) url now depth s _ new)
      ]

  with_key-has :
      (k : Text) (o : Option Text) (keys : List Text) (rest : Bool)
      → (if has k keys then true else (if has k (with_key o []) then true else rest))
        ≡ (if has k (with_key o keys) then true else rest)
  with_key-has k none keys rest = refl
  with_key-has k (some key) keys rest = ground arith

  pub exists-links :
      (k : Text) (clock : ℕ → ℕ) (links : List Text) (i depth : ℕ) (s : Store)
      → (enqueue_discovered_urls lib search media w clock i links depth s).1 ≡ ok tt
      → exists k (enqueue_discovered_urls lib search media w clock i links depth s).0
        ≡ (if has k (wanted_keys depth links) then true else exists k s)
  unfolding enqueue_discovered_urls
  exists-links k clock [] i depth s e = refl
  exists-links k clock (link ∷ links) i depth s e =
      let o = normalize lib w.normalizer link in
      let (t, result) = enqueue_normalized lib search media w o (clock i) link depth none 0 s in
      elim (Result-cases result) [
        | inl (u, done) ↦
            let rest = rw done at e in
            rw done (
              exists-links k clock links (suc i) depth t rest
              ∙ ap (λ b. if has k (wanted_keys depth links) then true else b)
                  (enqueue_normalized-known k o (clock i) link depth s)
              ∙ with_key-has k (normal_key depth o) (wanted_keys depth links) (exists k s))
        | inr (x, raised) ↦ let failed = rw raised at e in absurd (err_not_ok failed)
      ]

  -- A page whose links are all enqueued without an exception adds to the URLs that the store knows
  -- exactly the keys of those links that normalize to a URL which the filter would let through on
  -- an empty store.
  pub enqueue_discovered_urls_lem :
      (clock : ℕ → ℕ) (links : List Text) (i depth : ℕ) (s : Store)
      → (enqueue_discovered_urls lib search media w clock i links depth s).1 ≡ ok tt
      → known (enqueue_discovered_urls lib search media w clock i links depth s).0
        ≡ insert_keys (wanted_keys depth links) (known s)
  enqueue_discovered_urls_lem clock links i depth s e =
      known_grown s _ (wanted_keys depth links) (λ k. exists-links k clock links i depth s e)
