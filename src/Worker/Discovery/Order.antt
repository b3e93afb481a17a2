-- ===== src/Worker/Discovery/Order.antt =====
-- That the order of the links of a page does not matter to `_enqueue_discovered_urls` of
-- src/crawler/worker.py.
use web_crawler.Prelude.{
  ℕ, ◌≡◌, refl, sym, ◌∙◌, subst, Bool, true, false, Option, none, some, List, [], ◌∷◌, Text,
  text_eq, text_eq_iff, text_eq_refl, arith, inl, inr, Bool-cases,
}
use web_crawler.Types.{ok}
use web_crawler.Store.{Store}
use web_crawler.Processors.{Media}
use web_crawler.Pipeline.Context.{UrlLib}
use web_crawler.Pipeline.Normalizer.{normalize}
use web_crawler.Pipeline.Filter.{Search}
use web_crawler.Worker.{Worker, enqueue_discovered_urls}
use web_crawler.Worker.KeySet.{has, SameKeys, insert_keys-same, known}
use web_crawler.Worker.Discovery.{with_key, normal_key, wanted_keys, enqueue_discovered_urls_lem}

eq_of_true : (a b : Bool) → (a ≡ true → b ≡ true) → (b ≡ true → a ≡ true) → a ≡ b
eq_of_true true b f g = sym (f refl)
eq_of_true false true f g = g refl
eq_of_true false false f g = refl

skip :
    (k : Text) (o : Option Text) (keys : List Text)
    → has k (with_key o []) ≡ false
    → has k (with_key o keys) ≡ true
    → has k keys ≡ true
skip k none keys e h = h
skip k (some key) keys e h = ground arith

with_key-here :
    (k : Text) (o : Option Text) (keys : List Text)
    → has k (with_key o []) ≡ true
    → has k (with_key o keys) ≡ true
with_key-here k none keys h = absurd (cc)
with_key-here k (some key) keys h = ground arith

with_key-later :
    (k : Text) (o : Option Text) (keys : List Text)
    → has k keys ≡ true
    → has k (with_key o keys) ≡ true
with_key-later k none keys h = h
with_key-later k (some key) keys h = ground arith

module _ (lib : UrlLib) (search : Search) (media : Media) (w : Worker) where
  -- The links under which a key is wanted.
  link_of :
      (k : Text) (depth : ℕ) (links : List Text)
      → has k (wanted_keys lib search media w depth links) ≡ true
      → (link : Text) × (has link links ≡ true)
        × (has k
              (with_key (normal_key lib search media w depth (normalize lib w.normalizer link)) [])
            ≡ true)
  link_of k depth [] h = absurd (cc)
  link_of k depth (link ∷ links) h =
      elim (Bool-cases (
        has k
          (with_key (normal_key lib search media w depth (normalize lib w.normalizer link)) []))) [
            | inl here ↦ (link, rw (text_eq_refl link) refl, here)
            | inr other ↦
                let (found, listed, wanted) = link_of k depth links (
                  skip k (normal_key lib search media w depth (normalize lib w.normalizer link)) _
                    other h) in
                (found, ground arith, wanted)
          ]

  of_link :
      (k link : Text) (depth : ℕ) (links : List Text)
      → has link links ≡ true
      → has k (with_key (normal_key lib search media w depth (normalize lib w.normalizer link)) [])
        ≡ true
      → has k (wanted_keys lib search media w depth links) ≡ true
  of_link k link depth [] h e = absurd (cc)
  of_link k link depth (other ∷ links) h e = elim (Bool-cases (text_eq other link)) [
    | inl same ↦ with_key-here k _ _ (
        subst
          (λ u.
            has k (with_key (normal_key lib search media w depth (normalize lib w.normalizer u)) [])
            ≡ true)
          (sym ((text_eq_iff other link).0 same)) e)
    | inr differ ↦
        let later = rw differ at h in with_key-later k _ _ (of_link k link depth links later e)
  ]

  same_keys :
      (depth : ℕ) (links links' : List Text)
      → SameKeys links links'
      → SameKeys
          (wanted_keys lib search media w depth links)
          (wanted_keys lib search media w depth links')
  same_keys depth links links' same k =
      eq_of_true _ _
        (λ h.
          let (link, listed, wanted) = link_of k depth links h in
          of_link k link depth links' (sym (same link) ∙ listed) wanted)
        (λ h.
          let (link, listed, wanted) = link_of k depth links' h in
          of_link k link depth links (same link ∙ listed) wanted)

  -- Two lists of the same links, in whatever order and however often, lead to the same set of known
  -- URLs, where neither raises.
  pub links_order :
      (clock clock' : ℕ → ℕ) (links links' : List Text) (i i' depth : ℕ) (s : Store)
      → SameKeys links links'
      → (enqueue_discovered_urls lib search media w clock i links depth s).1 ≡ ok tt
      → (enqueue_discovered_urls lib search media w clock' i' links' depth s).1 ≡ ok tt
      → known (enqueue_discovered_urls lib search media w clock i links depth s).0
        ≡ known (enqueue_discovered_urls lib search media w clock' i' links' depth s).0
  links_order clock clock' links links' i i' depth s same e e' =
      enqueue_discovered_urls_lem lib search media w clock links i depth s e
      ∙ insert_keys-same _ _ (known s) (same_keys depth links links' same)
      ∙ sym (enqueue_discovered_urls_lem lib search media w clock' links' i' depth s e')
