-- ===== src/Config/Ranges.antt =====
-- The ranges that `_validate_config` of src/crawler/crawler.py admits, and the seed URLs.
use web_crawler.Prelude.{
  ℕ, ◌≤◌, ◌≡◌, refl, true, false, ◌↔◌, Option, none, some, [], ◌∷◌, Text, lit, text_eq, arith,
}
use web_crawler.Prelude.Int.{ℤ, pos, negsuc}
use web_crawler.Types.{CrawlerConfig, ok, err, Result}
use web_crawler.Config.{
  validate_config, check_depth, check_range, validate_seed_url, ParsedUrl, is_blank, is_http, ◌>>◌,
}

-- A natural number between the two bounds.
abbrev pub Between : ℕ → ℕ → ℤ → Type 0
Between low high (pos n) = (low ≤ n) × (n ≤ high)
Between low high (negsuc n) = ⊥

abbrev pub DepthInRange : Option ℤ → Type 0
DepthInRange none = Unit {0}
DepthInRange (some d) = Between 1 1000 d

pub record InRange (c : CrawlerConfig) : Type 0 where
  pub depth : DepthInRange c.max_depth
  pub concurrency : Between 1 100 c.max_concurrency
  pub retries : Between 0 10 c.max_retries
  pub content_size : Between 1024 1073741824 c.max_content_size
  pub batch : Between 1 500 c.batch_size

check_range-ok :
    (name : Text) (low high : ℕ) (x : ℤ)
    → (check_range name (pos low) (pos high) x ≡ ok tt) ↔ Between low high x
unfolding check_range
check_range-ok name low high (pos n) = (λ h. ground arith, λ h. ground arith)
check_range-ok name low high (negsuc n) = (λ h. ground arith, λ h. absurd h)

check_depth-ok : (d : Option ℤ) → (check_depth d ≡ ok tt) ↔ DepthInRange d
unfolding check_depth
check_depth-ok none = (λ h. tt, λ h. refl)
check_depth-ok (some d) = check_range-ok _ 1 1000 d

blank_not_http : (scheme : Text) → is_blank (some scheme) ≡ true → is_http scheme ≡ false
unfolding text_eq lit
blank_not_http [] h = refl
blank_not_http (c ∷ t) h = cc

>>-ok : (m n : Result (Unit {0})) → ((m >> n) ≡ ok tt) ↔ ((m ≡ ok tt) × (n ≡ ok tt))
>>-ok (ok _) n = (λ h. (refl, h), λ h. h.1)
>>-ok (err e) n = (λ h. absurd (cc), λ h. absurd (cc))

-- A configuration is accepted exactly when its depth limit, if it has one, lies in 1 to 1000, its
-- concurrency in 1 to 100, its retries in 0 to 10, its content size in 1 KB to 1 GB and its batch
-- size in 1 to 500.
pub validate_config-ok : (c : CrawlerConfig) → (validate_config c ≡ ok tt) ↔ InRange c
unfolding validate_config
validate_config-ok c = (
  accepted,
  λ v. simp (
    (check_depth-ok c.max_depth).1 v.depth,
    (check_range-ok _ 1 100 c.max_concurrency).1 v.concurrency,
    (check_range-ok _ 0 10 c.max_retries).1 v.retries,
    (check_range-ok _ 1024 1073741824 c.max_content_size).1 v.content_size,
    (check_range-ok _ 1 500 c.batch_size).1 v.batch,
  ),
)
  where
    accepted : validate_config c ≡ ok tt → InRange c
    accepted h =
        let (h₄, batch) = (>>-ok _ _).0 h in
        let (h₃, size) = (>>-ok _ _).0 h₄ in
        let (h₂, retries) = (>>-ok _ _).0 h₃ in
        let (depth, concurrency) = (>>-ok _ _).0 h₂ in
        record {
          depth = (check_depth-ok c.max_depth).0 depth;
          concurrency = (check_range-ok _ 1 100 c.max_concurrency).0 concurrency;
          retries = (check_range-ok _ 0 10 c.max_retries).0 retries;
          content_size = (check_range-ok _ 1024 1073741824 c.max_content_size).0 size;
          batch = (check_range-ok _ 1 500 c.batch_size).0 batch;
        }

-- A seed URL is accepted exactly when its scheme is http or https and it has a host; its domain is
-- then the network location, with the port and in the letters of the URL.
pub validate_seed_url-ok :
    (urlparse : Text → ParsedUrl) (url : Text) (domain : Text)
    → (validate_seed_url urlparse url ≡ ok domain) ↔ (
        (is_http (urlparse url).scheme ≡ true)
        × (is_blank (urlparse url).hostname ≡ false)
        × ((urlparse url).netloc ≡ domain))
unfolding validate_seed_url
validate_seed_url-ok urlparse url domain =
    let blank : is_blank (some (urlparse url).scheme) ≡ true
        → is_http (urlparse url).scheme ≡ false =
      blank_not_http (urlparse url).scheme in
    (λ h. ground arith, λ h. ground arith)
