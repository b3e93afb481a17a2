-- ===== src/Config.antt =====
-- src/crawler/crawler.py: `_validate_config` and `_validate_seed_url`, with the result of
-- `urlparse` as an argument.
pub mod Ranges
pub mod Errors
pub mod Yaml
mod Tests
use web_crawler.Prelude.{
  ℕ, Bool, true, false, ◌&&◌, ◌||◌, Option, none, some, [], ◌∷◌, ◌++◌, Text, lit, text_eq,
  if◌then◌else◌,
}
use web_crawler.Prelude.Int.{ℤ, pos, ltz, decimal_z}
use web_crawler.Types.{CrawlerConfig, Error, ErrorKind, Result, ok, err}

infixl 5 ◌>>◌
abbrev pub ◌>>◌ : Result (Unit {0}) → Result (Unit {0}) → Result (Unit {0})
ok _ >> n = n
err e >> n = err e

abbrev pub value_error : Text → Error
value_error message = record { kind = ErrorKind.value; message = message }

-- "<name> between <low> and <high>, got <value>"
range_error : Text → ℤ → ℤ → ℤ → Error
range_error name low high x = value_error (
    name
    ++ lit " between "
    ++ decimal_z low
    ++ lit " and "
    ++ decimal_z high
    ++ lit ", got "
    ++ decimal_z x)

abbrev pub outside : ℤ → ℤ → ℤ → Bool
outside low high x = ltz x low || ltz high x

pub check_range : Text → ℤ → ℤ → ℤ → Result (Unit {0})
unfolding range_error
check_range name low high x =
    if outside low high x then err (range_error name low high x) else ok tt

pub check_depth : Option ℤ → Result (Unit {0})
unfolding check_range
check_depth none = ok tt
check_depth (some d) =
    check_range (lit "max_depth must be None (unlimited) or") (pos 1) (pos 1000) d

pub validate_config : CrawlerConfig → Result (Unit {0})
validate_config c =
    check_depth c.max_depth
    >> check_range (lit "max_concurrency must be") (pos 1) (pos 100) c.max_concurrency
    >> check_range (lit "max_retries must be") (pos 0) (pos 10) c.max_retries
    >> check_range (lit "max_content_size must be") (pos 1024) (pos 1073741824) c.max_content_size
    >> check_range (lit "batch_size must be") (pos 1) (pos 500) c.batch_size

-- The parts of a `ParseResult` that the crawler reads; `hostname` and `port` are its properties.
pub record ParsedUrl : Type 0 where
  pub scheme : Text
  pub netloc : Text
  pub hostname : Option Text
  pub port : Result (Option ℕ)
  pub path : Text
  pub query : Text

-- `not x` for a text that may be None.
abbrev pub is_blank : Option Text → Bool
is_blank none = true
is_blank (some []) = true
is_blank (some (c ∷ t)) = false

abbrev pub is_http : Text → Bool
is_http scheme = text_eq scheme (lit "http") || text_eq scheme (lit "https")

unfoldable pub validate_seed_url : (Text → ParsedUrl) → Text → Result Text
validate_seed_url urlparse url =
    let parsed = urlparse url in
    if is_blank (some parsed.scheme)
    then err (value_error (lit "Seed URL missing scheme (expected http:// or https://): " ++ url))
    else if is_http parsed.scheme
    then (if is_blank parsed.hostname
        then err (value_error (lit "Seed URL missing host: " ++ url))
        else ok parsed.netloc)
    else err
        (value_error (lit "Seed URL has unsupported scheme '" ++ parsed.scheme ++ lit "': " ++ url))
