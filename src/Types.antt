-- ===== src/Types.antt =====
-- src/crawler/types.py: the enums, the configuration, the result models and the exceptions, with
-- the content-type metadata. Durations, times and sizes that the code never makes negative are
-- naturals; the configuration's other integers are signed, as Python's are.
pub mod Results
use web_crawler.Prelude.{ℕ, Bool, Option, List, Text, ◌==◌}
use web_crawler.Prelude.Int.{ℤ}

pub data CrawlState : Type 0 where
  pending in_progress completed retry failed terminal_failed : CrawlState

-- The states are told apart by their numbers.
abbrev pub state_number : CrawlState → ℕ
state_number pending = 0
state_number in_progress = 1
state_number completed = 2
state_number retry = 3
state_number failed = 4
state_number terminal_failed = 5

abbrev pub state_eq : CrawlState → CrawlState → Bool
state_eq a b = state_number a == state_number b

-- The two times are naturals: negative ones, which the checks let through, are left out.
pub record CrawlerConfig : Type 0 where
  pub seed_url : Text
  pub max_depth : Option ℤ
  pub max_concurrency : ℤ
  pub max_retries : ℤ
  pub max_content_size : ℤ
  pub max_redirects : ℤ
  pub include_patterns : List Text
  pub exclude_patterns : List Text
  pub lease_timeout_ms : ℕ
  pub batch_size : ℤ
  pub progress_interval_ms : ℕ

pub record CrawlResult : Type 0 where
  pub total_discovered : ℕ
  pub total_completed : ℕ
  pub total_failed : ℕ
  pub total_terminal_failed : ℕ
  pub duration_ms : ℤ

pub record LeaseResult : Type 0 where
  pub normalized_url : Text
  pub url : Text
  pub depth : ℕ
  pub lease_token : Text
  pub lease_expires_at : ℕ

-- The three values of `WorkerResult.status`.
pub data Status : Type 0 where
  completed retry terminal_failed : Status

pub record HtmlMetadata : Type 0 where
  pub page_title : Text
  pub link_count : ℕ

pub record ImageMetadata : Type 0 where
  pub width : Option ℕ
  pub height : Option ℕ
  pub file_size_bytes : ℤ

-- The duration is kept as the text of the header that it is parsed from.
pub record VideoMetadata : Type 0 where
  pub file_size_bytes : ℤ
  pub duration_seconds : Option Text

pub record PdfMetadata : Type 0 where
  pub page_count : Option ℕ
  pub document_title : Option Text

pub record WorkerResult : Type 0 where
  pub normalized_url : Text
  pub status : Status
  pub content_hash : Option Text
  pub content_type : Option Text
  pub discovered_urls : List Text
  pub failure_reason : Option Text

pub record FetchResponse : Type 0 where
  pub status_code : ℕ
  pub headers : List (Text × Text)
  pub body : Option (List ℕ)

pub record ProcessorResult : Type 0 where
  pub discovered_urls : List Text
  pub content_hash : Text
  pub file_path : Text

-- The classes of exceptions that the handlers tell apart; `other` is any other `Exception`.
pub data ErrorKind : Type 0 where
  connection timeout os transient permanent : ErrorKind
  queue_overflow rate_limit_exhausted : ErrorKind
  value key runtime integrity other : ErrorKind

pub record Error : Type 0 where
  pub kind : ErrorKind
  pub message : Text

pub data Result {ℓ} (A : Type ℓ) : Type ℓ where
  ok : A → Result A
  err : Error → Result A
