-- ===== src/Store.antt =====
-- src/crawler/metadata_store.py: the tables of `_SCHEMA_SQL` and the statements on them.
-- The rows of `url_records` stand in the order of their insertion. NULL is `none`, and a comparison
-- with NULL is not true. Every call takes the clock's reading, in milliseconds, as an argument.
pub mod Frontier
pub mod Transitions
pub mod Queries
pub mod Settings
pub mod Rows
pub mod Moves
pub mod Lifecycle
pub mod Invariant
pub mod Ownership
pub mod Acquire
pub mod Counts
pub mod Discovery
pub mod Known
pub mod Quiet
pub mod Attempts
pub mod Metadata
pub mod Tests
use web_crawler.Prelude.{
  ℕ, ◌≡◌, Bool, true, false, Option, none, some, List, [], ◌∷◌, Text, text_eq, leb, count, any,
  if◌then◌else◌, lit,
}
use web_crawler.Prelude.Int.{ℤ}
use web_crawler.Types.{
  CrawlState, HtmlMetadata, ImageMetadata, VideoMetadata, PdfMetadata, Error, ErrorKind, Result, ok,
  err,
}

-- A row of `url_records`.
pub record UrlRecord : Type 0 where
  pub normalized_url : Text
  pub url : Text
  pub crawl_state : CrawlState
  pub lease_owner_id : Option Text
  pub lease_token : Option Text
  pub lease_expires_at : Option ℕ
  pub lease_renewal_count : ℕ
  pub retry_count : ℕ
  pub redirect_count : ℕ
  pub next_retry_at : Option ℕ
  pub crawl_depth : ℕ
  pub parent_url : Option Text
  pub content_type : Option Text
  pub content_hash : Option Text
  pub etag : Option Text
  pub last_crawl_timestamp : Option ℕ
  pub failure_reason : Option Text
  pub discovered_at : ℕ

-- The row of `crawl_config`. The pattern lists are stored as JSON, which `json.loads` reads back.
pub record ConfigRow : Type 0 where
  pub seed_url : Text
  pub seed_domain : Text
  pub max_depth : Option ℤ
  pub max_concurrency : ℤ
  pub max_retries : ℤ
  pub max_content_size : ℤ
  pub lease_timeout_ms : ℕ
  pub batch_size : ℤ
  pub include_patterns : Text
  pub exclude_patterns : Text

pub record Store : Type 0 where
  pub config : Option ConfigRow
  pub records : List UrlRecord
  pub html_metadata : List (Text × HtmlMetadata)
  pub image_metadata : List (Text × ImageMetadata)
  pub video_metadata : List (Text × VideoMetadata)
  pub pdf_metadata : List (Text × PdfMetadata)

-- The tables as `init` creates them.
abbrev pub empty_store : Store
empty_store = record {
  config = none;
  records = [];
  html_metadata = [];
  image_metadata = [];
  video_metadata = [];
  pdf_metadata = [];
}

-- `normalized_url = ?`
abbrev pub has_key : Text → UrlRecord → Bool
has_key key r = text_eq r.normalized_url key

-- `x = ?` and `x <= ?` at a column that may be NULL.
abbrev pub is_text : Option Text → Text → Bool
is_text none v = false
is_text (some x) v = text_eq x v

abbrev pub is_due : Option ℕ → ℕ → Bool
is_due none now = false
is_due (some t) now = leb t now

-- `UPDATE url_records SET ... WHERE ...`; the cursor's `rowcount` is the `count` of the condition.
unfoldable pub update :
    (UrlRecord → Bool) → (UrlRecord → UrlRecord) → List UrlRecord → List UrlRecord
update where_ set [] = []
update where_ set (r ∷ rs) = (if where_ r then set r else r) ∷ update where_ set rs

-- `SELECT ... WHERE normalized_url = ?` and `fetchone`.
unfoldable pub find_record : Text → List UrlRecord → Option UrlRecord
find_record key [] = none
find_record key (r ∷ rs) = if has_key key r then some r else find_record key rs

-- A statement that may raise. What was written before stays written, so the store comes back
-- beside an error too.
abbrev pub Action : Type 0 → Type 0
Action A = Store → Store × Result A

abbrev pub continue : {A B : Type 0} → Result A → (A → Action B) → Action B
continue (ok a) f s = f a s
continue (err e) f s = (s, err e)

infixl 5 ◌>>=◌ ◌>>◌
abbrev pub ◌>>=◌ : {A B : Type 0} → Action A → (A → Action B) → Action B
◌>>=◌ m f s = continue (m s).1 f (m s).0

abbrev pub ◌>>◌ : {A B : Type 0} → Action A → Action B → Action B
◌>>◌ m n s = continue (m s).1 (λ _. n) (m s).0

abbrev pub pure : {A : Type 0} → A → Action A
pure a s = (s, ok a)

abbrev pub raise : {A : Type 0} → Error → Action A
raise e s = (s, err e)

-- The errors of SQLite's constraints.
abbrev pub foreign_key_failed : Error
foreign_key_failed = record {
  kind = ErrorKind.integrity;
  message = lit "FOREIGN KEY constraint failed";
}

abbrev pub not_null_failed : Error
not_null_failed = record { kind = ErrorKind.integrity; message = lit "NOT NULL constraint failed" }
