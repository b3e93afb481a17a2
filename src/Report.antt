-- ===== src/Report.antt =====
-- src/analyze_crawl.py: the queries of `analyze`. Ties that `ORDER BY` leaves open, and the order of
-- the rows without one, go by insertion.
pub mod Groups
pub mod Statuses
mod Tests
use web_crawler.Prelude.{
  ℕ, ◌+◌, Bool, true, false, ◌||◌, Option, none, some, List, [], ◌∷◌, map, Text, lit, text_eq,
  starts_with, keep, count, take, leb, ltb, ◌==◌, if◌then◌else◌,
}
use web_crawler.Types.{CrawlState, state_eq}
use web_crawler.Store.{UrlRecord, Store, is_text}
use web_crawler.Store.Queries.{in_state}

module _ {ℓ} {K : Type ℓ} (same : K → K → Bool) where
  -- `COUNT(*)` by groups: an entry for each key, with its number of rows.
  pub tally : K → List (K × ℕ) → List (K × ℕ)
  tally key [] = (key, 1) ∷ []
  tally key ((other, n) ∷ rest) =
      if same other key then (other, n + 1) ∷ rest else (other, n) ∷ tally key rest

  pub group_by : List K → List (K × ℕ)
  unfolding tally
  group_by [] = []
  group_by (key ∷ keys) = tally key (group_by keys)

-- `ORDER BY`, with what stands before what.
module _ {ℓ} {E : Type ℓ} (before : E → E → Bool) where
  pub insert : E → List E → List E
  insert e [] = e ∷ []
  insert e (f ∷ rest) = if before e f then e ∷ f ∷ rest else f ∷ insert e rest

  pub order_by : List E → List E
  unfolding insert
  order_by [] = []
  order_by (e ∷ rest) = insert e (order_by rest)

-- `ORDER BY cnt DESC`
abbrev pub descending {ℓ} : {K : Type ℓ} → K × ℕ → K × ℕ → Bool
descending (k, n) (l, m) = leb m n

abbrev pub ascending : ℕ × ℕ → ℕ × ℕ → Bool
ascending (k, n) (l, m) = leb k l

-- A listing of groups, the largest first.
pub breakdown {ℓ} : {K : Type ℓ} → (K → K → Bool) → List K → List (K × ℕ)
breakdown same keys = order_by descending (group_by same keys)

-- `WHERE column IS NOT NULL`
pub present {ℓ} : {A : Type ℓ} → (UrlRecord → Option A) → List UrlRecord → List A
present column [] = []
present column (r ∷ rs) =
    let rest = present column rs in elim (column r) [ none ↦ rest | some v ↦ v ∷ rest ]

pub state_summary : Store → List (CrawlState × ℕ)
state_summary s = breakdown state_eq (map (λ r. r.crawl_state) s.records)

pub error_breakdown : Store → List (Text × ℕ)
error_breakdown s = breakdown text_eq (present (λ r. r.failure_reason) s.records)

pub content_type_breakdown : Store → List (Text × ℕ)
content_type_breakdown s = breakdown text_eq (present (λ r. r.content_type) s.records)

pub depth_distribution : Store → List (ℕ × ℕ)
depth_distribution s =
    order_by ascending (group_by (λ a b. a == b) (map (λ r. r.crawl_depth) s.records))

-- `text LIKE '%part%'`
unfoldable pub contains : Text → Text → Bool
contains part [] = starts_with [] part
contains part (c ∷ t) = starts_with (c ∷ t) part || contains part t

abbrev pub has_reason_like : Text → Option Text → Bool
has_reason_like part none = false
has_reason_like part (some reason) = contains part reason

-- The conditions of `status_map`.
pub data StatusRow : Type 0 where
  success redirect forbidden missing server_error : StatusRow

unfoldable pub matches : StatusRow → UrlRecord → Bool
unfolding contains
matches success r = in_state CrawlState.completed r
matches redirect r = has_reason_like (lit "308") r.failure_reason
matches forbidden r = is_text r.failure_reason (lit "blocked")
matches missing r = is_text r.failure_reason (lit "not found")
matches server_error r = is_text r.failure_reason (lit "server error")

pub status_count : Store → StatusRow → ℕ
unfolding matches
status_count s row = count (matches row) s.records

-- Only the rows with a positive count are printed.
pub status_counts : Store → List (StatusRow × ℕ)
unfolding status_count
status_counts s =
    keep (λ e. ltb 0 e.1)
      (map (λ row. (row, status_count s row))
        (success ∷ redirect ∷ forbidden ∷ missing ∷ server_error ∷ []))

pub failed_sample : Store → List (Text × Option Text)
failed_sample s =
    map (λ r. (r.normalized_url, r.failure_reason))
      (take 10 (keep (in_state CrawlState.terminal_failed) s.records))
