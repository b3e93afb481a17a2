-- ===== src/Store/Queries.antt =====
-- src/crawler/metadata_store.py: the query methods.
use web_crawler.Prelude.{
  ℕ, ◌+◌, Bool, Option, none, some, List, [], ◌∷◌, Text, keep, take, any, ltb, if◌then◌else◌,
}
use web_crawler.Prelude.Int.{ℤ, pos, negsuc}
use web_crawler.Types.{CrawlState, state_eq}
use web_crawler.Store.{UrlRecord, Store, has_key, is_text, find_record}

unfoldable pub exists : Text → Store → Bool
exists key s = any (has_key key) s.records

-- A column of the row with a key, or a default where there is no such row.
abbrev pub column {ℓ} : {A : Type ℓ} → A → (UrlRecord → A) → Option UrlRecord → A
column missing field none = missing
column missing field (some r) = field r

unfoldable pub get_content_hash : Text → Store → Option Text
unfolding find_record
get_content_hash key s = column none (λ r. r.content_hash) (find_record key s.records)

unfoldable pub get_redirect_count : Text → Store → ℕ
unfolding find_record
get_redirect_count key s = column 0 (λ r. r.redirect_count) (find_record key s.records)

unfoldable pub get_retry_count : Text → Store → ℕ
unfolding find_record
get_retry_count key s = column 0 (λ r. r.retry_count) (find_record key s.records)

abbrev pub in_state : CrawlState → UrlRecord → Bool
in_state state r = state_eq r.crawl_state state

-- `max(1, min(limit, 500))`
abbrev pub clamp : ℤ → ℕ
clamp (negsuc n) = 1
clamp (pos n) = if ltb n 1 then 1 else if ltb 500 n then 500 else n

unfoldable pub get_urls_by_state : CrawlState → ℤ → Store → List UrlRecord
get_urls_by_state state limit s = take (clamp limit) (keep (in_state state) s.records)

unfoldable pub get_child_urls : Text → Store → List UrlRecord
get_child_urls parent s = keep (λ r. is_text r.parent_url parent) s.records

-- `GROUP BY crawl_state`: an entry for each state that a row has.
abbrev pub Counts : Type 0
Counts = List (CrawlState × ℕ)

unfoldable pub tally : CrawlState → Counts → Counts
tally state [] = (state, 1) ∷ []
tally state ((other, n) ∷ rest) =
    if state_eq other state then (other, n + 1) ∷ rest else (other, n) ∷ tally state rest

unfoldable pub group_by : List UrlRecord → Counts
unfolding tally
group_by [] = []
group_by (r ∷ rs) = tally r.crawl_state (group_by rs)

unfoldable pub get_state_counts : Store → Counts
unfolding group_by
get_state_counts s = group_by s.records

-- `counts.get(state, 0)` and `sum(counts.values())`
unfoldable pub counts_get : Counts → CrawlState → ℕ
counts_get [] state = 0
counts_get ((other, n) ∷ rest) state = if state_eq other state then n else counts_get rest state

unfoldable pub total : Counts → ℕ
total [] = 0
total ((state, n) ∷ rest) = n + total rest
