-- ===== src/Store/Counts.antt =====
-- `get_state_counts` of src/crawler/metadata_store.py against the rows.
use web_crawler.Prelude.{◌+◌, ◌≡◌, refl, List, [], ◌∷◌, arith, count, length, if◌then◌else◌}
use web_crawler.Types.{CrawlState, state_eq}
use web_crawler.Store.{UrlRecord, Store}
use web_crawler.Store.Queries.{
  Counts, tally, group_by, get_state_counts, counts_get, total, in_state,
}

counts_get-tally :
    (state other : CrawlState) (counts : Counts)
    → counts_get (tally other counts) state
      ≡ counts_get counts state + (if state_eq other state then 1 else 0)
unfolding tally counts_get
counts_get-tally state other [] = ground arith
counts_get-tally state other ((s, n) ∷ rest) = ground (arith, counts_get-tally state other rest)

total-tally : (state : CrawlState) (counts : Counts) → total (tally state counts) ≡ total counts + 1
unfolding tally total
total-tally state [] = omega arith
total-tally state ((s, n) ∷ rest) = ground (arith, total-tally state rest)

counts_get-group_by :
    (state : CrawlState) (rows : List UrlRecord)
    → counts_get (group_by rows) state ≡ count (in_state state) rows
unfolding group_by counts_get
counts_get-group_by state [] = refl
counts_get-group_by state (r ∷ rs) =
    omega (arith, counts_get-tally state r.crawl_state (group_by rs), counts_get-group_by state rs)

total-group_by : (rows : List UrlRecord) → total (group_by rows) ≡ length rows
unfolding group_by total
total-group_by [] = refl
total-group_by (r ∷ rs) = omega (arith, total-tally r.crawl_state (group_by rs), total-group_by rs)

-- The counts that the store reports are those of the rows: under each state the number of rows in
-- it, zero where it is missing, and in all the number of rows.
pub state_counts :
    (s : Store)
    → ((state : CrawlState)
        → counts_get (get_state_counts s) state ≡ count (in_state state) s.records)
      × (total (get_state_counts s) ≡ length s.records)
unfolding get_state_counts
state_counts s = (λ state. counts_get-group_by state s.records, total-group_by s.records)
