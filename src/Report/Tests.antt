-- ===== src/Report/Tests.antt =====
-- The report on small stores.
use web_crawler.Prelude.{
  ℕ, ◌≡◌, refl, true, false, some, none, List, [], ◌∷◌, Text, text_eq, text_eq_iff, lit, count,
  length,
}
use web_crawler.Store.{UrlRecord}
use web_crawler.Store.Tests.{held}
use web_crawler.Report.{contains}

redirects_are_found : contains (lit "308") (lit "unexpected status code: 308") ≡ true
unfolding contains lit web_crawler.Prelude.starts_with
redirects_are_found = refl

abbrev reasons : List Text
reasons = lit "not found" ∷ lit "blocked" ∷ lit "not found" ∷ []

abbrev worn_out : UrlRecord
worn_out = record held { retry_count = 3 }
