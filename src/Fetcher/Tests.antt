-- ===== src/Fetcher/Tests.antt =====
-- Fetches of both fetchers at small inputs.
use web_crawler.Prelude.{
  ℕ, ◌≡◌, ◌≤◌, ◌↔◌, refl, true, none, some, List, [], ◌∷◌, ◌++◌, Text, lit, length, leb,
  if◌then◌else◌,
}
use web_crawler.Types.{ok}
use web_crawler.Limiter.{header}
use web_crawler.Fetcher.{
  Request, Response, Outcome, responded, raised, timed_out, HttpFetcher, new_http_fetcher,
  http_fetch, Envelopes,
}
use web_crawler.Fetcher.Body.{http_fetch_lem, last_value}

abbrev fetcher : HttpFetcher
fetcher = new_http_fetcher true 30000 none 2

abbrev page : Response Text
page = record {
  status_code = 200;
  items = (lit "a", lit "1") ∷ (lit "b", lit "2") ∷ [];
  content = lit "abc";
  json = ok (lit "x");
}

http_fetch_lem_example :
    (headers : List (Text × Text)) × (body : List ℕ) × (rest : List ℕ) × (http_fetch fetcher
        (λ r. responded page)
        (lit "u")
      ≡ ok (record { status_code = 200; headers = headers; body = some body }))
    × ((name : Text) → header name headers ≡ last_value name page.items none)
    × (page.content ≡ body ++ rest)
    × (length body ≡ (if leb 2 (length page.content) then 2 else length page.content))
    × ((body ≡ page.content) ↔ (length page.content ≤ 2))
http_fetch_lem_example = http_fetch_lem fetcher (λ r. responded page) (lit "u") page refl

abbrev slow : ℕ → Request → Outcome Text
slow i r = raised (timed_out (lit "slow"))

-- Values that are texts, none of which is a dict.
abbrev envelopes : Envelopes
envelopes = record {
  Value = Text;
  quote = λ url. url;
  as_dict = λ v. none;
  as_str = λ v. some v;
  encode = λ t. ok t;
  validate = λ status headers body. ok (record { status_code = 200; headers = []; body = none });
}
