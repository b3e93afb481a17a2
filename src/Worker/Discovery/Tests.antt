-- ===== src/Worker/Discovery/Tests.antt =====
-- A page with two links, one of them twice.
use web_crawler.Prelude.{ℕ, arith, text_eq_refl, ◌≡◌, refl, List, [], ◌∷◌, Text, lit}
use web_crawler.Store.{Store}
use web_crawler.Store.Tests.{held, store_of}
use web_crawler.Worker.{enqueue_discovered_urls}
use web_crawler.Worker.Tests.{lib, search, media, worker}
use web_crawler.Worker.KeySet.{SameKeys, insert_keys, known}
use web_crawler.Worker.Discovery.{wanted_keys, enqueue_discovered_urls_lem}
use web_crawler.Worker.Discovery.Order.{links_order}
use web_crawler.Pipeline.Normalizer
use web_crawler.Pipeline.Build
use web_crawler.Prelude
use web_crawler.Pipeline.Context
use web_crawler.Pipeline.Percent
use web_crawler.Pipeline.Filter
use web_crawler.Worker
use web_crawler.Store.Queries
use web_crawler.Store.Frontier

abbrev links : List Text
links = lit "/x" ∷ lit "/y" ∷ []

abbrev links_again : List Text
links_again = lit "/y" ∷ lit "/x" ∷ lit "/y" ∷ []

same_links : SameKeys links links_again
same_links k = ground (arith, text_eq_refl k)

abbrev after_links : List Text → Store
after_links ls = (enqueue_discovered_urls lib search media worker (λ i. i) 0 ls 1 (store_of held)).0

enqueue_discovered_urls_lem_example :
    known (after_links links)
    ≡ insert_keys (wanted_keys lib search media worker 1 links) (known (store_of held))
unfolding Normalizer.normalize Normalizer.run_steps Build.build Normalizer.execute_step Prelude.lit
    Normalizer.reconstruct Context.trailing_slash Percent.decode_unreserved Percent.sub
    Percent.uppercase_percent_encoding Filter.execute Filter.run_steps Filter.execute_step
    Prelude.text_eq Worker.passes Queries.exists Filter.search_any Worker.enqueue_discovered_urls
    Worker.enqueue_normalized Frontier.enqueue
enqueue_discovered_urls_lem_example =
    enqueue_discovered_urls_lem lib search media worker (λ i. i) links 0 1 (store_of held) refl

wanted_links : wanted_keys lib search media worker 1 links ≡ links
unfolding Normalizer.normalize Normalizer.run_steps Build.build Normalizer.execute_step Prelude.lit
    Normalizer.reconstruct Context.trailing_slash Percent.decode_unreserved Percent.sub
    Percent.uppercase_percent_encoding Filter.execute Filter.run_steps Filter.execute_step
    Prelude.text_eq Worker.passes Queries.exists Filter.search_any
wanted_links = refl

links_order_example : known (after_links links) ≡ known (after_links links_again)
unfolding Normalizer.normalize Normalizer.run_steps Build.build Normalizer.execute_step Prelude.lit
    Normalizer.reconstruct Context.trailing_slash Percent.decode_unreserved Percent.sub
    Percent.uppercase_percent_encoding Filter.execute Filter.run_steps Filter.execute_step
    Prelude.text_eq Worker.passes Queries.exists Filter.search_any Worker.enqueue_discovered_urls
    Worker.enqueue_normalized Frontier.enqueue
links_order_example =
    links_order lib search media worker (λ i. i) (λ i. i) links links_again 0 0 1 (store_of held)
      same_links refl refl
