-- ===== src/Worker/Tests.antt =====
-- A worker with libraries that find one link in every page.
use web_crawler.Prelude.{
  inr, ℕ, ◌≡◌, ◌≢◌, refl, Bool, true, false, Option, none, some, List, [], ◌∷◌, ◌++◌, Text, lit,
  length, arith, ◌==◌,
}
use web_crawler.Prelude.Int.{pos}
use web_crawler.Types.{FetchResponse, LeaseResult, ProcessorResult, WorkerResult, ok}
use web_crawler.Store.{find_record, foreign_key_failed}
use web_crawler.Store.Invariant.{IsValid}
use web_crawler.Store.Tests.{key, token, held, done, store_of, config}
use web_crawler.Pipeline.Context.{UrlLib}
use web_crawler.Pipeline.Build.{default_config}
use web_crawler.Pipeline.Filter.{Search}
use web_crawler.Processors.{Media, html}
use web_crawler.Worker.{Worker, do_process, terminal_failed}
use web_crawler.Worker.Redirects.{do_process_raw_parent}
use web_crawler.Processors.{report}
use web_crawler.Worker.Pages.{IsReported, process_html_lem}
use web_crawler.Worker.Outcome.{do_process_reports}
use web_crawler.Worker.Guarantees.{do_process_unheld, do_process-IsValid}

abbrev is_blank : ℕ → Bool
is_blank c = c == b' '

-- Every text is read as a URL of the host "a", with the text as its path.
abbrev pub lib : UrlLib
lib = record {
  is_space = is_blank;
  urlparse = λ url. ok (record {
    scheme = lit "http";
    netloc = lit "a";
    hostname = some (lit "a");
    port = ok none;
    path = url;
    query = [];
  });
  urlunparse = λ scheme netloc path query. path;
  parse_qsl = λ query. [];
  urlencode = λ params. [];
}

abbrev pub search : Search
search p url = ok false

abbrev pub media : Media
media = record {
  is_space = is_blank;
  sha256 = λ body. body;
  Soup = Unit;
  parse = λ body. ok tt;
  title = λ soup. none;
  attributes = λ soup tag name. lit "link" ∷ [];
  urljoin = λ base link. ok (base ++ link);
  url_scheme = λ url. ok (lit "http");
  image_size = λ body. none;
  parse_int = λ t. ok (pos (length t));
  is_float = λ t. false;
  read_pdf = λ body. none;
  write_file = λ path body. ok tt;
}

abbrev pub worker : Worker
worker = record {
  config = config;
  normalizer = default_config;
  url_filter = record {
    seed_domain = lit "a";
    max_depth = none;
    include_patterns = [];
    exclude_patterns = [];
    pipeline = default_config;
  };
  processors = (lit "text/html", html) ∷ [];
  output_dir = lit "output";
}

abbrev pub lease : LeaseResult
lease = record {
  normalized_url = key;
  url = key;
  depth = 0;
  lease_token = token;
  lease_expires_at = 70;
}

abbrev pub page : FetchResponse
page = record {
  status_code = 200;
  headers = (lit "content-type", lit "text/html") ∷ [];
  body = some (1 ∷ 2 ∷ []);
}

-- The page is completed, and the link of it is a new row.
page_completes :
    length (do_process lib search media worker (λ i. 20) (ok page) lease (store_of held)).0.records
    ≡ 2
unfolding do_process web_crawler.Prelude.text_eq lit web_crawler.Prelude.lower
    web_crawler.Store.Metadata.store_html_metadata web_crawler.Pipeline.Normalizer.normalize
    web_crawler.Pipeline.Normalizer.run_steps web_crawler.Pipeline.Build.build
    web_crawler.Pipeline.Normalizer.execute_step web_crawler.Pipeline.Normalizer.reconstruct
    web_crawler.Pipeline.Context.trailing_slash web_crawler.Pipeline.Percent.decode_unreserved
    web_crawler.Pipeline.Percent.sub web_crawler.Pipeline.Percent.uppercase_percent_encoding
    web_crawler.Pipeline.Percent.is_triplet web_crawler.Pipeline.Filter.execute
    web_crawler.Pipeline.Filter.run_steps web_crawler.Dispatcher.before_semicolon
    web_crawler.Dispatcher.by_prefix web_crawler.Dispatcher.dispatch web_crawler.Dispatcher.exact
    web_crawler.Dispatcher.lstrip web_crawler.Dispatcher.mime_of web_crawler.Dispatcher.rstrip
    web_crawler.Limiter.header web_crawler.Pipeline.Build.is_enabled
    web_crawler.Pipeline.Context.ends_with_slash web_crawler.Pipeline.Context.rstrip_slashes
    web_crawler.Pipeline.Filter.execute_step web_crawler.Pipeline.Filter.search_any
    web_crawler.Pipeline.Normalizer.insert_param web_crawler.Pipeline.Normalizer.is_all_space
    web_crawler.Pipeline.Normalizer.pair_le web_crawler.Pipeline.Normalizer.sort_params
    web_crawler.Pipeline.Normalizer.text_le web_crawler.Pipeline.Percent.decode_triplet
    web_crawler.Pipeline.Percent.hex_value web_crawler.Pipeline.Percent.is_hex
    web_crawler.Pipeline.Percent.is_unreserved web_crawler.Pipeline.Percent.upper
    web_crawler.Pipeline.Percent.upper_triplet web_crawler.Prelude.decimal
    web_crawler.Prelude.starts_with web_crawler.Processors.discovered
    web_crawler.Processors.extension_of web_crawler.Processors.parse_html
    web_crawler.Processors.process web_crawler.Processors.process_html
    web_crawler.Processors.process_image web_crawler.Processors.process_pdf
    web_crawler.Processors.process_video web_crawler.Processors.raw_links
    web_crawler.Store.Frontier.enqueue web_crawler.Store.Frontier.new_record
    web_crawler.Store.Metadata.replace web_crawler.Store.Metadata.store_image_metadata
    web_crawler.Store.Metadata.store_pdf_metadata web_crawler.Store.Metadata.store_video_metadata
    web_crawler.Store.Queries.exists web_crawler.Store.Queries.get_content_hash
    web_crawler.Store.Queries.get_redirect_count web_crawler.Store.Transitions.mark_completed
    web_crawler.Store.Transitions.write find_record web_crawler.Store.update
    web_crawler.Worker.by_status web_crawler.Worker.enqueue_discovered_urls
    web_crawler.Worker.enqueue_normalized web_crawler.Worker.handle_200
    web_crawler.Worker.handle_redirect web_crawler.Worker.passes web_crawler.Worker.process_content
page_completes = refl

do_process_unheld_example :
    find_record key
      (do_process lib search media worker (λ i. 20) (ok page) lease (store_of done)).0.records
    ≡ some done
unfolding find_record web_crawler.Prelude.text_eq
do_process_unheld_example =
    do_process_unheld lib search media worker (λ i. 20) (ok page) lease (store_of done) key done
      refl refl

do_process-IsValid_example :
    IsValid (do_process lib search media worker (λ i. 20) (ok page) lease (store_of held)).0
do_process-IsValid_example =
    do_process-IsValid lib search media worker (λ i. 20) (ok page) lease (store_of held)
      (record {
        keys = (refl, tt);
        rows =
            (record { token = refl; expiry = refl; renewals = omega arith; hashed = λ e. cc }, tt);
      })

do_process_reports_example :
    (result : WorkerResult) × ((do_process lib search media worker
        (λ i. 20)
        (ok page)
        lease
        (store_of held)).1
      ≡ ok result)
    × (result.normalized_url ≡ key)
do_process_reports_example =
    do_process_reports lib search media worker (λ i. 20) lease (store_of held) (ok page)

abbrev busy : FetchResponse
busy = record { status_code = 500; headers = []; body = none }

-- The page was discovered under another spelling than the key of its row.
abbrev respelled : LeaseResult
respelled = record lease { url = lit "A" }

abbrev moved : FetchResponse
moved = record { status_code = 302; headers = (lit "location", lit "link") ∷ []; body = none }

do_process_raw_parent_example :
    do_process lib search media worker (λ i. 20) (ok moved) respelled (store_of held) ≡ (
      store_of held,
      ok (terminal_failed respelled (lit "processing error: " ++ foreign_key_failed.message)),
    )
unfolding do_process web_crawler.Prelude.text_eq lit web_crawler.Prelude.lower
    web_crawler.Store.Metadata.store_html_metadata web_crawler.Pipeline.Normalizer.normalize
    web_crawler.Pipeline.Normalizer.run_steps web_crawler.Pipeline.Build.build
    web_crawler.Pipeline.Normalizer.execute_step web_crawler.Pipeline.Normalizer.reconstruct
    web_crawler.Pipeline.Context.trailing_slash web_crawler.Pipeline.Percent.decode_unreserved
    web_crawler.Pipeline.Percent.sub web_crawler.Pipeline.Percent.uppercase_percent_encoding
    web_crawler.Pipeline.Percent.is_triplet web_crawler.Pipeline.Filter.execute
    web_crawler.Pipeline.Filter.run_steps web_crawler.Dispatcher.before_semicolon
    web_crawler.Dispatcher.by_prefix web_crawler.Dispatcher.dispatch web_crawler.Dispatcher.exact
    web_crawler.Dispatcher.lstrip web_crawler.Dispatcher.mime_of web_crawler.Dispatcher.rstrip
    web_crawler.Limiter.header web_crawler.Pipeline.Build.is_enabled
    web_crawler.Pipeline.Context.ends_with_slash web_crawler.Pipeline.Context.rstrip_slashes
    web_crawler.Pipeline.Filter.execute_step web_crawler.Pipeline.Filter.search_any
    web_crawler.Pipeline.Normalizer.insert_param web_crawler.Pipeline.Normalizer.is_all_space
    web_crawler.Pipeline.Normalizer.pair_le web_crawler.Pipeline.Normalizer.sort_params
    web_crawler.Pipeline.Normalizer.text_le web_crawler.Pipeline.Percent.decode_triplet
    web_crawler.Pipeline.Percent.hex_value web_crawler.Pipeline.Percent.is_hex
    web_crawler.Pipeline.Percent.is_unreserved web_crawler.Pipeline.Percent.upper
    web_crawler.Pipeline.Percent.upper_triplet web_crawler.Prelude.decimal
    web_crawler.Prelude.starts_with web_crawler.Processors.discovered
    web_crawler.Processors.extension_of web_crawler.Processors.parse_html
    web_crawler.Processors.process web_crawler.Processors.process_html
    web_crawler.Processors.process_image web_crawler.Processors.process_pdf
    web_crawler.Processors.process_video web_crawler.Processors.raw_links
    web_crawler.Store.Frontier.enqueue web_crawler.Store.Frontier.new_record
    web_crawler.Store.Metadata.replace web_crawler.Store.Metadata.store_image_metadata
    web_crawler.Store.Metadata.store_pdf_metadata web_crawler.Store.Metadata.store_video_metadata
    web_crawler.Store.Queries.exists web_crawler.Store.Queries.get_content_hash
    web_crawler.Store.Queries.get_redirect_count web_crawler.Store.Transitions.mark_completed
    web_crawler.Store.Transitions.write find_record web_crawler.Store.update
    web_crawler.Worker.by_status web_crawler.Worker.enqueue_discovered_urls
    web_crawler.Worker.enqueue_normalized web_crawler.Worker.handle_200
    web_crawler.Worker.handle_redirect web_crawler.Worker.passes web_crawler.Worker.process_content
do_process_raw_parent_example =
    do_process_raw_parent lib search media worker (λ i. 20) respelled (store_of held) moved b'l'
      b'l' (lit "ink") (lit "ink") (inr refl) refl refl refl refl refl refl (λ e. cc)

abbrev html_page : FetchResponse
html_page = record { status_code = 200; headers = []; body = some (lit "x") }

abbrev reported : ProcessorResult
reported =
    report (lit "alink" ∷ lit "alink" ∷ lit "alink" ∷ lit "alink" ∷ []) (lit "x")
      (lit "o/html/x.html")

process_html_lem_example : IsReported media (lit "o") html_page lease (store_of held) reported
unfolding web_crawler.Processors.process_html web_crawler.Prelude.text_eq
    web_crawler.Store.Metadata.store_html_metadata lit
process_html_lem_example =
    process_html_lem media (lit "o") html_page lease (store_of held) reported refl
