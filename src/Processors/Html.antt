-- ===== src/Processors/Html.antt =====
-- src/crawler/processors/html_processor.py.
use web_crawler.Prelude.{
  ℕ, none, some, List, [], ◌∷◌, ◌++◌, Text, lit, text_eq, length, ◌||◌, if◌then◌else◌,
}
use web_crawler.Types.{
  FetchResponse, LeaseResult, ProcessorResult, Error, ErrorKind, Result, ok, err,
}
use web_crawler.Store.{is_text, Action, ◌>>=◌, ◌>>◌, pure, raise}
use web_crawler.Store.Queries.{get_content_hash}
use web_crawler.Store.Metadata.{or_empty, store_html_metadata}
use web_crawler.Processors.Base.{Media, body_of, lift, path_of, report}

module _ (media : Media) (output_dir : Text) where
  open media use {
    is_space, sha256, Soup, parse, title, attributes, urljoin, url_scheme, image_size, parse_int,
    is_float, read_pdf, write_file,
  }

  abbrev pub keep_link : Result Text → Text → List Text → List Text
  keep_link (ok scheme) resolved rest =
      if text_eq scheme (lit "http") || text_eq scheme (lit "https") then resolved ∷ rest else rest
  keep_link (err e) resolved rest = rest

  abbrev pub resolve : Result Text → List Text → List Text
  resolve (ok resolved) rest = keep_link (url_scheme resolved) resolved rest
  resolve (err e) rest = rest

  unfoldable pub discovered : Text → List Text → List Text
  discovered base [] = []
  discovered base (link ∷ links) = resolve (urljoin base link) (discovered base links)

  unfoldable pub raw_links : Soup → List Text
  raw_links soup =
      attributes soup (lit "a") (lit "href")
      ++ (attributes soup (lit "img") (lit "src")
          ++ (attributes soup (lit "video") (lit "src")
              ++ attributes soup (lit "script") (lit "src")))

  unfoldable pub parse_html : List ℕ → Text → Result (Text × List Text)
  unfolding discovered raw_links
  parse_html body base = elim (parse body) [
    | ok soup ↦ ok (or_empty (title soup), discovered base (raw_links soup))
    | err e ↦ err e
  ]

  -- The branch of an unchanged page calls a method that the store does not have.
  abbrev pub no_update_timestamp : Error
  no_update_timestamp = record {
    kind = ErrorKind.other;
    message = lit "'MetadataStore' object has no attribute 'update_timestamp'";
  }

  unfoldable pub process_html : FetchResponse → LeaseResult → Action ProcessorResult
  unfolding get_content_hash parse_html
  process_html response lease s =
      let body = body_of response in
      let hash = sha256 body in
      let path = path_of output_dir (lit "html") hash (lit "html") in
      if is_text (get_content_hash lease.normalized_url s) hash
      then raise no_update_timestamp s
      else (lift (parse_html body lease.url) >>= λ page.
            lift (write_file path body)
            >> store_html_metadata lease.normalized_url
                (some (record { page_title = page.0; link_count = length page.1 })) none none
            >> pure (report page.1 hash path))
          s
