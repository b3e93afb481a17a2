-- ===== src/Worker/Pages.antt =====
-- What src/crawler/processors/html_processor.py reports of a page and writes into the store.
use web_crawler.Prelude.{
  ℕ, ◌≡◌, refl, sym, ◌∙◌, ap, subst, true, false, some, List, [], ◌∷◌, Text, lit, length, All, any,
  inl, inr, Bool-cases,
}
use web_crawler.Types.Results.{Result-cases, is_ok, err_not_ok}
use web_crawler.Types.{FetchResponse, LeaseResult, ProcessorResult, Result, ok, err}
use web_crawler.Config.{is_http}
use web_crawler.Store.{Store, is_text, has_key}
use web_crawler.Store.Queries.{get_content_hash}
use web_crawler.Store.Metadata.{store_html_metadata, find_row}
use web_crawler.Store.Metadata.Rows.{find_row-replace}
use web_crawler.Processors.{
  Media, process_html, body_of, path_of, report, discovered, resolve, keep_link, parse_html,
  raw_links,
}

module _ (media : Media) (output_dir : Text) where
  open media use {sha256, urljoin, url_scheme, write_file}

  -- A URL that urllib takes to be one of http or https.
  abbrev pub IsLink : Text → Type 0
  IsLink url = (scheme : Text) × (url_scheme url ≡ ok scheme) × (is_http scheme ≡ true)

  All-keep_link :
      (scheme : Result Text) (url : Text) (rest : List Text)
      → url_scheme url ≡ scheme
      → All IsLink rest
      → All IsLink (keep_link media output_dir scheme url rest)
  All-keep_link (err x) url rest e h = h
  All-keep_link (ok scheme) url rest e h = elim (Bool-cases (is_http scheme)) [
    | inl http ↦ rw http ((scheme, e, http), h)
    | inr other ↦ rw other h
  ]

  All-resolve :
      (joined : Result Text) (rest : List Text)
      → All IsLink rest
      → All IsLink (resolve media output_dir joined rest)
  All-resolve (err x) rest h = h
  All-resolve (ok url) rest h = All-keep_link (url_scheme url) url rest refl h

  All-discovered :
      (base : Text) (links : List Text) → All IsLink (discovered media output_dir base links)
  unfolding discovered
  All-discovered base [] = tt
  All-discovered base (link ∷ links) =
      All-resolve (urljoin base link) (discovered media output_dir base links)
        (All-discovered base links)

  All-parse_html :
      (body : List ℕ) (base : Text) (page : Text × List Text)
      → parse_html media output_dir body base ≡ ok page
      → All IsLink page.1
  unfolding parse_html
  All-parse_html body base page e = elim (Result-cases (media.parse body)) [
    | inl (soup, parsed) ↦
        let known = rw (parsed, parse_html) at e in
        subst (λ q. All IsLink q.1) (is_ok known)
          (All-discovered base (raw_links media output_dir soup))
    | inr (x, failed) ↦ let known = rw (failed, parse_html) at e in absurd (err_not_ok known)
  ]

  -- What is to be shown of a page that is reported.
  abbrev pub IsReported : FetchResponse → LeaseResult → Store → ProcessorResult → Type 0
  IsReported response lease s result =
      All IsLink result.discovered_urls
      × (result.content_hash ≡ sha256 (body_of response))
      × ((title : Text) × (find_row lease.normalized_url
              (process_html media output_dir response lease s).0.html_metadata
            ≡ some (record { page_title = title; link_count = length result.discovered_urls })))

  reports :
      (response : FetchResponse) (lease : LeaseResult) (s : Store) (result : ProcessorResult)
      (page : Text × List Text)
      → let hash = sha256 (body_of response) in
        let path = path_of output_dir (lit "html") hash (lit "html") in
        is_text (get_content_hash lease.normalized_url s) hash ≡ false
        → parse_html media output_dir (body_of response) lease.url ≡ ok page
        → write_file path (body_of response) ≡ ok tt
        → any (has_key lease.normalized_url) s.records ≡ true
        → report page.1 hash path ≡ result
        → IsReported response lease s result
  unfolding process_html store_html_metadata
  reports response lease s result page changed parsed wrote present same = (
    subst (λ r. All IsLink r.discovered_urls) same
        (All-parse_html (body_of response) lease.url page parsed),
    ap (λ r. r.content_hash) (sym same),
    (
      page.0,
      rw (changed, parsed)
          (rw (wrote, present)
            (find_row-replace lease.normalized_url _ s.html_metadata
              ∙ ap
                  (λ r.
                    some (record { page_title = page.0; link_count = length r.discovered_urls }))
                  same)),
    ),
  )

  -- The page reported by the processing of HTML: its links are all of http or https, its hash is that
  -- of the body, and the store has their number under the URL of the lease.
  pub process_html_lem :
      (response : FetchResponse) (lease : LeaseResult) (s : Store) (result : ProcessorResult)
      → (process_html media output_dir response lease s).1 ≡ ok result
      → IsReported response lease s result
  unfolding process_html store_html_metadata
  process_html_lem response lease s result e =
      let body = body_of response in
      let hash = sha256 body in
      let path = path_of output_dir (lit "html") hash (lit "html") in
      elim (Bool-cases (is_text (get_content_hash lease.normalized_url s) hash)) [
        | inl same ↦ let known = rw same at e in absurd (err_not_ok known)
        | inr changed ↦ elim (Result-cases (parse_html media output_dir body lease.url)) [
          | inr (x, failed) ↦ let known = rw (changed, failed) at e in absurd (err_not_ok known)
          | inl (page, parsed) ↦ elim (Result-cases (write_file path body)) [
            | inr (x, failed) ↦
                let known = rw (changed, parsed) at e in
                let known' = rw failed at known in absurd (err_not_ok known')
            | inl (u, wrote) ↦ elim (Bool-cases (any (has_key lease.normalized_url) s.records)) [
              | inr absent ↦
                  let known = rw (changed, parsed) at e in
                  let known' = rw (wrote, absent) at known in absurd (err_not_ok known')
              | inl present ↦
                  let known = rw (changed, parsed) at e in
                  let known' = rw (wrote, present) at known in
                  reports response lease s result page changed parsed wrote present (is_ok known')
            ]
          ]
        ]
      ]
