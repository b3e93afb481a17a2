-- ===== src/Worker/Downloads.antt =====
-- What the processors of images and videos in src/crawler/processors report and write into the store.
mod Tests
use web_crawler.Prelude.{
  ℕ, ◌≡◌, refl, sym, ◌∙◌, ap, subst, Bool, true, false, Option, none, some, List, [], Text, lit,
  length, inl, inr, Bool-cases,
}
use mathlib.Core.Option as Option
use web_crawler.Prelude.Int.{ℤ, pos, ltz}
use web_crawler.Types.{
  FetchResponse, LeaseResult, VideoMetadata, ImageMetadata, ProcessorResult, Error, ErrorKind,
  Result, ok, err,
}
use web_crawler.Types.Results.{is_ok, err_not_ok}
use web_crawler.Limiter.{header}
use web_crawler.Store.{Store, Action, ◌>>=◌, ◌>>◌, pure}
use web_crawler.Store.Metadata.{find_row, store_image_metadata, store_video_metadata}
use web_crawler.Store.Metadata.Rows.{store_image-row, store_video-row}
use web_crawler.Dispatcher.{mime_of}
use web_crawler.Processors.{
  Media, body_of, lift, path_of, extension_of, or_default, report, video_extensions,
  image_extensions, process_image, process_video, image_file_size, video_file_size, declared_length,
  duration_of, dimensions,
}

-- A file is saved: its size is found, it is written, and its metadata is put into the store.
abbrev saved :
    Result ℤ
    → Result (Unit {0})
    → (ℤ → Action (Unit {0}))
    → ProcessorResult
    → Action ProcessorResult
saved size wrote put report = lift size >>= λ n. lift wrote >> put n >> pure report

saved-ok :
    (size : Result ℤ) (wrote : Result (Unit {0})) (put : ℤ → Action (Unit {0}))
    (report result : ProcessorResult) (s : Store)
    → (saved size wrote put report s).1 ≡ ok result
    → (n : ℤ) × (size ≡ ok n)
      × ((put n s).1 ≡ ok tt)
      × (report ≡ result)
      × ((saved size wrote put report s).0 ≡ (put n s).0)
saved-ok (err e) wrote put report result s h = absurd (err_not_ok h)
saved-ok (ok n) (err e) put report result s h = absurd (err_not_ok h)
saved-ok (ok n) (ok _) put report result s h = go (put n s).1 refl
  where
    go :
        (r : Result (Unit {0}))
        → (put n s).1 ≡ r
        → (m : ℤ) × (ok n ≡ ok m)
          × ((put m s).1 ≡ ok tt)
          × (report ≡ result)
          × ((saved (ok n) (ok tt) put report s).0 ≡ (put m s).0)
    go (err e) put_failed = let failed = rw put_failed at h in absurd (err_not_ok failed)
    go (ok tt) put_ok =
        let reported = rw put_ok at h in (n, refl, put_ok, is_ok reported, rw put_ok refl)

module _ (media : Media) (output_dir : Text) (response : FetchResponse) (lease : LeaseResult)
    (s : Store) (result : ProcessorResult) where
  open media use {is_space, sha256, write_file}

  abbrev body : List ℕ
  body = body_of response

  abbrev field : Text → Option Text
  field name = header name response.headers

  abbrev place : Text → List (Text × Text) → Text
  place folder extensions = path_of output_dir folder (sha256 body) (
      extension_of extensions (
        mime_of is_space
          (or_default (lit "application/octet-stream") (field (lit "content-type")))))

  video_fits :
      (n size : ℤ)
      → video_file_size media output_dir (some n) body ≡ ok size
      → (ltz (pos (length body)) n ≡ false) × (n ≡ size)
  video_fits n size e = elim (Bool-cases (ltz (pos (length body)) n)) [
    | inl short ↦ let failed = rw short at e in absurd (err_not_ok failed)
    | inr whole ↦ let known = rw whole at e in (whole, is_ok known)
  ]

  abbrev video_row : ℤ → VideoMetadata
  video_row n = record {
    file_size_bytes = n;
    duration_seconds = duration_of media output_dir (field (lit "x-duration"));
  }

  -- A video that is reported is whole: no less came than its Content-Length declares, where that can be
  -- read. It is reported under the hash of its body and without links, and the store has the declared
  -- length and the duration under the URL of the lease.
  pub process_video_lem :
      (n : ℤ)
      → declared_length media output_dir (header (lit "content-length") response.headers) ≡ some n
      → (process_video media output_dir response lease s).1 ≡ ok result
      → (ltz (pos (length (body_of response))) n ≡ false)
        × (result.content_hash ≡ sha256 (body_of response))
        × (result.discovered_urls ≡ [])
        × (find_row lease.normalized_url
              (process_video media output_dir response lease s).0.video_metadata
            ≡ some (record {
              file_size_bytes = n;
              duration_seconds =
                  duration_of media output_dir (header (lit "x-duration") response.headers);
            }))
  unfolding process_video
  process_video_lem n declared reported =
      let place_ = place (lit "videos") video_extensions in
      let (size, sized, put, same, state) =
        saved-ok
          (video_file_size media output_dir
            (declared_length media output_dir (field (lit "content-length"))) body)
          (write_file place_ body)
          (λ m. store_video_metadata lease.normalized_url (some (video_row m)) none none)
          (report [] (sha256 body) place_) result s reported in
      let sized_ = ap (λ d. video_file_size media output_dir d body) (sym declared) ∙ sized in
      let (whole, is_size) = video_fits n size sized_ in
      (
        whole,
        ap (λ r. r.content_hash) (sym same),
        ap (λ r. r.discovered_urls) (sym same),
        ap (λ t. find_row lease.normalized_url t.video_metadata) state
            ∙ store_video-row lease.normalized_url s (video_row size) put
            ∙ ap (λ m. some (video_row m)) (sym is_size),
      )

  abbrev image_row : ℤ → ImageMetadata
  image_row n = record {
    width = Option.map (λ d. d.0) (dimensions media output_dir body);
    height = Option.map (λ d. d.1) (dimensions media output_dir body);
    file_size_bytes = n;
  }

  -- An image that is reported has the size that its Content-Length declares, whatever came of it.
  pub process_image_lem :
      (t : Text) (n : ℤ)
      → field (lit "content-length") ≡ some t
      → media.parse_int t ≡ ok n
      → (process_image media output_dir response lease s).1 ≡ ok result
      → (result.content_hash ≡ sha256 body)
        × (result.discovered_urls ≡ [])
        × (find_row lease.normalized_url
              (process_image media output_dir response lease s).0.image_metadata
            ≡ some (image_row n))
  unfolding process_image
  process_image_lem t n declared read reported =
      let place_ = place (lit "images") image_extensions in
      let (size, sized, put, same, state) =
        saved-ok (image_file_size media output_dir (field (lit "content-length")) body)
          (write_file place_ body)
          (λ m. store_image_metadata lease.normalized_url (some (image_row m)) none none none)
          (report [] (sha256 body) place_) result s reported in
      let is_size : ok n ≡ ok size =
        sym read ∙ ap (λ d. image_file_size media output_dir d body) (sym declared) ∙ sized in
      (
        ap (λ r. r.content_hash) (sym same),
        ap (λ r. r.discovered_urls) (sym same),
        ap (λ t. find_row lease.normalized_url t.image_metadata) state
            ∙ store_image-row lease.normalized_url s (image_row size) put
            ∙ ap (λ m. some (image_row m)) (sym (is_ok is_size)),
      )

  -- An image whose Content-Length is no number raises, and nothing is written.
  pub process_image_unread :
      (t : Text) (e : Error)
      → field (lit "content-length") ≡ some t
      → media.parse_int t ≡ err e
      → process_image media output_dir response lease s ≡ (s, err e)
  unfolding process_image
  process_image_unread t e declared refused = rw declared (rw refused refl)
