-- ===== src/Processors/Files.antt =====
-- src/crawler/processors: image_processor.py, video_processor.py and pdf_processor.py.
use web_crawler.Prelude.{ℕ, Option, none, some, List, [], ◌∷◌, Text, lit, length, if◌then◌else◌}
use mathlib.Core.Option as Option
use web_crawler.Prelude.Int.{ℤ, pos, ltz}
use web_crawler.Types.{
  FetchResponse, LeaseResult, ProcessorResult, Error, ErrorKind, Result, ok, err,
}
use web_crawler.Store.{Action, ◌>>=◌, ◌>>◌, pure}
use web_crawler.Store.Metadata.{store_image_metadata, store_video_metadata, store_pdf_metadata}
use web_crawler.Limiter.{header}
use web_crawler.Dispatcher.{mime_of}
use web_crawler.Processors.Base.{Media, body_of, lift, or_default, extension_of, path_of, report}

-- `_MIME_TO_EXT` of the images and of the videos.
abbrev pub image_extensions : List (Text × Text)
image_extensions =
    (lit "image/png", lit "png")
    ∷ (lit "image/jpeg", lit "jpeg")
    ∷ (lit "image/jpg", lit "jpg")
    ∷ (lit "image/gif", lit "gif")
    ∷ (lit "image/webp", lit "webp")
    ∷ (lit "image/bmp", lit "bmp")
    ∷ (lit "image/tiff", lit "tiff")
    ∷ (lit "image/svg+xml", lit "svg")
    ∷ (lit "image/x-icon", lit "ico")
    ∷ (lit "image/vnd.microsoft.icon", lit "ico")
    ∷ (lit "image/avif", lit "avif")
    ∷ (lit "image/heic", lit "heic")
    ∷ (lit "image/heif", lit "heif")
    ∷ []

abbrev pub video_extensions : List (Text × Text)
video_extensions =
    (lit "video/mp4", lit "mp4")
    ∷ (lit "video/webm", lit "webm")
    ∷ (lit "video/ogg", lit "ogg")
    ∷ (lit "video/mpeg", lit "mpeg")
    ∷ (lit "video/quicktime", lit "mov")
    ∷ (lit "video/x-msvideo", lit "avi")
    ∷ (lit "video/x-matroska", lit "mkv")
    ∷ (lit "video/x-flv", lit "flv")
    ∷ (lit "video/3gpp", lit "3gp")
    ∷ (lit "video/3gpp2", lit "3g2")
    ∷ (lit "video/x-ms-wmv", lit "wmv")
    ∷ []

module _ (media : Media) (output_dir : Text) where
  open media use {
    is_space, sha256, Soup, parse, title, attributes, urljoin, url_scheme, image_size, parse_int,
    is_float, read_pdf, write_file,
  }

  abbrev pub dimensions : List ℕ → Option (ℕ × ℕ)
  dimensions [] = none
  dimensions (b ∷ body) = image_size (b ∷ body)

  abbrev pub image_file_size : Option Text → List ℕ → Result ℤ
  image_file_size none body = ok (pos (length body))
  image_file_size (some content_length) body = parse_int content_length

  unfoldable pub process_image : FetchResponse → LeaseResult → Action ProcessorResult
  unfolding header mime_of extension_of
  process_image response lease =
      let body = body_of response in
      let hash = sha256 body in
      let mime = mime_of is_space (
        or_default (lit "application/octet-stream")
          (header (lit "content-type") response.headers)) in
      let path = path_of output_dir (lit "images") hash (extension_of image_extensions mime) in
      lift (image_file_size (header (lit "content-length") response.headers) body) >>= λ size.
      lift (write_file path body)
      >> store_image_metadata lease.normalized_url
          (some (record {
            width = Option.map (λ d. d.0) (dimensions body);
            height = Option.map (λ d. d.1) (dimensions body);
            file_size_bytes = size;
          }))
          none none none
      >> pure (report [] hash path)

  abbrev pub truncated : Error
  truncated = record { kind = ErrorKind.transient; message = lit "truncated download" }

  abbrev pub declared_length : Option Text → Option ℤ
  declared_length none = none
  declared_length (some t) = elim (parse_int t) [ ok n ↦ some n | err e ↦ none ]

  abbrev pub duration_of : Option Text → Option Text
  duration_of none = none
  duration_of (some t) = if is_float t then some t else none

  -- The size of a video's file, unless less of it came than was declared.
  abbrev pub video_file_size : Option ℤ → List ℕ → Result ℤ
  video_file_size none body = ok (pos (length body))
  video_file_size (some n) body = if ltz (pos (length body)) n then err truncated else ok n

  unfoldable pub process_video : FetchResponse → LeaseResult → Action ProcessorResult
  unfolding header mime_of extension_of
  process_video response lease =
      let body = body_of response in
      let hash = sha256 body in
      let mime = mime_of is_space (
        or_default (lit "application/octet-stream")
          (header (lit "content-type") response.headers)) in
      let path = path_of output_dir (lit "videos") hash (extension_of video_extensions mime) in
      lift (video_file_size (declared_length (header (lit "content-length") response.headers)) body)
      >>= λ size.
          lift (write_file path body)
          >> store_video_metadata lease.normalized_url
              (some (record {
                file_size_bytes = size;
                duration_seconds = duration_of (header (lit "x-duration") response.headers);
              }))
              none none
          >> pure (report [] hash path)

  unfoldable pub process_pdf : FetchResponse → LeaseResult → Action ProcessorResult
  process_pdf response lease =
      let body = body_of response in
      let hash = sha256 body in
      let path = path_of output_dir (lit "pdfs") hash (lit "pdf") in
      lift (write_file path body)
      >> store_pdf_metadata lease.normalized_url none (Option.map (λ d. d.0) (read_pdf body))
          (Option.map (λ d. d.1) (read_pdf body))
      >> pure (report [] hash path)
