-- ===== src/Store/Metadata.antt =====
-- src/crawler/metadata_store.py: the tables of content-type metadata. Each is a list of rows with
-- their keys; `INSERT OR REPLACE` excuses neither a NULL in a column without a default nor a key
-- that `url_records` does not have.
pub mod Rows
use web_crawler.Prelude.{ℕ, Option, none, some, List, [], ◌∷◌, Text, text_eq, any, if◌then◌else◌}
use web_crawler.Prelude.Int.{ℤ}
use web_crawler.Types.{HtmlMetadata, ImageMetadata, VideoMetadata, PdfMetadata, ok}
use web_crawler.Store.{Store, Action, has_key, raise, foreign_key_failed, not_null_failed}

module _ {ℓ} {A : Type ℓ} where
  unfoldable pub replace : Text → A → List (Text × A) → List (Text × A)
  replace key a [] = (key, a) ∷ []
  replace key a ((k, b) ∷ rows) =
      if text_eq k key then (key, a) ∷ rows else (k, b) ∷ replace key a rows

  unfoldable pub find_row : Text → List (Text × A) → Option A
  find_row key [] = none
  find_row key ((k, b) ∷ rows) = if text_eq k key then some b else find_row key rows

abbrev pub or_empty : Option Text → Text
or_empty none = []
or_empty (some t) = t

abbrev pub or_zero : Option ℕ → ℕ
or_zero none = 0
or_zero (some n) = n

-- The foreign key on `normalized_url`.
abbrev pub if_referenced : Text → (Store → Store) → Action (Unit {0})
if_referenced key put s =
    if any (has_key key) s.records then (put s, ok tt) else raise foreign_key_failed s

html_row : Option HtmlMetadata → Option Text → Option ℕ → HtmlMetadata
html_row (some m) page_title link_count = m
html_row none page_title link_count = record {
  page_title = or_empty page_title;
  link_count = or_zero link_count;
}

unfoldable pub store_html_metadata :
    Text → Option HtmlMetadata → Option Text → Option ℕ → Action (Unit {0})
unfolding html_row replace
store_html_metadata key metadata page_title link_count = if_referenced key λ s. record s {
  html_metadata = replace key (html_row metadata page_title link_count) s.html_metadata;
}

-- The row of an image, unless its size is NULL.
image_row : Option ImageMetadata → Option ℕ → Option ℕ → Option ℤ → Option ImageMetadata
image_row (some m) width height size = some m
image_row none width height none = none
image_row none width height (some size) =
    some (record { width = width; height = height; file_size_bytes = size })

unfoldable pub store_image_metadata :
    Text → Option ImageMetadata → Option ℕ → Option ℕ → Option ℤ → Action (Unit {0})
unfolding image_row replace
store_image_metadata key metadata width height size = elim (image_row metadata width height size) [
  | none ↦ raise not_null_failed
  | some m ↦ if_referenced key λ s. record s { image_metadata = replace key m s.image_metadata }
]

video_row : Option VideoMetadata → Option ℤ → Option Text → Option VideoMetadata
video_row (some m) size duration = some m
video_row none none duration = none
video_row none (some size) duration =
    some (record { file_size_bytes = size; duration_seconds = duration })

unfoldable pub store_video_metadata :
    Text → Option VideoMetadata → Option ℤ → Option Text → Action (Unit {0})
unfolding video_row replace
store_video_metadata key metadata size duration = elim (video_row metadata size duration) [
  | none ↦ raise not_null_failed
  | some m ↦ if_referenced key λ s. record s { video_metadata = replace key m s.video_metadata }
]

pdf_row : Option PdfMetadata → Option ℕ → Option Text → PdfMetadata
pdf_row (some m) page_count title = m
pdf_row none page_count title = record { page_count = page_count; document_title = title }

unfoldable pub store_pdf_metadata :
    Text → Option PdfMetadata → Option ℕ → Option Text → Action (Unit {0})
unfolding pdf_row replace
store_pdf_metadata key metadata page_count title =
    if_referenced key λ s. record s {
      pdf_metadata = replace key (pdf_row metadata page_count title) s.pdf_metadata;
    }
