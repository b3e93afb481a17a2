-- ===== src/Store/Metadata/Rows.antt =====
-- The metadata tables of src/crawler/metadata_store.py after a row has been written.
use web_crawler.Prelude.{
  ◌≡◌, refl, some, none, List, [], ◌∷◌, Text, text_eq, text_eq_refl, any, inl, inr, Bool-cases,
}
use web_crawler.Types.{ImageMetadata, VideoMetadata, ok}
use web_crawler.Types.Results.{err_not_ok}
use web_crawler.Store.{Store, has_key}
use web_crawler.Store.Metadata.{replace, find_row, store_image_metadata, store_video_metadata}

pub find_row-replace :
    {A : Type 0}
    → (key : Text) (a : A) (rows : List (Text × A)) → find_row key (replace key a rows) ≡ some a
unfolding find_row replace
find_row-replace key a [] = rw (text_eq_refl key) refl
find_row-replace key a ((k, b) ∷ rows) = elim (Bool-cases (text_eq k key)) [
  | inl same ↦ rw same (rw (text_eq_refl key) refl)
  | inr other ↦ rw other (rw other (find_row-replace key a rows))
]

module _ (key : Text) (s : Store) where
  pub store_video-row :
      (m : VideoMetadata)
      → (store_video_metadata key (some m) none none s).1 ≡ ok tt
      → find_row key (store_video_metadata key (some m) none none s).0.video_metadata ≡ some m
  unfolding store_video_metadata
  store_video-row m e = elim (Bool-cases (any (has_key key) s.records)) [
    | inl known ↦ rw known (find_row-replace key m s.video_metadata)
    | inr orphan ↦ let failed = rw orphan at e in absurd (err_not_ok failed)
  ]

  pub store_image-row :
      (m : ImageMetadata)
      → (store_image_metadata key (some m) none none none s).1 ≡ ok tt
      → find_row key (store_image_metadata key (some m) none none none s).0.image_metadata ≡ some m
  unfolding store_image_metadata
  store_image-row m e = elim (Bool-cases (any (has_key key) s.records)) [
    | inl known ↦ rw known (find_row-replace key m s.image_metadata)
    | inr orphan ↦ let failed = rw orphan at e in absurd (err_not_ok failed)
  ]
