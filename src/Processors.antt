-- ===== src/Processors.antt =====
-- src/crawler/processors: what the four processors do to the store and report. BeautifulSoup, Pillow,
-- pypdf, hashlib, urllib and the disk are an argument; logging is left out.
mod Base
mod Html
mod Files
unfoldable pub use Base.*
unfoldable pub use Html.*
unfoldable pub use Files.*
use web_crawler.Prelude.{
  ℕ, Bool, Option, none, some, List, [], ◌∷◌, ◌++◌, Text, lit, text_eq, length, ◌||◌, if◌then◌else◌,
}
use mathlib.Core.Option as Option
use web_crawler.Prelude.Int.{ℤ, pos, ltz}
use web_crawler.Types.{
  FetchResponse, LeaseResult, ProcessorResult, Error, ErrorKind, Result, ok, err,
}
use web_crawler.Store.{is_text, Action, ◌>>=◌, ◌>>◌, pure, raise}
use web_crawler.Store.Queries.{get_content_hash}
use web_crawler.Store.Metadata.{
  or_empty, store_html_metadata, store_image_metadata, store_video_metadata, store_pdf_metadata,
}
use web_crawler.Limiter.{header}
use web_crawler.Dispatcher.{mime_of}

pub data Processor : Type 0 where
  html image video pdf : Processor

module _ (media : Media) (output_dir : Text) where
  unfoldable pub process : Processor → FetchResponse → LeaseResult → Action ProcessorResult
  unfolding process_html process_image process_video process_pdf
  process html = process_html media output_dir
  process image = process_image media output_dir
  process video = process_video media output_dir
  process pdf = process_pdf media output_dir
