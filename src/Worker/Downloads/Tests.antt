-- ===== src/Worker/Downloads/Tests.antt =====
-- A video of three bytes.
use web_crawler.Prelude.{◌≡◌, refl, false, some, [], ◌∷◌, lit, length, text_eq, lower}
use web_crawler.Prelude.Int.{pos, ltz}
use web_crawler.Types.{FetchResponse, ProcessorResult}
use web_crawler.Limiter.{header}
use web_crawler.Store.Metadata.{find_row, store_video_metadata}
use web_crawler.Store.Tests.{held, store_of}
use web_crawler.Processors.{body_of, process_video, duration_of, path_of, report}
use web_crawler.Scheduler.Tests.{lease}
use web_crawler.Worker.Tests.{media}
use web_crawler.Worker.Downloads.{process_video_lem}

abbrev film : FetchResponse
film = record {
  status_code = 200;
  headers = (lit "content-length", lit "123") ∷ [];
  body = some (1 ∷ 2 ∷ 3 ∷ []);
}

abbrev reported_film : ProcessorResult
reported_film =
    report [] (1 ∷ 2 ∷ 3 ∷ []) (path_of (lit "out") (lit "videos") (1 ∷ 2 ∷ 3 ∷ []) (lit "bin"))

process_video_lem_example :
    (ltz (pos (length (body_of film))) (pos 3) ≡ false)
    × (reported_film.content_hash ≡ media.sha256 (body_of film))
    × (reported_film.discovered_urls ≡ [])
    × (find_row lease.normalized_url
          (process_video media (lit "out") film lease (store_of held)).0.video_metadata
        ≡ some (record {
          file_size_bytes = pos 3;
          duration_seconds = duration_of media (lit "out") (header (lit "x-duration") film.headers);
        }))
unfolding header text_eq lit process_video store_video_metadata lower
process_video_lem_example =
    process_video_lem media (lit "out") film lease (store_of held) reported_film (pos 3) refl refl
