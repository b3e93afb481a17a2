-- ===== src/Cli.antt =====
-- src/crawler/__main__.py: `_run_crawl`, `_run_resume` and `main`, on arguments that argparse has
-- parsed. What is printed is left out, but for the message of a failure.
pub mod Exits
pub mod Parser
mod Tests
use web_crawler.Prelude.{ℕ, Bool, true, false, Option, none, some, Text, lit, ◌++◌, if◌then◌else◌}
use web_crawler.Types.{CrawlResult, Error, ErrorKind, Result, ok, err}
use web_crawler.Store.{Store}
use web_crawler.Crawler.Bootstrap.{is_os}

pub data Command : Type 0 where
  crawl : Text → Command
  resume : Command

-- How a session ends: with a result or an exception, or by `KeyboardInterrupt`.
pub data Ending : Type 0 where
  returned : Result CrawlResult → Ending
  interrupted : Ending

pub data Exit : Type 0 where
  finished : CrawlResult → Exit
  helped stopped : Exit
  failed : Text → Exit
  crashed : Error → Exit

-- The exit code of the process; an exception that is not caught ends it with 1.
abbrev pub exit_code : Exit → ℕ
exit_code (finished r) = 0
exit_code helped = 1
exit_code stopped = 130
exit_code (failed message) = 1
exit_code (crashed e) = 1

abbrev pub is_value : ErrorKind → Bool
is_value ErrorKind.value = true
is_value _ = false

abbrev pub is_runtime : ErrorKind → Bool
is_runtime ErrorKind.runtime = true
is_runtime _ = false

-- The `except` clauses of `main`, in their order.
abbrev pub caught : Error → Exit
caught e =
    if is_value e.kind
    then failed (lit "Configuration error: " ++ e.message)
    else if is_runtime e.kind
    then failed (lit "Runtime error: " ++ e.message)
    else if is_os e.kind
    then failed (lit "I/O error: " ++ e.message)
    else crashed e

abbrev pub exit_of : Ending → Exit
exit_of (returned (ok r)) = finished r
exit_of (returned (err e)) = caught e
exit_of interrupted = stopped

abbrev pub Session : Type 0
Session = Store → Store × Ending

abbrev pub not_found : Text → Error
not_found path = record { kind = ErrorKind.value; message = lit "Config file not found: " ++ path }

-- `exists` is `config_path.exists()`.
abbrev pub run_crawl : (Text → Bool) → (Text → Session) → Text → Session
run_crawl exists starts path s =
    if exists path then starts path s else (s, returned (err (not_found path)))

unfoldable pub main :
    (Text → Bool) → (Text → Session) → Session → Option Command → Store → Store × Exit
main exists starts resumes none s = (s, helped)
main exists starts resumes (some (crawl path)) s =
    let (left, ending) = run_crawl exists starts path s in (left, exit_of ending)
main exists starts resumes (some resume) s =
    let (left, ending) = resumes s in (left, exit_of ending)
