-- ===== src/Disk.antt =====
-- `BaseProcessor.write_file_if_not_exists` of src/crawler/content_dispatcher.py, on a disk that is a
-- list of files. What the operating system does with a write is an argument.
pub mod Persistence
mod Tests
use web_crawler.Prelude.{
  ℕ, Bool, true, false, Option, none, some, List, [], ◌∷◌, Text, text_eq, take, is_some,
  if◌then◌else◌,
}
use web_crawler.Types.{Error, Result, ok, err}

-- The files by their paths.
abbrev pub Disk : Type 0
Disk = List (Text × List ℕ)

-- `makedirs` raises, `open` raises, the writing raises after some bytes, or all is written.
pub data Outcome : Type 0 where
  no_directory unopened : Error → Outcome
  cut : ℕ → Error → Outcome
  written : Outcome

unfoldable pub read_file : Text → Disk → Option (List ℕ)
read_file path [] = none
read_file path ((other, body) ∷ files) =
    if text_eq other path then some body else read_file path files

-- Opening a new file and writing into it.
abbrev pub write_new : Outcome → Text → List ℕ → Disk → Disk × Result (Unit {0})
write_new (no_directory e) path body disk = (disk, err e)
write_new (unopened e) path body disk = (disk, err e)
write_new (cut n e) path body disk = ((path, take n body) ∷ disk, err e)
write_new written path body disk = ((path, body) ∷ disk, ok tt)

-- What `makedirs` raises comes before the test.
abbrev pub unless_there : Outcome → Bool → Text → List ℕ → Disk → Disk × Result (Unit {0})
unless_there (no_directory e) there path body disk = (disk, err e)
unless_there outcome true path body disk = (disk, ok tt)
unless_there outcome false path body disk = write_new outcome path body disk

unfoldable pub write_file_if_not_exists : Outcome → Text → List ℕ → Disk → Disk × Result (Unit {0})
unfolding read_file
write_file_if_not_exists outcome path body disk =
    unless_there outcome (is_some (read_file path disk)) path body disk
