-- ===== src/Disk/Tests.antt =====
-- Runs of the writing of a file.
use web_crawler.Prelude.{◌≡◌, refl, some, [], ◌∷◌, lit}
use web_crawler.Types.{Error, os, ok, err}
use web_crawler.Disk.{cut, written, read_file, write_file_if_not_exists}
use web_crawler.Disk.Persistence.{cut_write_kept}

-- The disk is full after two bytes.
abbrev disk_full : Error
disk_full = record { kind = os; message = lit "No space left on device" }

cut_write_kept_example :
    let failed =
      write_file_if_not_exists (cut 2 disk_full) (lit "output/a") (60 ∷ 104 ∷ 62 ∷ []) [] in
    let again = write_file_if_not_exists written (lit "output/a") (60 ∷ 104 ∷ 62 ∷ []) failed.0 in
    (failed.1 ≡ err disk_full)
    × (again.1 ≡ ok tt)
    × (read_file (lit "output/a") again.0 ≡ some (60 ∷ 104 ∷ []))
unfolding read_file
cut_write_kept_example = cut_write_kept 2 disk_full (lit "output/a") (60 ∷ 104 ∷ 62 ∷ []) [] refl
