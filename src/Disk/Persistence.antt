-- ===== src/Disk/Persistence.antt =====
-- What src/crawler/content_dispatcher.py leaves on the disk.
use web_crawler.Prelude.{ℕ, ◌≡◌, refl, none, some, List, Text, text_eq_refl, take}
use web_crawler.Types.{Error, ok, err}
use web_crawler.Disk.{Disk, cut, written, read_file, write_file_if_not_exists}

-- The write of a file that is not there, where it fails after a part, reports the error and leaves
-- that part on the disk; the next write of the file, in which nothing fails, reports success and
-- leaves the part as it is.
pub cut_write_kept :
    (n : ℕ) (e : Error) (path : Text) (body : List ℕ) (disk : Disk)
    → read_file path disk ≡ none
    → let failed = write_file_if_not_exists (cut n e) path body disk in
      let again = write_file_if_not_exists written path body failed.0 in
      (failed.1 ≡ err e) × (again.1 ≡ ok tt) × (read_file path again.0 ≡ some (take n body))
unfolding write_file_if_not_exists read_file
cut_write_kept n e path body disk absent =
    rw absent
      (refl, rw (text_eq_refl path) refl, rw (text_eq_refl path) (rw (text_eq_refl path) refl))
