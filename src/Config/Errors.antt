-- ===== src/Config/Errors.antt =====
-- The class of the errors that `_validate_config` of src/crawler/crawler.py raises.
use web_crawler.Prelude.{◌≡◌, refl, Option, none, some, Text, inl, inr, Bool-cases}
use web_crawler.Prelude.Int.{ℤ, pos}
use web_crawler.Types.{CrawlerConfig, ErrorKind, Result, ok, err}
use web_crawler.Config.{validate_config, check_range, check_depth, outside, ◌>>◌}

abbrev pub IsValueError : Result (Unit {0}) → Type 0
IsValueError (ok u) = Unit {0}
IsValueError (err e) = e.kind ≡ ErrorKind.value

>>-IsValueError :
    (m n : Result (Unit {0})) → IsValueError m → IsValueError n → IsValueError (m >> n)
>>-IsValueError (ok u) n h k = k
>>-IsValueError (err e) n h k = h

check_range-IsValueError :
    (name : Text) (low high x : ℤ) → IsValueError (check_range name low high x)
unfolding check_range
check_range-IsValueError name low high x = elim (Bool-cases (outside low high x)) [
  | inl out ↦ rw out refl
  | inr within ↦ rw within tt
]

check_depth-IsValueError : (d : Option ℤ) → IsValueError (check_depth d)
unfolding check_depth
check_depth-IsValueError none = tt
check_depth-IsValueError (some d) = check_range-IsValueError _ (pos 1) (pos 1000) d

-- A configuration that is not accepted is refused with a `ValueError`.
pub validate_config-IsValueError : (c : CrawlerConfig) → IsValueError (validate_config c)
unfolding validate_config
validate_config-IsValueError c =
    >>-IsValueError _ _
      (>>-IsValueError _ _
        (>>-IsValueError _ _
          (>>-IsValueError _ _ (check_depth-IsValueError c.max_depth)
            (check_range-IsValueError _ (pos 1) (pos 100) c.max_concurrency))
          (check_range-IsValueError _ (pos 0) (pos 10) c.max_retries))
        (check_range-IsValueError _ (pos 1024) (pos 1073741824) c.max_content_size))
      (check_range-IsValueError _ (pos 1) (pos 500) c.batch_size)
