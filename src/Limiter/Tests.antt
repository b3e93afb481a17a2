-- ===== src/Limiter/Tests.antt =====
-- Requests to src/crawler/rate_limiter.py, with naturals in place of floats.
use web_crawler.Prelude.{
  ℕ, ◌*◌, ◌≡◌, refl, none, some, [], ◌∷◌, lit, ltb, leb, length, arith, if◌then◌else◌,
}
use web_crawler.Types.{FetchResponse, Result, ok, err}
use web_crawler.Limiter.{
  Floats, execute_with_retry, exhausted, RateLimiter, new_limiter, admit, pass_event, acquire,
  release, begin_backoff,
}
use web_crawler.Limiter.Requests.{Request, request_returns}
use web_crawler.Limiter.Backoff.{execute_with_retry-exhausted}
use web_crawler.Limiter.Shared.{Step, Reaches, IsBounded, Reaches-IsBounded}

abbrev pub floats : Floats
floats = record { Float = ℕ; of_ℕ = λ n. n; lt = ltb; le = leb; parse = λ t. some (length t * 200) }

abbrev response : ℕ → FetchResponse
response code = record {
  status_code = code;
  headers = (lit "retry-after", lit "10") ∷ [];
  body = none;
}

-- Throttled at the first three attempts, and answered at the fourth.
abbrev third : ℕ → Result FetchResponse
third i = ok (response (if ltb i 3 then 429 else 200))

-- A request that is admitted, runs and is throttled.
abbrev paused : RateLimiter
paused = begin_backoff (release (acquire (pass_event (admit (new_limiter 1)).0)))

Reaches-IsBounded_example : IsBounded 1 paused
unfolding admit pass_event acquire
Reaches-IsBounded_example = Reaches-IsBounded 1 paused (
    Reaches.after _ (acquire (pass_event (admit (new_limiter 1)).0)) _
      (Reaches.after _ (pass_event (admit (new_limiter 1)).0) _
        (Reaches.after _ (admit (new_limiter 1)).0 _
          (Reaches.after _ (new_limiter 1) _ (Reaches.start (new_limiter 1))
            (Step.admitted (new_limiter 1)))
          (Step.passed (admit (new_limiter 1)).0 refl (omega arith)))
        (Step.acquired (pass_event (admit (new_limiter 1)).0) (omega arith) (omega arith)))
      (Step.throttled (acquire (pass_event (admit (new_limiter 1)).0)) (omega arith)))

request_returns_example :
    ((admit (new_limiter 2)).1 ≡ ok tt)
    × Request 3 (admit (new_limiter 2)).0 (new_limiter 2)
    × ((execute_with_retry floats third).1 ≡ third 3)
    × (length (execute_with_retry floats third).0 ≡ 3)
request_returns_example =
    request_returns floats third (new_limiter 2) 3 (omega arith) (λ i l. ground arith)
      (λ e. omega arith) refl (omega arith) (omega arith)

-- Throttled at every attempt.
abbrev always : ℕ → Result FetchResponse
always i = ok (response 429)

execute_with_retry-exhausted_example :
    ((execute_with_retry floats always).1 ≡ err exhausted)
    × (length (execute_with_retry floats always).0 ≡ 9)
execute_with_retry-exhausted_example = execute_with_retry-exhausted floats always (λ i l. refl)
