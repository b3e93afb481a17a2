-- ===== src/Limiter.antt =====
-- src/crawler/rate_limiter.py: `RateLimiter`. Floats, and the parsing of one, are an argument. A
-- request is the sequence of the outcomes that its attempts have.
pub mod Backoff
pub mod Shared
pub mod Requests
pub mod Tests
use web_crawler.Prelude.{
  ℕ, zero, suc, ◌+◌, ◌-◌, ◌^◌, Bool, true, false, Option, none, some, List, [], ◌∷◌, Text, lit,
  text_eq, leb, ◌==◌, if◌then◌else◌,
}
use web_crawler.Types.{FetchResponse, Error, ErrorKind, Result, ok, err}

-- What the backoff uses of Python's floats. `parse` is `float(text)`, or none where that raises.
pub record Floats : Type 1 where
  pub Float : Type 0
  pub of_ℕ : ℕ → Float
  pub lt : Float → Float → Bool
  pub le : Float → Float → Bool
  pub parse : Text → Option Float

abbrev pub max_queue_size : ℕ
max_queue_size = 1000

abbrev pub max_consecutive_429 : ℕ
max_consecutive_429 = 10

-- `headers.get(name)`
unfoldable pub header : Text → List (Text × Text) → Option Text
header name [] = none
header name ((key, value) ∷ rest) = if text_eq key name then some value else header name rest

-- The state that the requests share: the pending count, the event (`backing_off` while it is
-- cleared) and the semaphore's value, with the number of admitted requests in each phase: before
-- the event, before the semaphore, within an attempt, and within a pause.
pub record RateLimiter : Type 0 where
  pub pending_count : ℕ
  pub backing_off : Bool
  pub free : ℕ
  pub waiting : ℕ
  pub ready : ℕ
  pub running : ℕ
  pub sleeping : ℕ

abbrev pub new_limiter : ℕ → RateLimiter
new_limiter max_concurrency = record {
  pending_count = 0;
  backing_off = false;
  free = max_concurrency;
  waiting = 0;
  ready = 0;
  running = 0;
  sleeping = 0;
}

abbrev pub queue_overflow : Error
queue_overflow = record {
  kind = ErrorKind.queue_overflow;
  message = lit "Rate limiter queue at capacity (1000)";
}

abbrev pub exhausted : Error
exhausted = record {
  kind = ErrorKind.rate_limit_exhausted;
  message = lit "Rate limit exhausted after 10 consecutive 429 responses";
}

-- The part of `execute` before the request: it is counted, unless the queue is full.
unfoldable pub admit : RateLimiter → RateLimiter × Result (Unit {0})
admit r =
    if leb max_queue_size r.pending_count
    then (r, err queue_overflow)
    else (record r { pending_count = r.pending_count + 1; waiting = r.waiting + 1 }, ok tt)

-- The `finally` of `execute`, however the request ends.
unfoldable pub leave : RateLimiter → RateLimiter
leave r = record r { pending_count = r.pending_count - 1 }

-- A request that finds the event set.
unfoldable pub pass_event : RateLimiter → RateLimiter
pass_event r = record r { waiting = r.waiting - 1; ready = r.ready + 1 }

-- `semaphore.acquire` and `semaphore.release`, before and after an attempt.
unfoldable pub acquire : RateLimiter → RateLimiter
acquire r = record r { free = r.free - 1; ready = r.ready - 1; running = r.running + 1 }

unfoldable pub release : RateLimiter → RateLimiter
release r = record r { free = r.free + 1; running = r.running - 1 }

-- `_apply_backoff` up to its pause, and its `finally`, after which the loop begins again.
unfoldable pub begin_backoff : RateLimiter → RateLimiter
begin_backoff r = record r { backing_off = true; sleeping = r.sleeping + 1 }

unfoldable pub end_backoff : RateLimiter → RateLimiter
end_backoff r = record r { backing_off = false; sleeping = r.sleeping - 1; waiting = r.waiting + 1 }

module _ (floats : Floats) where
  open floats use {Float, of_ℕ, lt, le, parse}

  -- min(1.0 * 2 ** (n - 1), 60.0)
  pub exponential : ℕ → Float
  exponential n = if leb (2 ^ (n - 1)) 60 then of_ℕ (2 ^ (n - 1)) else of_ℕ 60

  pub of_header : Float → ℕ → Float
  unfolding exponential
  of_header value n =
      if lt (of_ℕ 300) value then of_ℕ 300 else if le (of_ℕ 1) value then value else exponential n

  pub of_parsed : Option Float → ℕ → Float
  unfolding of_header exponential
  of_parsed none n = exponential n
  of_parsed (some value) n = of_header value n

  unfoldable pub compute_backoff : Option Text → ℕ → Float
  unfolding of_parsed exponential
  compute_backoff none n = exponential n
  compute_backoff (some retry_after) n = of_parsed (parse retry_after) n

  abbrev pub Attempts : Type 0
  Attempts = List Float × Result FetchResponse

  -- What follows an attempt's outcome, after `count` responses of 429: a pause and the rest of the
  -- loop, or the end.
  pub respond : Result FetchResponse → ℕ → Attempts → Attempts
  unfolding compute_backoff
  respond (err e) count rest = ([], err e)
  respond (ok r) count rest =
      if r.status_code == 429
      then (if leb max_consecutive_429 (count + 1) then ([], err exhausted) else (
        compute_backoff (header (lit "retry-after") r.headers) (count + 1) ∷ rest.0,
        rest.1,
      ))
      else ([], ok r)

  -- The loop of `_execute_with_retry`, from the attempt after `count` responses of 429 on, with the
  -- pauses that are made. The fuel is the number of attempts that may still be made.
  pub retry_loop : ℕ → (ℕ → Result FetchResponse) → ℕ → Attempts
  unfolding respond
  retry_loop zero fetch count = ([], err exhausted)
  retry_loop (suc left) fetch count =
      let rest = retry_loop left fetch (count + 1) in respond (fetch count) count rest

  unfoldable pub execute_with_retry : (ℕ → Result FetchResponse) → Attempts
  execute_with_retry fetch = retry_loop max_consecutive_429 fetch 0
