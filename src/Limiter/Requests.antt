-- ===== src/Limiter/Requests.antt =====
-- One request to a limiter of src/crawler/rate_limiter.py from its admission to its end, as a path of
-- the steps that the requests share.
use web_crawler.Prelude.{ℕ, zero, suc, ◌<◌, ◌≡◌, refl, sym, subst, false, leb, arith, length}
use web_crawler.Types.{FetchResponse, Result, ok}
use web_crawler.Limiter.{
  RateLimiter, Floats, admit, leave, pass_event, acquire, release, begin_backoff, end_backoff,
  max_queue_size, execute_with_retry,
}
use web_crawler.Limiter.Backoff.{IsThrottled, IsLast, execute_with_retry_lem}
use web_crawler.Limiter.Shared.{passed, acquired, finished, throttled, resumed, Reaches, after}

limiter_ext :
    (r t : RateLimiter)
    → r.pending_count ≡ t.pending_count
    → r.backing_off ≡ t.backing_off
    → r.free ≡ t.free
    → r.waiting ≡ t.waiting
    → r.ready ≡ t.ready
    → r.running ≡ t.running
    → r.sleeping ≡ t.sleeping
    → r ≡ t
limiter_ext r t a b c d e f g = λ i. record {
  pending_count = a i;
  backing_off = b i;
  free = c i;
  waiting = d i;
  ready = e i;
  running = f i;
  sleeping = g i;
}

-- An attempt that has begun: the request has passed the event and holds a permit.
abbrev attempt : RateLimiter → RateLimiter
attempt r = acquire (pass_event r)

attempt-Reaches :
    (q r : RateLimiter)
    → r.backing_off ≡ false
    → 0 < r.free
    → 0 < r.waiting
    → Reaches q r
    → Reaches q (attempt r)
unfolding pass_event
attempt-Reaches q r set free waits reach =
    after q (pass_event r) _ (after q r _ reach (passed r set waits))
      (acquired (pass_event r) free (omega arith))

-- A throttled attempt and its pause.
abbrev paused : RateLimiter → RateLimiter
paused r = end_backoff (begin_backoff (release (attempt r)))

paused_lem : (r : RateLimiter) → r.backing_off ≡ false → 0 < r.free → 0 < r.waiting → paused r ≡ r
unfolding pass_event acquire release begin_backoff end_backoff
paused_lem r set free waits =
    limiter_ext (paused r) r refl (sym set) (omega arith) (omega arith) (omega arith) (omega arith)
      (omega arith)

paused-Reaches :
    (q r : RateLimiter)
    → r.backing_off ≡ false
    → 0 < r.free
    → 0 < r.waiting
    → Reaches q r
    → Reaches q (paused r)
unfolding acquire pass_event begin_backoff release
paused-Reaches q r set free waits reach =
    after q _ _
      (after q _ _ (attempt-Reaches q r set free waits reach) (throttled (attempt r) (omega arith)))
      (resumed (begin_backoff (release (attempt r))) (omega arith))

-- The steps of one admitted request, when no other comes between: a number of throttled attempts with
-- their pauses, and the last attempt.
pub data Request : ℕ → RateLimiter → RateLimiter → Type 0 where
  ends :
      (r : RateLimiter)
      → r.backing_off ≡ false
      → 0 < r.free
      → 0 < r.waiting
      → Request 0 r (leave (release (attempt r)))
  pauses :
      (n : ℕ) (r t : RateLimiter)
      → r.backing_off ≡ false
      → 0 < r.free
      → 0 < r.waiting
      → Request n (paused r) t
      → Request (suc n) r t

-- These are steps of the shared limiter.
pub Request-Reaches : (n : ℕ) (q r t : RateLimiter) → Request n r t → Reaches q r → Reaches q t
unfolding acquire pass_event
Request-Reaches n q _ _ (ends r set free waits) reach =
    after q _ _ (attempt-Reaches q r set free waits reach) (finished (attempt r) (omega arith))
Request-Reaches n q _ _ (pauses m r t set free waits rest) reach =
    Request-Reaches m q (paused r) t rest (paused-Reaches q r set free waits reach)

request_path :
    (n : ℕ) (r : RateLimiter)
    → r.backing_off ≡ false
    → 0 < r.free
    → 0 < r.waiting
    → Request n r (leave (release (attempt r)))
request_path zero r set free waits = ends r set free waits
request_path (suc n) r set free waits = pauses n r _ set free waits (
    subst (λ x. Request n x (leave (release (attempt r)))) (sym (paused_lem r set free waits))
      (request_path n r set free waits))

-- A request that finds a place in the queue, the event set and a free permit, and whose first `k`
-- attempts are answered with 429, fewer than ten, and the next otherwise or not at all, is admitted and
-- has the outcome of that next attempt, after `k` pauses; and where no other request comes between, the
-- steps of its `k` throttled attempts and of the last lead the limiter back to the state before it.
pub request_returns :
    (floats : Floats) (fetch : ℕ → Result FetchResponse) (r : RateLimiter) (k : ℕ)
    → k < 10
    → ((i : ℕ) → i < k → IsThrottled (fetch i))
    → IsLast (fetch k)
    → r.backing_off ≡ false
    → 0 < r.free
    → r.pending_count < 1000
    → ((admit r).1 ≡ ok tt)
      × Request k (admit r).0 r
      × ((execute_with_retry floats fetch).1 ≡ fetch k)
      × (length (execute_with_retry floats fetch).0 ≡ k)
unfolding admit leave release acquire pass_event
request_returns floats fetch r k few refused last set free room =
    let open_ : leb max_queue_size r.pending_count ≡ false = ground arith in
    let (outcome, pause_count) = execute_with_retry_lem floats fetch k few refused last in
    rw open_ (
      refl,
      subst (Request k _)
          (limiter_ext (leave (release (attempt _))) r (omega arith) refl (omega arith)
            (omega arith) (omega arith) (omega arith) refl)
          (request_path k _ set free (omega arith)),
      outcome,
      pause_count,
    )
