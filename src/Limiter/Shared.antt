-- ===== src/Limiter/Shared.antt =====
-- The requests that share a limiter of src/crawler/rate_limiter.py: each step is what one of them does
-- between two of its suspensions, and they come in any order.
use web_crawler.Prelude.{ℕ, ◌+◌, ◌≤◌, ◌<◌, ◌≡◌, refl, true, false, leb, arith, Bool-cases, inl, inr}
use web_crawler.Limiter.{
  RateLimiter, new_limiter, admit, leave, pass_event, acquire, release, begin_backoff, end_backoff,
  max_queue_size,
}

pub data Step : RateLimiter → RateLimiter → Type 0 where
  admitted : (r : RateLimiter) → Step r (admit r).0
  passed : (r : RateLimiter) → r.backing_off ≡ false → 0 < r.waiting → Step r (pass_event r)
  acquired : (r : RateLimiter) → 0 < r.free → 0 < r.ready → Step r (acquire r)
  finished : (r : RateLimiter) → 0 < r.running → Step r (leave (release r))
  throttled : (r : RateLimiter) → 0 < r.running → Step r (begin_backoff (release r))
  resumed : (r : RateLimiter) → 0 < r.sleeping → Step r (end_backoff r)

pub data Reaches : RateLimiter → RateLimiter → Type 0 where
  start : (r : RateLimiter) → Reaches r r
  after : (q r t : RateLimiter) → Reaches q r → Step r t → Reaches q t

pub record IsBounded (n : ℕ) (r : RateLimiter) : Type 0 where
  pub counted : r.waiting + r.ready + r.running + r.sleeping ≡ r.pending_count
  pub bounded : r.pending_count ≤ 1000
  pub permits : r.free + r.running ≡ n
  pub woken : r.backing_off ≡ true → 0 < r.sleeping

Step-IsBounded : (n : ℕ) (r t : RateLimiter) → Step r t → IsBounded n r → IsBounded n t
unfolding admit leave pass_event acquire release begin_backoff end_backoff
Step-IsBounded n r _ (admitted _) s = elim (Bool-cases (leb max_queue_size r.pending_count)) [
  | inl full ↦ rw full s
  | inr room ↦ rw room (record {
    counted = omega (arith, s.counted);
    bounded = ground (arith, s.bounded);
    permits = s.permits;
    woken = s.woken;
  })
]
Step-IsBounded n r _ (passed _ e h) s = record {
  counted = omega (arith, s.counted);
  bounded = s.bounded;
  permits = s.permits;
  woken = s.woken;
}
Step-IsBounded n r _ (acquired _ f h) s = record {
  counted = omega (arith, s.counted);
  bounded = s.bounded;
  permits = omega (arith, s.permits);
  woken = s.woken;
}
Step-IsBounded n r _ (finished _ h) s = record {
  counted = omega (arith, s.counted);
  bounded = omega (arith, s.bounded);
  permits = omega (arith, s.permits);
  woken = s.woken;
}
Step-IsBounded n r _ (throttled _ h) s = record {
  counted = omega (arith, s.counted);
  bounded = s.bounded;
  permits = omega (arith, s.permits);
  woken = λ e. omega arith;
}
Step-IsBounded n r _ (resumed _ h) s = record {
  counted = omega (arith, s.counted);
  bounded = s.bounded;
  permits = s.permits;
  woken = λ e. absurd (cc);
}

-- Whatever the requests of a limiter for `n` concurrent attempts do, and in whatever order: at most
-- 1000 of them are pending, each in one phase, the attempts that run and the free permits are `n`
-- together, and the event is cleared only while some request is in its pause.
pub Reaches-IsBounded : (n : ℕ) (r : RateLimiter) → Reaches (new_limiter n) r → IsBounded n r
Reaches-IsBounded n _ (start _) = record {
  counted = refl;
  bounded = omega arith;
  permits = omega arith;
  woken = λ e. absurd (cc);
}
Reaches-IsBounded n _ (after _ q t p s) = Step-IsBounded n q t s (Reaches-IsBounded n q p)
