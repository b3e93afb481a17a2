-- ===== src/Limiter/Backoff.antt =====
-- The retries of src/crawler/rate_limiter.py: their number, their end, and the pauses.
use web_crawler.Prelude.{
  ℕ, zero, suc, ◌+◌, ◌-◌, ◌^◌, ◌≤◌, ◌<◌, ◌≡◌, ◌≢◌, refl, true, false, Option, none, some, List, [],
  Text, ap, ◌∙◌, subst, arith, leb, le→leb, ◌==◌, length, Bool-cases, Option-cases, inl, inr,
}
use web_crawler.Types.{FetchResponse, Result, ok, err}
use web_crawler.Limiter.{
  Floats, compute_backoff, of_parsed, of_header, exponential, respond, retry_loop,
  execute_with_retry, max_consecutive_429, exhausted,
}

-- An attempt that is answered with 429.
abbrev pub IsThrottled : Result FetchResponse → Type 0
IsThrottled (err e) = ⊥
IsThrottled (ok r) = r.status_code ≡ 429

-- An attempt that ends the loop: an exception, or a response other than 429.
abbrev pub IsLast : Result FetchResponse → Type 0
IsLast (err e) = Unit {0}
IsLast (ok r) = r.status_code ≢ 429

power-le : (n : ℕ) → 1 ≤ 2 ^ n
power-le zero = omega arith
power-le (suc n) = let rest = power-le n in omega arith

module _ (floats : Floats) where
  open floats use {Float, of_ℕ, lt, le, parse}

  respond_last :
      (o : Result FetchResponse) (count : ℕ) (rest : List Float × Result FetchResponse)
      → IsLast o
      → respond floats o count rest ≡ ([], o)
  unfolding respond
  respond_last (err e) count rest h = refl
  respond_last (ok r) count rest h = ground arith

  respond_throttled :
      (o : Result FetchResponse) (count : ℕ) (rest : List Float × Result FetchResponse)
      → IsThrottled o
      → count < 9
      → ((respond floats o count rest).1 ≡ rest.1)
        × (length (respond floats o count rest).0 ≡ suc (length rest.0))
  unfolding respond
  respond_throttled (err e) count rest h k = absurd h
  respond_throttled (ok r) count rest h k = rw is_throttled (rw has_room (refl, refl))
    where
      is_throttled : (r.status_code == 429) ≡ true
      is_throttled = ground arith

      has_room : leb max_consecutive_429 (count + 1) ≡ false
      has_room = ground arith

  respond_tenth :
      (o : Result FetchResponse) (count : ℕ) (rest : List Float × Result FetchResponse)
      → count ≡ 9
      → IsThrottled o
      → respond floats o count rest ≡ ([], err exhausted)
  unfolding respond
  respond_tenth (err e) count rest n h = absurd h
  respond_tenth (ok r) count rest n h = ground arith

  -- From `count` responses of 429 on, the attempt `n` is the first that is not throttled.
  retry_loop_last :
      (left k count n : ℕ) (fetch : ℕ → Result FetchResponse)
      → count + k ≡ n
      → k < left
      → n < 10
      → ((i : ℕ) → count ≤ i → i < n → IsThrottled (fetch i))
      → IsLast (fetch n)
      → ((retry_loop floats left fetch count).1 ≡ fetch n)
        × (length (retry_loop floats left fetch count).0 ≡ k)
  unfolding retry_loop
  retry_loop_last zero k count n fetch s l m t e = absurd (omega arith)
  retry_loop_last (suc left) zero count n fetch s l m t e =
      let same : n ≡ count = omega arith in
      (
        rw same (ap (λ a. a.1) (ends (subst (λ i. IsLast (fetch i)) same e))),
        ap (λ a. length a.0) (ends (subst (λ i. IsLast (fetch i)) same e)),
      )
    where
      ends : IsLast (fetch count) → retry_loop floats (suc left) fetch count ≡ ([], fetch count)
      ends = respond_last (fetch count) count _
  retry_loop_last (suc left) (suc k) count n fetch s l m t e =
      let now =
        respond_throttled (fetch count) count (retry_loop floats left fetch (count + 1))
          (t count (omega arith) (omega arith)) (omega arith) in
      let later =
        retry_loop_last left k (count + 1) n fetch (omega arith) (omega arith) m
          (λ i a b. t i (omega arith) b) e in
      (now.0 ∙ later.0, now.1 ∙ ap suc later.1)

  -- A request that is throttled fewer than ten times and then answered otherwise, or fails, has
  -- that outcome, after one pause for each throttled attempt.
  pub execute_with_retry_lem :
      (fetch : ℕ → Result FetchResponse) (k : ℕ)
      → k < 10
      → ((i : ℕ) → i < k → IsThrottled (fetch i))
      → IsLast (fetch k)
      → ((execute_with_retry floats fetch).1 ≡ fetch k)
        × (length (execute_with_retry floats fetch).0 ≡ k)
  unfolding execute_with_retry
  execute_with_retry_lem fetch k l t e =
      retry_loop_last 10 k 0 k fetch (omega arith) l l (λ i a b. t i b) e

  retry_loop-exhausted :
      (left count : ℕ) (fetch : ℕ → Result FetchResponse)
      → left + count ≡ 9
      → ((i : ℕ) → i < 10 → IsThrottled (fetch i))
      → ((retry_loop floats (suc left) fetch count).1 ≡ err exhausted)
        × (length (retry_loop floats (suc left) fetch count).0 ≡ left)
  unfolding retry_loop
  retry_loop-exhausted zero count fetch n t =
      let ends =
        respond_tenth (fetch count) count (retry_loop floats zero fetch (count + 1)) (omega arith)
          (t count (omega arith)) in
      (ap (λ a. a.1) ends, ap (λ a. length a.0) ends)
  retry_loop-exhausted (suc left) count fetch n t =
      let now =
        respond_throttled (fetch count) count (retry_loop floats (suc left) fetch (count + 1))
          (t count (omega arith)) (omega arith) in
      let later = retry_loop-exhausted left (count + 1) fetch (omega arith) t in
      (now.0 ∙ later.0, now.1 ∙ ap suc later.1)

  -- A request whose first ten attempts are all answered with 429 ends with the error of an
  -- exhausted rate limit, after nine pauses.
  pub execute_with_retry-exhausted :
      (fetch : ℕ → Result FetchResponse)
      → ((i : ℕ) → i < 10 → IsThrottled (fetch i))
      → ((execute_with_retry floats fetch).1 ≡ err exhausted)
        × (length (execute_with_retry floats fetch).0 ≡ 9)
  unfolding execute_with_retry
  execute_with_retry-exhausted fetch t = retry_loop-exhausted 9 0 fetch refl t

  module _ (order : (a b : ℕ) → le (of_ℕ a) (of_ℕ b) ≡ leb a b)
      (total : (a : ℕ) (x y : Float)
        → le x y ≡ true
        → lt (of_ℕ a) y ≡ false
        → le y (of_ℕ a) ≡ true) where
    exponential_bounds :
        (n : ℕ)
        → (le (of_ℕ 1) (exponential floats n) ≡ true)
          × (le (exponential floats n) (of_ℕ 300) ≡ true)
    unfolding exponential
    exponential_bounds n = elim (Bool-cases (leb (2 ^ (n - 1)) 60)) [
      | inl small ↦ rw small (
        order 1 (2 ^ (n - 1)) ∙ le→leb 1 (2 ^ (n - 1)) (power-le (n - 1)),
        order (2 ^ (n - 1)) 300 ∙ ground arith,
      )
      | inr large ↦ rw large (order 1 60, order 60 300)
    ]

    of_header_bounds :
        (value : Float) (n : ℕ)
        → (le (of_ℕ 1) (of_header floats value n) ≡ true)
          × (le (of_header floats value n) (of_ℕ 300) ≡ true)
    unfolding of_header
    of_header_bounds value n = elim (Bool-cases (lt (of_ℕ 300) value)) [
      | inl capped ↦ rw capped (order 1 300, order 300 300)
      | inr free ↦ elim (Bool-cases (le (of_ℕ 1) value)) [
        | inl long ↦ rw free (rw long (long, total 300 (of_ℕ 1) value long free))
        | inr short ↦ rw free (rw short (exponential_bounds n))
      ]
    ]

    -- Where the order of floats is that of the naturals they come from, and a float that is at
    -- least some other one is at most each natural that is not less than it, each pause lasts
    -- between 1 and 300 seconds, whatever the header says.
    pub compute_backoff_bounds :
        (retry_after : Option Text) (n : ℕ)
        → (le (of_ℕ 1) (compute_backoff floats retry_after n) ≡ true)
          × (le (compute_backoff floats retry_after n) (of_ℕ 300) ≡ true)
    unfolding compute_backoff of_parsed
    compute_backoff_bounds none n = exponential_bounds n
    compute_backoff_bounds (some text) n = elim (Option-cases (parse text)) [
      | inl e ↦ rw e (exponential_bounds n)
      | inr (value, e) ↦ rw e (of_header_bounds value n)
    ]
