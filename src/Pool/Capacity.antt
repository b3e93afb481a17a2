-- ===== src/Pool/Capacity.antt =====
-- The capacity of src/crawler/worker_pool.py: how many workers run, and when a coroutine that waits
-- for a slot is woken.
use web_crawler.Prelude.{ℕ, ◌+◌, ◌<◌, ◌≡◌, refl, sym, arith, Bool-cases, inl, inr}
use web_crawler.Pool.{
  WorkerPool, new_pool, dispatch, finish, has_capacity, await_slot, Step, dispatched, finished,
  awaited, Reaches, start, after,
}

-- Every permit is free or held by an active worker, and the event is set exactly when there is
-- capacity.
abbrev pub IsSound : ℕ → WorkerPool → Type 0
IsSound n p =
    (p.max_concurrency ≡ n) × (p.free + p.active_count ≡ n) × (p.slot_available ≡ has_capacity p)

pub idle-IsSound : (n : ℕ) → 0 < n → IsSound n (new_pool n)
idle-IsSound n h = (refl, omega arith, ground arith)

pub Step-IsSound : (n : ℕ) (p q : WorkerPool) → Step p q → IsSound n p → IsSound n q
unfolding dispatch finish await_slot
Step-IsSound n _ _ (dispatched p h) (m, f, s) = (m, omega arith, ground arith)
Step-IsSound n _ _ (finished p h) (m, f, s) = (m, omega arith, ground arith)
Step-IsSound n _ _ (awaited p) (m, f, s) = elim (Bool-cases (has_capacity p)) [
  | inl has_room ↦ rw has_room (m, f, s)
  | inr full ↦ rw full (m, f, sym full)
]

-- In every state that a pool for at least one worker can reach, the active workers and the free
-- permits together are as many as the pool allows, and the event that `wait_for_slot` awaits is set
-- exactly when there is capacity.
pub Reaches-IsSound : (n : ℕ) (p : WorkerPool) → 0 < n → Reaches (new_pool n) p → IsSound n p
Reaches-IsSound n _ h (start _) = idle-IsSound n h
Reaches-IsSound n _ h (after _ q p r s) = Step-IsSound n q p s (Reaches-IsSound n q h r)
