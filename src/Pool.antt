-- ===== src/Pool.antt =====
-- src/crawler/worker_pool.py: `WorkerPool`, with a step for every stretch of its coroutines between
-- two suspensions. The lock is never held across one, so it never makes a coroutine wait.
pub mod Capacity
mod Tests
use web_crawler.Prelude.{
  ℕ, zero, suc, ◌+◌, ◌-◌, ◌≤◌, ◌<◌, ◌≡◌, Bool, true, false, ltb, leb, if◌then◌else◌,
}

-- `free` is the semaphore's value, `slot_available` whether the event is set.
pub record WorkerPool : Type 0 where
  pub max_concurrency : ℕ
  pub free : ℕ
  pub active_count : ℕ
  pub slot_available : Bool

abbrev pub new_pool : ℕ → WorkerPool
new_pool n = record { max_concurrency = n; free = n; active_count = 0; slot_available = true }

-- `dispatch`, once the semaphore has a permit.
unfoldable pub dispatch : WorkerPool → WorkerPool
dispatch p = record p {
  free = p.free - 1;
  active_count = p.active_count + 1;
  slot_available = if leb p.max_concurrency (p.active_count + 1) then false else p.slot_available;
}

-- The `finally` of `_run_worker`.
unfoldable pub finish : WorkerPool → WorkerPool
finish p = record p { free = p.free + 1; active_count = p.active_count - 1; slot_available = true }

abbrev pub has_capacity : WorkerPool → Bool
has_capacity p = ltb p.active_count p.max_concurrency

-- A round of `wait_for_slot`, up to the wait.
unfoldable pub await_slot : WorkerPool → WorkerPool
await_slot p = if has_capacity p then p else record p { slot_available = false }

-- A worker that finishes is one that was dispatched, so there is an active one.
pub data Step : WorkerPool → WorkerPool → Type 0 where
  dispatched : (p : WorkerPool) → 0 < p.free → Step p (dispatch p)
  finished : (p : WorkerPool) → 0 < p.active_count → Step p (finish p)
  awaited : (p : WorkerPool) → Step p (await_slot p)

pub data Reaches : WorkerPool → WorkerPool → Type 0 where
  start : (p : WorkerPool) → Reaches p p
  after : (p q r : WorkerPool) → Reaches p q → Step q r → Reaches p r
