-- ===== src/Pool/Tests.antt =====
-- A pool for two workers that is filled and then has one worker finish.
use web_crawler.Prelude.{◌≡◌, refl, false, arith}
use web_crawler.Pool.{WorkerPool, new_pool, dispatch, Reaches, start, after, dispatched}

abbrev full : WorkerPool
full = dispatch (dispatch (new_pool 2))

Reaches-full : Reaches (new_pool 2) full
unfolding dispatch
Reaches-full =
    after (new_pool 2) (dispatch (new_pool 2)) full
      (after (new_pool 2) (new_pool 2) (dispatch (new_pool 2)) (start (new_pool 2))
        (dispatched (new_pool 2) (omega arith)))
      (dispatched (dispatch (new_pool 2)) (omega arith))

full_blocks : full.slot_available ≡ false
unfolding dispatch
full_blocks = refl
