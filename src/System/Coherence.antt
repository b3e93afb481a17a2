-- ===== src/System/Coherence.antt =====
-- The invariant of the crawl as a whole: the pool, the leases in flight, the batch and the store.
use web_crawler.Prelude.{
  ℕ, ◌+◌, ◌-◌, ◌≤◌, ◌<◌, ◌≡◌, refl, sym, ap, List, [], ◌∷◌, Option, none, some, Text, length,
  length-middle, arith, inl, inr, Bool-cases, leb,
}
use web_crawler.Prelude.Int.{pos}
use web_crawler.Types.{CrawlerConfig, LeaseResult}
use web_crawler.Store.{Store}
use web_crawler.Store.Lifecycle.{Call, acquires, expires, step}
use web_crawler.Scheduler.{
  Loop, Turn, waits, finishes, idles, dispatches, turn, lease_turn, maybe_expire_leases,
  lease_count, available_slots,
}
use web_crawler.Scheduler.Kept as Kept
use web_crawler.Scheduler.Bound.{Reaches-IsValid}
use web_crawler.Scheduler.Rounds.{TurnFits, turn-TurnFits}
use web_crawler.Pool.{WorkerPool, has_capacity, dispatch, finish, await_slot}
use web_crawler.Pool as Pool
use web_crawler.Pool.Capacity.{IsSound, Step-IsSound, idle-IsSound}
use web_crawler.System.{
  System, apply_turn, take_turn, dispatch_next, leave_off, shutdown, IsOwn, discovers, beats,
  succeeds, Step, turned, dispatched, broken, worked, recorded, handled, left, asked, Reaches,
  start, after,
}

-- The pool is sound, its active workers are those of the leases in flight and of the
-- ended ones, what is left of the batch fits into
-- the free permits, and the store is one that a crawl reaches.
pub record IsCoherent (config : CrawlerConfig) (n : ℕ) (x : System) : Type 0 where
  pub sound : IsSound n x.pool
  pub flying : length x.flight + length x.ended ≡ x.pool.active_count
  pub room : length x.queue ≤ x.pool.free
  pub reached : Kept.Reaches config x.store

own-IsDirect : (l : LeaseResult) (c : Call) → IsOwn l c → Kept.IsDirect c
own-IsDirect l _ (discovers now key url depth parent redirects) = tt
own-IsDirect l _ (beats now extension) = tt
own-IsDirect l _ (succeeds now hash mime etag) = tt

-- The stores after the two parts of a turn.
lease_turn-Reaches :
    (config : CrawlerConfig) (draw : ℕ → Text) (now : ℕ) (loop : Loop) (s : Store) (o : Option ℕ)
    → Kept.Reaches config s
    → Kept.Reaches config (lease_turn config draw now loop s o).0
unfolding lease_turn step
lease_turn-Reaches config draw now loop s none r = r
lease_turn-Reaches config draw now loop s (some k) r =
    Kept.called r (acquires draw now (lease_count k config.batch_size) config.lease_timeout_ms) tt

turn-Reaches :
    (config : CrawlerConfig) (draw : ℕ → Text) (clock : ℕ → ℕ) (active : ℕ) (loop : Loop)
    (s : Store)
    → Kept.Reaches config s
    → Kept.Reaches config (turn config draw clock active loop s).0
unfolding turn maybe_expire_leases step
turn-Reaches config draw clock active loop s reach =
    elim (Bool-cases (leb 500 (clock 0 - loop.last_expire_time))) [
      | inl e ↦ rw e (
          lease_turn-Reaches config draw (clock 2) _ _
            (available_slots config.max_concurrency active)
            (Kept.called reach (expires (clock 1)) tt))
      | inr e ↦ rw e (
          lease_turn-Reaches config draw (clock 2) _ _
            (available_slots config.max_concurrency active) reach)
    ]

module _ (config : CrawlerConfig) (n b : ℕ) (workers : 0 < n)
    (limit : config.max_concurrency ≡ pos n) (size : config.batch_size ≡ pos b) where
  apply_turn-IsCoherent :
      (x : System) (t : Turn)
      → IsCoherent config n x
      → x.queue ≡ []
      → TurnFits n b x.pool.active_count t
      → IsCoherent config n (apply_turn t x)
  unfolding await_slot
  apply_turn-IsCoherent x waits c e f = elim (Bool-cases (has_capacity x.pool)) [
    | inl free ↦ rw free c
    | inr full ↦ record {
      sound = Step-IsSound n _ _ (Pool.Step.awaited x.pool) c.sound;
      flying = rw full c.flying;
      room = rw full c.room;
      reached = c.reached;
    }
  ]
  apply_turn-IsCoherent x finishes c e f = record {
    sound = c.sound;
    flying = c.flying;
    room = c.room;
    reached = c.reached;
  }
  apply_turn-IsCoherent x idles c e f = c
  apply_turn-IsCoherent x (dispatches ls) c e f = record {
    sound = c.sound;
    flying = c.flying;
    room = (let bound = f.1 in let kept = c.sound.1 in omega arith);
    reached = c.reached;
  }

  pub Step-IsCoherent :
      (x y : System) → Step config x y → IsCoherent config n x → IsCoherent config n y
  unfolding take_turn dispatch_next leave_off shutdown dispatch finish
  Step-IsCoherent x _ (turned _ draw clock f g e) c =
      apply_turn-IsCoherent _ (turn config draw clock x.pool.active_count x.loop x.store).2
        (record {
          sound = c.sound;
          flying = c.flying;
          room = c.room;
          reached = turn-Reaches config draw clock x.pool.active_count x.loop x.store c.reached;
        })
        e
        (turn-TurnFits config draw clock x.pool.active_count x.loop x.store n b limit size
          (Reaches-IsValid config x.store c.reached))
  Step-IsCoherent x _ (dispatched _ l ls f e h) c = record {
    sound = Step-IsSound n _ _ (Pool.Step.dispatched x.pool h) c.sound;
    flying = ground (arith, c.flying);
    room = (let listed = ap length (sym e) in let fits = c.room in omega arith);
    reached = c.reached;
  }
  Step-IsCoherent x _ (broken _ e) c = record {
    sound = c.sound;
    flying = c.flying;
    room = ground arith;
    reached = c.reached;
  }
  Step-IsCoherent x _ (worked _ earlier later l call e own) c = record {
    sound = c.sound;
    flying = c.flying;
    room = c.room;
    reached = Kept.called c.reached call (own-IsDirect l call own);
  }
  Step-IsCoherent x _ (recorded _ earlier later l s f e) c = record {
    sound = c.sound;
    flying = c.flying;
    room = c.room;
    reached = Kept.noted c.reached s e;
  }
  Step-IsCoherent x _ (handled _ earlier later l now outcome e) c = record {
    sound = c.sound;
    flying =
        (let flown = c.flying in
          let listed = ap length e in let counted = length-middle earlier l later in omega arith);
    room = c.room;
    reached = Kept.handled c.reached now l outcome;
  }
  Step-IsCoherent x _ (left _ earlier later l e) c =
      let flown = c.flying in
      let listed = ap length e in
      let counted = length-middle earlier l later in
      let fits = c.room in
      record {
        sound = Step-IsSound n _ _ (Pool.Step.finished x.pool (omega arith)) c.sound;
        flying = omega arith;
        room = omega arith;
        reached = c.reached;
      }
  Step-IsCoherent x _ (asked _) c = record {
    sound = c.sound;
    flying = c.flying;
    room = c.room;
    reached = c.reached;
  }

  -- In every state that a crawl with at least one worker, and a batch size that is not negative, goes
  -- through, whatever the order of the steps of its loop, its workers and a shutdown: the pool's permits
  -- are accounted for and its event says whether there is capacity, exactly the leases in flight and
  -- those whose workers are about to leave are counted as active, what is left of the batch fits into
  -- the free permits, and the store is one that a crawl reaches.
  pub Reaches-IsCoherent : (x : System) → Reaches config n x → IsCoherent config n x
  Reaches-IsCoherent _ (start s now reach) = record {
    sound = idle-IsSound n workers;
    flying = refl;
    room = omega arith;
    reached = reach;
  }
  Reaches-IsCoherent _ (after x y r s) = Step-IsCoherent x y s (Reaches-IsCoherent x r)

  -- In every such state no more workers run than the concurrency allows, and while the loop has a
  -- lease to dispatch a permit is free: `dispatch` never waits for one.
  pub Reaches-capacity :
      (x : System)
      → Reaches config n x
      → (length x.flight + length x.ended ≤ n)
        × ((l : LeaseResult) (ls : List LeaseResult) → x.queue ≡ l ∷ ls → 0 < x.pool.free)
  Reaches-capacity x r =
      let c = Reaches-IsCoherent x r in
      let flying = c.flying in
      let kept = c.sound.1 in
      let fits = c.room in (omega arith, λ l ls e. let listed = ap length (sym e) in omega arith)
