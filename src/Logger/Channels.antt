-- ===== src/Logger/Channels.antt =====
-- The singleton and the handlers of src/crawler/logger.py.
use web_crawler.Prelude.{
  ℕ, ◌≡◌, refl, List, [], ◌∷◌, Text, text_eq, All, arith, Bool-cases, Option-cases, inl, inr,
}
use web_crawler.Logger.{Channel, Logging, get_logger, reset_logger, set_up}

-- The calls on the module.
pub data Call : Type 0 where
  gets : (name : Text) (threshold progress_interval_ms : ℕ) → Call
  resets : Call

pub step : Logging → Call → Logging
step g (gets name threshold interval) = (get_logger name threshold interval g).0
step g resets = reset_logger g

pub run : List Call → Logging → Logging
unfolding step
run [] g = g
run (c ∷ cs) g = run cs (step g c)

abbrev pub HasOneHandler : Channel → Type 0
HasOneHandler c = c.handlers ≡ 1

All-set_up :
    (name : Text) (threshold : ℕ) (cs : List Channel)
    → All HasOneHandler cs
    → All HasOneHandler (set_up name threshold cs)
unfolding set_up
All-set_up name threshold [] h = (refl, tt)
All-set_up name threshold (c ∷ cs) h = elim (Bool-cases (text_eq c.name name)) [
  | inl same ↦ rw same (ground (arith, h.0), h.1)
  | inr differ ↦ rw differ (h.0, All-set_up name threshold cs h.1)
]

All-get_logger :
    (name : Text) (threshold interval : ℕ) (g : Logging)
    → All HasOneHandler g.channels
    → All HasOneHandler (get_logger name threshold interval g).0.channels
unfolding get_logger
All-get_logger name threshold interval g h = elim (Option-cases g.instance_) [
  | inl none_yet ↦ rw none_yet (All-set_up name threshold g.channels h)
  | inr (l, there) ↦ rw there h
]

-- However often the logger is fetched and reset, and under whatever names, a channel that is set up
-- has one handler.
pub run-HasOneHandler :
    (calls : List Call) (g : Logging)
    → All HasOneHandler g.channels
    → All HasOneHandler (run calls g).channels
unfolding run step reset_logger
run-HasOneHandler [] g h = h
run-HasOneHandler (resets ∷ cs) g h = run-HasOneHandler cs (reset_logger g) h
run-HasOneHandler (gets name threshold interval ∷ cs) g h =
    run-HasOneHandler cs (get_logger name threshold interval g).0
      (All-get_logger name threshold interval g h)
