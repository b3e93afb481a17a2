-- ===== src/Logger/Progress.antt =====
-- The progress entries of src/crawler/logger.py: how far apart they are.
use web_crawler.Prelude.{
  ℕ, ◌+◌, ◌≤◌, ◌≡◌, refl, true, false, Bool, Option, List, [], ◌∷◌, All, Text, lit, text_eq,
  text_eq_refl, leb, ltb, arith, Bool-cases, inl, inr, if◌then◌else◌,
}
use web_crawler.Logger.{
  log, info, error, transition_fields, error_fields, worker_fields, limiter_fields, CrawlLogger,
  Entry, Context, Level, level_number, emit, write_progress, new_logger, progress, state_transition,
  log_error, worker_event, rate_limiter_event,
}

-- The calls of the methods, but for the unconditional `force_progress`.
pub data Call : Type 0 where
  progresses : (now : ℕ) (stats : Context) → Call
  moves : (isoformat : ℕ → Text) (now : ℕ) (url from_state to_state : Text) (extra : Context) → Call
  fails :
      (now : ℕ) (url error_type error_message : Text) (retry_count : Option ℕ)
      (component : Option Text)
      → Call
  works : (now : ℕ) (worker_id action : Text) (url : Option Text) (duration_ms : Option ℕ) → Call
  logs : (now : ℕ) (level : Level) (message : Text) (context : Context) → Call
  limits : (now : ℕ) (event_type : Text) (duration_ms queue_size : Option ℕ) → Call

pub step : CrawlLogger → Call → CrawlLogger
step l (progresses now stats) = progress now stats l
step l (moves isoformat now url from_state to_state extra) =
    state_transition isoformat now url from_state to_state extra l
step l (fails now url error_type error_message retry_count component) =
    log_error now url error_type error_message retry_count component l
step l (works now worker_id action url duration_ms) =
    worker_event now worker_id action url duration_ms l
step l (logs now level message context) = log now level message context l
step l (limits now event_type duration_ms queue_size) =
    rate_limiter_event now event_type duration_ms queue_size l

pub run : CrawlLogger → List Call → CrawlLogger
unfolding step
run l [] = l
run l (c ∷ cs) = run (step l c) cs

abbrev pub is_progress : Entry → Bool
is_progress e = text_eq e.message (lit "progress")

-- The entries are the newest first: every progress entry comes at least an interval before `next`,
-- and before the one that follows it.
pub IsSpacedBefore : ℕ → ℕ → List Entry → Type 0
IsSpacedBefore interval next [] = Unit {0}
IsSpacedBefore interval next (e ∷ es) =
    if is_progress e
    then (e.created + interval ≤ next) × IsSpacedBefore interval e.created es
    else IsSpacedBefore interval next es

later :
    (interval a b : ℕ) (es : List Entry)
    → a ≤ b
    → IsSpacedBefore interval a es
    → IsSpacedBefore interval b es
unfolding IsSpacedBefore
later interval a b [] l h = tt
later interval a b (e ∷ es) l h = elim (Bool-cases (is_progress e)) [
  | inl is_one ↦ rw is_one (let (near, rest) = spaced is_one in (omega arith, rest))
  | inr is_none ↦ rw is_none (later interval a b es l (not_progress is_none))
]
  where
    spaced :
        is_progress e ≡ true → (e.created + interval ≤ a) × IsSpacedBefore interval e.created es
    spaced is_one = ground (arith, h)

    not_progress : is_progress e ≡ false → IsSpacedBefore interval a es
    not_progress is_none = ground (arith, h)

-- The interval is kept, and the last progress entry is no later than the time that is remembered.
abbrev pub IsSpaced : ℕ → CrawlLogger → Type 0
IsSpaced interval l =
    (l.progress_interval_ms ≡ interval)
    × IsSpacedBefore interval (l.last_progress_time_ms + interval) l.entries

emit-IsSpaced :
    (interval now : ℕ) (level : Level) (message : Text) (context : Context) (l : CrawlLogger)
    → text_eq message (lit "progress") ≡ false
    → IsSpaced interval l
    → IsSpaced interval (emit now level message context l)
unfolding IsSpacedBefore
emit-IsSpaced interval now level message context l other (same, spaced) =
    elim (Bool-cases (leb l.threshold (level_number level))) [
      | inl high ↦ rw high (same, rw other spaced)
      | inr low ↦ rw low (same, spaced)
    ]

write_progress-IsSpaced :
    (interval now : ℕ) (stats : Context) (l : CrawlLogger)
    → l.last_progress_time_ms + interval ≤ now
    → IsSpaced interval l
    → IsSpaced interval (write_progress now stats l)
unfolding IsSpacedBefore
write_progress-IsSpaced interval now stats l due (same, spaced) =
    elim (Bool-cases (leb l.threshold 20)) [
      | inl high ↦ rw high (
        same,
        rw (text_eq_refl (lit "progress")) (omega arith, later interval _ now l.entries due spaced),
      )
      | inr low ↦ rw low (same, later interval _ (now + interval) l.entries (omega arith) spaced)
    ]

-- What is logged by `info`, `warn` or `debug` is not the message "progress".
abbrev pub IsOther : Call → Type 0
IsOther (logs now level message context) = text_eq message (lit "progress") ≡ false
IsOther _ = Unit {0}

step-IsSpaced :
    (interval : ℕ) (l : CrawlLogger) (c : Call)
    → IsOther c
    → IsSpaced interval l
    → IsSpaced interval (step l c)
unfolding log step progress state_transition log_error worker_event rate_limiter_event lit text_eq
step-IsSpaced interval l (progresses now stats) other (same, spaced) =
    elim (Bool-cases (ltb now (l.last_progress_time_ms + l.progress_interval_ms))) [
      | inl early ↦ rw early (same, spaced)
      | inr due ↦
          rw due
            (write_progress-IsSpaced interval now stats l (ground (arith, same)) (same, spaced))
    ]
step-IsSpaced interval l (moves isoformat now url from_state to_state extra) other h =
    emit-IsSpaced interval now info (lit "state_transition")
      (transition_fields (isoformat now) url from_state to_state extra) l refl h
step-IsSpaced interval l (fails now url error_type error_message retry_count component) other h =
    emit-IsSpaced interval now error (lit "error")
      (error_fields url error_type error_message retry_count component) l refl h
step-IsSpaced interval l (works now worker_id action url duration_ms) other h =
    emit-IsSpaced interval now info (lit "worker_event")
      (worker_fields worker_id action url duration_ms) l refl h
step-IsSpaced interval l (logs now level message context) other h =
    emit-IsSpaced interval now level message context l other h
step-IsSpaced interval l (limits now event_type duration_ms queue_size) other h =
    emit-IsSpaced interval now info (lit "rate_limiter_event")
      (limiter_fields event_type duration_ms queue_size) l refl h

run-IsSpaced_from :
    (interval : ℕ) (calls : List Call) (l : CrawlLogger)
    → All IsOther calls
    → IsSpaced interval l
    → IsSpaced interval (run l calls)
unfolding run
run-IsSpaced_from interval [] l others h = h
run-IsSpaced_from interval (c ∷ cs) l others h =
    run-IsSpaced_from interval cs (step l c) others.1 (step-IsSpaced interval l c others.0 h)

-- A logger that is made with an interval writes its progress entries at least that interval apart,
-- whatever else it logs, as long as `force_progress` is not called and `info`, `warn` and `debug` are
-- not given the message "progress".
pub run-IsSpaced :
    (name : Text) (threshold interval : ℕ) (calls : List Call)
    → All IsOther calls
    → IsSpaced interval (run (new_logger name threshold interval) calls)
unfolding IsSpacedBefore
run-IsSpaced name threshold interval calls others =
    run-IsSpaced_from interval calls (new_logger name threshold interval) others (refl, tt)
