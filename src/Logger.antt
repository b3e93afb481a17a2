-- ===== src/Logger.antt =====
-- src/crawler/logger.py: `JSONFormatter`, `CrawlLogger` and the singleton. The entries that the
-- logging module emits are kept, the newest first; times are in milliseconds, and each reading of the
-- clock is an argument. `json.dumps` and the ISO form of a time are arguments.
pub mod Progress
pub mod Channels
mod Tests
use web_crawler.Prelude.{
  ℕ, ◌+◌, Bool, true, false, Option, none, some, List, [], ◌∷◌, ◌++◌, Text, lit, text_eq, ltb, leb,
  if◌then◌else◌,
}

-- The level names of the logging module, with their numbers.
pub data Level : Type 0 where
  debug info warning error : Level

abbrev pub level_number : Level → ℕ
level_number debug = 10
level_number info = 20
level_number warning = 30
level_number error = 40

abbrev pub level_name : Level → Text
level_name debug = lit "DEBUG"
level_name info = lit "INFO"
level_name warning = lit "WARNING"
level_name error = lit "ERROR"

-- What the crawler puts into a context.
pub data Field : Type 0 where
  text : Text → Field
  number : ℕ → Field

abbrev pub Context : Type 0
Context = List (Text × Field)

pub record Entry : Type 0 where
  pub created : ℕ
  pub level : Level
  pub message : Text
  pub context : Context

-- `logging.getLogger(name)`, with the number of its handlers.
pub record Channel : Type 0 where
  pub name : Text
  pub threshold : ℕ
  pub handlers : ℕ

pub record CrawlLogger : Type 0 where
  pub channel : Text
  pub threshold : ℕ
  pub progress_interval_ms : ℕ
  pub last_progress_time_ms : ℕ
  pub entries : List Entry

-- What a formatted entry holds: three texts, and the context where it is not empty.
pub data Item : Type 0 where
  plain : Text → Item
  nested : Context → Item

abbrev pub with_context : Context → List (Text × Item) → List (Text × Item)
with_context [] items = items
with_context (f ∷ fs) items = items ++ (lit "context", nested (f ∷ fs)) ∷ []

-- `JSONFormatter.format`
unfoldable pub format : (ℕ → Text) → (List (Text × Item) → Text) → Entry → Text
format isoformat dumps e = dumps (
    with_context e.context (
      (lit "timestamp", plain (isoformat e.created))
      ∷ (lit "level", plain (level_name e.level))
      ∷ (lit "message", plain e.message)
      ∷ []))

-- An entry below the logger's level is dropped.
abbrev pub emit : ℕ → Level → Text → Context → CrawlLogger → CrawlLogger
emit now level message context l =
    if leb l.threshold (level_number level)
    then record l {
      entries =
          record { created = now; level = level; message = message; context = context } ∷ l.entries;
    }
    else l

-- `info`, `warn` and `debug`.
unfoldable pub log : ℕ → Level → Text → Context → CrawlLogger → CrawlLogger
log now level message context l = emit now level message context l

-- `d = {...}`, then `if value is not None: d[name] = value`
abbrev pub optional : Text → Option Field → Context
optional name none = []
optional name (some f) = (name, f) ∷ []

abbrev pub text_field : Option Text → Option Field
text_field none = none
text_field (some t) = some (text t)

abbrev pub number_field : Option ℕ → Option Field
number_field none = none
number_field (some n) = some (number n)

abbrev pub transition_fields : Text → Text → Text → Text → Context → Context
transition_fields timestamp url from_state to_state extra =
    (lit "url", text url)
    ∷ (lit "from_state", text from_state)
    ∷ (lit "to_state", text to_state)
    ∷ (lit "timestamp", text timestamp)
    ∷ extra

unfoldable pub state_transition :
    (ℕ → Text) → ℕ → Text → Text → Text → Context → CrawlLogger → CrawlLogger
state_transition isoformat now url from_state to_state extra l =
    emit now info (lit "state_transition")
      (transition_fields (isoformat now) url from_state to_state extra) l

abbrev pub write_progress : ℕ → Context → CrawlLogger → CrawlLogger
write_progress now stats l =
    emit now info (lit "progress") stats (record l { last_progress_time_ms = now })

-- `now - last < interval` is an early return.
unfoldable pub progress : ℕ → Context → CrawlLogger → CrawlLogger
progress now stats l =
    if ltb now (l.last_progress_time_ms + l.progress_interval_ms)
    then l
    else write_progress now stats l

unfoldable pub force_progress : ℕ → Context → CrawlLogger → CrawlLogger
force_progress now stats l = write_progress now stats l

abbrev pub error_fields : Text → Text → Text → Option ℕ → Option Text → Context
error_fields url error_type error_message retry_count component =
    ((lit "url", text url)
      ∷ (lit "error_type", text error_type)
      ∷ (lit "error_message", text error_message)
      ∷ [])
    ++ optional (lit "retry_count") (number_field retry_count)
    ++ optional (lit "component") (text_field component)

unfoldable pub log_error :
    ℕ → Text → Text → Text → Option ℕ → Option Text → CrawlLogger → CrawlLogger
log_error now url error_type error_message retry_count component l =
    emit now error (lit "error") (error_fields url error_type error_message retry_count component) l

abbrev pub worker_fields : Text → Text → Option Text → Option ℕ → Context
worker_fields worker_id action url duration_ms =
    ((lit "worker_id", text worker_id) ∷ (lit "action", text action) ∷ [])
    ++ optional (lit "url") (text_field url)
    ++ optional (lit "duration_ms") (number_field duration_ms)

unfoldable pub worker_event : ℕ → Text → Text → Option Text → Option ℕ → CrawlLogger → CrawlLogger
worker_event now worker_id action url duration_ms l =
    emit now info (lit "worker_event") (worker_fields worker_id action url duration_ms) l

abbrev pub limiter_fields : Text → Option ℕ → Option ℕ → Context
limiter_fields event_type duration_ms queue_size =
    ((lit "event_type", text event_type) ∷ [])
    ++ optional (lit "duration_ms") (number_field duration_ms)
    ++ optional (lit "queue_size") (number_field queue_size)

unfoldable pub rate_limiter_event : ℕ → Text → Option ℕ → Option ℕ → CrawlLogger → CrawlLogger
rate_limiter_event now event_type duration_ms queue_size l =
    emit now info (lit "rate_limiter_event") (limiter_fields event_type duration_ms queue_size) l

-- What lasts between the calls of `get_logger`: the channels, which the logging module never drops,
-- and `_logger_instance`.
pub record Logging : Type 0 where
  pub channels : List Channel
  pub instance_ : Option CrawlLogger

abbrev pub add_handler : ℕ → Channel → Channel
add_handler threshold c = record c {
  threshold = threshold;
  handlers = if leb c.handlers 0 then 1 else c.handlers;
}

-- The channel of a name has its level set, and a handler where it has none.
unfoldable pub set_up : Text → ℕ → List Channel → List Channel
set_up name threshold [] = record { name = name; threshold = threshold; handlers = 1 } ∷ []
set_up name threshold (c ∷ cs) =
    if text_eq c.name name then add_handler threshold c ∷ cs else c ∷ set_up name threshold cs

abbrev pub new_logger : Text → ℕ → ℕ → CrawlLogger
new_logger name threshold progress_interval_ms = record {
  channel = name;
  threshold = threshold;
  progress_interval_ms = progress_interval_ms;
  last_progress_time_ms = 0;
  entries = [];
}

-- `global _logger_instance` is created where it is missing.
unfoldable pub get_logger : Text → ℕ → ℕ → Logging → Logging × CrawlLogger
unfolding set_up
get_logger name threshold progress_interval_ms g = elim g.instance_ [
  | some l ↦ (g, l)
  | none ↦
      let l = new_logger name threshold progress_interval_ms in
      (record { channels = set_up name threshold g.channels; instance_ = some l }, l)
]

unfoldable pub reset_logger : Logging → Logging
reset_logger g = record g { instance_ = none }
