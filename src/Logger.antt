-- ===== src/Logger.antt =====
-- infrastructure/logger: Logger over the interface IFormatter, TextFormatter, and the two sinks, which
-- do the same on their stream. What `localtime_r` and `snprintf` make of a record is a parameter, and so
-- are the clock and the thread that a message is stamped with.
pub mod Output
mod Tests
use mmo_server.Common.{
  ℕ, zero, suc, ◌+◌, ◌-◌, ◌/◌, ◌%◌, Bool, true, false, not, ◌||◌, Option, none, some, List, [], ◌∷◌,
  ◌++◌, map, length, take, ltb, leb, ◌==◌, if◌then◌else◌,
}

pub data LogLevel : Type 0 where
  trace debug info warn error fatal : LogLevel

abbrev pub level_index : LogLevel → ℕ
level_index LogLevel.trace = 0
level_index LogLevel.debug = 1
level_index LogLevel.info = 2
level_index LogLevel.warn = 3
level_index LogLevel.error = 4
level_index LogLevel.fatal = 5

pub record LogRecord : Type 0 where
  pub timestamp : ℕ
  pub thread_id : ℕ
  pub level : LogLevel
  pub message : List ℕ

abbrev pub max_log_format_buffer_size : ℕ
max_log_format_buffer_size = 2048

-- The text that the format gives for the seconds, the milliseconds, the thread, the level and the
-- message; `none` is a negative return value of `snprintf`. A text that does not fit is cut to
-- `bufferSize - 1` characters, and `snprintf` returns its full length.
abbrev pub Print : Type 0
Print = ℕ → ℕ → ℕ → ℕ → List ℕ → Option (List ℕ)

-- TextFormatter::Format, for a buffer that is null or not.
unfoldable pub format : Print → LogRecord → Bool → ℕ → List ℕ
format print r has_buffer buffer_size =
    if not has_buffer || (buffer_size == 0)
    then []
    else elim (print (r.timestamp / 1000) (r.timestamp % 1000) r.thread_id (level_index r.level)
        r.message) [
          | none ↦ []
          | some text ↦
              if leb buffer_size (length text)
              then take (buffer_size - 1) text
              else take (length text) text
        ]

-- What a sink's stream was given, and how much of it was flushed.
pub record Sink : Type 0 where
  pub content : List ℕ
  pub flushed : ℕ

abbrev pub newline : ℕ
newline = 10

unfoldable pub write : List ℕ → Sink → Sink
write message sink = record sink { content = sink.content ++ (message ++ newline ∷ []) }

unfoldable pub flush_sink : Sink → Sink
flush_sink sink = record sink { flushed = length sink.content }

-- The formatter is IFormatter's one function, on a buffer that exists.
pub record Logger : Type 0 where
  pub minimum_level : LogLevel
  pub formatter : LogRecord → ℕ → List ℕ
  pub sinks : List Sink

abbrev pub construct : (LogRecord → ℕ → List ℕ) → Logger
construct formatter = record { minimum_level = LogLevel.info; formatter = formatter; sinks = [] }

unfoldable pub add_sink : Logger → Sink → Logger
add_sink l sink = record l { sinks = l.sinks ++ sink ∷ [] }

unfoldable pub set_minimum_level : Logger → LogLevel → Logger
set_minimum_level l level = record l { minimum_level = level }

-- Log, at the time and on the thread of the stamp.
unfoldable pub log : Logger → ℕ → ℕ → LogLevel → List ℕ → Logger
unfolding write
log l now thread level message =
    if ltb (level_index level) (level_index l.minimum_level)
    then l
    else let formatted =
        l.formatter
          (record { timestamp = now; thread_id = thread; level = level; message = message })
          max_log_format_buffer_size in
      record l { sinks = map (write formatted) l.sinks }

unfoldable pub flush : Logger → Logger
unfolding flush_sink
flush l = record l { sinks = map flush_sink l.sinks }

pub data Call : Type 0 where
  adds : (sink : Sink) → Call
  sets : (level : LogLevel) → Call
  logs : (now thread : ℕ) (level : LogLevel) (message : List ℕ) → Call
  flushes : Call

unfoldable pub step : Logger → Call → Logger
unfolding add_sink set_minimum_level log flush
step l (adds sink) = add_sink l sink
step l (sets level) = set_minimum_level l level
step l (logs now thread level message) = log l now thread level message
step l flushes = flush l

unfoldable pub run : Logger → List Call → Logger
unfolding step
run l [] = l
run l (c ∷ cs) = run (step l c) cs
