-- ===== src/Logger/Tests.antt =====
-- A logger with one sink, and the theorems at it.
use mmo_server.Common.{
  ℕ, ◌-◌, ◌≡◌, refl, true, some, List, [], ◌∷◌, ◌++◌, length, min, get_elem?, arith,
}
use mmo_server.Logger.{
  LogLevel, LogRecord, Print, format, Sink, Logger, construct, Call, sets, logs, flushes, run,
}
use mmo_server.Logger.Output.{format_prefix, output, sink_output}

-- A level and the message.
abbrev print : Print
print seconds milliseconds thread level message = some (level ∷ message)

abbrev warning : LogRecord
warning = record {
  timestamp = 1500;
  thread_id = 3;
  level = LogLevel.warn;
  message = 7 ∷ 8 ∷ 9 ∷ [];
}

format_prefix_example :
    (rest : List ℕ) × (3 ∷ 7 ∷ 8 ∷ 9 ∷ [] ≡ format print warning true 3 ++ rest)
    × (length (format print warning true 3) ≡ min 4 (3 - 1))
format_prefix_example = format_prefix print warning 3 (3 ∷ 7 ∷ 8 ∷ 9 ∷ []) (omega arith) refl

abbrev logger : Logger
logger = record (construct (λ r size. format print r true size)) {
  sinks = record { content = []; flushed = 0 } ∷ [];
}

-- A message below the level, one above it, and one that is no longer below after a change.
abbrev calls : List Call
calls =
    logs 0 0 LogLevel.debug (1 ∷ [])
    ∷ logs 0 0 LogLevel.warn (2 ∷ [])
    ∷ sets LogLevel.trace
    ∷ flushes
    ∷ logs 0 0 LogLevel.debug (4 ∷ [])
    ∷ []

sink_output_example :
    (sink : Sink) × (get_elem? (run logger calls).sinks 0 ≡ some sink)
    × (sink.content ≡ [] ++ output logger.formatter LogLevel.info calls)
sink_output_example = sink_output calls logger 0 (record { content = []; flushed = 0 }) refl

output_result : output logger.formatter LogLevel.info calls ≡ 3 ∷ 2 ∷ 10 ∷ 1 ∷ 4 ∷ 10 ∷ []
unfolding format
output_result = refl
