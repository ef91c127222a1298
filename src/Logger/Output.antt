-- ===== src/Logger/Output.antt =====
-- What reaches the sinks, and how long a line is.
use native.Mathlib.Decide.{dec_lt}
use mmo_server.Common.{
  ℕ, zero, suc, ◌-◌, ◌/◌, ◌%◌, min, get_elem?, get_elem?-append_old, append-nil, append_assoc, ◌≤◌,
  ◌<◌, ◌≡◌, refl, ap, sym, ◌∙◌, true, some, List, [], ◌∷◌, ◌++◌, map, length, take, drop, leb,
  if◌then◌else◌, arith, length-take, take-append-drop, lt→ltb, le→ltb,
}
use mmo_server.Logger.{
  LogLevel, level_index, LogRecord, max_log_format_buffer_size, Print, format, Sink, newline, write,
  flush_sink, Logger, add_sink, set_minimum_level, log, flush, Call, adds, sets, logs, flushes,
  step, run,
}

take_all : (text : List ℕ) → take (length text) text ≡ text
take_all [] = refl
take_all (c ∷ text) = ap (λ l. c ∷ l) (take_all text)

-- Format into a buffer of at least one byte, when snprintf gives the record a text: the line is a prefix
-- of the text and shorter than the buffer, by as much as the text is cut to; a text shorter than the
-- buffer is not cut.
pub format_prefix :
    (print : Print) (r : LogRecord) (buffer_size : ℕ) (text : List ℕ)
    → 0 < buffer_size
    → print (r.timestamp / 1000) (r.timestamp % 1000) r.thread_id (level_index r.level) r.message
      ≡ some text
    → (rest : List ℕ) × (text ≡ format print r true buffer_size ++ rest)
      × (length (format print r true buffer_size) ≡ min (length text) (buffer_size - 1))
unfolding format
format_prefix print r buffer_size text room e = elim (dec_lt (length text) buffer_size) [
  | yes fits ↦
      let whole : format print r true buffer_size ≡ text = ground (arith, e, take_all text) in
      ([], rw whole (sym (append-nil text)), rw whole (omega arith))
  | no long ↦
      let cut : format print r true buffer_size ≡ take (buffer_size - 1) text = ground (arith, e) in
      (
        drop (buffer_size - 1) text,
        rw cut (sym (take-append-drop (buffer_size - 1) text)),
        rw cut (length-take (buffer_size - 1) text ∙ omega arith),
      )
]

-- What a sink that is there from the start is given by the calls, when `level` is the minimum level
-- before them.
abbrev pub output : (LogRecord → ℕ → List ℕ) → LogLevel → List Call → List ℕ
output formatter level [] = []
output formatter level (adds sink ∷ cs) = output formatter level cs
output formatter level (sets level' ∷ cs) = output formatter level' cs
output formatter level (logs now thread at message ∷ cs) =
    (if leb (level_index level) (level_index at)
      then formatter (record { timestamp = now; thread_id = thread; level = at; message = message })
          max_log_format_buffer_size
        ++ newline ∷ []
      else [])
    ++ output formatter level cs
output formatter level (flushes ∷ cs) = output formatter level cs

get_elem?-map :
    (f : Sink → Sink) (sinks : List Sink) (i : ℕ) (sink : Sink)
    → get_elem? sinks i ≡ some sink
    → get_elem? (map f sinks) i ≡ some (f sink)
get_elem?-map f [] i sink e = cc
get_elem?-map f (s ∷ sinks) zero sink e = ground (arith, e)
get_elem?-map f (s ∷ sinks) (suc i) sink e = get_elem?-map f sinks i sink e

log_below :
    (l : Logger) (now thread : ℕ) (level : LogLevel) (message : List ℕ)
    → level_index level < level_index l.minimum_level
    → log l now thread level message ≡ l
unfolding log
log_below l now thread level message low = rw (lt→ltb _ _ low) refl

abbrev line_of : Logger → ℕ → ℕ → LogLevel → List ℕ → List ℕ
line_of l now thread level message =
    l.formatter (record { timestamp = now; thread_id = thread; level = level; message = message })
      max_log_format_buffer_size

log_enabled :
    (l : Logger) (now thread : ℕ) (level : LogLevel) (message : List ℕ)
    → level_index l.minimum_level ≤ level_index level
    → log l now thread level message
      ≡ record l { sinks = map (write (line_of l now thread level message)) l.sinks }
unfolding log
log_enabled l now thread level message high = rw (le→ltb _ _ high) refl

output_below :
    (l : Logger) (now thread : ℕ) (level : LogLevel) (message : List ℕ) (cs : List Call)
    → level_index level < level_index l.minimum_level
    → output l.formatter l.minimum_level (logs now thread level message ∷ cs)
      ≡ output l.formatter l.minimum_level cs
output_below l now thread level message cs low = ground arith

output_enabled :
    (l : Logger) (now thread : ℕ) (level : LogLevel) (message : List ℕ) (cs : List Call)
    → level_index l.minimum_level ≤ level_index level
    → output l.formatter l.minimum_level (logs now thread level message ∷ cs)
      ≡ (line_of l now thread level message ++ newline ∷ [])
        ++ output l.formatter l.minimum_level cs
output_enabled l now thread level message cs high = ground arith

-- A sink that is there before the calls is given exactly the lines of the messages whose level is not
-- below the minimum level at the time, in order, each as the formatter makes it and with a line break
-- behind it; sinks that are added, changes of the level and flushes in between add nothing.
-- A Fatal message is one like any other, and the calls after it go on.
pub sink_output :
    (cs : List Call) (l : Logger) (i : ℕ) (sink : Sink)
    → get_elem? l.sinks i ≡ some sink
    → (sink' : Sink) × (get_elem? (run l cs).sinks i ≡ some sink')
      × (sink'.content ≡ sink.content ++ output l.formatter l.minimum_level cs)
unfolding run step add_sink set_minimum_level flush write flush_sink
sink_output [] l i sink e = (sink, e, sym (append-nil sink.content))
sink_output (adds s ∷ cs) l i sink e =
    sink_output cs (add_sink l s) i sink (get_elem?-append_old l.sinks s i sink e)
sink_output (sets level ∷ cs) l i sink e = sink_output cs (set_minimum_level l level) i sink e
sink_output (logs now thread level message ∷ cs) l i sink e =
    elim (dec_lt (level_index level) (level_index l.minimum_level)) [
      | yes low ↦
          let (sink', there, content) = sink_output cs l i sink e in
          (
            sink',
            ap (λ l'. get_elem? (run l' cs).sinks i) (log_below l now thread level message low)
                ∙ there,
            content
                ∙ ap (λ o. sink.content ++ o)
                    (sym (output_below l now thread level message cs low)),
          )
      | no high ↦
          let enabled : level_index l.minimum_level ≤ level_index level = omega arith in
          let line : List ℕ = line_of l now thread level message in
          let (sink', there, content) =
            sink_output cs (record l { sinks = map (write line) l.sinks }) i (write line sink)
              (get_elem?-map (write line) l.sinks i sink e) in
          (
            sink',
            ap (λ l'. get_elem? (run l' cs).sinks i)
                  (log_enabled l now thread level message enabled)
                ∙ there,
            content
                ∙ append_assoc sink.content (line ++ newline ∷ [])
                    (output l.formatter l.minimum_level cs)
                ∙ ap (λ o. sink.content ++ o)
                    (sym (output_enabled l now thread level message cs enabled)),
          )
    ]
sink_output (flushes ∷ cs) l i sink e =
    sink_output cs (flush l) i (flush_sink sink) (get_elem?-map flush_sink l.sinks i sink e)
