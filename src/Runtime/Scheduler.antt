-- ===== src/Runtime/Scheduler.antt =====
-- runtime/TickScheduler: paces the ticks. A clock's reading is an argument of the call that takes
-- it, in nanoseconds; `sleep_until` changes no state. A tick interval counts milliseconds. The
-- timer queue's loop takes fuel (Timer), so a tick does too: `none` when it runs out.
mod OneTick
pub mod Ticks
mod Final
use mmo_server.Common.{
  ℕ, zero, suc, ◌+◌, ◌*◌, ◌%◌, ◌^◌, Bool, true, false, Option, none, some, List, [], ◌∷◌,
  if◌then◌else◌, Result, returned, thrown, logic_error,
}
use mmo_server.Timer
use mmo_server.Timer.{TimerQueue}
use mmo_server.Runtime.Phase.{
  RuntimeContext, RuntimeMode, RuntimePipeline, RuntimePhase, default_context,
}

pub data State : Type 0 where
  created initialized running stopping stopped : State

pub record TickScheduler : Type 0 where
  pub tick_interval : ℕ
  pub context : RuntimeContext
  pub pipeline : RuntimePipeline
  pub timer_queue : TimerQueue
  pub state : State
  pub next_tick_time : ℕ
  pub stop_requested : Bool

abbrev pub construct : ℕ → RuntimePipeline → TimerQueue → TickScheduler
construct interval pipeline timers = record {
  tick_interval = interval;
  context = default_context;
  pipeline = pipeline;
  timer_queue = timers;
  state = State.created;
  next_tick_time = 0;
  stop_requested = false;
}

-- `static_cast<TickDurationMs>`
unfoldable pub update_runtime_context : TickScheduler → TickScheduler
update_runtime_context s = record s {
  context = record (s.context) { delta_time_ms = s.tick_interval % 2 ^ 32 };
}

unfoldable pub advance_tick : TickScheduler → TickScheduler
advance_tick s = record s {
  context = record (s.context) { tick_id = (s.context.tick_id + 1) % 2 ^ 64 };
}

unfoldable pub wait_next_tick : TickScheduler → TickScheduler
wait_next_tick s = record s { next_tick_time = s.next_tick_time + s.tick_interval * 1000000 }

-- The loop of DispatchPipeline looks at each phase and does nothing with it.
unfoldable pub dispatch_phases : List RuntimePhase → TickScheduler → TickScheduler
dispatch_phases [] s = s
dispatch_phases (phase ∷ phases) s = dispatch_phases phases s

unfoldable pub dispatch_pipeline : TickScheduler → TickScheduler
unfolding dispatch_phases
dispatch_pipeline s = dispatch_phases s.pipeline.phases s

-- Initialize behind its guard, with `now` the clock's reading.
unfoldable pub set_up : TickScheduler → ℕ → TickScheduler
unfolding update_runtime_context
set_up s now =
    let zeroed = record s { context = record (s.context) { tick_id = 0 } } in
    let updated = update_runtime_context zeroed in
    record updated {
      context = record (updated.context) { mode = RuntimeMode.initializing; worker_count = 0 };
      stop_requested = false;
      next_tick_time = now + s.tick_interval * 1000000;
      state = State.initialized;
    }

abbrev pub initialize_in : State → TickScheduler → ℕ → Result (Bool × TickScheduler)
initialize_in State.created s now = returned (true, set_up s now)
initialize_in _ s now = thrown logic_error

unfoldable pub initialize : TickScheduler → ℕ → Result (Bool × TickScheduler)
unfolding set_up
initialize s now = initialize_in s.state s now

abbrev pub shutdown_in : State → TickScheduler → TickScheduler
shutdown_in State.stopped s = s
shutdown_in _ s = record s {
  stop_requested = true;
  context = record (s.context) { mode = RuntimeMode.stopped };
  state = State.stopped;
}

unfoldable pub shutdown : TickScheduler → TickScheduler
shutdown s = shutdown_in s.state s

-- The state after `if (m_state == Initialized) m_state = Running;`.
abbrev pub entered : State → State
entered State.initialized = State.running
entered s = s

-- When a Shutdown comes from elsewhere in a round of RunUntilStopped: not at all, before the test of
-- the stop flag, between the test and the guards of RunOneTick, or while the tick is under way (a
-- callback of a timer may call it). What it writes, the rest of the tick leaves alone.
pub data Interruption : Type 0 where
  stays before_test before_tick in_tick : Interruption

abbrev pub shutdown_if : Bool → TickScheduler → TickScheduler
shutdown_if stops s = if stops then shutdown s else s

abbrev pub is_before_test : Interruption → Bool
is_before_test Interruption.before_test = true
is_before_test _ = false

abbrev pub is_before_tick : Interruption → Bool
is_before_tick Interruption.before_tick = true
is_before_tick _ = false

abbrev pub is_in_tick : Interruption → Bool
is_in_tick Interruption.in_tick = true
is_in_tick _ = false

-- The number of ticks of a run, with `n` ticks before it.
abbrev pub add_ticks :
    {W : Type 0}
    → ℕ
    → Result (Option (ℕ × W × TickScheduler))
    → Result (Option (ℕ × W × TickScheduler))
add_ticks n (thrown e) = thrown e
add_ticks n (returned none) = returned none
add_ticks n (returned (some (k, w, s))) = returned (some (n + k, w, s))

module _ {W : Type 0} (invoke : ℕ → W → TimerQueue → W × TimerQueue) where
  -- RunOneTick behind its guards, with what the timers that fired have done to the world.
  unfoldable pub tick_body : Bool → ℕ → W → TickScheduler → ℕ → Option (W × TickScheduler)
  unfolding update_runtime_context dispatch_pipeline advance_tick wait_next_tick shutdown
  tick_body stops fuel w s now =
      let started = record s {
        context = record (s.context) { mode = RuntimeMode.running };
        state = entered s.state;
      } in
      elim (Timer.tick invoke fuel w started.timer_queue now) [
        | none ↦ none
        | some (w', timers) ↦ some (
          w',
          wait_next_tick (
              advance_tick (
                dispatch_pipeline (
                  update_runtime_context
                    (shutdown_if stops (record started { timer_queue = timers }))))),
        )
      ]

  abbrev pub tick_in :
      State → Bool → ℕ → W → TickScheduler → ℕ → Result (Option (W × TickScheduler))
  tick_in State.stopped stops fuel w s now = thrown logic_error
  tick_in State.created stops fuel w s now = thrown logic_error
  tick_in _ stops fuel w s now = returned (tick_body stops fuel w s now)

  -- `stops` is whether a Shutdown comes while the tick is under way.
  unfoldable pub run_one_tick :
      Bool → ℕ → W → TickScheduler → ℕ → Result (Option (W × TickScheduler))
  unfolding tick_body
  run_one_tick stops fuel w s now = tick_in s.state stops fuel w s now

  -- The loop of RunUntilStopped over what each round meets: a Shutdown, and what the clock reads in
  -- the tick. It ends with the number of ticks, `none` if the list runs out first.
  unfoldable pub run_loop :
      ℕ → W → TickScheduler → List (Interruption × ℕ) → Result (Option (ℕ × W × TickScheduler))
  unfolding run_one_tick shutdown
  run_loop fuel w s [] = returned none
  run_loop fuel w s ((stop, now) ∷ rounds) =
      let tested = shutdown_if (is_before_test stop) s in
      elim tested.stop_requested [
        | true ↦ returned (some (0, w, tested))
        | false ↦
            elim (run_one_tick (is_in_tick stop) fuel w (shutdown_if (is_before_tick stop) tested)
              now) [
                | thrown e ↦ thrown e
                | returned none ↦ returned none
                | returned (some (w', s')) ↦ add_ticks 1 (run_loop fuel w' s' rounds)
              ]
      ]

  abbrev pub run_until_in :
      State
      → ℕ
      → W
      → TickScheduler
      → List (Interruption × ℕ)
      → Result (Option (ℕ × W × TickScheduler))
  run_until_in State.stopped fuel w s rounds = thrown logic_error
  run_until_in _ fuel w s rounds = run_loop fuel w s rounds

  unfoldable pub run_until_stopped :
      ℕ → W → TickScheduler → List (Interruption × ℕ) → Result (Option (ℕ × W × TickScheduler))
  unfolding run_loop
  run_until_stopped fuel w s rounds = run_until_in s.state fuel w s rounds
