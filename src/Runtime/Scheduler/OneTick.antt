-- ===== src/Runtime/Scheduler/OneTick.antt =====
-- One tick of the scheduler, with no Shutdown and with one under way (RunOneTick).
use mmo_server.Common.{
  ℕ, suc, ◌+◌, ◌*◌, ◌%◌, ◌^◌, ◌≤◌, ◌<◌, ◌≡◌, refl, ap, ◌∙◌, ◌⊎◌, inl, inr, Bool, true, false, some,
  List, [], ◌∷◌, arith, length, returned,
}
use mmo_server.Timer
use mmo_server.Timer.{TimerQueue, TimerTask}
use mmo_server.Timer.Order.{IsValid}
use mmo_server.Timer.Dispatch.{tick_runs_due, not_due}
use mmo_server.Runtime.Phase.{RuntimeMode, RuntimePhase}
use mmo_server.Runtime.Scheduler.{
  State, TickScheduler, entered, tick_in, shutdown_in, update_runtime_context, advance_tick,
  wait_next_tick, dispatch_phases, dispatch_pipeline, shutdown, tick_body, run_one_tick,
}

dispatch_phases_lem :
    (phases : List RuntimePhase) (s : TickScheduler) → dispatch_phases phases s ≡ s
unfolding dispatch_phases
dispatch_phases_lem [] s = refl
dispatch_phases_lem (phase ∷ phases) s = dispatch_phases_lem phases s

dispatch_pipeline_lem : (s : TickScheduler) → dispatch_pipeline s ≡ s
unfolding dispatch_pipeline
dispatch_pipeline_lem s = dispatch_phases_lem s.pipeline.phases s

not_due-length : (now : ℕ) (ts : List TimerTask) → length (not_due now ts) ≤ length ts
not_due-length now [] = omega arith
not_due-length now (t ∷ ts) = ground (arith, not_due-length now ts)

-- The scheduler is between two ticks: initialized or running, with a valid timer queue.
pub record IsReady (fuel : ℕ) (s : TickScheduler) : Type 0 where
  pub entered : (s.state ≡ State.initialized) ⊎ (s.state ≡ State.running)
  pub counted : s.context.tick_id < 2 ^ 64
  pub not_stopped : s.stop_requested ≡ false
  pub valid : IsValid s.timer_queue
  pub enough : length s.timer_queue.tasks < fuel

-- How `s'` stands to `s` after `n` ticks.
pub record AfterTicks (n : ℕ) (s s' : TickScheduler) : Type 0 where
  pub tick_id : s'.context.tick_id ≡ (s.context.tick_id + n) % 2 ^ 64
  pub next_tick_time : s'.next_tick_time ≡ s.next_tick_time + n * (s.tick_interval * 1000000)
  pub tick_interval : s'.tick_interval ≡ s.tick_interval
  pub worker_count : s'.context.worker_count ≡ s.context.worker_count

-- What one tick leaves, with the timer queue after its dispatch.
abbrev pub ticked : TickScheduler → TimerQueue → TickScheduler
ticked s timers = record s {
  context = record (s.context) {
    tick_id = (s.context.tick_id + 1) % 2 ^ 64;
    delta_time_ms = s.tick_interval % 2 ^ 32;
    mode = RuntimeMode.running;
  };
  timer_queue = timers;
  state = State.running;
  next_tick_time = s.next_tick_time + s.tick_interval * 1000000;
}

-- What a tick leaves that a Shutdown has met under way.
abbrev pub ticked_stopped : TickScheduler → TimerQueue → TickScheduler
ticked_stopped s timers = record (ticked s timers) {
  context = record ((ticked s timers).context) { mode = RuntimeMode.stopped };
  state = State.stopped;
  stop_requested = true;
}

pub ticked-AfterTicks : (s : TickScheduler) (timers : TimerQueue) → AfterTicks 1 s (ticked s timers)
ticked-AfterTicks s timers = record {
  tick_id = refl;
  next_tick_time = omega arith;
  tick_interval = refl;
  worker_count = refl;
}

pub AfterTicks-suc :
    (n : ℕ) (s s' s'' : TickScheduler)
    → AfterTicks 1 s s'
    → AfterTicks n s' s''
    → AfterTicks (suc n) s s''
AfterTicks-suc n s s' s'' a b = record {
  tick_id = omega (arith, a.tick_id, b.tick_id);
  next_tick_time =
      grind (arith, a.next_tick_time, b.next_tick_time, ap (λ i. i * 1000000) a.tick_interval);
  tick_interval = b.tick_interval ∙ a.tick_interval;
  worker_count = b.worker_count ∙ a.worker_count;
}

pub AfterTicks-suc-right :
    (n : ℕ) (s s' : TickScheduler) (timers : TimerQueue)
    → AfterTicks n s s'
    → AfterTicks (n + 1) s (ticked s' timers)
AfterTicks-suc-right n s s' timers a = record {
  tick_id = omega (arith, a.tick_id);
  next_tick_time = grind (arith, a.next_tick_time, ap (λ i. i * 1000000) a.tick_interval);
  tick_interval = a.tick_interval;
  worker_count = a.worker_count;
}

module _ {W : Type 0} (invoke : ℕ → W → TimerQueue → W × TimerQueue) (effect : ℕ → W → W)
    (quiet : (callback : ℕ) (w : W) (q : TimerQueue) → invoke callback w q ≡ (effect callback w, q))
    (fuel : ℕ) where
  tick_body_lem :
      (s : TickScheduler) (now : ℕ) (w w' : W) (timers : TimerQueue)
      → entered s.state ≡ State.running
      → Timer.tick invoke fuel w s.timer_queue now ≡ some (w', timers)
      → (tick_body invoke false fuel w s now ≡ some (w', ticked s timers))
        × (tick_body invoke true fuel w s now ≡ some (w', ticked_stopped s timers))
  unfolding tick_body update_runtime_context advance_tick wait_next_tick dispatch_pipeline shutdown
  tick_body_lem s now w w' timers enters e = (
    rw (tick_body, e)
        (ap (λ y. some (w', wait_next_tick (advance_tick y)))
            (dispatch_phases_lem s.pipeline.phases _)
          ∙ ap (λ st. some (w', record (ticked s timers) { state = st })) enters),
    rw (tick_body, e)
        (ap (λ y. some (w', wait_next_tick (advance_tick y)))
            (dispatch_pipeline_lem (
              update_runtime_context (
                shutdown (record s {
                  context = record (s.context) { mode = RuntimeMode.running };
                  timer_queue = timers;
                  state = entered s.state;
                }))))
          ∙ ap
              (λ st. some (
                w',
                wait_next_tick (
                    advance_tick (
                      update_runtime_context (
                        shutdown_in st (record s {
                          context = record (s.context) { mode = RuntimeMode.running };
                          timer_queue = timers;
                          state = st;
                        })))),
              ))
              enters),
  )

  run_one_tick-ready :
      (stops : Bool) (s : TickScheduler) (now : ℕ) (w : W)
      → (s.state ≡ State.initialized) ⊎ (s.state ≡ State.running)
      → (entered s.state ≡ State.running)
        × (run_one_tick invoke stops fuel w s now ≡ returned (tick_body invoke stops fuel w s now))
  unfolding run_one_tick
  run_one_tick-ready stops s now w (inl at) =
      (ap entered at, ap (λ st. tick_in invoke st stops fuel w s now) at)
  run_one_tick-ready stops s now w (inr at) =
      (ap entered at, ap (λ st. tick_in invoke st stops fuel w s now) at)

  -- One tick of a scheduler that is ready, with no Shutdown and with one under way.
  pub tick_once :
      (s : TickScheduler) (now : ℕ) (w : W)
      → IsReady fuel s
      → (w' : W) × (timers : TimerQueue) × (Timer.tick invoke fuel w s.timer_queue now
          ≡ some (w', timers))
        × (run_one_tick invoke false fuel w s now ≡ returned (some (w', ticked s timers)))
        × (run_one_tick invoke true fuel w s now ≡ returned (some (w', ticked_stopped s timers)))
        × IsReady fuel (ticked s timers)
  tick_once s now w r =
      let (timers, e, tasks, same_id, same_sequence, valid) =
        tick_runs_due invoke effect quiet fuel now w s.timer_queue r.valid r.enough in
      let (enters, runs) = run_one_tick-ready false s now w r.entered in
      let (_, stops) = run_one_tick-ready true s now w r.entered in
      let (going_on, stopping) = tick_body_lem s now w _ timers enters e in
      (
        _,
        timers,
        e,
        runs ∙ ap returned going_on,
        stops ∙ ap returned stopping,
        record {
          entered = inr refl;
          counted = omega arith;
          not_stopped = r.not_stopped;
          valid = valid;
          enough = omega (arith, r.enough, ap length tasks, not_due-length now s.timer_queue.tasks);
        },
      )
