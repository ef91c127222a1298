-- ===== src/Runtime/Scheduler/Ticks.antt =====
-- The scheduler over several ticks: what RunUntilStopped leaves.
use mmo_server.Common.{ℕ, ◌+◌, ◌*◌, ◌%◌, ◌^◌, ◌≡◌, true, Option, some, List, [], ◌∷◌}
use mathlib.Core.Option
use mmo_server.Timer
use mmo_server.Timer.{TimerQueue, TimerTask}
use mmo_server.Runtime.Phase.{RuntimeMode}
use mmo_server.Runtime.Scheduler.{State, TickScheduler, Interruption}

-- A scheduler that has stopped after `n` ticks from its Initialize at time `start`.
pub record StoppedAfter (n : ℕ) (s : TickScheduler) (start : ℕ) (s' : TickScheduler) : Type 0 where
  pub tick_id : s'.context.tick_id ≡ n % 2 ^ 64
  pub next_tick_time : s'.next_tick_time ≡ start + (n + 1) * (s.tick_interval * 1000000)
  pub stopped : s'.state ≡ State.stopped
  pub mode : s'.context.mode ≡ RuntimeMode.stopped
  pub stop_requested : s'.stop_requested ≡ true

-- Rounds with no Shutdown, and then others.
abbrev pub going : List ℕ → List (Interruption × ℕ) → List (Interruption × ℕ)
going [] rounds = rounds
going (now ∷ times) rounds = (Interruption.stays, now) ∷ going times rounds

-- The timer queue ticked at one reading of the clock after the other.
abbrev pub tick_timers :
    {W : Type 0}
    → (ℕ → W → TimerQueue → W × TimerQueue)
    → ℕ
    → W
    → TimerQueue
    → List ℕ
    → Option (W × TimerQueue)
tick_timers invoke fuel w q [] = some (w, q)
tick_timers invoke fuel w q (now ∷ times) =
    Option.bind (Timer.tick invoke fuel w q now) λ (w', q'). tick_timers invoke fuel w' q' times
