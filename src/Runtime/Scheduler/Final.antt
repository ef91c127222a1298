-- ===== src/Runtime/Scheduler/Final.antt =====
-- Shutdown of the scheduler is final.
use mmo_server.Common.{ℕ, ◌≡◌, refl, ap, false, List, thrown, logic_error}
use mmo_server.Timer.{TimerQueue}
use mmo_server.Runtime.Scheduler.{
  State, TickScheduler, Interruption, tick_in, shutdown_in, initialize_in, run_until_in, initialize,
  shutdown, run_one_tick, run_until_stopped,
}

module _ {W : Type 0} (invoke : ℕ → W → TimerQueue → W × TimerQueue) (fuel : ℕ) where
  shutdown_in-stopped :
      (st : State) (s : TickScheduler) → s.state ≡ st → (shutdown_in st s).state ≡ State.stopped
  shutdown_in-stopped State.stopped s e = e
  shutdown_in-stopped State.created s e = refl
  shutdown_in-stopped State.initialized s e = refl
  shutdown_in-stopped State.running s e = refl
  shutdown_in-stopped State.stopping s e = refl

  stopped_final :
      (s : TickScheduler) (now : ℕ) (w : W) (rounds : List (Interruption × ℕ))
      → s.state ≡ State.stopped
      → (shutdown s ≡ s)
        × (initialize s now ≡ thrown logic_error)
        × (run_one_tick invoke false fuel w s now ≡ thrown logic_error)
        × (run_until_stopped invoke fuel w s rounds ≡ thrown logic_error)
  unfolding shutdown initialize run_one_tick run_until_stopped
  stopped_final s now w rounds at = (
    ap (λ t. shutdown_in t s) at,
    ap (λ t. initialize_in t s now) at,
    ap (λ t. tick_in invoke t false fuel w s now) at,
    ap (λ t. run_until_in invoke t fuel w s rounds) at,
  )

  -- After Shutdown, whatever the state before it, another Shutdown changes nothing, and Initialize,
  -- RunOneTick and RunUntilStopped all throw std::logic_error.
  scheduler_shutdown_final :
      (s : TickScheduler) (now : ℕ) (w : W) (rounds : List (Interruption × ℕ))
      → (shutdown (shutdown s) ≡ shutdown s)
        × (initialize (shutdown s) now ≡ thrown logic_error)
        × (run_one_tick invoke false fuel w (shutdown s) now ≡ thrown logic_error)
        × (run_until_stopped invoke fuel w (shutdown s) rounds ≡ thrown logic_error)
  unfolding shutdown
  scheduler_shutdown_final s now w rounds =
      stopped_final (shutdown s) now w rounds (shutdown_in-stopped s.state s refl)
