-- ===== src/Queue/Mpsc.antt =====
-- MPSCQueue: the calls of a thread that runs with no other thread in between.
pub mod Refinement
pub mod Concurrent
use mathlib.Core.Option
use mmo_server.Common.{
  ℕ, zero, suc, ◌+◌, ◌-◌, ◌%◌, ◌^◌, ◌<◌, ◌≡◌, Bool, true, false, List, [], ◌∷◌, Option, none, some,
  ltb, ◌==◌, if◌then◌else◌, update,
}
use mmo_server.Queue.Fifo.{Call, enqueues, dequeues, Reply, accepted, taken}
use mmo_server.Queue.{wrap, QueueSlot, Queue, Probe, probe, publish, retire}

module _ {ℓ} {A : Type ℓ} (capacity : ℕ) where
  unfoldable pub enqueue_from : ℕ → Queue A → A → ℕ → Option (Bool × Queue A)
  enqueue_from zero q item pos = none
  enqueue_from (suc fuel) q item pos = elim (probe (q.slots (pos % capacity)).sequence pos) [
    | Probe.ready ↦ elim (q.tail == pos) [
      | true ↦ some (true, publish capacity q item pos)
      | false ↦ enqueue_from fuel q item q.tail
    ]
    | Probe.behind ↦ some (false, q)
    | Probe.ahead ↦ enqueue_from fuel q item q.tail
  ]

  unfoldable pub enqueue : ℕ → Queue A → A → Option (Bool × Queue A)
  unfolding enqueue_from
  enqueue fuel q item = enqueue_from fuel q item q.tail

  -- The single consumer makes one attempt and no compare-exchange.
  unfoldable pub dequeue : Queue A → Option A × Queue A
  dequeue q = elim (probe (q.slots (q.head % capacity)).sequence (wrap (q.head + 1))) [
    | Probe.ready ↦ (some (q.slots (q.head % capacity)).item, retire capacity q q.head)
    | _ ↦ (none, q)
  ]

module _ {ℓ} {A : Type ℓ} where
  unfoldable pub approx_size : Queue A → ℕ
  approx_size q = wrap (q.tail + 2 ^ 64 - q.head)

  unfoldable pub is_empty : Queue A → Bool
  unfolding approx_size
  is_empty q = approx_size q == 0

module _ {ℓ} {A : Type ℓ} (capacity : ℕ) where
  unfoldable pub step : ℕ → Queue A → Call A → Option (Reply A × Queue A)
  unfolding enqueue dequeue
  step fuel q (enqueues x) = Option.map (λ (ok, q'). (accepted ok, q')) (enqueue capacity fuel q x)
  step fuel q dequeues = let (out, q') = dequeue capacity q in some (taken out, q')

  -- A sequence of calls, with the replies.
  unfoldable pub run : ℕ → Queue A → List (Call A) → Option (List (Reply A) × Queue A)
  unfolding step
  run fuel q [] = some ([], q)
  run fuel q (c ∷ cs) =
      Option.bind (step fuel q c)
        λ (r, q'). Option.map (λ (rs, q''). (r ∷ rs, q'')) (run fuel q' cs)
