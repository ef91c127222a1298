-- ===== src/Queue/Mpmc.antt =====
-- MPMCQueue: the calls of a thread that runs with no other thread in between; a compare-exchange
-- fails only where the counter has moved. A spin loop takes fuel, and the answer is `none` when that
-- runs out.
pub mod Refinement
pub mod Concurrent
use mathlib.Core.Option
use mmo_server.Common.{
  ℕ, zero, suc, ◌+◌, ◌-◌, ◌%◌, ◌^◌, ◌<◌, ◌≡◌, Bool, true, false, List, [], ◌∷◌, Option, none, some,
  ltb, ◌==◌, if◌then◌else◌, update,
}
use mmo_server.Queue.Fifo.{Call, enqueues, dequeues, Reply, accepted, taken}
use mmo_server.Queue.{wrap, QueueSlot, Queue, Probe, probe, publish, retire}

module _ {ℓ} {A : Type ℓ} (capacity : ℕ) where
  unfoldable pub enqueue_from : ℕ → Queue A → A → ℕ → Option (Bool × Queue A)
  enqueue_from zero q item pos = none
  enqueue_from (suc fuel) q item pos = elim (probe (q.slots (pos % capacity)).sequence pos) [
    | Probe.ready ↦ elim (q.tail == pos) [
      | true ↦ some (true, publish capacity q item pos)
      | false ↦ enqueue_from fuel q item q.tail
    ]
    | Probe.behind ↦ some (false, q)
    | Probe.ahead ↦ enqueue_from fuel q item q.tail
  ]

  unfoldable pub enqueue : ℕ → Queue A → A → Option (Bool × Queue A)
  unfolding enqueue_from
  enqueue fuel q item = enqueue_from fuel q item q.tail

  -- An answer `some none` is the return value false; `some (some x)` is true, with `x` in `out`.
  unfoldable pub dequeue_from : ℕ → Queue A → ℕ → Option (Option A × Queue A)
  dequeue_from zero q pos = none
  dequeue_from (suc fuel) q pos =
      elim (probe (q.slots (pos % capacity)).sequence (wrap (pos + 1))) [
        | Probe.ready ↦ elim (q.head == pos) [
          | true ↦ some (some (q.slots (pos % capacity)).item, retire capacity q pos)
          | false ↦ dequeue_from fuel q q.head
        ]
        | Probe.behind ↦ some (none, q)
        | Probe.ahead ↦ dequeue_from fuel q q.head
      ]

  unfoldable pub dequeue : ℕ → Queue A → Option (Option A × Queue A)
  unfolding dequeue_from
  dequeue fuel q = dequeue_from fuel q q.head

module _ {ℓ} {A : Type ℓ} where
  unfoldable pub approx_size : Queue A → ℕ
  approx_size q = if ltb q.tail q.head then 0 else q.tail - q.head

  unfoldable pub is_empty : Queue A → Bool
  unfolding approx_size
  is_empty q = approx_size q == 0

module _ {ℓ} {A : Type ℓ} (capacity : ℕ) where
  unfoldable pub step : ℕ → Queue A → Call A → Option (Reply A × Queue A)
  unfolding enqueue dequeue
  step fuel q (enqueues x) = Option.map (λ (ok, q'). (accepted ok, q')) (enqueue capacity fuel q x)
  step fuel q dequeues = Option.map (λ (out, q'). (taken out, q')) (dequeue capacity fuel q)

  -- A sequence of calls, with the replies.
  unfoldable pub run : ℕ → Queue A → List (Call A) → Option (List (Reply A) × Queue A)
  unfolding step
  run fuel q [] = some ([], q)
  run fuel q (c ∷ cs) =
      Option.bind (step fuel q c)
        λ (r, q'). Option.map (λ (rs, q''). (r ∷ rs, q'')) (run fuel q' cs)
