-- ===== src/Queue/Mpsc/Refinement.antt =====
-- MPSCQueue, used by one thread at a time, is a bounded FIFO, at every position of its counters.
use mathlib.Core.Option
use native.Mathlib.Decide.{dec_lt}
use mmo_server.Common.{
  ℕ, suc, ◌+◌, ◌<◌, ◌≡◌, refl, ap, true, false, none, some, List, [], ◌∷◌, arith, length, lt→ltb,
  le→ltb,
}
use mmo_server.Queue.{wrap, IsCapacity, Queue, publish, retire}
use mmo_server.Queue.Window.{
  Holds, tail_ready, tail_behind, head_slot, head_ready, head_behind, publish-Holds, retire-Holds,
}
use mmo_server.Queue.Fifo
use mmo_server.Queue.Fifo.{Call, enqueues, dequeues, Reply, accepted, taken}
use mmo_server.Queue.Mpsc.{enqueue, enqueue_from, dequeue, step, run, approx_size}

module _ {ℓ} {A : Type ℓ} (capacity : ℕ) (c : IsCapacity capacity) where
  enqueue_room :
      (fuel : ℕ) (q : Queue A) (h : ℕ) (xs : List A) (x : A)
      → Holds capacity q h xs
      → length xs < capacity
      → enqueue capacity (suc fuel) q x ≡ some (true, publish capacity q x (wrap (h + length xs)))
  unfolding enqueue enqueue_from
  enqueue_room fuel q h xs x v room = ground (arith, tail_ready capacity c q h xs v room)

  enqueue_full :
      (fuel : ℕ) (q : Queue A) (h : ℕ) (xs : List A) (x : A)
      → Holds capacity q h xs
      → length xs ≡ capacity
      → enqueue capacity (suc fuel) q x ≡ some (false, q)
  unfolding enqueue enqueue_from
  enqueue_full fuel q h [] x v full = absurd (omega (arith, c.at_least_two))
  enqueue_full fuel q h (y ∷ xs) x v full = ground (arith, tail_behind capacity c q h y xs v full)

  dequeue-some :
      (q : Queue A) (h : ℕ) (x : A) (xs : List A)
      → Holds capacity q h (x ∷ xs)
      → dequeue capacity q ≡ (some x, retire capacity q (wrap h))
  unfolding dequeue
  dequeue-some q h x xs v =
      ground (arith, head_ready capacity c q h x xs v, head_slot capacity c q h x xs v)

  dequeue-none : (q : Queue A) (h : ℕ) → Holds capacity q h [] → dequeue capacity q ≡ (none, q)
  unfolding dequeue
  dequeue-none q h v = ground (arith, head_behind capacity c q h v)

  step_refines :
      (fuel : ℕ) (q : Queue A) (h : ℕ) (xs : List A) (k : Call A)
      → Holds capacity q h xs
      → (q' : Queue A) × (h' : ℕ) × (step capacity (suc fuel) q k
          ≡ some ((Fifo.step capacity xs k).0, q'))
        × Holds capacity q' h' (Fifo.step capacity xs k).1
  unfolding step Fifo.step
  step_refines fuel q h xs (enqueues x) v = elim (dec_lt (length xs) capacity) [
    | yes room ↦ rw (lt→ltb (length xs) capacity room) (
      publish capacity q x (wrap (h + length xs)),
      h,
      ap (Option.map _) (enqueue_room fuel q h xs x v room),
      publish-Holds capacity c q h xs x v room,
    )
    | no full ↦
        rw (le→ltb (length xs) capacity (omega arith))
          (q, h, ap (Option.map _) (enqueue_full fuel q h xs x v (omega (arith, v.room))), v)
  ]
  step_refines fuel q h [] dequeues v = (q, h, rw (dequeue-none q h v), v)
  step_refines fuel q h (x ∷ xs) dequeues v = (
    retire capacity q (wrap h),
    h + 1,
    rw (dequeue-some q h x xs v),
    retire-Holds capacity c q h x xs v,
  )

  -- Any sequence of calls on a queue that holds `xs`, wherever its counters stand, ends with no
  -- spinning, gives the replies of the bounded FIFO, and leaves a queue that holds what the FIFO
  -- holds.
  pub single_consumer_refines :
      (fuel : ℕ) (q : Queue A) (h : ℕ) (xs : List A) (cs : List (Call A))
      → Holds capacity q h xs
      → (q' : Queue A) × (h' : ℕ) × (run capacity (suc fuel) q cs
          ≡ some ((Fifo.run capacity xs cs).0, q'))
        × Holds capacity q' h' (Fifo.run capacity xs cs).1
  unfolding run Fifo.run Option.bind
  single_consumer_refines fuel q h xs [] v = (q, h, refl, v)
  single_consumer_refines fuel q h xs (k ∷ cs) v =
      let (q', h', e, v') = step_refines fuel q h xs k v in
      let (q'', h'', e', v'') =
        single_consumer_refines fuel q' h' (Fifo.step capacity xs k).1 cs v' in
      (q'', h'', rw (e, Option.bind, e', Option.map), v'')

  -- `ApproxSize` on a queue at rest is the number of items it holds, also where the counters wrap.
  approx_size_exact :
      (q : Queue A) (h : ℕ) (xs : List A) → Holds capacity q h xs → approx_size q ≡ length xs
  unfolding approx_size
  approx_size_exact q h xs v = omega (arith, v.head_at, v.tail_at, v.room, c.addressable)
