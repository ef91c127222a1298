-- ===== src/Queue/Mpmc/Refinement.antt =====
-- MPMCQueue, used by one thread at a time, is a bounded FIFO, at every position of its counters.
use mathlib.Core.Option
use native.Mathlib.Decide.{dec_lt}
use mmo_server.Common.{
  ℕ, suc, ◌+◌, ◌^◌, ◌<◌, ◌≤◌, ◌≡◌, refl, ap, true, false, none, some, List, [], ◌∷◌, arith, length,
  lt→ltb, le→ltb,
}
use mmo_server.Queue.{wrap, IsCapacity, Queue, construct, publish, retire}
use mmo_server.Queue.Window.{
  Holds, tail_ready, tail_behind, head_slot, head_ready, head_behind, publish-Holds, retire-Holds,
  construct-Holds,
}
use mmo_server.Queue.Fifo
use mmo_server.Queue.Fifo.{Call, enqueues, dequeues, Reply, accepted, taken}
use mmo_server.Queue.Mpmc.{enqueue, enqueue_from, dequeue, dequeue_from, step, run, approx_size}

module _ {ℓ} {A : Type ℓ} (capacity : ℕ) (c : IsCapacity capacity) where
  -- With room, the first attempt wins; without, it reports that the queue is full.
  pub enqueue_room :
      (fuel : ℕ) (q : Queue A) (h : ℕ) (xs : List A) (x : A)
      → Holds capacity q h xs
      → length xs < capacity
      → enqueue capacity (suc fuel) q x ≡ some (true, publish capacity q x (wrap (h + length xs)))
  unfolding enqueue enqueue_from
  enqueue_room fuel q h xs x v room = ground (arith, tail_ready capacity c q h xs v room)

  pub enqueue_full :
      (fuel : ℕ) (q : Queue A) (h : ℕ) (xs : List A) (x : A)
      → Holds capacity q h xs
      → length xs ≡ capacity
      → enqueue capacity (suc fuel) q x ≡ some (false, q)
  unfolding enqueue enqueue_from
  enqueue_full fuel q h [] x v full = absurd (omega (arith, c.at_least_two))
  enqueue_full fuel q h (y ∷ xs) x v full = ground (arith, tail_behind capacity c q h y xs v full)

  pub dequeue-some :
      (fuel : ℕ) (q : Queue A) (h : ℕ) (x : A) (xs : List A)
      → Holds capacity q h (x ∷ xs)
      → dequeue capacity (suc fuel) q ≡ some (some x, retire capacity q (wrap h))
  unfolding dequeue dequeue_from
  dequeue-some fuel q h x xs v =
      ground (arith, head_ready capacity c q h x xs v, head_slot capacity c q h x xs v)

  pub dequeue-none :
      (fuel : ℕ) (q : Queue A) (h : ℕ)
      → Holds capacity q h []
      → dequeue capacity (suc fuel) q ≡ some (none, q)
  unfolding dequeue dequeue_from
  dequeue-none fuel q h v = ground (arith, head_behind capacity c q h v)

  -- One call against one step of the FIFO.
  pub step_refines :
      (fuel : ℕ) (q : Queue A) (h : ℕ) (xs : List A) (k : Call A)
      → Holds capacity q h xs
      → (q' : Queue A) × (h' : ℕ) × (step capacity (suc fuel) q k
          ≡ some ((Fifo.step capacity xs k).0, q'))
        × Holds capacity q' h' (Fifo.step capacity xs k).1
  unfolding step Fifo.step
  step_refines fuel q h xs (enqueues x) v = elim (dec_lt (length xs) capacity) [
    | yes room ↦ rw (lt→ltb (length xs) capacity room) (
      publish capacity q x (wrap (h + length xs)),
      h,
      ap (Option.map _) (enqueue_room fuel q h xs x v room),
      publish-Holds capacity c q h xs x v room,
    )
    | no full ↦
        rw (le→ltb (length xs) capacity (omega arith))
          (q, h, ap (Option.map _) (enqueue_full fuel q h xs x v (omega (arith, v.room))), v)
  ]
  step_refines fuel q h [] dequeues v = (q, h, ap (Option.map _) (dequeue-none fuel q h v), v)
  step_refines fuel q h (x ∷ xs) dequeues v = (
    retire capacity q (wrap h),
    h + 1,
    ap (Option.map _) (dequeue-some fuel q h x xs v),
    retire-Holds capacity c q h x xs v,
  )

  -- Any sequence of calls on a queue that holds `xs`, wherever its counters stand, ends with no
  -- spinning, gives the replies of the bounded FIFO, and leaves a queue that holds what the FIFO
  -- holds.
  pub run_refines :
      (fuel : ℕ) (q : Queue A) (h : ℕ) (xs : List A) (cs : List (Call A))
      → Holds capacity q h xs
      → (q' : Queue A) × (h' : ℕ) × (run capacity (suc fuel) q cs
          ≡ some ((Fifo.run capacity xs cs).0, q'))
        × Holds capacity q' h' (Fifo.run capacity xs cs).1
  unfolding run Fifo.run Option.bind
  run_refines fuel q h xs [] v = (q, h, refl, v)
  run_refines fuel q h xs (k ∷ cs) v =
      let (q', h', e, v') = step_refines fuel q h xs k v in
      let (q'', h'', e', v'') = run_refines fuel q' h' (Fifo.step capacity xs k).1 cs v' in
      (q'', h'', rw (e, Option.bind, e', Option.map), v'')

  -- So a queue fresh from the constructor behaves as an empty FIFO.
  pub run-construct_refines :
      (fuel : ℕ) (d : A) (cs : List (Call A))
      → (q' : Queue A) × (h' : ℕ) × (run capacity (suc fuel) (construct capacity d) cs
          ≡ some ((Fifo.run capacity [] cs).0, q'))
        × Holds capacity q' h' (Fifo.run capacity [] cs).1
  run-construct_refines fuel d cs = run_refines fuel _ 0 [] cs (construct-Holds capacity d)

  -- `ApproxSize` on a queue at rest is the number of items it holds, unless the tail's counter has
  -- wrapped round 2 ^ 64 and the head's has not: then it is 0.
  pub approx_size-Holds :
      (q : Queue A) (h : ℕ) (xs : List A)
      → Holds capacity q h xs
      → (wrap h + length xs < 2 ^ 64 → approx_size q ≡ length xs)
        × (2 ^ 64 ≤ wrap h + length xs → approx_size q ≡ 0)
  unfolding approx_size
  approx_size-Holds q h xs v = (
    λ low. ground (arith, v.head_at, v.tail_at),
    λ high. ground (arith, v.head_at, v.tail_at, v.room, c.addressable),
  )
