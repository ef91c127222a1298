-- ===== src/Queue/Mpmc/Concurrent/Solo.antt =====
-- A thread that makes its moves with no other thread in between does what the calls of
-- Queue/Mpmc.antt do in one go.
use mathlib.Core.Option
use mmo_server.Common.{
  ℕ, zero, suc, ◌%◌, sym, subst, ◌+◌, ◌≡◌, refl, ap, ◌∙◌, Option, none, some, arith,
}
use mmo_server.Queue.{wrap, Queue, Probe, probe}
use mmo_server.Queue.Mpmc.{enqueue_from, enqueue, dequeue_from, dequeue, step}
use mmo_server.Queue.Fifo.{Call, enqueues, dequeues, Reply, accepted, taken}
use mmo_server.Queue.Mpmc.Concurrent.{
  Shared, Pc, slot, see_free, see_full, win_tail, store_item, publish_slot, see_item, see_empty,
  win_head, move_item, retire_slot,
}
use mmo_server.Queue.Mpmc.Concurrent.SoloRun.{
  SoloRun, last, next, grown, answered, Trying, Seeking, MovedFrom, enqueue_alone, dequeue_alone,
}

pub data Found (seq expected : ℕ) : Type 0 where
  ready : probe seq expected ≡ Probe.ready → Found seq expected
  behind : probe seq expected ≡ Probe.behind → Found seq expected
  ahead : probe seq expected ≡ Probe.ahead → Found seq expected

found_as : (seq expected : ℕ) (r : Probe) → probe seq expected ≡ r → Found seq expected
found_as seq expected Probe.ready e = ready e
found_as seq expected Probe.behind e = behind e
found_as seq expected Probe.ahead e = ahead e

unfoldable pub found : (seq expected : ℕ) → Found seq expected
unfolding found_as
found seq expected = found_as seq expected (probe seq expected) refl

module _ {A : Type 0} (capacity : ℕ) where
  -- The place after the first load of a call.
  abbrev pub entry : Call A → Shared A → Pc A
  entry (enqueues item) m = Pc.enqueuing item m.queue.tail
  entry dequeues m = Pc.dequeuing m.queue.head

  -- What a thread that is back from a call has left in shared memory `m'`, against the reply and the
  -- queue of the call in one go.
  abbrev pub Agrees : Shared A → Call A → Shared A → Reply A → Queue A → Type 0
  Agrees m (enqueues item) m' (accepted ok) q' =
      (m'.queue ≡ q') × (m'.entered ≡ grown capacity m.entered item ok) × (m'.left ≡ m.left)
  Agrees m dequeues m' (taken out) q' =
      MovedFrom capacity out m.queue.head m'.queue q'
      × (m'.entered ≡ m.entered)
      × (m'.left ≡ answered capacity m.left m.queue.head out)
  Agrees m call m' reply q' = ⊥

  alone-Agrees :
      (fuel : ℕ) (m m' : Shared A) (call : Call A)
      → SoloRun capacity m (entry call m) m'
      → (reply : Reply A) × (q' : Queue A) × (step capacity (suc fuel) m.queue call
          ≡ some (reply, q'))
        × Agrees m call m' reply q'
  unfolding step
  alone-Agrees fuel m m' (enqueues item) run =
      let (ok, e, entered, left) =
        enqueue_alone capacity fuel item m m' (Trying.at_load refl) run in
      (
        accepted ok,
        m'.queue,
        ap (Option.map (λ (ok, q'). (accepted ok, q'))) e,
        (refl, entered, left),
      )
  alone-Agrees fuel m m' dequeues run =
      let (out, q', e, moved, entered, left) =
        dequeue_alone capacity fuel m m' (Seeking.at_load refl) run in
      (taken out, q', ap (Option.map (λ (out, q'). (taken out, q'))) e, (moved, entered, left))

  -- With a slot that is ahead the loops never end.
  enqueue_spins :
      (fuel : ℕ) (q : Queue A) (item : A)
      → probe (q.slots (q.tail % capacity)).sequence q.tail ≡ Probe.ahead
      → enqueue_from capacity fuel q item q.tail ≡ none
  unfolding enqueue_from
  enqueue_spins zero q item e = refl
  enqueue_spins (suc fuel) q item e = ground (arith, e, enqueue_spins fuel q item e)

  dequeue_spins :
      (fuel : ℕ) (q : Queue A)
      → probe (q.slots (q.head % capacity)).sequence (wrap (q.head + 1)) ≡ Probe.ahead
      → dequeue_from capacity fuel q q.head ≡ none
  unfolding dequeue_from
  dequeue_spins zero q e = refl
  dequeue_spins (suc fuel) q e = ground (arith, e, dequeue_spins fuel q e)

  runs_alone :
      (fuel : ℕ) (m : Shared A) (call : Call A) (reply : Reply A) (q' : Queue A)
      → step capacity fuel m.queue call ≡ some (reply, q')
      → (m' : Shared A) × SoloRun capacity m (entry call m) m'
  unfolding step enqueue dequeue
  runs_alone fuel m (enqueues item) reply q' h =
      elim (found (slot capacity m m.queue.tail).sequence m.queue.tail) [
        | ready e ↦ (
          _,
          next (see_free e) (λ z. cc)
              (next (win_tail refl) (λ z. cc) (next store_item (λ z. cc) (last publish_slot))),
        )
        | behind e ↦ (m, last (see_full e))
        | ahead e ↦
            let spins = enqueue_spins fuel m.queue item e in
            absurd (none_ne_some (sym (ap (Option.map (λ (ok, q). (accepted ok, q))) spins) ∙ h))
      ]
    where
      none_ne_some : ◌≡◌ {A = Option (Reply A × Queue A)} none (some (reply, q')) → ⊥
      none_ne_some e = cc
  runs_alone fuel m dequeues reply q' h =
      elim (found (slot capacity m m.queue.head).sequence (wrap (m.queue.head + 1))) [
        | ready e ↦ (
          _,
          next (see_item e) (λ z. cc)
              (next (win_head refl) (λ z. cc)
                (next (move_item (slot capacity m m.queue.head).item) (λ z. cc)
                  (last retire_slot))),
        )
        | behind e ↦ (m, last (see_empty e))
        | ahead e ↦
            let spins = dequeue_spins fuel m.queue e in
            absurd (none_ne_some (sym (ap (Option.map (λ (out, q). (taken out, q))) spins) ∙ h))
      ]
    where
      none_ne_some : ◌≡◌ {A = Option (Reply A × Queue A)} none (some (reply, q')) → ⊥
      none_ne_some e = cc

  -- When a call on an MPMCQueue in one go returns, a thread that has begun the call and makes its
  -- moves alone can come back from it; and whenever it comes back, whatever compare-exchanges failed,
  -- it has given the same answer and left the same queue, but for what moving an item out has left in
  -- its slot.
  pub call_alone :
      (fuel : ℕ) (m : Shared A) (call : Call A) (reply : Reply A) (q' : Queue A)
      → step capacity (suc fuel) m.queue call ≡ some (reply, q')
      → ((m' : Shared A) × SoloRun capacity m (entry call m) m')
        × ((m' : Shared A) → SoloRun capacity m (entry call m) m' → Agrees m call m' reply q')
  call_alone fuel m call reply q' h = (
    runs_alone (suc fuel) m call reply q' h,
    λ m' run.
        let (reply', q'', e, agrees) = alone-Agrees fuel m m' call run in
        let same : ◌≡◌ {A = Reply A × Queue A} (reply', q'') (reply, q') = inject (sym e ∙ h) in
        subst (λ (x : Reply A × Queue A). Agrees m call m' x.0 x.1) same agrees,
  )
    where
      inject : {x y : Reply A × Queue A} → some x ≡ some y → x ≡ y
      inject e = cc
