-- ===== src/Queue/Mpmc/Concurrent/SoloRun.antt =====
-- What a thread leaves that makes its moves with no other thread in between, from each place in
-- Enqueue and in Dequeue up to its return.

use mmo_server.Common.{
  ℕ, suc, ◌%◌, ◌≢◌, sym, subst, update, false, true, ◌+◌, ◌≡◌, refl, ap, ◌∙◌, fun_ext, List, [],
  ◌∷◌, ◌++◌, if◌then◌else◌, Bool, Option, none, some, arith,
}
use mmo_server.Queue.{wrap, Queue, Probe, probe, publish, retire}
use mmo_server.Queue.Mpmc.{enqueue_from, enqueue, dequeue_from, dequeue}
use mmo_server.Queue.Mpmc.Concurrent.{
  Shared, Pc, slot, set_slot, Move, see_free, see_full, see_claimed, reload_tail, win_tail,
  lose_tail, store_item, publish_slot, see_item, see_empty, see_taken, reload_head, win_head,
  lose_head, move_item, retire_slot,
}

module _ {A : Type 0} (capacity : ℕ) where
  -- The moves of one thread alone from place `p` on, up to its first return from the call.
  pub data SoloRun : Shared A → Pc A → Shared A → Type 0 where
    last : {m m' : Shared A} {p : Pc A} → Move capacity m p m' Pc.idle → SoloRun m p m'
    next :
        {m m' m'' : Shared A} {p p' : Pc A}
        → Move capacity m p m' p'
        → p' ≢ Pc.idle
        → SoloRun m' p' m''
        → SoloRun m p m''

  -- `Enqueue(item)` records the item if it returns true, `Dequeue(out)` the item that it takes.
  abbrev pub grown : List A → A → Bool → List A
  grown entered item ok = if ok then entered ++ item ∷ [] else entered

  abbrev pub answered : List (ℕ × A) → ℕ → Option A → List (ℕ × A)
  answered left pos none = left
  answered left pos (some out) = (pos, out) ∷ left

  -- Where a thread stands in Enqueue before it has won the tail.
  pub data Trying (m : Shared A) : A → Pc A → Type 0 where
    at_load : {item : A} {pos : ℕ} → m.queue.tail ≡ pos → Trying m item (Pc.enqueuing item pos)
    at_claim :
        {item : A} {pos : ℕ}
        → m.queue.tail ≡ pos
        → probe (slot capacity m pos).sequence pos ≡ Probe.ready
        → Trying m item (Pc.claiming item pos)
    at_reload : {item : A} → Trying m item (Pc.reloading_tail item)

  publish_alone :
      (m : Shared A) (item : A) (pos : ℕ) (m' : Shared A)
      → SoloRun
          (record m {
            queue = record m.queue { tail = wrap (pos + 1) };
            entered = m.entered ++ item ∷ [];
          })
          (Pc.storing item pos)
          m'
      → (m'.queue ≡ publish capacity m.queue item pos)
        × (m'.entered ≡ m.entered ++ item ∷ [])
        × (m'.left ≡ m.left)
  unfolding publish
  publish_alone m item pos m' (last mv) = elim mv [ ]
  publish_alone m item pos m' (next store_item _ (last publish_slot)) = (
    ap (λ f. record m.queue { tail = wrap (pos + 1); slots = f }) (fun_ext λ j. ground arith),
    refl,
    refl,
  )
  publish_alone m item pos m' (next store_item _ (next publish_slot ne _)) = absurd (ne refl)

  pub enqueue_alone :
      (fuel : ℕ) (item : A) (m m' : Shared A) {p : Pc A}
      → Trying m item p
      → SoloRun m p m'
      → (ok : Bool) × (enqueue capacity (suc fuel) m.queue item ≡ some (ok, m'.queue))
        × (m'.entered ≡ grown m.entered item ok)
        × (m'.left ≡ m.left)
  unfolding enqueue enqueue_from
  enqueue_alone fuel item m m' (at_load t) (last (see_full e)) =
      (false, ground (arith, t, e), refl, refl)
  enqueue_alone fuel item m m' (at_load t) (next (see_full e) ne _) = absurd (ne refl)
  enqueue_alone fuel item m m' (at_load t) (next (see_free e) _ run) =
      enqueue_alone fuel item m m' (at_claim t e) run
  enqueue_alone fuel item m m' (at_load t) (next (see_claimed e) _ run) =
      enqueue_alone fuel item m m' at_reload run
  enqueue_alone fuel item m m' at_reload (last mv) = elim mv [ ]
  enqueue_alone fuel item m m' (at_claim t e) (last mv) = elim mv [ ]
  enqueue_alone fuel item m m' at_reload (next reload_tail _ run) =
      enqueue_alone fuel item m m' (at_load refl) run
  enqueue_alone fuel item m m' (at_claim t e) (next lose_tail _ run) =
      enqueue_alone fuel item m m' (at_load refl) run
  enqueue_alone fuel item m m' (at_claim {pos} t e) (next (win_tail g) _ run) =
      let (same, entered, left) = publish_alone m item pos m' run in
      (true, ground (arith, t, e, same), entered, left)

  -- Where a thread stands in Dequeue before it has won the head.
  pub data Seeking (m : Shared A) : Pc A → Type 0 where
    at_load : {pos : ℕ} → m.queue.head ≡ pos → Seeking m (Pc.dequeuing pos)
    at_take :
        {pos : ℕ}
        → m.queue.head ≡ pos
        → probe (slot capacity m pos).sequence (wrap (pos + 1)) ≡ Probe.ready
        → Seeking m (Pc.taking pos)
    at_reload : Seeking m Pc.reloading_head

  -- The queue `q'`, but for what moving the item out has left in its slot, when one was taken.
  abbrev pub MovedFrom : Option A → ℕ → Queue A → Queue A → Type 0
  MovedFrom none pos q q' = q ≡ q'
  MovedFrom (some out) pos q q' =
      (rest : A) × (q ≡ record q' {
        slots =
            update q'.slots (pos % capacity) (record (q'.slots (pos % capacity)) { item = rest });
      })

  retire_last :
      (m : Shared A) (pos : ℕ) (out : A) (m' : Shared A)
      → SoloRun m (Pc.retiring pos out) m'
      → m' ≡ record m {
        queue =
            set_slot capacity m pos
              (record (slot capacity m pos) { sequence = wrap (pos + capacity) });
        left = (pos, out) ∷ m.left;
      }
  retire_last m pos out m' (last retire_slot) = refl
  retire_last m pos out m' (next retire_slot ne _) = absurd (ne refl)

  retire_alone :
      (m : Shared A) (pos : ℕ) (m' : Shared A)
      → SoloRun (record m { queue = record m.queue { head = wrap (pos + 1) } }) (Pc.moving pos) m'
      → MovedFrom (some (slot capacity m pos).item) pos m'.queue (retire capacity m.queue pos)
        × (m'.entered ≡ m.entered)
        × (m'.left ≡ (pos, (slot capacity m pos).item) ∷ m.left)
  unfolding retire
  retire_alone m pos m' (last mv) = elim mv [ ]
  retire_alone m pos m' (next (move_item rest) _ run) =
      let e = retire_last _ pos (slot capacity m pos).item m' run in
      (
        (
          rest,
          ap Shared.queue e
              ∙ ap (λ f. record m.queue { head = wrap (pos + 1); slots = f })
                  (fun_ext λ j. ground arith),
        ),
        ap Shared.entered e,
        ap Shared.left e,
      )

  pub dequeue_alone :
      (fuel : ℕ) (m m' : Shared A) {p : Pc A}
      → Seeking m p
      → SoloRun m p m'
      → (out : Option A) × (q' : Queue A) × (dequeue capacity (suc fuel) m.queue ≡ some (out, q'))
        × MovedFrom out m.queue.head m'.queue q'
        × (m'.entered ≡ m.entered)
        × (m'.left ≡ answered m.left m.queue.head out)
  unfolding dequeue dequeue_from
  dequeue_alone fuel m m' (at_load t) (last (see_empty e)) =
      (none, m.queue, ground (arith, t, e), refl, refl, refl)
  dequeue_alone fuel m m' (at_load t) (next (see_empty e) ne _) = absurd (ne refl)
  dequeue_alone fuel m m' (at_load t) (next (see_item e) _ run) =
      dequeue_alone fuel m m' (at_take t e) run
  dequeue_alone fuel m m' (at_load t) (next (see_taken e) _ run) =
      dequeue_alone fuel m m' at_reload run
  dequeue_alone fuel m m' at_reload (last mv) = elim mv [ ]
  dequeue_alone fuel m m' (at_take t e) (last mv) = elim mv [ ]
  dequeue_alone fuel m m' at_reload (next reload_head _ run) =
      dequeue_alone fuel m m' (at_load refl) run
  dequeue_alone fuel m m' (at_take t e) (next lose_head _ run) =
      dequeue_alone fuel m m' (at_load refl) run
  dequeue_alone fuel m m' (at_take {pos} t e) (next (win_head g) _ run) =
      let (moved, entered, left) = retire_alone m pos m' run in
      (
        some (slot capacity m pos).item,
        retire capacity m.queue pos,
        ground (arith, t, e),
        subst
            (λ k.
              MovedFrom (some (slot capacity m pos).item) k m'.queue (retire capacity m.queue pos))
            (sym t) moved,
        entered,
        left ∙ ap (λ k. (k, (slot capacity m pos).item) ∷ m.left) (sym t),
      )
