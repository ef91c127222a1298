-- ===== src/Queue/Mpmc/Concurrent/Waiting.antt =====
-- A move keeps track of the items that no consumer has won yet: each lies published in its slot, or
-- its producer is still at work.
use native.Mathlib.Decide.{dec_lt, ℕ_discrete}
use mmo_server.Common.{
  ℕ, ◌+◌, ◌^◌, ◌≤◌, ◌<◌, ◌≡◌, sym, ◌⊎◌, inl, inr, subst, [], ◌∷◌, update, some, length, arith,
  length-append,
}
use mmo_server.Queue.{IsCapacity}
use mmo_server.Queue.Mpmc.Concurrent.{Shared, Pc, slot, Move, win_tail, store_item, publish_slot}
use mmo_server.Queue.Mpmc.Concurrent.Invariant.{writes, IsFresh, Inv}
use mmo_server.Queue.Mpmc.Concurrent.Frame.{next_apart}
use mmo_server.Queue.Mpmc.Concurrent.Tickets.{Move-head}

module _ {A : Type 0} (capacity : ℕ) (c : IsCapacity capacity) {m : Shared A} {pc : ℕ → Pc A}
    (inv : Inv capacity m pc) where
  Move-sequence :
      {p p' : Pc A} {m' : Shared A}
      → Move capacity m p m' p'
      → IsFresh capacity m p
      → (r : ℕ) → m.queue.head ≤ r
      → (slot capacity m r).sequence ≡ r + 1
      → (slot capacity m' r).sequence ≡ r + 1
  Move-sequence (publish_slot {pos}) own r above e = ground (arith, next_apart capacity c r pos)
  Move-sequence mv own r above e = ground arith

  -- A producer gives its position up by publishing the slot.
  Move-writes_kept :
      {p p' : Pc A} {m' : Shared A}
      → Move capacity m p m' p'
      → length m'.entered < 2 ^ 63
      → IsFresh capacity m p
      → (r : ℕ) → writes p ≡ some r
      → (writes p' ≡ some r) ⊎ ((slot capacity m' r).sequence ≡ r + 1)
  Move-writes_kept store_item few own r e = inl e
  Move-writes_kept publish_slot few own r e = inr (ground (arith, inv.tail_at))
  Move-writes_kept mv few own r e = cc

  Move-tail :
      {p p' : Pc A} {m' : Shared A}
      → Move capacity m p m' p'
      → length m'.entered < 2 ^ 63
      → (r : ℕ) → r < m'.queue.tail
      → (r < m.queue.tail) ⊎ (writes p' ≡ some r)
  Move-tail (win_tail {item} g) few r h = elim (dec_lt r m.queue.tail) [
    | yes old ↦ inl old
    | no new ↦ inr (ground (arith, inv.tail_at, length-append m.entered (item ∷ [])))
  ]
  Move-tail mv few r h = inl h

  pub Move-waiting :
      (i : ℕ) {m' : Shared A} {p' : Pc A}
      → Move capacity m (pc i) m' p'
      → length m'.entered < 2 ^ 63
      → (r : ℕ) → r < m'.queue.tail
      → m'.queue.head ≤ r
      → ((slot capacity m' r).sequence ≡ r + 1) ⊎ ((j : ℕ) × (writes (update pc i p' j) ≡ some r))
  Move-waiting i mv few r h above = elim (Move-tail mv few r h) [
    | inr new ↦ inr (i, ground arith)
    | inl old ↦ elim (inv.waiting r old still) [
      | inl e ↦ inl (Move-sequence mv (inv.fresh i) r still e)
      | inr (j, e) ↦ elim (ℕ_discrete i j) [
        | yes here ↦
            elim (Move-writes_kept mv few (inv.fresh i) r
              (subst (λ k. writes (pc k) ≡ some r) (sym here) e)) [
                | inl kept ↦ inr (i, ground arith)
                | inr done ↦ inl done
              ]
        | no ne ↦ inr (j, ground arith)
      ]
    ]
  ]
    where
      still : m.queue.head ≤ r
      still =
          omega
            (arith, (Move-head capacity mv (omega (arith, inv.ordered, inv.tail_at, inv.few))).0)
