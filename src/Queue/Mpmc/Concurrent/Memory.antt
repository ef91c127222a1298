-- ===== src/Queue/Mpmc/Concurrent/Memory.antt =====
-- A move keeps what the invariant says about the slots and the counters.
use mmo_server.Common.{
  ℕ, ◌+◌, get_elem?-append_old, ◌%◌, ◌^◌, ◌≤◌, ◌<◌, ◌≡◌, List, [], ◌∷◌, ◌++◌, some, length,
  get_elem?, arith, length-append, All,
}
use mmo_server.Queue.{IsCapacity}
use mmo_server.Queue.Mpmc.Concurrent.{
  Shared, Pc, slot, Move, win_tail, store_item, publish_slot, win_head, move_item, retire_slot,
}
use mmo_server.Queue.Mpmc.Concurrent.Invariant.{IsFresh, Inv}
use mmo_server.Queue.Mpmc.Concurrent.Frame.{next_apart, round_apart}

module _ {A : Type 0} (capacity : ℕ) where
  pub Move-entered :
      {m m' : Shared A} {p p' : Pc A}
      → Move capacity m p m' p'
      → length m.entered ≤ length m'.entered
  Move-entered {m} (win_tail {item} g) = omega (arith, length-append m.entered (item ∷ []))
  Move-entered mv = omega arith

  All-append_old :
      (xs : List A) (x : A) (left : List (ℕ × A))
      → All (λ e. get_elem? xs e.0 ≡ some e.1) left
      → All (λ e. get_elem? (xs ++ x ∷ []) e.0 ≡ some e.1) left
  All-append_old xs x [] h = tt
  All-append_old xs x (e ∷ left) h =
      (get_elem?-append_old xs x e.0 e.1 h.0, All-append_old xs x left h.1)

module _ {A : Type 0} (capacity : ℕ) (c : IsCapacity capacity) {m : Shared A} {pc : ℕ → Pc A}
    (inv : Inv capacity m pc) where
  pub Move-tail_at :
      {m' : Shared A} {p p' : Pc A}
      → Move capacity m p m' p'
      → length m'.entered < 2 ^ 63
      → m'.queue.tail ≡ length m'.entered
  Move-tail_at (win_tail {item} g) few =
      omega (arith, inv.tail_at, g, length-append m.entered (item ∷ []))
  Move-tail_at mv few = omega (arith, inv.tail_at)

  pub Move-ordered :
      {m' : Shared A} {p p' : Pc A}
      → Move capacity m p m' p'
      → length m'.entered < 2 ^ 63
      → IsFresh capacity m p
      → m'.queue.head ≤ m'.queue.tail
  Move-ordered (win_tail {item} g) few own =
      omega (arith, inv.tail_at, inv.ordered, g, length-append m.entered (item ∷ []))
  Move-ordered (win_head {pos} g) few own =
      ground (arith, inv.published pos, inv.tail_at, inv.ordered)
  Move-ordered mv few own = omega (arith, inv.ordered)

  pub Move-small :
      {m' : Shared A} {p p' : Pc A}
      → Move capacity m p m' p'
      → (k : ℕ) → (m'.queue.slots k).sequence < 2 ^ 64
  Move-small (publish_slot {pos}) k = ground (arith, inv.small k)
  Move-small (store_item {item} {pos}) k = ground (arith, inv.small k, inv.small (pos % capacity))
  Move-small (move_item rest {pos}) k = ground (arith, inv.small k, inv.small (pos % capacity))
  Move-small (retire_slot {pos}) k = ground (arith, inv.small k)
  Move-small mv k = inv.small k

  pub Move-published :
      {m' : Shared A} {p p' : Pc A}
      → Move capacity m p m' p'
      → length m'.entered < 2 ^ 63
      → IsFresh capacity m p
      → (r : ℕ) → (slot capacity m' r).sequence ≡ r + 1
      → (r < m'.queue.tail)
        × (m'.queue.head ≤ r → get_elem? m'.entered r ≡ some (slot capacity m' r).item)
  Move-published (win_tail {item} g) few own r e = ground (
    arith,
    inv.published r,
    inv.tail_at,
    inv.few,
    get_elem?-append_old m.entered item r (slot capacity m r).item,
  )
  Move-published (store_item {item} {pos}) few own r e =
      ground (arith, inv.published r, next_apart capacity c r pos)
  Move-published (publish_slot {pos}) few own r e =
      ground (arith, inv.published r, inv.tail_at, inv.few)
  Move-published (win_head g) few own r e =
      ground (arith, inv.published r, inv.tail_at, inv.few, inv.ordered)
  Move-published (move_item rest {pos}) few own r e = ground (arith, inv.published r)
  Move-published (retire_slot {pos}) few own r e = ground (
    arith,
    inv.published r,
    inv.tail_at,
    inv.few,
    inv.ordered,
    c.addressable,
    round_apart capacity c pos r,
  )
  Move-published mv few own r e = inv.published r e

  pub Move-delivered :
      {m' : Shared A} {p p' : Pc A}
      → Move capacity m p m' p'
      → IsFresh capacity m p
      → All (λ e. get_elem? m'.entered e.0 ≡ some e.1) m'.left
  Move-delivered (win_tail {item} g) own =
      All-append_old capacity m.entered item m.left inv.delivered
  Move-delivered retire_slot own = (own.2, inv.delivered)
  Move-delivered mv own = inv.delivered
