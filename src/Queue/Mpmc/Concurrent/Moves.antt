-- ===== src/Queue/Mpmc/Concurrent/Moves.antt =====
-- A move of a thread keeps what its own locals and those of the others say about shared memory.
use native.Mathlib.Decide.{ℕ_discrete}
use mmo_server.Common.{
  ℕ, ◌+◌, get_elem?-append_new, ◌%◌, ◌^◌, ◌<◌, ◌≡◌, ◌≢◌, refl, subst, [], ◌∷◌, ◌++◌, update,
  update_self, update_ne, some, length, arith, length-append,
}
use mmo_server.Queue.{wrap, IsCapacity}
use mmo_server.Queue.Mpmc.Concurrent.{
  Shared, Pc, slot, Move, load_tail, see_free, see_full, see_claimed, reload_tail, win_tail,
  lose_tail, store_item, publish_slot, load_head, see_item, see_empty, see_taken, reload_head,
  win_head, lose_head, move_item, retire_slot,
}
use mmo_server.Queue.Mpmc.Concurrent.Invariant.{writes, reads, IsFresh, Inv}
use mmo_server.Queue.Mpmc.Concurrent.Frame.{
  probe-ready, IsFresh-win_tail, IsFresh-win_head, IsFresh-store, IsFresh-publish, IsFresh-move,
  IsFresh-retire,
}

module _ {A : Type 0} (capacity : ℕ) (c : IsCapacity capacity) {m : Shared A} {pc : ℕ → Pc A}
    (inv : Inv capacity m pc) where
  Move-own :
      {m' : Shared A} {p p' : Pc A}
      → Move capacity m p m' p'
      → length m'.entered < 2 ^ 63
      → IsFresh capacity m p
      → IsFresh capacity m' p'
  Move-own (load_tail item) few own = omega arith
  Move-own (see_free {pos} g) few own = ground (
    arith,
    probe-ready (slot capacity m pos).sequence pos,
    inv.small (pos % capacity),
    inv.tail_at,
    inv.few,
  )
  Move-own (see_full g) few own = tt
  Move-own (see_claimed g) few own = tt
  Move-own reload_tail few own = omega arith
  Move-own (win_tail {item} {pos} g) few own = ground (
    arith,
    get_elem?-append_new m.entered item pos,
    length-append m.entered (item ∷ []),
    inv.tail_at,
  )
  Move-own lose_tail few own = omega arith
  Move-own store_item few own = ground arith
  Move-own publish_slot few own = tt
  Move-own load_head few own = omega arith
  Move-own (see_item {pos} g) few own = ground (
    arith,
    probe-ready (slot capacity m pos).sequence (pos + 1),
    inv.small (pos % capacity),
    inv.tail_at,
    inv.few,
    inv.ordered,
  )
  Move-own (see_empty g) few own = tt
  Move-own (see_taken g) few own = tt
  Move-own reload_head few own = omega arith
  Move-own (win_head {pos} g) few own =
      ground (arith, inv.published pos, inv.tail_at, inv.few, inv.ordered)
  Move-own lose_head few own = omega arith
  Move-own (move_item rest) few own = ground arith
  Move-own retire_slot few own = tt

  Move-other :
      {m' : Shared A} {p p' : Pc A}
      → Move capacity m p m' p'
      → length m'.entered < 2 ^ 63
      → IsFresh capacity m p
      → (q : Pc A) → ((pos : ℕ) → writes p ≡ some pos → writes q ≢ some pos)
      → ((pos : ℕ) → reads p ≡ some pos → reads q ≢ some pos)
      → IsFresh capacity m q
      → IsFresh capacity m' q
  Move-other (win_tail {item} {pos} g) few own q apart apart' f =
      subst
        (λ k.
          IsFresh capacity
            (record m {
              queue = record m.queue { tail = wrap (k + 1) };
              entered = m.entered ++ item ∷ [];
            })
            q)
        g (IsFresh-win_tail capacity c m item q (omega (arith, inv.tail_at, inv.few)) f)
  Move-other (store_item {item} {pos}) few own q apart apart' f =
      IsFresh-store capacity c m pos _ q own.1 own.1 (apart pos refl) f
  Move-other (publish_slot {pos}) few own q apart apart' f =
      IsFresh-publish capacity c m pos _ q own.0 own.1 (apart pos refl) f
  Move-other (win_head {pos} g) few own q apart apart' f =
      subst (λ k. IsFresh capacity (record m { queue = record m.queue { head = wrap (k + 1) } }) q)
        g (IsFresh-win_head capacity c m q (omega (arith, inv.tail_at, inv.few, inv.ordered)) f)
  Move-other (move_item rest {pos}) few own q apart apart' f =
      IsFresh-move capacity c m pos _ q own.1 own.1 (apart' pos refl) f
  Move-other (retire_slot {pos} {out}) few own q apart apart' f =
      IsFresh-retire capacity c m pos _ q own.0 inv.ordered own.1 (apart' pos refl) f
        ((pos, out) ∷ m.left)
  Move-other mv few own q apart apart' f = f

  pub Move-IsFresh :
      (i : ℕ) {m' : Shared A} {p' : Pc A}
      → Move capacity m (pc i) m' p'
      → length m'.entered < 2 ^ 63
      → (j : ℕ) → IsFresh capacity m' (update pc i p' j)
  Move-IsFresh i {m'} {p'} mv few j = elim (ℕ_discrete i j) [
    | yes e ↦
        subst (λ k. IsFresh capacity m' (update pc i p' k)) e
          (rw (update_self pc i p') (Move-own mv few (inv.fresh i)))
    | no ne ↦ rw (update_ne pc i j p' ne) (
        Move-other mv few (inv.fresh i) (pc j) (λ pos e e'. ne (inv.one_writer i j pos e e'))
          (λ pos e e'. ne (inv.one_reader i j pos e e')) (inv.fresh j))
  ]
