-- ===== src/Queue/Mpmc/Concurrent/Ring.antt =====
-- The slots that a producer may claim next: each carries the number of its next round, unless a
-- consumer is still taking the item of the last one out of it.
use native.Mathlib.Nat.{add-mod_right}
use native.Mathlib.Decide.{ℕ_discrete}
use mmo_server.Common.{
  ℕ, update_ne, ◌+◌, ◌-◌, ◌%◌, ◌^◌, ◌≤◌, ◌<◌, ◌≡◌, ◌≢◌, refl, sym, ap, ◌∙◌, ◌⊎◌, inl, inr, update,
  none, some, arith,
}
use mmo_server.Queue.{wrap, IsCapacity}
use mmo_server.Queue.Window.{window-ne}
use mmo_server.Queue.Mpmc.Concurrent.{
  Shared, Pc, slot, Move, win_tail, store_item, publish_slot, win_head, move_item, retire_slot,
}
use mmo_server.Queue.Mpmc.Concurrent.Invariant.{writes, reads, IsFresh, Inv}
use mmo_server.Queue.Mpmc.Concurrent.Tickets.{Move-writes, Move-reads}

-- Two positions of one window that share a slot are the same.
pub same_place :
    (capacity h p q : ℕ)
    → h ≤ p
    → p < h + capacity
    → h ≤ q
    → q < h + capacity
    → p % capacity ≡ q % capacity
    → p ≡ q
same_place capacity h p q lp hp lq hq e = omega (
  arith,
  lp,
  lq,
  window-ne capacity h (p - h) (q - h) (omega (arith, lp, hp)) (omega (arith, lq, hq)) (
      ap (λ (k : ℕ). k % capacity) (omega (arith, lp))
      ∙ e
      ∙ ap (λ (k : ℕ). k % capacity) (omega (arith, lq))),
)

module _ {A : Type 0} (capacity : ℕ) where
  pub record Ring (m : Shared A) (pc : ℕ → Pc A) : Type 0 where
    pub unread : (i r : ℕ) → writes (pc i) ≡ some r → m.queue.head ≤ r
    pub held : (i q : ℕ) → reads (pc i) ≡ some q → m.queue.tail ≤ q + capacity
    pub bounded : m.queue.tail ≤ m.queue.head + capacity
    pub free :
        (pos : ℕ)
        → m.queue.tail ≤ pos
        → pos < m.queue.head + capacity
        → ((slot capacity m pos).sequence ≡ pos)
          ⊎ ((i : ℕ) × (q : ℕ) × (reads (pc i) ≡ some q) × (q + capacity ≡ pos))

  pub writes-sequence :
      (m : Shared A) (p : Pc A) (r : ℕ)
      → IsFresh capacity m p
      → writes p ≡ some r
      → (slot capacity m r).sequence ≡ r
  writes-sequence m p r own e = ground arith

  reads-sequence :
      (m : Shared A) (p : Pc A) (r : ℕ)
      → IsFresh capacity m p
      → reads p ≡ some r
      → (slot capacity m r).sequence ≡ r + 1
  reads-sequence m p r own e = ground arith

  pub Move-heads :
      {m m' : Shared A} {p p' : Pc A}
      → Move capacity m p m' p'
      → m.queue.head < 2 ^ 63
      → IsFresh capacity m p
      → (m'.queue.head ≡ m.queue.head)
        ⊎ ((m'.queue.head ≡ m.queue.head + 1)
            × ((slot capacity m m.queue.head).sequence ≡ m.queue.head + 1)
            × (m'.queue.tail ≡ m.queue.tail)
            × (writes p' ≡ none)
            × (reads p' ≡ some m.queue.head))
  Move-heads (win_head g) low own = inr (ground arith)
  Move-heads mv low own = inl refl

  pub Move-tails :
      {m m' : Shared A} {p p' : Pc A}
      → Move capacity m p m' p'
      → m.queue.tail < 2 ^ 63
      → IsFresh capacity m p
      → (m'.queue.tail ≡ m.queue.tail)
        ⊎ ((m'.queue.tail ≡ m.queue.tail + 1)
            × ((slot capacity m m.queue.tail).sequence ≡ m.queue.tail)
            × (m'.queue.head ≡ m.queue.head)
            × (reads p' ≡ none))
  Move-tails (win_tail g) low own = inr (ground arith)
  Move-tails mv low own = inl refl

  -- A sequence number changes when its producer publishes the slot or its consumer hands it on.
  pub Move-sequences :
      {m m' : Shared A} {p p' : Pc A}
      → Move capacity m p m' p'
      → (k : ℕ)
      → ((m'.queue.slots k).sequence ≡ (m.queue.slots k).sequence)
        ⊎ (((r : ℕ) × (writes p ≡ some r) × (r % capacity ≡ k))
            ⊎ ((q : ℕ) × (reads p ≡ some q)
                × (q % capacity ≡ k)
                × ((m'.queue.slots k).sequence ≡ wrap (q + capacity))))
  Move-sequences (publish_slot {pos}) k = elim (ℕ_discrete (pos % capacity) k) [
    | yes e ↦ inr (inl (pos, refl, e))
    | no ne ↦ inl (ground arith)
  ]
  Move-sequences (retire_slot {pos}) k = elim (ℕ_discrete (pos % capacity) k) [
    | yes e ↦ inr (inr (pos, refl, e, ground arith))
    | no ne ↦ inl (ground arith)
  ]
  Move-sequences (store_item {item} {pos}) k = inl (ground arith)
  Move-sequences (move_item rest {pos}) k = inl (ground arith)
  Move-sequences mv k = inl refl

  pub Move-handed_on :
      {m m' : Shared A} {p p' : Pc A}
      → Move capacity m p m' p'
      → (q : ℕ) → reads p ≡ some q
      → (reads p' ≡ some q) ⊎ ((slot capacity m' q).sequence ≡ wrap (q + capacity))
  Move-handed_on (move_item rest) q e = inl e
  Move-handed_on (retire_slot {pos} {out}) q e = inr (ground arith)
  Move-handed_on mv q e = cc

module _ {A : Type 0} (capacity : ℕ) (c : IsCapacity capacity) {m : Shared A} {pc : ℕ → Pc A}
    (inv : Inv capacity m pc) (ring : Ring capacity m pc) (i : ℕ) {m' : Shared A} {p' : Pc A}
    (mv : Move capacity m (pc i) m' p') where
  low : m.queue.tail < 2 ^ 63
  low = omega (arith, inv.tail_at, inv.few)

  -- The slot of the tail is not that of the item a consumer takes out, nor that of the head when the
  -- queue is full, since it carries the tail.
  tail_free :
      (q : ℕ)
      → (slot capacity m m.queue.tail).sequence ≡ m.queue.tail
      → ((slot capacity m q).sequence ≡ q + 1) ⊎ ((slot capacity m q).sequence ≡ q)
      → m.queue.tail ≢ q + capacity
  tail_free q seq at e =
      let same : (slot capacity m m.queue.tail).sequence ≡ (slot capacity m q).sequence =
        ap (λ (k : ℕ). (m.queue.slots k).sequence)
          (ap (λ (k : ℕ). k % capacity) e ∙ add-mod_right q capacity) in
      elim at [
        | inl next ↦ omega (arith, same, seq, next, e, c.at_least_two)
        | inr here ↦ omega (arith, same, seq, here, e, c.at_least_two)
      ]

  pub Move-unread : (j r : ℕ) → writes (update pc i p' j) ≡ some r → m'.queue.head ≤ r
  Move-unread j r e =
      elim (Move-heads capacity mv (omega (arith, inv.ordered, low)) (inv.fresh i)) [
        | inl same ↦ elim (ℕ_discrete i j) [
          | yes here ↦ elim (Move-writes capacity mv r (ground (arith, here, e))) [
            | inl old ↦ omega (arith, same, ring.unread i r old)
            | inr new ↦ omega (arith, same, new, inv.ordered)
          ]
          | no ne ↦
              omega (arith, same, ring.unread j r (ap writes (sym (update_ne pc i j p' ne)) ∙ e))
        ]
        | inr (next, taken, _, gone, _) ↦ elim (ℕ_discrete i j) [
          | yes here ↦ absurd (ground (arith, here, e, gone))
          | no ne ↦
              let e' : writes (pc j) ≡ some r = ap writes (sym (update_ne pc i j p' ne)) ∙ e in
              elim (ℕ_discrete m.queue.head r) [
                | yes at ↦ absurd (
                    omega (
                      arith,
                      taken,
                      at,
                      writes-sequence capacity m (pc j) r (inv.fresh j) e',
                      ap (λ (k : ℕ). (slot capacity m k).sequence) at,
                    ))
                | no apart ↦ omega (arith, next, apart, ring.unread j r e')
              ]
        ]
      ]

  pub Move-bounded : m'.queue.tail ≤ m'.queue.head + capacity
  Move-bounded = elim (Move-tails capacity mv low (inv.fresh i)) [
    | inl same ↦ elim (Move-heads capacity mv (omega (arith, inv.ordered, low)) (inv.fresh i)) [
      | inl still ↦ omega (arith, same, still, ring.bounded)
      | inr (next, _, _, _, _) ↦ omega (arith, same, next, ring.bounded)
    ]
    | inr (more, seq, still, _) ↦ elim (ℕ_discrete m.queue.tail (m.queue.head + capacity)) [
      | no ne ↦ omega (arith, more, still, ne, ring.bounded)
      | yes full ↦ absurd (
          tail_free m.queue.head seq
            (elim (inv.waiting m.queue.head (omega (arith, full, c.at_least_two)) (omega arith)) [
              | inl e ↦ inl e
              | inr (j, e) ↦ inr (writes-sequence capacity m (pc j) m.queue.head (inv.fresh j) e)
            ])
            full)
    ]
  ]

  still_held : (j q : ℕ) → reads (pc j) ≡ some q → m'.queue.tail ≤ q + capacity
  still_held j q e = elim (Move-tails capacity mv low (inv.fresh i)) [
    | inl same ↦ omega (arith, same, ring.held j q e)
    | inr (more, seq, still, _) ↦ elim (ℕ_discrete m.queue.tail (q + capacity)) [
      | no ne ↦ omega (arith, more, ne, ring.held j q e)
      | yes full ↦
          absurd (tail_free q seq (inl (reads-sequence capacity m (pc j) q (inv.fresh j) e)) full)
    ]
  ]

  pub Move-held : (j q : ℕ) → reads (update pc i p' j) ≡ some q → m'.queue.tail ≤ q + capacity
  Move-held j q e = elim (ℕ_discrete i j) [
    | no ne ↦ still_held j q (ap reads (sym (update_ne pc i j p' ne)) ∙ e)
    | yes here ↦
        let e' : reads p' ≡ some q = ground (arith, here, e) in
        elim (Move-reads capacity mv q e') [
          | inl old ↦ still_held i q old
          | inr new ↦ elim (Move-tails capacity mv low (inv.fresh i)) [
            | inl same ↦ omega (arith, same, new, ring.bounded)
            | inr (_, _, _, gone) ↦ absurd (ground (arith, e', gone))
          ]
        ]
  ]
