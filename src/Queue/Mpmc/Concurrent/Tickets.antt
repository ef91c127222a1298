-- ===== src/Queue/Mpmc/Concurrent/Tickets.antt =====
-- A move keeps the account of the positions: who has one, and which have been answered.
use native.Mathlib.Decide.{dec_lt, ℕ_discrete}
use mmo_server.Common.{
  ℕ, suc, ◌^◌, ◌≤◌, ◌<◌, ◌≡◌, ◌≢◌, refl, sym, ◌∙◌, ◌⊎◌, inl, inr, subst, update, Option, none, some,
  arith,
}
use mmo_server.Queue.Mpmc.Concurrent.{
  Shared, Pc, answers, Move, win_tail, store_item, win_head, move_item, retire_slot,
}
use mmo_server.Queue.Mpmc.Concurrent.Invariant.{writes, reads, IsFresh, Inv}

module _ {A : Type 0} (capacity : ℕ) where
  pub writes-lt :
      (m : Shared A) (p : Pc A) (r : ℕ)
      → IsFresh capacity m p
      → writes p ≡ some r
      → r < m.queue.tail
  writes-lt m p r own e = ground arith

  pub reads-lt :
      (m : Shared A) (p : Pc A) (r : ℕ) → IsFresh capacity m p → reads p ≡ some r → r < m.queue.head
  reads-lt m p r own e = ground arith

  pub Move-writes :
      {m m' : Shared A} {p p' : Pc A}
      → Move capacity m p m' p'
      → (r : ℕ) → writes p' ≡ some r
      → (writes p ≡ some r) ⊎ (r ≡ m.queue.tail)
  Move-writes (win_tail g) r e = inr (ground arith)
  Move-writes store_item r e = inl e
  Move-writes mv r e = cc

  pub Move-reads :
      {m m' : Shared A} {p p' : Pc A}
      → Move capacity m p m' p'
      → (r : ℕ) → reads p' ≡ some r
      → (reads p ≡ some r) ⊎ (r ≡ m.queue.head)
  Move-reads (win_head g) r e = inr (ground arith)
  Move-reads (move_item rest) r e = inl e
  Move-reads mv r e = cc

  -- Only the consumer that has the position answers for it, and then it gives the position up.
  Move-answers :
      {m m' : Shared A} {p p' : Pc A}
      → Move capacity m p m' p'
      → (r : ℕ)
      → (answers r m'.left ≡ answers r m.left)
        ⊎ ((reads p ≡ some r) × (answers r m'.left ≡ suc (answers r m.left)) × (reads p' ≡ none))
  Move-answers (retire_slot {pos} {out}) r = elim (ℕ_discrete pos r) [
    | yes e ↦ inr (ground arith)
    | no ne ↦ inl (ground arith)
  ]
  Move-answers mv r = inl refl

  Move-reads_kept :
      {m m' : Shared A} {p p' : Pc A}
      → Move capacity m p m' p'
      → (r : ℕ) → reads p ≡ some r
      → (reads p' ≡ some r) ⊎ (answers r m'.left ≡ suc (answers r m.left))
  Move-reads_kept (move_item rest) r e = inl e
  Move-reads_kept (retire_slot {pos} {out}) r e = inr (ground arith)
  Move-reads_kept mv r e = cc

  pub Move-head :
      {m m' : Shared A} {p p' : Pc A}
      → Move capacity m p m' p'
      → m.queue.head < 2 ^ 63
      → (m.queue.head ≤ m'.queue.head)
        × ((r : ℕ) → r < m'.queue.head → (r < m.queue.head) ⊎ (reads p' ≡ some r))
  Move-head {m} (win_head g) low = (
    omega arith,
    λ r h. elim (dec_lt r m.queue.head) [ yes old ↦ inl old | no new ↦ inr (ground arith) ],
  )
  Move-head mv low = (omega arith, λ r h. inl h)

module _ {A : Type 0} (capacity : ℕ) {m : Shared A} {pc : ℕ → Pc A} (inv : Inv capacity m pc)
    (i : ℕ) {m' : Shared A} {p' : Pc A} (mv : Move capacity m (pc i) m' p') where
  owners_apart :
      (holds : Pc A → Option ℕ)
      → ((a b r : ℕ) → holds (pc a) ≡ some r → holds (pc b) ≡ some r → a ≡ b)
      → ((b r : ℕ) → i ≢ b → holds p' ≡ some r → holds (pc b) ≢ some r)
      → (a b r : ℕ) → holds (update pc i p' a) ≡ some r
      → holds (update pc i p' b) ≡ some r
      → a ≡ b
  owners_apart holds one new a b r ea eb = ground (arith, one a b r, new b r, new a r)

  pub Move-one_writer :
      (a b r : ℕ) → writes (update pc i p' a) ≡ some r → writes (update pc i p' b) ≡ some r → a ≡ b
  Move-one_writer = owners_apart writes inv.one_writer λ b r ne e e'.
      elim (Move-writes capacity mv r e) [
        | inl old ↦ ne (inv.one_writer i b r old e')
        | inr new ↦ absurd (omega (arith, writes-lt capacity m (pc b) r (inv.fresh b) e'))
      ]

  pub Move-one_reader :
      (a b r : ℕ) → reads (update pc i p' a) ≡ some r → reads (update pc i p' b) ≡ some r → a ≡ b
  Move-one_reader = owners_apart reads inv.one_reader λ b r ne e e'.
      elim (Move-reads capacity mv r e) [
        | inl old ↦ ne (inv.one_reader i b r old e')
        | inr new ↦ absurd (omega (arith, reads-lt capacity m (pc b) r (inv.fresh b) e'))
      ]

  low : m.queue.head < 2 ^ 63
  low = omega (arith, inv.ordered, inv.tail_at, inv.few)

  pub Move-unanswered : (r : ℕ) → m'.queue.head ≤ r → answers r m'.left ≡ 0
  Move-unanswered r h = elim (Move-answers capacity mv r) [
    | inl same ↦ same ∙ inv.unanswered r (omega (arith, (Move-head capacity mv low).0))
    | inr (e, _, _) ↦
        absurd (
          omega
            (arith, (Move-head capacity mv low).0, reads-lt capacity m (pc i) r (inv.fresh i) e))
  ]

  pub Move-reading : (a r : ℕ) → reads (update pc i p' a) ≡ some r → answers r m'.left ≡ 0
  Move-reading a r e = elim (Move-answers capacity mv r) [
    | inl same ↦ same ∙ elim (ℕ_discrete i a) [
      | yes here ↦ elim (Move-reads capacity mv r (ground arith)) [
        | inl old ↦ inv.reading i r old
        | inr new ↦ inv.unanswered r (omega arith)
      ]
      | no ne ↦ inv.reading a r (ground arith)
    ]
    | inr (mine, _, given_up) ↦ elim (ℕ_discrete i a) [
      | yes here ↦ absurd (ground arith)
      | no ne ↦ absurd (ne (inv.one_reader i a r mine (ground arith)))
    ]
  ]

  pub Move-accounted :
      (r : ℕ)
      → r < m'.queue.head
      → (answers r m'.left ≡ 1) ⊎ ((j : ℕ) × (reads (update pc i p' j) ≡ some r))
  Move-accounted r h = elim ((Move-head capacity mv low).1 r h) [
    | inr new ↦ inr (i, ground arith)
    | inl old ↦ elim (inv.accounted r old) [
      | inl done ↦ elim (Move-answers capacity mv r) [
        | inl same ↦ inl (same ∙ done)
        | inr (mine, _, _) ↦ absurd (omega (arith, inv.reading i r mine))
      ]
      | inr (j, e) ↦ elim (ℕ_discrete i j) [
        | yes here ↦
            elim (Move-reads_kept capacity mv r (subst (λ k. reads (pc k) ≡ some r) (sym here) e)) [
              | inl kept ↦ inr (i, ground arith)
              | inr answered ↦ inl (omega (arith, answered, inv.reading j r e))
            ]
        | no ne ↦ inr (j, ground arith)
      ]
    ]
  ]
