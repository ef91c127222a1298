-- ===== src/Queue/Mpmc/Concurrent/Safety.antt =====
-- What holds in every reachable state of an MPMCQueue between threads, while fewer than 2 ^ 63 items
-- have been entered.
use native.Mathlib.Decide.{dec_lt}
use native.Mathlib.Nat.{mod-lt, mod-le}
use mmo_server.Common.{
  ℕ, ◌+◌, ◌%◌, ◌^◌, ◌≤◌, ◌<◌, ◌≡◌, refl, ◌∙◌, ◌⊎◌, inl, inr, if◌then◌else◌, some, length, get_elem?,
  arith, All, ltb,
}
use mmo_server.Queue.{wrap, IsCapacity, construct}
use mmo_server.Queue.Window.{init_slots-sequence}
use mmo_server.Queue.Mpmc.Concurrent.{
  Shared, Pc, slot, answers, System, Step, pick, init, Reach, start, later,
}
use mmo_server.Queue.Mpmc.Concurrent.Invariant.{writes, reads, owns, IsFresh, Inv}
use mmo_server.Queue.Mpmc.Concurrent.Frame.{next_apart}
use mmo_server.Queue.Mpmc.Concurrent.Moves.{Move-IsFresh}
use mmo_server.Queue.Mpmc.Concurrent.Memory.{
  Move-entered, Move-tail_at, Move-ordered, Move-small, Move-published, Move-delivered,
}
use mmo_server.Queue.Mpmc.Concurrent.Tickets.{
  Move-one_writer, Move-one_reader, Move-unanswered, Move-reading, Move-accounted,
}
use mmo_server.Queue.Mpmc.Concurrent.Waiting.{Move-waiting}

module _ {A : Type 0} {capacity : ℕ} (c : IsCapacity capacity) where
  pub construct-sequence :
      (d : A) (k : ℕ)
      → ((construct capacity d).slots k).sequence ≡ (if ltb k capacity then wrap k else 0)
  unfolding construct
  construct-sequence d k = init_slots-sequence capacity 0 _ k ∙ ground arith

  init-Inv : (d : A) → Inv capacity (init capacity d).mem (init capacity d).pc
  unfolding init construct
  init-Inv d = record {
    few = omega arith;
    tail_at = refl;
    ordered = omega arith;
    small = λ k. ground (arith, construct-sequence d k);
    published = λ pos e. absurd (
        ground (
          arith,
          construct-sequence d (pos % capacity),
          mod-lt pos {m = capacity} (omega (arith, c.at_least_two)),
          mod-le pos capacity,
          c.at_least_two,
        ));
    fresh = λ i. tt;
    one_writer = λ i j pos e. cc;
    one_reader = λ i j pos e. cc;
    unanswered = λ pos h. refl;
    reading = λ i pos e. refl;
    accounted = λ pos h. absurd (omega arith);
    waiting = λ pos h. absurd (omega arith);
    delivered = tt;
  }

  Step-Inv :
      {s t : System A}
      → Inv capacity s.mem s.pc
      → Step capacity s t
      → length t.mem.entered < 2 ^ 63
      → Inv capacity t.mem t.pc
  Step-Inv inv (pick i mv) few = record {
    few = few;
    tail_at = Move-tail_at capacity c inv mv few;
    ordered = Move-ordered capacity c inv mv few (inv.fresh i);
    small = Move-small capacity c inv mv;
    published = Move-published capacity c inv mv few (inv.fresh i);
    fresh = Move-IsFresh capacity c inv i mv few;
    one_writer = Move-one_writer capacity inv i mv;
    one_reader = Move-one_reader capacity inv i mv;
    unanswered = Move-unanswered capacity inv i mv;
    reading = Move-reading capacity inv i mv;
    accounted = Move-accounted capacity inv i mv;
    waiting = Move-waiting capacity c inv i mv few;
    delivered = Move-delivered capacity c inv mv (inv.fresh i);
  }

  pub Reach-Inv :
      {d : A} {s : System A}
      → Reach capacity d s
      → length s.mem.entered < 2 ^ 63
      → Inv capacity s.mem s.pc
  Reach-Inv start few = init-Inv _
  Reach-Inv (later r (pick i mv)) few =
      Step-Inv (Reach-Inv r (omega (arith, Move-entered capacity mv))) (pick i mv) few

  reads-owns : (p : Pc A) (pos : ℕ) → reads p ≡ some pos → owns p ≡ some pos
  reads-owns p pos e = ground arith

  writes-owns : (p : Pc A) (pos : ℕ) → writes p ≡ some pos → owns p ≡ some pos
  writes-owns p pos e = ground arith

  -- A producer's slot still has the number that it waited for, a consumer's the next one.
  owns-cases :
      (m : Shared A) (p : Pc A) (pos : ℕ)
      → IsFresh capacity m p
      → owns p ≡ some pos
      → ((writes p ≡ some pos) × ((slot capacity m pos).sequence ≡ pos))
        ⊎ ((reads p ≡ some pos) × ((slot capacity m pos).sequence ≡ pos + 1))
  owns-cases m (Pc.storing item at) pos own e = inl (ground arith)
  owns-cases m (Pc.publishing at) pos own e = inl (ground arith)
  owns-cases m (Pc.moving at) pos own e = inr (ground arith)
  owns-cases m (Pc.retiring at out) pos own e = inr (ground arith)
  owns-cases m p pos own e = cc

  module _ {d : A} {s : System A} (r : Reach capacity d s)
      (few : length s.mem.entered < 2 ^ 63) where
    inv : Inv capacity s.mem s.pc
    inv = Reach-Inv r few

    -- Every answer of a finished dequeue is the item that entered at the position it won, and no
    -- position is answered twice, whatever the interleaving was.
    pub delivers_once :
        All (λ e. get_elem? s.mem.entered e.0 ≡ some e.1) s.mem.left
        × ((pos : ℕ) → answers pos s.mem.left ≤ 1)
    delivers_once = (
      inv.delivered,
      λ pos. elim (dec_lt pos s.mem.queue.head) [
        | yes won ↦ elim (inv.accounted pos won) [
          | inl once ↦ omega arith
          | inr (i, e) ↦ omega (arith, inv.reading i pos e)
        ]
        | no above ↦ omega (arith, inv.unanswered pos (omega arith))
      ],
    )

    -- Two threads never have the same slot to themselves: no storage is read or written while another
    -- thread stores an item there or takes one out.
    pub exclusive_slot :
        (i j p q : ℕ)
        → owns (s.pc i) ≡ some p
        → owns (s.pc j) ≡ some q
        → p % capacity ≡ q % capacity
        → i ≡ j
    exclusive_slot i j p q ep eq same = elim (owns-cases s.mem (s.pc i) p (inv.fresh i) ep) [
      | inl (wp, sp) ↦ elim (owns-cases s.mem (s.pc j) q (inv.fresh j) eq) [
        | inl (wq, sq) ↦ ground (arith, inv.one_writer i j p)
        | inr (rq, sq) ↦ absurd (ground (arith, next_apart capacity c q p))
      ]
      | inr (rp, sp) ↦ elim (owns-cases s.mem (s.pc j) q (inv.fresh j) eq) [
        | inl (wq, sq) ↦ absurd (ground (arith, next_apart capacity c p q))
        | inr (rq, sq) ↦ ground (arith, inv.one_reader i j p)
      ]
    ]

    -- Nothing is lost: an item that has entered has been answered once, or is in the hands of a thread,
    -- or lies published in its slot with its position still to be won by a consumer.
    pub nothing_lost :
        (pos : ℕ)
        → pos < length s.mem.entered
        → (answers pos s.mem.left ≡ 1)
          ⊎ (((i : ℕ) × (owns (s.pc i) ≡ some pos))
              ⊎ ((s.mem.queue.head ≤ pos)
                  × ((slot capacity s.mem pos).sequence ≡ pos + 1)
                  × (get_elem? s.mem.entered pos ≡ some (slot capacity s.mem pos).item)))
    nothing_lost pos in_range = elim (dec_lt pos s.mem.queue.head) [
      | yes won ↦ elim (inv.accounted pos won) [
        | inl once ↦ inl once
        | inr (i, e) ↦ inr (inl (i, reads-owns (s.pc i) pos e))
      ]
      | no above ↦ elim (inv.waiting pos (omega (arith, inv.tail_at)) (omega arith)) [
        | inl e ↦ inr (inr (omega arith, e, (inv.published pos e).1 (omega arith)))
        | inr (i, e) ↦ inr (inl (i, writes-owns (s.pc i) pos e))
      ]
    ]
