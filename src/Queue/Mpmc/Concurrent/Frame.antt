-- ===== src/Queue/Mpmc/Concurrent/Frame.antt =====
-- What a move of one thread leaves true for another.
use mmo_server.Common.{
  ℕ, ◌+◌, ◌-◌, ◌%◌, ◌^◌, ◌≤◌, ◌<◌, ◌≡◌, ◌≢◌, ap, ◌∙◌, List, [], ◌∷◌, ◌++◌, get_elem?-append_old,
  some, arith,
}
use mmo_server.Queue.{wrap, IsCapacity, QueueSlot, Probe, probe}
use mmo_server.Queue.Window.{window-ne}
use mmo_server.Queue.Mpmc.Concurrent.{Shared, Pc, slot, set_slot}
use mmo_server.Queue.Mpmc.Concurrent.Invariant.{writes, reads, IsFresh}

pub probe-ready : (s p : ℕ) → s < 2 ^ 64 → p < 2 ^ 64 → probe s p ≡ Probe.ready → s ≡ p
unfolding probe
probe-ready s p hs hp e = ground arith

module _ (capacity : ℕ) (c : IsCapacity capacity) where
  -- Neighbours do not share a slot, and neither do a position and the one before its next round.
  pub next_apart : (p q : ℕ) → q ≡ p + 1 → p % capacity ≢ q % capacity
  next_apart p q at e = absurd (
      omega (
        arith,
        window-ne capacity p 0 1 (omega (arith, c.at_least_two)) (omega (arith, c.at_least_two))
            (ap (λ (k : ℕ). k % capacity) (omega arith) ∙ e ∙ ap (λ (k : ℕ). k % capacity) at),
      ))

  pub round_apart : (p q : ℕ) → q + 1 ≡ p + capacity → p % capacity ≢ q % capacity
  round_apart p q at e = absurd (
      omega (
        arith,
        c.at_least_two,
        window-ne capacity p 0 (capacity - 1) (omega (arith, c.at_least_two))
            (omega (arith, c.at_least_two))
            (ap (λ (k : ℕ). k % capacity) (omega arith)
              ∙ e
              ∙ ap (λ (k : ℕ). k % capacity) (omega (arith, c.at_least_two))),
      ))

module _ {A : Type 0} (capacity : ℕ) (c : IsCapacity capacity) (m : Shared A) where
  -- A new position at an end of the queue.
  pub IsFresh-win_tail :
      (x : A) (p : Pc A)
      → m.queue.tail + 1 < 2 ^ 64
      → IsFresh capacity m p
      → IsFresh capacity
          (record m {
            queue = record m.queue { tail = wrap (m.queue.tail + 1) };
            entered = m.entered ++ x ∷ [];
          })
          p
  IsFresh-win_tail x (Pc.storing item pos) h f =
      ground (arith, get_elem?-append_old m.entered x pos item)
  IsFresh-win_tail x (Pc.publishing pos) h f =
      ground (arith, get_elem?-append_old m.entered x pos (slot capacity m pos).item)
  IsFresh-win_tail x (Pc.moving pos) h f =
      ground (arith, get_elem?-append_old m.entered x pos (slot capacity m pos).item)
  IsFresh-win_tail x (Pc.retiring pos out) h f =
      ground (arith, get_elem?-append_old m.entered x pos out)
  IsFresh-win_tail x p h f = ground arith

  pub IsFresh-win_head :
      (p : Pc A)
      → m.queue.head + 1 < 2 ^ 64
      → IsFresh capacity m p
      → IsFresh capacity (record m { queue = record m.queue { head = wrap (m.queue.head + 1) } }) p
  IsFresh-win_head p h f = ground arith

  module _ (pos : ℕ) (s : QueueSlot A) where
    -- A write to the slot that a producer has to itself.
    pub IsFresh-store :
        (p : Pc A)
        → (slot capacity m pos).sequence ≡ pos
        → s.sequence ≡ pos
        → writes p ≢ some pos
        → IsFresh capacity m p
        → IsFresh capacity (record m { queue = set_slot capacity m pos s }) p
    IsFresh-store (Pc.publishing r) e same other f = ground (arith, next_apart capacity c r pos)
    IsFresh-store (Pc.moving r) e same other f = ground (arith, next_apart capacity c r pos)
    IsFresh-store p e same other f = ground arith

    pub IsFresh-publish :
        (p : Pc A)
        → pos < m.queue.tail
        → (slot capacity m pos).sequence ≡ pos
        → writes p ≢ some pos
        → IsFresh capacity m p
        → IsFresh capacity (record m { queue = set_slot capacity m pos s }) p
    IsFresh-publish (Pc.taking r) low e other f = ground (arith, next_apart capacity c r pos)
    IsFresh-publish (Pc.moving r) low e other f = ground (arith, next_apart capacity c r pos)
    IsFresh-publish (Pc.retiring r out) low e other f = ground (arith, next_apart capacity c r pos)
    IsFresh-publish p low e other f = ground arith

    -- A write to the slot that a consumer has to itself.
    pub IsFresh-move :
        (p : Pc A)
        → (slot capacity m pos).sequence ≡ pos + 1
        → s.sequence ≡ pos + 1
        → reads p ≢ some pos
        → IsFresh capacity m p
        → IsFresh capacity (record m { queue = set_slot capacity m pos s }) p
    IsFresh-move (Pc.publishing r) e same other f = ground (arith, next_apart capacity c pos r)
    IsFresh-move p e same other f = ground arith

    pub IsFresh-retire :
        (p : Pc A)
        → pos < m.queue.head
        → m.queue.head ≤ m.queue.tail
        → (slot capacity m pos).sequence ≡ pos + 1
        → reads p ≢ some pos
        → IsFresh capacity m p
        → (left : List (ℕ × A))
        → IsFresh capacity (record m { queue = set_slot capacity m pos s; left = left }) p
    IsFresh-retire (Pc.claiming item r) low below e other f left =
        ground (arith, next_apart capacity c pos r)
    IsFresh-retire (Pc.storing item r) low below e other f left =
        ground (arith, next_apart capacity c pos r)
    IsFresh-retire (Pc.publishing r) low below e other f left =
        ground (arith, next_apart capacity c pos r)
    IsFresh-retire p low below e other f left = ground arith
