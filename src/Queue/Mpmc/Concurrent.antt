-- ===== src/Queue/Mpmc/Concurrent.antt =====
-- MPMCQueue between threads: one move is one access to shared memory by one thread, in the order of
-- the code of Enqueue and Dequeue. Every load reads the latest store. The answers, and the items in
-- the order in which their producers won a position, are recorded beside the queue.
pub mod Invariant
pub mod Frame
pub mod Moves
pub mod Memory
pub mod Tickets
pub mod Waiting
pub mod Safety
pub mod Ring
pub mod Quiet
pub mod SoloRun
pub mod Solo
mod Tests
use mmo_server.Common.{
  ℕ, zero, suc, ◌+◌, ◌-◌, ◌%◌, ◌^◌, ◌<◌, ◌≡◌, List, [], ◌∷◌, ◌++◌, ◌==◌, if◌then◌else◌, update,
  Option, none, some,
}
use mmo_server.Queue.{wrap, QueueSlot, Queue, Probe, probe, construct}

pub record Shared {ℓ} (A : Type ℓ) : Type ℓ where
  pub queue : Queue A
  pub entered : List A  -- the items whose producers have won a position, oldest first
  pub left : List (ℕ × A)  -- the answers of finished dequeues, each with the position it won

-- Where a thread stands, with the locals `pos` and `item` or `out`.
pub data Pc {ℓ} (A : Type ℓ) : Type ℓ where
  idle : Pc A
  enqueuing : (item : A) (pos : ℕ) → Pc A  -- before the load of the slot's sequence number
  claiming : (item : A) (pos : ℕ) → Pc A  -- before the compare-exchange of m_tail
  reloading_tail : (item : A) → Pc A
  storing : (item : A) (pos : ℕ) → Pc A
  publishing : (pos : ℕ) → Pc A
  dequeuing : (pos : ℕ) → Pc A
  taking : (pos : ℕ) → Pc A  -- before the compare-exchange of m_head
  reloading_head : Pc A
  moving : (pos : ℕ) → Pc A
  retiring : (pos : ℕ) (out : A) → Pc A

module _ {ℓ} {A : Type ℓ} (capacity : ℕ) where
  abbrev pub slot : Shared A → ℕ → QueueSlot A
  slot m pos = m.queue.slots (pos % capacity)

  abbrev pub set_slot : Shared A → ℕ → QueueSlot A → Queue A
  set_slot m pos s = record m.queue { slots = update m.queue.slots (pos % capacity) s }

  -- `compare_exchange_weak` may fail although the counter is the expected one. What a move leaves in
  -- `storage` is up to the item's type.
  pub data Move (m : Shared A) : Pc A → Shared A → Pc A → Type ℓ where
    load_tail : (item : A) → Move m Pc.idle m (Pc.enqueuing item m.queue.tail)
    see_free :
        {item : A} {pos : ℕ}
        → probe (slot m pos).sequence pos ≡ Probe.ready
        → Move m (Pc.enqueuing item pos) m (Pc.claiming item pos)
    see_full :
        {item : A} {pos : ℕ}
        → probe (slot m pos).sequence pos ≡ Probe.behind
        → Move m (Pc.enqueuing item pos) m Pc.idle
    see_claimed :
        {item : A} {pos : ℕ}
        → probe (slot m pos).sequence pos ≡ Probe.ahead
        → Move m (Pc.enqueuing item pos) m (Pc.reloading_tail item)
    reload_tail : {item : A} → Move m (Pc.reloading_tail item) m (Pc.enqueuing item m.queue.tail)
    win_tail :
        {item : A} {pos : ℕ}
        → m.queue.tail ≡ pos
        → Move m
            (Pc.claiming item pos)
            (record m {
              queue = record m.queue { tail = wrap (pos + 1) };
              entered = m.entered ++ item ∷ [];
            })
            (Pc.storing item pos)
    lose_tail :
        {item : A} {pos : ℕ} → Move m (Pc.claiming item pos) m (Pc.enqueuing item m.queue.tail)
    store_item :
        {item : A} {pos : ℕ}
        → Move m
            (Pc.storing item pos)
            (record m { queue = set_slot m pos (record (slot m pos) { item = item }) })
            (Pc.publishing pos)
    publish_slot :
        {pos : ℕ}
        → Move m
            (Pc.publishing pos)
            (record m {
              queue = set_slot m pos (record (slot m pos) { sequence = wrap (pos + 1) });
            })
            Pc.idle
    load_head : Move m Pc.idle m (Pc.dequeuing m.queue.head)
    see_item :
        {pos : ℕ}
        → probe (slot m pos).sequence (wrap (pos + 1)) ≡ Probe.ready
        → Move m (Pc.dequeuing pos) m (Pc.taking pos)
    see_empty :
        {pos : ℕ}
        → probe (slot m pos).sequence (wrap (pos + 1)) ≡ Probe.behind
        → Move m (Pc.dequeuing pos) m Pc.idle
    see_taken :
        {pos : ℕ}
        → probe (slot m pos).sequence (wrap (pos + 1)) ≡ Probe.ahead
        → Move m (Pc.dequeuing pos) m Pc.reloading_head
    reload_head : Move m Pc.reloading_head m (Pc.dequeuing m.queue.head)
    win_head :
        {pos : ℕ}
        → m.queue.head ≡ pos
        → Move m
            (Pc.taking pos)
            (record m { queue = record m.queue { head = wrap (pos + 1) } })
            (Pc.moving pos)
    lose_head : {pos : ℕ} → Move m (Pc.taking pos) m (Pc.dequeuing m.queue.head)
    move_item :
        (rest : A) {pos : ℕ}
        → Move m
            (Pc.moving pos)
            (record m { queue = set_slot m pos (record (slot m pos) { item = rest }) })
            (Pc.retiring pos (slot m pos).item)
    retire_slot :
        {pos : ℕ} {out : A}
        → Move m
            (Pc.retiring pos out)
            (record m {
              queue = set_slot m pos (record (slot m pos) { sequence = wrap (pos + capacity) });
              left = (pos, out) ∷ m.left;
            })
            Pc.idle

pub record System {ℓ} (A : Type ℓ) : Type ℓ where
  pub mem : Shared A
  pub pc : ℕ → Pc A

module _ {ℓ} {A : Type ℓ} (capacity : ℕ) where
  -- Any of the threads makes a move.
  pub data Step (s : System A) : System A → Type ℓ where
    pick :
        (i : ℕ) {m : Shared A} {p : Pc A}
        → Move capacity s.mem (s.pc i) m p
        → Step s (record { mem = m; pc = update s.pc i p })

  -- A fresh queue, with every thread outside of it.
  unfoldable pub init : A → System A
  init default_item = record {
    mem = record { queue = construct capacity default_item; entered = []; left = [] };
    pc = λ _. Pc.idle;
  }

  pub data Reach (default_item : A) : System A → Type ℓ where
    start : Reach default_item (init default_item)
    later : {s t : System A} → Reach default_item s → Step s t → Reach default_item t

-- The answers that a position has had.
abbrev pub answers {ℓ} : {A : Type ℓ} → ℕ → List (ℕ × A) → ℕ
answers pos [] = 0
answers pos (entry ∷ entries) = (if entry.0 == pos then 1 else 0) + answers pos entries
