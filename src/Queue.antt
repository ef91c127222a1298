-- ===== src/Queue.antt =====
-- infrastructure/lockfree_queue: the slots, sequence numbers and counters that MPMCQueue and
-- MPSCQueue share. Sequence numbers are `std::uint64_t` and wrap; a capacity is a power of two, so
-- `pos & (Capacity - 1)` is `pos % capacity`, and it divides 2 ^ 64.
pub mod Fifo
pub mod Window
pub mod Mpmc
pub mod Mpsc
mod Tests
use mmo_server.Common.{
  ℕ, zero, suc, ◌+◌, ◌-◌, ◌*◌, ◌%◌, ◌^◌, ◌≤◌, ◌<◌, ◌≡◌, Bool, List, [], ◌∷◌, ltb, ◌==◌,
  if◌then◌else◌, update,
}

abbrev pub wrap : ℕ → ℕ
wrap n = n % 2 ^ 64

-- What the `static_assert`s and the size of an array in memory give.
pub record IsCapacity (capacity : ℕ) : Type 0 where
  pub rounds : ℕ
  pub divides : rounds * capacity ≡ 2 ^ 64
  pub at_least_two : 2 ≤ capacity
  pub addressable : capacity ≤ 2 ^ 62

-- `QueueSlot<T>`
pub record QueueSlot {ℓ} (A : Type ℓ) : Type ℓ where
  pub sequence : ℕ
  pub item : A

-- The members of a queue: `m_slots`, the position of the next dequeue (`m_head`, `m_dequeuePos`)
-- and that of the next enqueue (`m_tail`, `m_enqueuePos`).
pub record Queue {ℓ} (A : Type ℓ) : Type ℓ where
  pub slots : ℕ → QueueSlot A
  pub head : ℕ
  pub tail : ℕ

-- How a slot's sequence number stands to the one that is expected: `diff == 0`, `diff < 0` for the
-- difference of the two read as signed, or `diff > 0`.
pub data Probe : Type 0 where
  ready behind ahead : Probe

unfoldable pub probe : ℕ → ℕ → Probe
probe seq expected =
    let diff = wrap (seq + 2 ^ 64 - expected) in
    if diff == 0 then ready else if ltb diff (2 ^ 63) then ahead else behind

-- The loop of both constructors: slot `i` gets sequence number `i`, with `n` rounds left.
unfoldable pub init_slots {ℓ} : {A : Type ℓ} → ℕ → ℕ → (ℕ → QueueSlot A) → ℕ → QueueSlot A
init_slots zero i slots = slots
init_slots (suc n) i slots =
    init_slots n (i + 1) (update slots i (record (slots i) { sequence = wrap i }))

-- `storage{}` is the default value of the item's type.
unfoldable pub construct {ℓ} : {A : Type ℓ} → ℕ → A → Queue A
unfolding init_slots
construct capacity default_item = record {
  slots = init_slots capacity 0 (λ _. record { sequence = 0; item = default_item });
  head = 0;
  tail = 0;
}

module _ {ℓ} {A : Type ℓ} (capacity : ℕ) where
  -- What an enqueue that has won its position does: the item is stored, then the slot is published.
  unfoldable pub publish : Queue A → A → ℕ → Queue A
  publish q item pos = record q {
    tail = wrap (pos + 1);
    slots = update q.slots (pos % capacity) (record { sequence = wrap (pos + 1); item = item });
  }

  -- What a dequeue that has won its position does: the item is taken, then the slot is handed on to the
  -- enqueue one round later.
  unfoldable pub retire : Queue A → ℕ → Queue A
  retire q pos = record q {
    head = wrap (pos + 1);
    slots =
        update q.slots (pos % capacity)
          (record (q.slots (pos % capacity)) { sequence = wrap (pos + capacity) });
  }
