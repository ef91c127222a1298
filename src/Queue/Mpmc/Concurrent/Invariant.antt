-- ===== src/Queue/Mpmc/Concurrent/Invariant.antt =====
-- What holds of an MPMCQueue between the moves of its threads, while fewer than 2 ^ 63 items have
-- been entered.
use mmo_server.Common.{ℕ, ◌+◌, ◌^◌, ◌≤◌, ◌<◌, ◌≡◌, ◌⊎◌, Option, none, some, length, get_elem?, All}
use mmo_server.Queue.Mpmc.Concurrent.{Shared, Pc, slot, answers}

-- The position whose slot a producer, or a consumer, has to itself.
abbrev pub writes {ℓ} : {A : Type ℓ} → Pc A → Option ℕ
writes (Pc.storing _ pos) = some pos
writes (Pc.publishing pos) = some pos
writes _ = none

abbrev pub reads {ℓ} : {A : Type ℓ} → Pc A → Option ℕ
reads (Pc.moving pos) = some pos
reads (Pc.retiring pos _) = some pos
reads _ = none

abbrev pub owns {ℓ} : {A : Type ℓ} → Pc A → Option ℕ
owns (Pc.storing _ pos) = some pos
owns (Pc.publishing pos) = some pos
owns (Pc.moving pos) = some pos
owns (Pc.retiring pos _) = some pos
owns _ = none

module _ {ℓ} {A : Type ℓ} (capacity : ℕ) where
  -- What the locals of a thread say about shared memory.
  abbrev pub IsFresh : Shared A → Pc A → Type ℓ
  IsFresh m (Pc.enqueuing _ pos) = (pos ≤ m.queue.tail) × Unit {ℓ}
  IsFresh m (Pc.claiming _ pos) =
      (pos ≤ m.queue.tail) × (m.queue.tail ≤ pos → (slot capacity m pos).sequence ≡ pos) × Unit {ℓ}
  IsFresh m (Pc.storing item pos) =
      (pos < m.queue.tail)
      × ((slot capacity m pos).sequence ≡ pos)
      × (get_elem? m.entered pos ≡ some item)
  IsFresh m (Pc.publishing pos) =
      (pos < m.queue.tail)
      × ((slot capacity m pos).sequence ≡ pos)
      × (get_elem? m.entered pos ≡ some (slot capacity m pos).item)
  IsFresh m (Pc.dequeuing pos) = (pos ≤ m.queue.head) × Unit {ℓ}
  IsFresh m (Pc.taking pos) =
      (pos ≤ m.queue.head)
      × (m.queue.head ≤ pos → (slot capacity m pos).sequence ≡ pos + 1)
      × Unit {ℓ}
  IsFresh m (Pc.moving pos) =
      (pos < m.queue.head)
      × ((slot capacity m pos).sequence ≡ pos + 1)
      × (get_elem? m.entered pos ≡ some (slot capacity m pos).item)
  IsFresh m (Pc.retiring pos out) =
      (pos < m.queue.head)
      × ((slot capacity m pos).sequence ≡ pos + 1)
      × (get_elem? m.entered pos ≡ some out)
  IsFresh m _ = Unit

  pub record Inv (m : Shared A) (pc : ℕ → Pc A) : Type ℓ where
    pub few : length m.entered < 2 ^ 63
    pub tail_at : m.queue.tail ≡ length m.entered
    pub ordered : m.queue.head ≤ m.queue.tail
    pub small : (k : ℕ) → (m.queue.slots k).sequence < 2 ^ 64
    pub published :
        (pos : ℕ)
        → (slot capacity m pos).sequence ≡ pos + 1
        → (pos < m.queue.tail)
          × (m.queue.head ≤ pos → get_elem? m.entered pos ≡ some (slot capacity m pos).item)
    pub fresh : (i : ℕ) → IsFresh m (pc i)
    pub one_writer : (i j pos : ℕ) → writes (pc i) ≡ some pos → writes (pc j) ≡ some pos → i ≡ j
    pub one_reader : (i j pos : ℕ) → reads (pc i) ≡ some pos → reads (pc j) ≡ some pos → i ≡ j
    pub unanswered : (pos : ℕ) → m.queue.head ≤ pos → answers pos m.left ≡ 0
    pub reading : (i pos : ℕ) → reads (pc i) ≡ some pos → answers pos m.left ≡ 0
    pub accounted :
        (pos : ℕ)
        → pos < m.queue.head
        → (answers pos m.left ≡ 1) ⊎ ((i : ℕ) × (reads (pc i) ≡ some pos))
    pub waiting :
        (pos : ℕ)
        → pos < m.queue.tail
        → m.queue.head ≤ pos
        → ((slot capacity m pos).sequence ≡ pos + 1) ⊎ ((i : ℕ) × (writes (pc i) ≡ some pos))
    pub delivered : All (λ e. get_elem? m.entered e.0 ≡ some e.1) m.left
