-- ===== src/Queue/Mpsc/Concurrent.antt =====
-- MPSCQueue between threads: any number of producers in Enqueue and one consumer in Dequeue, one move
-- an access to shared memory. A thread that does both counts as a producer and as the consumer. The
-- shared memory and what is recorded beside it are those of MPMCQueue.
pub mod Simulation
pub mod Order
mod Tests
use mmo_server.Common.{ℕ, zero, suc, ◌+◌, ◌%◌, ◌^◌, ◌≡◌, ◌≢◌, List, [], ◌∷◌, ◌++◌, update}
use mmo_server.Queue.{wrap, QueueSlot, Queue, Probe, probe, construct}
use mmo_server.Queue.Mpmc.Concurrent.{Shared, slot, set_slot}

pub data Producer {ℓ} (A : Type ℓ) : Type ℓ where
  outside : Producer A
  enqueuing : (item : A) (pos : ℕ) → Producer A  -- before the load of the slot's sequence number
  claiming : (item : A) (pos : ℕ) → Producer A  -- before the compare-exchange of m_enqueuePos
  reloading : (item : A) → Producer A
  storing : (item : A) (pos : ℕ) → Producer A
  publishing : (pos : ℕ) → Producer A

pub data Consumer {ℓ} (A : Type ℓ) : Type ℓ where
  outside : Consumer A
  dequeuing : (pos : ℕ) → Consumer A  -- before the load of the slot's sequence number
  moving : (pos : ℕ) → Consumer A
  retiring : (pos : ℕ) (out : A) → Consumer A  -- before the store of the slot's sequence number
  advancing : (pos : ℕ) → Consumer A  -- before the store of m_dequeuePos

module _ {ℓ} {A : Type ℓ} (capacity : ℕ) where
  pub data EnqueueMove (m : Shared A) : Producer A → Shared A → Producer A → Type ℓ where
    load_position :
        (item : A) → EnqueueMove m Producer.outside m (Producer.enqueuing item m.queue.tail)
    see_free :
        {item : A} {pos : ℕ}
        → probe (slot capacity m pos).sequence pos ≡ Probe.ready
        → EnqueueMove m (Producer.enqueuing item pos) m (Producer.claiming item pos)
    see_full :
        {item : A} {pos : ℕ}
        → probe (slot capacity m pos).sequence pos ≡ Probe.behind
        → EnqueueMove m (Producer.enqueuing item pos) m Producer.outside
    see_claimed :
        {item : A} {pos : ℕ}
        → probe (slot capacity m pos).sequence pos ≡ Probe.ahead
        → EnqueueMove m (Producer.enqueuing item pos) m (Producer.reloading item)
    reload_position :
        {item : A}
        → EnqueueMove m (Producer.reloading item) m (Producer.enqueuing item m.queue.tail)
    win_position :
        {item : A} {pos : ℕ}
        → m.queue.tail ≡ pos
        → EnqueueMove m
            (Producer.claiming item pos)
            (record m {
              queue = record m.queue { tail = wrap (pos + 1) };
              entered = m.entered ++ item ∷ [];
            })
            (Producer.storing item pos)
    lose_position :
        {item : A} {pos : ℕ}
        → EnqueueMove m (Producer.claiming item pos) m (Producer.enqueuing item m.queue.tail)
    store_item :
        {item : A} {pos : ℕ}
        → EnqueueMove m
            (Producer.storing item pos)
            (record m {
              queue = set_slot capacity m pos (record (slot capacity m pos) { item = item });
            })
            (Producer.publishing pos)
    publish_slot :
        {pos : ℕ}
        → EnqueueMove m
            (Producer.publishing pos)
            (record m {
              queue =
                  set_slot capacity m pos
                    (record (slot capacity m pos) { sequence = wrap (pos + 1) });
            })
            Producer.outside

  -- Dequeue makes one attempt, and no compare-exchange.
  pub data DequeueMove (m : Shared A) : Consumer A → Shared A → Consumer A → Type ℓ where
    load_position : DequeueMove m Consumer.outside m (Consumer.dequeuing m.queue.head)
    see_item :
        {pos : ℕ}
        → probe (slot capacity m pos).sequence (wrap (pos + 1)) ≡ Probe.ready
        → DequeueMove m (Consumer.dequeuing pos) m (Consumer.moving pos)
    see_nothing :
        {pos : ℕ}
        → probe (slot capacity m pos).sequence (wrap (pos + 1)) ≢ Probe.ready
        → DequeueMove m (Consumer.dequeuing pos) m Consumer.outside
    move_item :
        (rest : A) {pos : ℕ}
        → DequeueMove m
            (Consumer.moving pos)
            (record m {
              queue = set_slot capacity m pos (record (slot capacity m pos) { item = rest });
            })
            (Consumer.retiring pos (slot capacity m pos).item)
    retire_slot :
        {pos : ℕ} {out : A}
        → DequeueMove m
            (Consumer.retiring pos out)
            (record m {
              queue =
                  set_slot capacity m pos
                    (record (slot capacity m pos) { sequence = wrap (pos + capacity) });
              left = (pos, out) ∷ m.left;
            })
            (Consumer.advancing pos)
    store_position :
        {pos : ℕ}
        → DequeueMove m
            (Consumer.advancing pos)
            (record m { queue = record m.queue { head = wrap (pos + 1) } })
            Consumer.outside

pub record System {ℓ} (A : Type ℓ) : Type ℓ where
  pub mem : Shared A
  pub producers : ℕ → Producer A
  pub consumer : Consumer A

module _ {ℓ} {A : Type ℓ} (capacity : ℕ) where
  pub data Step (s : System A) : System A → Type ℓ where
    produces :
        (i : ℕ) {m : Shared A} {p : Producer A}
        → EnqueueMove capacity s.mem (s.producers i) m p
        → Step s (record s { mem = m; producers = update s.producers i p })
    consumes :
        {m : Shared A} {p : Consumer A}
        → DequeueMove capacity s.mem s.consumer m p
        → Step s (record s { mem = m; consumer = p })

  -- A fresh queue, with every thread outside of it.
  unfoldable pub init : A → System A
  init default_item = record {
    mem = record { queue = construct capacity default_item; entered = []; left = [] };
    producers = λ _. Producer.outside;
    consumer = Consumer.outside;
  }

  pub data Reach (default_item : A) : System A → Type ℓ where
    start : Reach default_item (init default_item)
    later : {s t : System A} → Reach default_item s → Step s t → Reach default_item t
