-- ===== src/Net/Server/Table.antt =====
-- The table of NetServer holds exactly the connections that are still open, each under its own id.
use native.Mathlib.Decide.{ℕ_discrete}
use mmo_server.Common.{
  ℕ, ◌+◌, ◌^◌, ◌≤◌, ◌<◌, ◌≡◌, ◌≢◌, refl, ap, ◌∙◌, true, false, List, [], ◌∷◌, length, count, ◌==◌,
  if◌then◌else◌, update, arith, All, inl, inr, Bool-cases,
}
use mmo_server.Net.{ReceivedPacket}
use mmo_server.Net.Connection
use mmo_server.Net.Connection.{TcpConnection, inbound_queue_capacity, deliver, receive}
use mmo_server.Net.Server.{
  NetServer, erase, remove_connection, disconnect_all, purge, stop, on_accept,
}
use mmo_server.Net.Server.Inbound.{IsMarked, All-IsMarked}

pub record IsValid (s : NetServer) : Type 0 where
  pub issued : (0 < s.next_connection_id) × (s.next_connection_id < 2 ^ 64)
  pub listed :
      (id : ℕ)
      → count id s.connections ≢ 0
      → (0 < id)
        × (id < s.next_connection_id)
        × (count id s.connections ≡ 1)
        × ((s.objects id).connected ≡ true)
  pub unlisted :
      (id : ℕ)
      → count id s.connections ≡ 0
      → 0 < id
      → id < s.next_connection_id
      → (s.objects id).connected ≡ false
  pub identified : (id : ℕ) → (s.objects id).connection_id ≡ id
  pub idle : s.running ≡ false → s.connections ≡ []
  pub queued : length s.inbound ≤ inbound_queue_capacity
  pub marked : All (IsMarked s.next_connection_id) s.inbound

pub count-erase :
    (id c : ℕ) (ids : List ℕ) → count c (erase id ids) ≡ (if id == c then 0 else count c ids)
count-erase id c [] = ground arith
count-erase id c (i ∷ ids) = ground (arith, count-erase id c ids)

disconnect_all-connection_id :
    (objects : ℕ → TcpConnection) (ids : List ℕ) (c : ℕ)
    → (disconnect_all objects ids c).connection_id ≡ (objects c).connection_id
unfolding disconnect_all Connection.disconnect
disconnect_all-connection_id objects [] c = refl
disconnect_all-connection_id objects (id ∷ ids) c =
    disconnect_all-connection_id (update objects id (Connection.disconnect (objects id))) ids c
    ∙ ground arith

pub disconnect_all-connected :
    (objects : ℕ → TcpConnection) (ids : List ℕ) (c : ℕ)
    → (disconnect_all objects ids c).connected
      ≡ (if count c ids == 0 then (objects c).connected else false)
unfolding disconnect_all Connection.disconnect
disconnect_all-connected objects [] c = refl
disconnect_all-connected objects (id ∷ ids) c =
    disconnect_all-connected (update objects id (Connection.disconnect (objects id))) ids c
    ∙ ground arith

-- What a handler or a call does to one connection object.
abbrev pub put : NetServer → ℕ → TcpConnection → NetServer
put s id c = record s { objects = update s.objects id c }

purge_empty : (ps : List ReceivedPacket) → purge ps ≡ []
unfolding purge
purge_empty [] = refl
purge_empty (p ∷ ps) = purge_empty ps

-- Stop of a server that runs, and of one that does not.
abbrev pub stopped : NetServer → NetServer
stopped s = record s {
  running = false;
  acceptor_open = false;
  io_stopped = true;
  objects = disconnect_all s.objects s.connections;
  connections = [];
  inbound = [];
}

pub stop_on : (s : NetServer) → s.running ≡ true → stop s ≡ stopped s
unfolding stop
stop_on s on = ground (arith, on, purge_empty s.inbound)

pub stop_off : (s : NetServer) → s.running ≡ false → stop s ≡ s
unfolding stop
stop_off s off = ground (arith, off)

module _ (s : NetServer) (v : IsValid s) where
  -- A connection object that stays as connected as it was, under its id.
  pub put-IsValid :
      (id : ℕ) (c : TcpConnection) (inbound : List ReceivedPacket)
      → c.connected ≡ (s.objects id).connected
      → c.connection_id ≡ id
      → length inbound ≤ inbound_queue_capacity
      → All (IsMarked s.next_connection_id) inbound
      → IsValid (record (put s id c) { inbound = inbound })
  put-IsValid id c inbound same named room all = record {
    issued = v.issued;
    listed = λ i h. ground (arith, v.listed i h, ap (λ k. (s.objects k).connected));
    unlisted =
        λ i h low high. ground (arith, v.unlisted i h low high, ap (λ k. (s.objects k).connected));
    identified = λ i. ground (arith, v.identified i);
    idle = v.idle;
    queued = room;
    marked = all;
  }

  -- A connection that fails leaves the table, disconnected.
  pub fail-IsValid :
      (id : ℕ) (c : TcpConnection)
      → c.connected ≡ false
      → c.connection_id ≡ id
      → IsValid (remove_connection (put s id c) id)
  unfolding remove_connection
  fail-IsValid id c closed named = record {
    issued = v.issued;
    listed = λ i h. ground (arith, v.listed i, count-erase id i s.connections);
    unlisted = λ i h low high. ground (arith, v.unlisted i, count-erase id i s.connections);
    identified = λ i. ground (arith, v.identified i);
    idle = λ off. ap (erase id) (v.idle off);
    queued = v.queued;
    marked = v.marked;
  }

  pub on_accept-IsValid :
      s.running ≡ true → s.next_connection_id + 1 < 2 ^ 64 → IsValid (on_accept s)
  unfolding on_accept
  on_accept-IsValid on few = record {
    issued = omega (arith, v.issued);
    listed = λ i h. ground (arith, v.listed i, v.listed s.next_connection_id, v.issued);
    unlisted =
        λ i h low high. ground (arith, v.unlisted i, v.listed s.next_connection_id, v.issued);
    identified = λ i. ground (arith, v.identified i);
    idle = λ off. cc;
    queued = v.queued;
    marked = All-IsMarked s.next_connection_id _ s.inbound (omega arith) v.marked;
  }

  pub stop-IsValid : IsValid (stop s)
  stop-IsValid = elim (Bool-cases s.running) [
    | inl on ↦ rw (stop_on s on) (record {
      issued = v.issued;
      listed = λ i h. absurd (h refl);
      unlisted = λ i h low high.
          disconnect_all-connected s.objects s.connections i
          ∙ disconnected i (ℕ_discrete (count i s.connections) 0) low high;
      identified = λ i. disconnect_all-connection_id s.objects s.connections i ∙ v.identified i;
      idle = λ off. refl;
      queued = omega arith;
      marked = tt;
    })
    | inr off ↦ rw (stop_off s off) v
  ]
    where
      disconnected :
          (i : ℕ)
          → Dec (count i s.connections ≡ 0)
          → 0 < i
          → i < s.next_connection_id
          → (if count i s.connections == 0 then (s.objects i).connected else false) ≡ false
      disconnected i (yes e) low high = ground (arith, v.unlisted i e low high)
      disconnected i (no ne) low high = ground arith
