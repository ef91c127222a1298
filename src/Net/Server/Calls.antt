-- ===== src/Net/Server/Calls.antt =====
-- Each call and each handler of NetServer keeps the table valid.
use native.Mathlib.Decide.{ℕ_discrete}
use mmo_server.Common.{
  ℕ, ◌+◌, ◌≤◌, ◌<◌, ◌≡◌, refl, ap, ◌∙◌, Bool, true, false, some, List, [], ◌∷◌, ◌++◌, length, count,
  arith, All, ◌⊎◌, inl, inr, Bool-cases, List-cases, ne→==, subst,
}
use mmo_server.Net.{ReceivedPacket, encode}
use mmo_server.Net.Connection
use mmo_server.Net.Connection.{TcpConnection, inbound_queue_capacity, max_pending_send_packets}
use mmo_server.Net.Server.{
  NetServer, construct, remove_connection, start, stop, send, poll_packet, on_read_error,
  on_write_error, on_read, on_written,
}
use mmo_server.Net.Server.Inbound.{IsMarked, receive-bounded}
use mmo_server.Net.Server.Table.{
  IsValid, put, put-IsValid, fail-IsValid, stop-IsValid, stop_on, stop_off,
}

-- What sending and writing leave alone in a connection.
abbrev SameConnection : TcpConnection → TcpConnection → Type 0
SameConnection c c' = (c'.connected ≡ c.connected) × (c'.connection_id ≡ c.connection_id)

start_write_loop-SameConnection :
    (c : TcpConnection) → SameConnection c (Connection.start_write_loop c).1
unfolding Connection.start_write_loop
start_write_loop-SameConnection c = ground arith

written-SameConnection : (c : TcpConnection) → SameConnection c (Connection.written c).1
unfolding Connection.written
written-SameConnection c = start_write_loop-SameConnection (Connection.end_write c)

send-SameConnection :
    (c : TcpConnection) (packet_id : ℕ) (payload : List ℕ)
    → SameConnection c (Connection.send c packet_id payload).2
unfolding Connection.send Connection.enqueue_send
send-SameConnection c packet_id payload = ground (
  arith,
  start_write_loop-SameConnection
      (record c { send_queue = c.send_queue ++ encode packet_id payload ∷ [] }),
)

pub construct-IsValid : IsValid construct
construct-IsValid = record {
  issued = omega arith;
  listed = λ id h. absurd (h refl);
  unlisted = λ id h low high. absurd (omega arith);
  identified = λ id. refl;
  idle = λ off. refl;
  queued = omega arith;
  marked = tt;
}

abbrev started : NetServer → NetServer
started s = record s { acceptor_open = true; running = true }

start_cases :
    (s : NetServer) (bound : Bool) → ((start s bound).1 ≡ s) ⊎ ((start s bound).1 ≡ started s)
unfolding start
start_cases s true = elim (Bool-cases s.running) [
  | inl on ↦ inl (ground (arith, on))
  | inr off ↦ inr (ground (arith, off))
]
start_cases s false = inl (ground arith)

poll_none : (s : NetServer) → s.inbound ≡ [] → (poll_packet s).1 ≡ s
unfolding poll_packet
poll_none s e = ground (arith, e)

poll_some :
    (s : NetServer) (p : ReceivedPacket) (rest : List ReceivedPacket)
    → s.inbound ≡ p ∷ rest
    → (poll_packet s).1 ≡ record s { inbound = rest }
unfolding poll_packet
poll_some s p rest e = ground (arith, e)

-- What an event keeps: the table is valid, and at most one id is given out.
abbrev pub Keeps : NetServer → NetServer → Type 0
Keeps s s' = IsValid s' × (s'.next_connection_id ≤ s.next_connection_id + 1)

module _ (s : NetServer) (v : IsValid s) where
  pub start-Keeps : (bound : Bool) → Keeps s (start s bound).1
  start-Keeps bound = elim (start_cases s bound) [
    | inl e ↦ rw e (v, omega arith)
    | inr e ↦ rw e (
      record {
        issued = v.issued;
        listed = v.listed;
        unlisted = v.unlisted;
        identified = v.identified;
        idle = λ off. cc;
        queued = v.queued;
        marked = v.marked;
      },
      omega arith,
    )
  ]

  pub stop-Keeps : Keeps s (stop s)
  stop-Keeps = elim (Bool-cases s.running) [
    | inl on ↦ (stop-IsValid s v, rw (stop_on s on) (omega arith))
    | inr off ↦ (stop-IsValid s v, rw (stop_off s off) (omega arith))
  ]

  -- A connection object that is changed by sending or writing.
  same-Keeps : (id : ℕ) (c : TcpConnection) → SameConnection (s.objects id) c → Keeps s (put s id c)
  same-Keeps id c same = (
    put-IsValid s v id c s.inbound same.0 (same.1 ∙ v.identified id) v.queued v.marked,
    omega arith,
  )

  pub send-Keeps : (id packet_id : ℕ) (payload : List ℕ) → Keeps s (send s id packet_id payload).2
  unfolding send
  send-Keeps id packet_id payload = elim (ℕ_discrete (count id s.connections) 0) [
    | yes e ↦ rw e (v, omega arith)
    | no ne ↦
        rw (ne→== _ _ ne) (same-Keeps id _ (send-SameConnection (s.objects id) packet_id payload))
  ]

  pub poll_packet-Keeps : Keeps s (poll_packet s).1
  poll_packet-Keeps = elim (List-cases s.inbound) [
    | inl e ↦ rw (poll_none s e) (v, omega arith)
    | inr (p, rest, e) ↦ rw (poll_some s p rest e) (
      record {
        issued = v.issued;
        listed = v.listed;
        unlisted = v.unlisted;
        identified = v.identified;
        idle = v.idle;
        queued = omega (arith, v.queued, ap length e);
        marked = (subst (All (IsMarked s.next_connection_id)) e v.marked).1;
      },
      omega arith,
    )
  ]

  -- The handlers, for a connection that exists.
  pub on_read-Keeps :
      (id : ℕ) (chunk : List ℕ)
      → 0 < id
      → id < s.next_connection_id
      → (s' : NetServer) × (on_read s id chunk ≡ some s') × Keeps s s'
  unfolding on_read
  on_read-Keeps id chunk low high =
      let (left, inbound, ran, room, all) =
        receive-bounded s.next_connection_id (s.objects id) s.inbound chunk
          (omega (arith, v.identified id)) (omega (arith, v.identified id)) v.queued v.marked in
      (
        record (put s id (record (s.objects id) { receive_buffer = left })) { inbound = inbound },
        ground (arith, ran),
        (
          put-IsValid s v id (record (s.objects id) { receive_buffer = left }) inbound refl
              (v.identified id) room all,
          omega arith,
        ),
      )

  pub on_written-Keeps : (id : ℕ) → Keeps s (on_written s id)
  unfolding on_written
  on_written-Keeps id = same-Keeps id _ (written-SameConnection (s.objects id))

  pub failed-IsValid :
      (id : ℕ) → IsValid (remove_connection (put s id (Connection.disconnect (s.objects id))) id)
  unfolding Connection.disconnect
  failed-IsValid id =
      fail-IsValid s v id (Connection.disconnect (s.objects id)) (ground arith)
        (ground (arith, v.identified id))

  pub on_read_error-Keeps : (id : ℕ) → Keeps s (on_read_error s id)
  unfolding on_read_error remove_connection
  on_read_error-Keeps id = (failed-IsValid id, omega arith)

  pub on_write_error-Keeps : (id : ℕ) → Keeps s (on_write_error s id)
  unfolding on_write_error remove_connection Connection.end_write
  on_write_error-Keeps id =
      let removed : NetServer =
        remove_connection (put s id (Connection.disconnect (s.objects id))) id in
      (
        put-IsValid removed (failed-IsValid id) id (Connection.end_write (removed.objects id))
            removed.inbound refl ((failed-IsValid id).identified id) v.queued v.marked,
        omega arith,
      )
