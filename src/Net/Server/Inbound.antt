-- ===== src/Net/Server/Inbound.antt =====
-- The inbound queue of NetServer: bounded, and every packet in it marked with an id that was given
-- out and within the limit.
use native.Mathlib.Decide.{dec_lt}
use mmo_server.Common.{
  ℕ, suc, ◌+◌, ◌≤◌, ◌<◌, ◌≡◌, some, List, [], ◌∷◌, ◌++◌, length, length-append, arith, All, lt→ltb,
  le→ltb,
}
use mmo_server.Queue.Fifo
use mmo_server.Queue.Fifo.{enqueues}
use mmo_server.Net.{ReceivedPacket, max_packet_size, decode_loop}
use mmo_server.Net.Malformed.{decode_loop_ends}
use mmo_server.Net.Connection.{TcpConnection, inbound_queue_capacity, deliver, receive}

-- A packet that a client may get: within the limit, and marked with an id that was given out.
abbrev pub IsMarked : ℕ → ReceivedPacket → Type 0
IsMarked next p =
    (length p.payload ≤ max_packet_size) × (0 < p.connection_id) × (p.connection_id < next)

pub All-IsMarked :
    (next next' : ℕ) (ps : List ReceivedPacket)
    → next ≤ next'
    → All (IsMarked next) ps
    → All (IsMarked next') ps
All-IsMarked next next' [] h all = tt
All-IsMarked next next' (p ∷ ps) h all =
    ((all.0.0, all.0.1, omega (arith, all.0.2)), All-IsMarked next next' ps h all.1)

All-append_last :
    (P : ReceivedPacket → Type 0) (ps : List ReceivedPacket) (p : ReceivedPacket)
    → All P ps
    → P p
    → All P (ps ++ p ∷ [])
All-append_last P [] p all h = (h, tt)
All-append_last P (q ∷ ps) p all h = (all.0, All-append_last P ps p all.1 h)

-- Packets that are handed on are marked, and a full queue drops them.
deliver-bounded :
    (next id : ℕ) (inbound ps : List ReceivedPacket)
    → 0 < id
    → id < next
    → All (λ p. (length p.payload ≤ max_packet_size) × (p.connection_id ≡ id)) ps
    → length inbound ≤ inbound_queue_capacity
    → All (IsMarked next) inbound
    → (length (deliver inbound ps) ≤ inbound_queue_capacity)
      × All (IsMarked next) (deliver inbound ps)
unfolding deliver Fifo.step
deliver-bounded next id inbound [] low high new room all = (room, all)
deliver-bounded next id inbound (p ∷ ps) low high new room all =
    elim (dec_lt (length inbound) inbound_queue_capacity) [
      | yes fits ↦ rw (lt→ltb (length inbound) inbound_queue_capacity fits) (
          deliver-bounded next id (inbound ++ p ∷ []) ps low high new.1
            (omega (arith, length-append inbound (p ∷ [])))
            (All-append_last (IsMarked next) inbound p all
              (new.0.0, omega (arith, new.0.1), omega (arith, new.0.1))))
      | no full ↦
          rw (le→ltb (length inbound) inbound_queue_capacity (omega (arith, full)))
            (deliver-bounded next id inbound ps low high new.1 room all)
    ]

receive_result :
    (fuel : ℕ) (c : TcpConnection) (inbound got : List ReceivedPacket) (chunk left : List ℕ)
    → decode_loop fuel c.connection_id (c.receive_buffer ++ chunk) ≡ some (got, left)
    → receive fuel c inbound chunk ≡ some (record c { receive_buffer = left }, deliver inbound got)
unfolding receive
receive_result fuel c inbound got chunk left ran = ground (arith, ran)

-- A read ends, changes nothing but the receive buffer of the connection, and keeps the inbound queue
-- within its bounds.
pub receive-bounded :
    (next : ℕ) (c : TcpConnection) (inbound : List ReceivedPacket) (chunk : List ℕ)
    → 0 < c.connection_id
    → c.connection_id < next
    → length inbound ≤ inbound_queue_capacity
    → All (IsMarked next) inbound
    → (left : List ℕ) × (inbound' : List ReceivedPacket) × (receive
          (suc (length c.receive_buffer + length chunk))
          c
          inbound
          chunk
        ≡ some (record c { receive_buffer = left }, inbound'))
      × (length inbound' ≤ inbound_queue_capacity)
      × All (IsMarked next) inbound'
receive-bounded next c inbound chunk low high room all =
    let (got, left, ran, good, shorter, stuck) =
      decode_loop_ends (suc (length c.receive_buffer + length chunk)) c.connection_id
        (c.receive_buffer ++ chunk) (omega (arith, length-append c.receive_buffer chunk)) in
    let (room', all') = deliver-bounded next c.connection_id inbound got low high good room all in
    (
      left,
      deliver inbound got,
      receive_result (suc (length c.receive_buffer + length chunk)) c inbound got chunk left ran,
      room',
      all',
    )
