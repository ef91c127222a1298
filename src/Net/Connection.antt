-- ===== src/Net/Connection.antt =====
-- TcpConnection, with the read and write loops that NetServer runs on it. Each handler runs alone on
-- the io thread; an accepted send and the completion of a write, with an error or
-- without, are the steps of the write loop.
pub mod Reading
pub mod Writing
use mmo_server.Common.{
  ℕ, zero, suc, ◌+◌, Bool, true, false, not, Option, none, some, List, [], ◌∷◌, ◌++◌, length, leb,
  if◌then◌else◌,
}
use mmo_server.Queue.Fifo
use mmo_server.Queue.Fifo.{enqueues}
use mmo_server.Net.{ReceivedPacket, encode, decode_loop}

pub record TcpConnection : Type 0 where
  pub connection_id : ℕ
  pub connected : Bool
  pub receive_buffer : List ℕ
  pub send_queue : List (List ℕ)
  pub write_in_progress : Bool

abbrev pub construct : ℕ → TcpConnection
construct id = record {
  connection_id = id;
  connected = true;
  receive_buffer = [];
  send_queue = [];
  write_in_progress = false;
}

abbrev pub max_pending_send_packets : ℕ
max_pending_send_packets = 1024

unfoldable pub disconnect : TcpConnection → TcpConnection
disconnect c = if c.connected then record c { connected = false } else c

unfoldable pub enqueue_send : TcpConnection → List ℕ → Bool × TcpConnection
enqueue_send c packet =
    if not c.connected
    then (false, c)
    else if leb max_pending_send_packets (length c.send_queue)
    then (false, c)
    else (true, record c { send_queue = c.send_queue ++ packet ∷ [] })

unfoldable pub try_pop_send : TcpConnection → Option (List ℕ) × TcpConnection
try_pop_send c = elim c.send_queue [
  | [] ↦ (none, c)
  | packet ∷ rest ↦ (some packet, record c { send_queue = rest })
]

unfoldable pub try_begin_write : TcpConnection → Bool × TcpConnection
try_begin_write c =
    if c.write_in_progress then (false, c) else (true, record c { write_in_progress = true })

unfoldable pub end_write : TcpConnection → TcpConnection
end_write c = record c { write_in_progress = false }

-- StartWriteLoop: the packet handed to `async_write`, if any. A queue that was found empty is still
-- empty when HasPendingSend looks, since no other thread runs in between.
unfoldable pub start_write_loop : TcpConnection → Option (List ℕ) × TcpConnection
unfolding try_begin_write try_pop_send end_write
start_write_loop c =
    let (began, c') = try_begin_write c in
    if not began
    then (none, c)
    else let (packet, c'') = try_pop_send c' in
      elim packet [ none ↦ (none, end_write c'') | some bytes ↦ (some bytes, c'') ]

-- NetServer::Send, once the connection is found.
unfoldable pub send : TcpConnection → ℕ → List ℕ → Bool × Option (List ℕ) × TcpConnection
unfolding enqueue_send start_write_loop
send c packet_id payload =
    let (queued, c') = enqueue_send c (encode packet_id payload) in
    if not queued
    then (false, none, c')
    else let (writes, c'') = start_write_loop c' in (true, writes, c'')

-- The handler of a write that succeeded.
unfoldable pub written : TcpConnection → Option (List ℕ) × TcpConnection
unfolding end_write start_write_loop
written c = start_write_loop (end_write c)

-- The handler of a write that failed, but for the table of connections.
unfoldable pub write_failed : TcpConnection → TcpConnection
unfolding disconnect end_write
write_failed c = end_write (disconnect c)

abbrev pub inbound_queue_capacity : ℕ
inbound_queue_capacity = 65536

-- The packets go to the inbound queue, an MPSCQueue; one that finds it full is dropped.
unfoldable pub deliver : List ReceivedPacket → List ReceivedPacket → List ReceivedPacket
unfolding Fifo.step
deliver inbound [] = inbound
deliver inbound (p ∷ ps) = deliver (Fifo.step inbound_queue_capacity inbound (enqueues p)).1 ps

-- The handler of a read that brought `chunk`, with the inbound queue of the server.
unfoldable pub receive :
    ℕ → TcpConnection → List ReceivedPacket → List ℕ → Option (TcpConnection × List ReceivedPacket)
unfolding deliver
receive fuel c inbound chunk = elim (decode_loop fuel c.connection_id (c.receive_buffer ++ chunk)) [
  | none ↦ none
  | some (packets, left) ↦ some (record c { receive_buffer = left }, deliver inbound packets)
]

-- The reads of a connection, one chunk after the other.
unfoldable pub receive_all :
    ℕ
    → TcpConnection
    → List ReceivedPacket
    → List (List ℕ)
    → Option (TcpConnection × List ReceivedPacket)
unfolding receive
receive_all fuel c inbound [] = some (c, inbound)
receive_all fuel c inbound (chunk ∷ chunks) = elim (receive fuel c inbound chunk) [
  | none ↦ none
  | some (c', inbound') ↦ receive_all fuel c' inbound' chunks
]
