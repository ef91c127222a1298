-- ===== src/Net/Server.antt =====
-- NetServer: the table of connections, the calls of its clients and the handlers of the io thread. A
-- connection is an object that the table and pending handlers share; objects are kept by their id,
-- which is never given out twice before the counter wraps. Handlers run in `ioContext.run()`, which
-- does nothing once the context is stopped, until `restart()` is called.

pub mod Inbound
pub mod Table
pub mod Calls
pub mod Lifecycle
pub mod Stopping
mod Tests
use mmo_server.Common.{
  ℕ, zero, suc, ◌+◌, ◌%◌, ◌^◌, Bool, true, false, not, Option, none, some, List, [], ◌∷◌, length,
  count, leb, ◌==◌, if◌then◌else◌, update,
}
use mmo_server.Queue.Fifo
use mmo_server.Queue.Fifo.{dequeues, Reply, taken, accepted}
use mmo_server.Net.{ReceivedPacket}
use mmo_server.Net.Connection
use mmo_server.Net.Connection.{TcpConnection, inbound_queue_capacity}

-- `running_` and the members of `Impl`; a connection that is not yet accepted has no object.
pub record NetServer : Type 0 where
  pub running : Bool
  pub io_stopped : Bool
  pub acceptor_open : Bool
  pub next_connection_id : ℕ
  pub objects : ℕ → TcpConnection
  pub connections : List ℕ
  pub inbound : List ReceivedPacket

abbrev pub construct : NetServer
construct = record {
  running = false;
  io_stopped = false;
  acceptor_open = false;
  next_connection_id = 1;
  objects = Connection.construct;
  connections = [];
  inbound = [];
}

-- `connections.erase(id)`
abbrev pub erase : ℕ → List ℕ → List ℕ
erase id [] = []
erase id (i ∷ ids) = if i == id then erase id ids else i ∷ erase id ids

unfoldable pub remove_connection : NetServer → ℕ → NetServer
remove_connection s id = record s { connections = erase id s.connections }

-- Whether the port can be bound is up to the system; an exception before that leaves the server off.
unfoldable pub start : NetServer → Bool → Bool × NetServer
start s bound =
    if s.running
    then (false, s)
    else if not bound
    then (false, s)
    else (true, record s { acceptor_open = true; running = true })

-- The loop of Stop over the table.
unfoldable pub disconnect_all : (ℕ → TcpConnection) → List ℕ → ℕ → TcpConnection
disconnect_all objects [] = objects
disconnect_all objects (id ∷ ids) =
    disconnect_all (update objects id (Connection.disconnect (objects id))) ids

-- The loop of Stop that empties the inbound queue: Dequeue until it fails.
unfoldable pub purge : List ReceivedPacket → List ReceivedPacket
purge [] = []
purge (p ∷ ps) = purge ps

unfoldable pub stop : NetServer → NetServer
unfolding disconnect_all purge
stop s = if not s.running then s else record s {
  running = false;
  acceptor_open = false;
  io_stopped = true;
  objects = disconnect_all s.objects s.connections;
  connections = [];
  inbound = purge s.inbound;
}

-- Send: the return value, the packet handed to `async_write`, if any, and the state.
unfoldable pub send : NetServer → ℕ → ℕ → List ℕ → Bool × Option (List ℕ) × NetServer
send s id packet_id payload =
    if count id s.connections == 0
    then (false, none, s)
    else let (ok, writes, c) = Connection.send (s.objects id) packet_id payload in
      (ok, writes, record s { objects = update s.objects id c })

unfoldable pub poll_packet : NetServer → Option ReceivedPacket × NetServer
poll_packet s = elim s.inbound [ [] ↦ (none, s) | p ∷ rest ↦ (some p, record s { inbound = rest }) ]

unfoldable pub connection_count : NetServer → ℕ
connection_count s = length s.connections

-- The handler of StartAccept with no error. `emplace` leaves the table alone if the id is there.
unfoldable pub on_accept : NetServer → NetServer
on_accept s =
    let id = s.next_connection_id in
    record s {
      next_connection_id = (id + 1) % 2 ^ 64;
      objects = update s.objects id (Connection.construct id);
      connections = if count id s.connections == 0 then id ∷ s.connections else s.connections;
    }

-- The handler of StartReadLoop with an error, and the one of StartWriteLoop.
unfoldable pub on_read_error : NetServer → ℕ → NetServer
unfolding remove_connection
on_read_error s id =
    remove_connection
      (record s { objects = update s.objects id (Connection.disconnect (s.objects id)) }) id

unfoldable pub on_write_error : NetServer → ℕ → NetServer
unfolding remove_connection
on_write_error s id =
    let removed =
      remove_connection
        (record s { objects = update s.objects id (Connection.disconnect (s.objects id)) }) id in
    record removed {
      objects = update removed.objects id (Connection.end_write (removed.objects id));
    }

-- The handler of a read that brought `chunk`: the decode loop has fuel for every byte.
unfoldable pub on_read : NetServer → ℕ → List ℕ → Option NetServer
on_read s id chunk =
    let c = s.objects id in
    elim (Connection.receive (suc (length c.receive_buffer + length chunk)) c s.inbound chunk) [
      | none ↦ none
      | some (c', inbound) ↦ some (record s { objects = update s.objects id c'; inbound = inbound })
    ]

unfoldable pub on_written : NetServer → ℕ → NetServer
on_written s id = record s { objects = update s.objects id (Connection.written (s.objects id)).1 }

-- A client's call, or a handler of the io thread, for a connection that has been accepted.
pub data Event : Type 0 where
  starts : (bound : Bool) → Event
  stops : Event
  sends : (id packet_id : ℕ) (payload : List ℕ) → Event
  polls : Event
  accepts : Event
  reads : (id : ℕ) (chunk : List ℕ) → Event
  read_fails writes write_fails : (id : ℕ) → Event

-- Handlers run for objects that exist, and only while the server runs and its context does.
abbrev pub in_handler : NetServer → Bool
in_handler s = if s.running then not s.io_stopped else false

abbrev pub exists : NetServer → ℕ → Bool
exists s id =
    if in_handler s then (if id == 0 then false else leb (suc id) s.next_connection_id) else false

unfoldable pub handle : NetServer → Event → Option NetServer
unfolding start stop send poll_packet on_accept on_read on_read_error on_written on_write_error
handle s (Event.starts bound) = some (start s bound).1
handle s Event.stops = some (stop s)
handle s (Event.sends id packet_id payload) = some (send s id packet_id payload).2
handle s Event.polls = some (poll_packet s).1
handle s Event.accepts = some (if in_handler s then on_accept s else s)
handle s (Event.reads id chunk) = if exists s id then on_read s id chunk else some s
handle s (Event.read_fails id) = some (if exists s id then on_read_error s id else s)
handle s (Event.writes id) = some (if exists s id then on_written s id else s)
handle s (Event.write_fails id) = some (if exists s id then on_write_error s id else s)

unfoldable pub run : NetServer → List Event → Option NetServer
unfolding handle
run s [] = some s
run s (e ∷ es) = elim (handle s e) [ none ↦ none | some s' ↦ run s' es ]
