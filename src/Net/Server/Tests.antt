-- ===== src/Net/Server/Tests.antt =====
-- A server that accepts two connections, one of which fails, and the theorems at it.
use mmo_server.Common.{
  ℕ, ◌+◌, ◌^◌, ◌≤◌, ◌⊎◌, ◌<◌, ◌≡◌, ◌≢◌, refl, true, false, Option, none, some, List, [], ◌∷◌, ◌++◌,
  length, count, arith, sym, ap, subst,
}
use mmo_server.Net.{encode, decode_loop}
use mmo_server.Net.Connection
use mmo_server.Net.Connection.{max_pending_send_packets}
use mmo_server.Net.Server.{
  NetServer, construct, stop, send, poll_packet, connection_count, Event, run,
}
use mmo_server.Net.Server.Table.{IsValid}
use mmo_server.Net.Server.Lifecycle.{run-IsValid}
use mmo_server.Net.Server.Stopping.{with_object, send_outcome, stop_final, restart_accepts_none}

abbrev packet_bytes : List ℕ
packet_bytes = 1 ∷ 0 ∷ 0 ∷ 0 ∷ 9 ∷ 0 ∷ 5 ∷ []

abbrev events : List Event
events =
    Event.starts true
    ∷ Event.accepts
    ∷ Event.accepts
    ∷ Event.reads 2 packet_bytes
    ∷ Event.read_fails 1
    ∷ []

run-IsValid_example : (s : NetServer) × (run construct events ≡ some s) × IsValid s
run-IsValid_example = run-IsValid events (omega arith)

result_of : Option NetServer → NetServer
result_of none = construct
result_of (some s) = s

abbrev server : NetServer
server = result_of (run construct events)

server-IsValid : IsValid server
unfolding result_of
server-IsValid = subst IsValid (sym (ap result_of run-IsValid_example.1)) run-IsValid_example.2

server_running : server.running ≡ true
unfolding result_of run Connection.receive decode_loop
server_running = refl

server_table :
    (server.connections ≡ 2 ∷ [])
    × (server.inbound ≡ record { connection_id = 2; packet_id = 9; payload = 5 ∷ [] } ∷ [])
unfolding result_of run decode_loop Connection.receive
server_table = (refl, refl)

send_outcome_example :
    (((count 2 server.connections ≡ 0)
        ⊎ (max_pending_send_packets ≤ length (server.objects 2).send_queue))
      × (send server 2 7 [] ≡ (false, none, server)))
    ⊎ ((count 2 server.connections ≢ 0)
        × (length (server.objects 2).send_queue < max_pending_send_packets)
        × ((((server.objects 2).write_in_progress ≡ true)
              × (send server 2 7 [] ≡ (
                true,
                none,
                with_object server 2 (record (server.objects 2) {
                  send_queue = (server.objects 2).send_queue ++ encode 7 [] ∷ [];
                }),
              )))
            ⊎ (((server.objects 2).write_in_progress ≡ false)
                × ((first : List ℕ) × (rest : List (List ℕ)) × ((server.objects 2).send_queue
                        ++ encode 7 [] ∷ []
                      ≡ first ∷ rest)
                    × (send server 2 7 [] ≡ (
                      true,
                      some first,
                      with_object server 2 (record (server.objects 2) {
                        send_queue = rest;
                        write_in_progress = true;
                      }),
                    ))))))
send_outcome_example = send_outcome server 2 7 [] server-IsValid

stop_final_example :
    (connection_count (stop server) ≡ 0)
    × ((id : ℕ)
        → 0 < id
        → id < server.next_connection_id
        → ((stop server).objects id).connected ≡ false)
    × ((poll_packet (stop server)).0 ≡ none)
    × ((id packet_id : ℕ) (payload : List ℕ) → (send (stop server) id packet_id payload).0 ≡ false)
    × (stop (stop server) ≡ stop server)
stop_final_example = stop_final server server-IsValid server_running

server_ids : server.next_connection_id + 2 < 2 ^ 64
unfolding result_of run decode_loop Connection.receive
server_ids = omega arith

-- The stopped server starts again, and a client tries to connect.
abbrev restarted : NetServer
restarted = result_of (run (stop server) (Event.starts true ∷ Event.accepts ∷ []))

restarted-run :
    (run (stop server) (Event.starts true ∷ Event.accepts ∷ []) ≡ some restarted)
    × (restarted.running ≡ true)
unfolding result_of run stop Connection.receive decode_loop
restarted-run = (refl, refl)

restart_accepts_none_example :
    (s : NetServer) × (run (stop server) (Event.starts true ∷ Event.accepts ∷ []) ≡ some s)
    × (connection_count s ≡ 0)
restart_accepts_none_example =
    restart_accepts_none server (Event.starts true ∷ Event.accepts ∷ []) server-IsValid
      server_running server_ids
