-- ===== src/Net/Server/Lifecycle.antt =====
-- NetServer through any sequence of calls and handlers, and after Stop.
use mmo_server.Common.{
  ℕ, ◌+◌, ◌^◌, ◌≤◌, ◌<◌, ◌≡◌, refl, Bool, true, false, Option, some, List, [], ◌∷◌, length,
  if◌then◌else◌, arith, inl, inr, Bool-cases,
}
use mmo_server.Net.Server.{NetServer, construct, on_accept, Event, in_handler, exists, handle, run}
use mmo_server.Net.Server.Table.{IsValid, on_accept-IsValid}
use mmo_server.Net.Server.Calls.{
  Keeps, construct-IsValid, start-Keeps, stop-Keeps, send-Keeps, poll_packet-Keeps, on_read-Keeps,
  on_written-Keeps, on_read_error-Keeps, on_write_error-Keeps,
}

in_handler-running : (s : NetServer) → in_handler s ≡ true → s.running ≡ true
in_handler-running s h = ground arith

exists-issued :
    (s : NetServer) (id : ℕ) → exists s id ≡ true → (0 < id) × (id < s.next_connection_id)
exists-issued s id h = ground arith

if-Keeps :
    (s : NetServer) (b : Bool) (s' : NetServer)
    → IsValid s
    → (b ≡ true → Keeps s s')
    → Keeps s (if b then s' else s)
if-Keeps s true s' v keeps = keeps refl
if-Keeps s false s' v keeps = (v, omega arith)

on_accept-next :
    (s : NetServer)
    → s.next_connection_id + 1 < 2 ^ 64
    → (on_accept s).next_connection_id ≤ s.next_connection_id + 1
unfolding on_accept
on_accept-next s few = omega arith

-- An event of a valid server is handled, and keeps the server valid.
handle_valid :
    (s : NetServer) (e : Event)
    → IsValid s
    → s.next_connection_id + 1 < 2 ^ 64
    → (s' : NetServer) × (handle s e ≡ some s') × Keeps s s'
unfolding handle
handle_valid s (Event.starts bound) v few = (_, refl, start-Keeps s v bound)
handle_valid s Event.stops v few = (_, refl, stop-Keeps s v)
handle_valid s (Event.sends id packet_id payload) v few =
    (_, refl, send-Keeps s v id packet_id payload)
handle_valid s Event.polls v few = (_, refl, poll_packet-Keeps s v)
handle_valid s Event.accepts v few = (
  _,
  refl,
  if-Keeps s (in_handler s) _ v
      (λ on. (on_accept-IsValid s v (in_handler-running s on) few, on_accept-next s few)),
)
handle_valid s (Event.reads id chunk) v few = elim (Bool-cases (exists s id)) [
  | inl on ↦
      let (low, high) = exists-issued s id on in
      let (s', ran, keeps) = on_read-Keeps s v id chunk low high in (s', rw on ran, keeps)
  | inr off ↦ (s, rw off refl, (v, omega arith))
]
handle_valid s (Event.read_fails id) v few =
    (_, refl, if-Keeps s (exists s id) _ v (λ _. on_read_error-Keeps s v id))
handle_valid s (Event.writes id) v few =
    (_, refl, if-Keeps s (exists s id) _ v (λ _. on_written-Keeps s v id))
handle_valid s (Event.write_fails id) v few =
    (_, refl, if-Keeps s (exists s id) _ v (λ _. on_write_error-Keeps s v id))

run_step :
    (s s' : NetServer) (e : Event) (es : List Event) (r : Option NetServer)
    → handle s e ≡ some s'
    → run s' es ≡ r
    → run s (e ∷ es) ≡ r
unfolding run
run_step s s' e es r one rest = ground (arith, one, rest)

pub run_from :
    (es : List Event) (s : NetServer)
    → IsValid s
    → s.next_connection_id + length es < 2 ^ 64
    → (s' : NetServer) × (run s es ≡ some s') × IsValid s'
unfolding run
run_from [] s v few = (s, refl, v)
run_from (e ∷ es) s v few =
    let (s', ran, keeps) = handle_valid s e v (omega arith) in
    let (s'', rest, v'') = run_from es s' keeps.0 (omega (arith, keeps.1)) in
    (s'', run_step s s' e es (some s'') ran rest, v'')

-- A new server goes through any sequence of fewer than 2 ^ 64 - 1 calls and handlers, whatever bytes
-- arrive: every handler ends, and afterwards the table holds exactly the connections that are still
-- open, each once and under its own id, the inbound queue is within its bounds, and every packet in
-- it is within the limit and marked with an id that was given out.
pub run-IsValid :
    (es : List Event)
    → length es + 1 < 2 ^ 64
    → (s : NetServer) × (run construct es ≡ some s) × IsValid s
run-IsValid es few = run_from es construct construct-IsValid (omega arith)
