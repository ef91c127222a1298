-- ===== src/Net/Server/Stopping.antt =====
-- What Send of NetServer does, and what Stop leaves.
use native.Mathlib.Decide.{ℕ_discrete}
use mmo_server.Common.{
  ℕ, ◌+◌, ◌^◌, ◌≤◌, ◌<◌, ◌⊎◌, ◌≡◌, ◌≢◌, ◌∙◌, ap, fun_ext, update, Bool, Bool-cases, refl, true,
  false, Option, none, some, List, [], ◌∷◌, ◌++◌, length, count, arith, inl, inr, Option-cases,
  List-cases, ne→==,
}
use mmo_server.Net.{encode}
use mmo_server.Net.Connection
use mmo_server.Net.Connection.{TcpConnection, max_pending_send_packets}
use mmo_server.Net.Connection.Writing.{
  start_busy, start_idle, send_queued, send_refused, enqueue_cases,
}
use mmo_server.Net.Server.Lifecycle.{run_from}
use mmo_server.Net.Server.{
  NetServer, stop, send, poll_packet, connection_count, Event, handle, run, start,
}
use mmo_server.Net.Server.Table.{IsValid, stop-IsValid, stop_on, stop_off}

unchanged : (s : NetServer) (id : ℕ) → record s { objects = update s.objects id (s.objects id) } ≡ s
unchanged s id = ap (λ f. record s { objects = f }) (fun_ext (λ j. ground arith))

-- The server with another object for a connection.
abbrev pub with_object : NetServer → ℕ → TcpConnection → NetServer
with_object s id c = record s { objects = update s.objects id c }

send_found :
    (s : NetServer) (id packet_id : ℕ) (payload : List ℕ) (ok : Bool) (writes : Option (List ℕ))
    (c : TcpConnection)
    → count id s.connections ≢ 0
    → Connection.send (s.objects id) packet_id payload ≡ (ok, writes, c)
    → send s id packet_id payload ≡ (ok, writes, with_object s id c)
unfolding send
send_found s id packet_id payload ok writes c ne e = rw (ne→== _ _ ne, e) refl

-- Send on a valid server is refused exactly for an id that is not in the table or has 1024 packets
-- pending: it returns false, starts no write and changes nothing. Otherwise it returns true, and the
-- encoded packet goes to the end of what is pending for the id. Then, if a write was under way for the
-- id, none is started; and if not, the first of what is pending is handed to the write that starts.
-- Nothing else changes.
pub send_outcome :
    (s : NetServer) (id packet_id : ℕ) (payload : List ℕ)
    → IsValid s
    → (((count id s.connections ≡ 0)
          ⊎ (max_pending_send_packets ≤ length (s.objects id).send_queue))
        × (send s id packet_id payload ≡ (false, none, s)))
      ⊎ ((count id s.connections ≢ 0)
          × (length (s.objects id).send_queue < max_pending_send_packets)
          × ((((s.objects id).write_in_progress ≡ true)
                × (send s id packet_id payload ≡ (
                  true,
                  none,
                  with_object s id (record (s.objects id) {
                    send_queue = (s.objects id).send_queue ++ encode packet_id payload ∷ [];
                  }),
                )))
              ⊎ (((s.objects id).write_in_progress ≡ false)
                  × ((first : List ℕ) × (rest : List (List ℕ)) × ((s.objects id).send_queue
                          ++ encode packet_id payload ∷ []
                        ≡ first ∷ rest)
                      × (send s id packet_id payload ≡ (
                        true,
                        some first,
                        with_object s id
                            (record (s.objects id) { send_queue = rest; write_in_progress = true }),
                      ))))))
unfolding send
send_outcome s id packet_id payload v = elim (ℕ_discrete (count id s.connections) 0) [
  | yes e ↦ inl (inl e, ground (arith, e))
  | no ne ↦ elim (enqueue_cases (s.objects id) (encode packet_id payload)) [
    | inl (inl down, _) ↦ absurd (ground (arith, down, (v.listed id ne).3))
    | inl (inr full, e) ↦ inl (
      inr full,
      send_found s id packet_id payload false none (s.objects id) ne
            (send_refused (s.objects id) packet_id payload e)
          ∙ ap (λ t. (false, none, t)) (unchanged s id),
    )
    | inr (_, room, e) ↦ inr (
      ne,
      room,
      elim (Bool-cases (s.objects id).write_in_progress) [
        | inl busy ↦ inl (
          busy,
          send_found s id packet_id payload true none _ ne
              (send_queued _ _ _ packet_id payload _ e (start_busy _ busy)),
        )
        | inr idle ↦
            let (first, rest, q) = first_pending in
            inr (
              idle,
              (
                first,
                rest,
                q,
                send_found s id packet_id payload true (some first) _ ne
                    (send_queued _ _ _ packet_id payload _ e (start_idle _ first rest idle q)),
              ),
            )
      ],
    )
  ]
]
  where
    first_pending :
        (first : List ℕ) × (rest : List (List ℕ)) × ((s.objects id).send_queue
            ++ encode packet_id payload ∷ []
          ≡ first ∷ rest)
    first_pending = elim (List-cases (s.objects id).send_queue) [
      | inl e ↦ (encode packet_id payload, [], ap (λ l. l ++ encode packet_id payload ∷ []) e)
      | inr (x, xs, e) ↦
          (x, xs ++ encode packet_id payload ∷ [], ap (λ l. l ++ encode packet_id payload ∷ []) e)
    ]

-- Stop of a valid server that runs leaves no connection in the table, and every connection that it
-- accepted disconnected. PollPacket then finds nothing, Send is refused for every id, and a second
-- Stop changes nothing.
pub stop_final :
    (s : NetServer)
    → IsValid s
    → s.running ≡ true
    → (connection_count (stop s) ≡ 0)
      × ((id : ℕ) → 0 < id → id < s.next_connection_id → ((stop s).objects id).connected ≡ false)
      × ((poll_packet (stop s)).0 ≡ none)
      × ((id packet_id : ℕ) (payload : List ℕ) → (send (stop s) id packet_id payload).0 ≡ false)
      × (stop (stop s) ≡ stop s)
unfolding connection_count poll_packet send
stop_final s v on = (
  rw (stop_on s on) refl,
  λ id low high.
      (stop-IsValid s v).unlisted id (rw (stop_on s on) refl) low (rw (stop_on s on) high),
  rw (stop_on s on) refl,
  λ id packet_id payload. rw (stop_on s on) refl,
  stop_off (stop s) (rw (stop_on s on) refl),
)

abbrev Deaf : NetServer → Type 0
Deaf s = (s.io_stopped ≡ true) × (s.connections ≡ [])

handle-Deaf : (s s' : NetServer) (e : Event) → Deaf s → handle s e ≡ some s' → Deaf s'
unfolding handle start stop send poll_packet
handle-Deaf s s' e deaf h = ground (arith, deaf, h)

run-Deaf :
    (s s' : NetServer) (es : List Event) → Deaf s → run s es ≡ some s' → connection_count s' ≡ 0
unfolding run connection_count
run-Deaf s s' [] deaf ran = ground (arith, deaf, ran)
run-Deaf s s' (e ∷ es) deaf ran = elim (Option-cases (handle s e)) [
  | inl none_left ↦ absurd (ground (arith, none_left, ran))
  | inr (t, one) ↦ run-Deaf t s' es (handle-Deaf s t e deaf one) (ground (arith, one, ran))
]

-- A valid server that was stopped while it ran goes through any sequence of calls and handlers, with
-- room for the ids that it could give out, without one that fails to end, and never has a connection
-- again, another Start included: the io context is not restarted, so no handler runs.
pub restart_accepts_none :
    (s : NetServer) (es : List Event)
    → IsValid s
    → s.running ≡ true
    → s.next_connection_id + length es < 2 ^ 64
    → (s' : NetServer) × (run (stop s) es ≡ some s') × (connection_count s' ≡ 0)
restart_accepts_none s es v on few =
    let (s', ran, _) = run_from es (stop s) (stop-IsValid s v) (rw (stop_on s on) few) in
    (s', ran, run-Deaf (stop s) s' es (rw (stop_on s on) (refl, refl)) ran)
