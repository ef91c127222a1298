-- ===== src/Net/Connection/Writing.antt =====
-- The write loop: packets that Send accepts are written in order, one write at a time.
use native.Mathlib.Decide.{dec_lt}
use mmo_server.Common.{
  ℕ, ◌≤◌, ◌<◌, ◌≡◌, ◌≢◌, refl, sym, ap, ◌∙◌, subst, ◌⊎◌, inl, inr, Bool, true, false, Bool-cases,
  Option, none, some, List, [], ◌∷◌, ◌++◌, arith, length, length-append, List-cases, append_assoc,
  append-nil, if◌then◌else◌,
}
use mmo_server.Net.{encode}
use mmo_server.Net.Connection.{
  TcpConnection, construct, max_pending_send_packets, enqueue_send, try_pop_send, try_begin_write,
  end_write, start_write_loop, send, written, disconnect, write_failed,
}

-- What happens to the write side of a connection: a Send, the completion of the write under way, its
-- failure, or a Disconnect.
pub data Event : Type 0 where
  sends : ℕ → List ℕ → Event
  completes : Event
  fails : Event
  disconnects : Event

-- A connection with the packets that it accepted and those whose write was started, in order.
pub record Wire : Type 0 where
  pub connection : TcpConnection
  pub accepted : List (List ℕ)
  pub begun : List (List ℕ)

abbrev pub append_some : List (List ℕ) → Option (List ℕ) → List (List ℕ)
append_some xs none = xs
append_some xs (some x) = xs ++ x ∷ []

-- A write completes or fails only while it is under way.
abbrev pub step : Wire → Event → Wire
step v (sends packet_id payload) =
    let (ok, writes, c) = send v.connection packet_id payload in
    record {
      connection = c;
      accepted = if ok then v.accepted ++ encode packet_id payload ∷ [] else v.accepted;
      begun = append_some v.begun writes;
    }
step v completes =
    let (writes, c) = written v.connection in
    if v.connection.write_in_progress
    then record v { connection = c; begun = append_some v.begun writes }
    else v
step v fails =
    if v.connection.write_in_progress
    then record v { connection = write_failed v.connection }
    else v
step v disconnects = record v { connection = disconnect v.connection }

abbrev pub run : Wire → List Event → Wire
run v [] = v
run v (e ∷ es) = run (step v e) es

-- The accepted packets are those begun and those queued, in this order; while the connection is up a
-- packet waits only behind a write under way, and the queue keeps its bound.
pub record InStep (v : Wire) : Type 0 where
  pub order : v.accepted ≡ v.begun ++ v.connection.send_queue
  pub busy :
      v.connection.connected ≡ true
      → v.connection.write_in_progress ≡ false
      → v.connection.send_queue ≡ []
  pub bounded : length v.connection.send_queue ≤ max_pending_send_packets

-- The write loop on a connection that writes already, and on one that does not.
pub start_busy : (c : TcpConnection) → c.write_in_progress ≡ true → start_write_loop c ≡ (none, c)
unfolding start_write_loop try_begin_write
start_busy c e = ground (arith, e)

pub start_idle :
    (c : TcpConnection) (x : List ℕ) (xs : List (List ℕ))
    → c.write_in_progress ≡ false
    → c.send_queue ≡ x ∷ xs
    → start_write_loop c ≡ (some x, record c { send_queue = xs; write_in_progress = true })
unfolding start_write_loop try_begin_write try_pop_send end_write
start_idle c x xs e q = ground (arith, e, q)

start_empty :
    (c : TcpConnection)
    → c.write_in_progress ≡ false
    → c.send_queue ≡ []
    → start_write_loop c ≡ (none, record c { write_in_progress = false })
unfolding start_write_loop try_begin_write try_pop_send end_write
start_empty c e q = ground (arith, e, q)

pub send_queued :
    (c c' c'' : TcpConnection) (packet_id : ℕ) (payload : List ℕ) (writes : Option (List ℕ))
    → enqueue_send c (encode packet_id payload) ≡ (true, c')
    → start_write_loop c' ≡ (writes, c'')
    → send c packet_id payload ≡ (true, writes, c'')
unfolding send
send_queued c c' c'' packet_id payload writes e e' = ground (arith, e, e')

pub send_refused :
    (c : TcpConnection) (packet_id : ℕ) (payload : List ℕ)
    → enqueue_send c (encode packet_id payload) ≡ (false, c)
    → send c packet_id payload ≡ (false, none, c)
unfolding send
send_refused c packet_id payload e = ground (arith, e)

pub enqueue_cases :
    (c : TcpConnection) (packet : List ℕ)
    → (((c.connected ≡ false) ⊎ (max_pending_send_packets ≤ length c.send_queue))
        × (enqueue_send c packet ≡ (false, c)))
      ⊎ ((c.connected ≡ true)
          × (length c.send_queue < max_pending_send_packets)
          × (enqueue_send c packet ≡ (true, record c { send_queue = c.send_queue ++ packet ∷ [] })))
unfolding enqueue_send
enqueue_cases c packet = elim (Bool-cases c.connected) [
  | inr e ↦ inl (inl e, ground (arith, e))
  | inl e ↦ elim (dec_lt (length c.send_queue) max_pending_send_packets) [
    | yes h ↦ inr (e, h, ground (arith, e, h))
    | no h ↦ inl (inr (omega (arith, h)), ground (arith, e, h))
  ]
]

-- A Send keeps the account: it is refused, or the packet is queued behind a write under way, or it
-- is written at once.
send-InStep :
    (v : Wire) (packet_id : ℕ) (payload : List ℕ)
    → InStep v
    → InStep (step v (sends packet_id payload))
send-InStep v packet_id payload s = elim (enqueue_cases v.connection (encode packet_id payload)) [
  | inl (_, e) ↦ subst (λ a. InStep (sent a)) (sym (refused e)) s
  | inr (up, room, e) ↦ elim (Bool-cases v.connection.write_in_progress) [
    | inl busy ↦
        subst (λ a. InStep (sent a))
          (sym (send_queued _ _ _ packet_id payload _ e (start_busy _ busy)))
          (record {
            order = ap (λ l. l ++ x ∷ []) s.order ∙ append_assoc v.begun _ (x ∷ []);
            busy = λ _ idle. absurd (true_ne_false (sym busy ∙ idle));
            bounded = omega (arith, length-append v.connection.send_queue (x ∷ []));
          })
    | inr idle ↦
        let queue : v.connection.send_queue ++ x ∷ [] ≡ x ∷ [] =
          ap (λ l. l ++ x ∷ []) (s.busy up idle) in
        subst (λ a. InStep (sent a))
          (sym (send_queued _ _ _ packet_id payload _ e (start_idle _ x [] idle queue)))
          (record {
            order =
                ap (λ l. l ++ x ∷ []) s.order
                ∙ append_assoc v.begun _ (x ∷ [])
                ∙ ap (λ l. v.begun ++ l) queue
                ∙ sym (append-nil (v.begun ++ x ∷ []));
            busy = λ _ h. refl;
            bounded = omega arith;
          })
  ]
]
  where
    x : List ℕ
    x = encode packet_id payload

    sent : Bool × Option (List ℕ) × TcpConnection → Wire
    sent (ok, writes, c) = record {
      connection = c;
      accepted = if ok then v.accepted ++ x ∷ [] else v.accepted;
      begun = append_some v.begun writes;
    }

    true_ne_false : true ≢ false
    true_ne_false e = cc

    refused :
        enqueue_send v.connection x ≡ (false, v.connection)
        → send v.connection packet_id payload ≡ (false, none, v.connection)
    refused e = send_refused v.connection packet_id payload e

disconnected : (c : TcpConnection) → disconnect c ≡ record c { connected = false }
unfolding disconnect
disconnected c = elim (Bool-cases c.connected) [ inl e ↦ rw e refl | inr e ↦ ground (arith, e) ]

step-InStep : (v : Wire) (e : Event) → InStep v → InStep (step v e)
unfolding send enqueue_send written end_write write_failed
step-InStep v (sends packet_id payload) s = send-InStep v packet_id payload s
step-InStep v completes s = elim (Bool-cases v.connection.write_in_progress) [
  | inl busy ↦
      subst (λ b. InStep (if b then v' (written v.connection) else v)) (sym busy)
        (elim (List-cases v.connection.send_queue) [
          | inl none_left ↦
              subst (λ a. InStep (v' a)) (sym (start_empty (end_write v.connection) refl none_left))
                (record { order = s.order; busy = λ _ _. none_left; bounded = s.bounded })
          | inr (x, xs, q) ↦
              subst (λ a. InStep (v' a)) (sym (start_idle (end_write v.connection) x xs refl q))
                (record {
                  order =
                      s.order ∙ ap (λ l. v.begun ++ l) q ∙ sym (append_assoc v.begun (x ∷ []) xs);
                  busy = λ _ idle. absurd (true_ne_false idle);
                  bounded = omega (arith, s.bounded, ap length q);
                })
        ])
  | inr idle ↦ subst (λ b. InStep (if b then v' (written v.connection) else v)) (sym idle) s
]
  where
    v' : Option (List ℕ) × TcpConnection → Wire
    v' (writes, c) = record v { connection = c; begun = append_some v.begun writes }

    true_ne_false : true ≢ false
    true_ne_false e = cc
step-InStep v fails s = elim (Bool-cases v.connection.write_in_progress) [
  | inl busy ↦
      subst (λ b. InStep (if b then down (write_failed v.connection) else v)) (sym busy)
        (subst (λ c. InStep (down (end_write c))) (sym (disconnected v.connection))
          (record {
            order = s.order;
            busy = λ up. absurd (true_ne_false (sym up));
            bounded = s.bounded;
          }))
  | inr idle ↦ subst (λ b. InStep (if b then down (write_failed v.connection) else v)) (sym idle) s
]
  where
    down : TcpConnection → Wire
    down c = record v { connection = c }

    true_ne_false : true ≢ false
    true_ne_false e = cc
step-InStep v disconnects s =
    subst (λ c. InStep (record v { connection = c })) (sym (disconnected v.connection))
      (record {
        order = s.order;
        busy = λ up. absurd (true_ne_false (sym up));
        bounded = s.bounded;
      })
  where
    true_ne_false : true ≢ false
    true_ne_false e = cc

-- After any sequence of sends, completed writes, failed writes and disconnects of a new connection,
-- the packets whose write was started and those in the queue are together exactly the packets that
-- Send accepted, in the order of the sends; the queue holds at most 1024, and while the connection is
-- up nothing waits in it with no write under way.
pub writes_in_order :
    (id : ℕ) (events : List Event)
    → InStep (run (record { connection = construct id; accepted = []; begun = [] }) events)
writes_in_order id events =
    run-InStep _ events (record { order = refl; busy = λ _ _. refl; bounded = omega arith })
  where
    run-InStep : (v : Wire) (es : List Event) → InStep v → InStep (run v es)
    run-InStep v [] s = s
    run-InStep v (e ∷ es) s = run-InStep (step v e) es (step-InStep v e s)
