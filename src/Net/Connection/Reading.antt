-- ===== src/Net/Connection/Reading.antt =====
-- The read loop: the packets of the peer arrive whole, in order, however the stream is cut.
use mmo_server.Common.{
  ℕ, suc, ◌+◌, ◌≤◌, ◌<◌, ◌≡◌, refl, sym, ap, ap₂, ◌∙◌, subst, ◌⊎◌, inl, inr, Option, none, some,
  List, [], ◌∷◌, ◌++◌, All, arith, length, length-append, lt→ltb, append_assoc, append-nil,
}
use mmo_server.Queue.Fifo
use mmo_server.Net.{ReceivedPacket, decode_loop, encode}
use mmo_server.Net.Stream.{Fits, stream, received, loop-Taken, All-split, length-encode}
use mmo_server.Net.Connection.{TcpConnection, inbound_queue_capacity, deliver, receive, receive_all}

abbrev pub concat : List (List ℕ) → List ℕ
concat [] = []
concat (xs ∷ xss) = xs ++ concat xss

deliver-room :
    (inbound ps : List ReceivedPacket)
    → length inbound + length ps ≤ inbound_queue_capacity
    → deliver inbound ps ≡ inbound ++ ps
unfolding deliver Fifo.step
deliver-room inbound [] room = sym (append-nil inbound)
deliver-room inbound (p ∷ ps) room =
    rw (lt→ltb (length inbound) inbound_queue_capacity (omega arith)) (
      deliver-room (inbound ++ p ∷ []) ps (omega (arith, length-append inbound (p ∷ [])))
      ∙ append_assoc inbound (p ∷ []) ps)

received-length : (id : ℕ) (ps : List ReceivedPacket) → length (received id ps) ≡ length ps
received-length id [] = refl
received-length id (p ∷ ps) = ap suc (received-length id ps)

received-append :
    (id : ℕ) (ps qs : List ReceivedPacket)
    → received id (ps ++ qs) ≡ received id ps ++ received id qs
received-append id [] qs = refl
received-append id (p ∷ ps) qs =
    ap (λ l. record p { connection_id = id } ∷ l) (received-append id ps qs)

stream-split :
    (before after : List ReceivedPacket)
    → length (stream (before ++ after)) ≡ length (stream before) + length (stream after)
stream-split [] after = omega arith
stream-split (p ∷ before) after = omega (
  arith,
  stream-split before after,
  length-append (encode p.packet_id p.payload) (stream before),
  length-append (encode p.packet_id p.payload) (stream (before ++ after)),
)

module _ (fuel : ℕ) where
  receive_some :
      (c : TcpConnection) (inbound : List ReceivedPacket) (chunk : List ℕ) (chunks : List (List ℕ))
      (got : List ReceivedPacket) (left : List ℕ)
      → decode_loop fuel c.connection_id (c.receive_buffer ++ chunk) ≡ some (got, left)
      → receive_all fuel c inbound (chunk ∷ chunks)
        ≡ receive_all fuel (record c { receive_buffer = left }) (deliver inbound got) chunks
  unfolding receive_all receive
  receive_some c inbound chunk chunks got left e = ap after_loop e
    where
      after_loop :
          Option (List ReceivedPacket × List ℕ) → Option (TcpConnection × List ReceivedPacket)
      after_loop o =
          let read : Option (TcpConnection × List ReceivedPacket) = elim o [
            | none ↦ none
            | some (packets, rest) ↦
                some (record c { receive_buffer = rest }, deliver inbound packets)
          ] in
          elim read [ none ↦ none | some (c', inbound') ↦ receive_all fuel c' inbound' chunks ]

  -- The stream of the packets `ps` is in the receive buffer and the chunks to come. After all
  -- reads every packet is in the inbound queue, and nothing is left in the buffer.
  receive_from :
      (chunks : List (List ℕ)) (c : TcpConnection) (inbound ps : List ReceivedPacket)
      → All Fits ps
      → c.receive_buffer ++ concat chunks ≡ stream ps
      → (length c.receive_buffer < length (stream ps)) ⊎ (ps ≡ [])
      → length (stream ps) < fuel
      → length inbound + length ps ≤ inbound_queue_capacity
      → receive_all fuel c inbound chunks
        ≡ some (record c { receive_buffer = [] }, inbound ++ received c.connection_id ps)
  unfolding receive_all
  receive_from [] c inbound ps fits e partial enough room =
      let empty : c.receive_buffer ≡ [] = elim partial [
        | inl few ↦ absurd (omega (arith, ap length e, length-append c.receive_buffer []))
        | inr none_left ↦ sym (append-nil c.receive_buffer) ∙ e ∙ ap stream none_left
      ] in
      let nothing : ps ≡ [] = elim partial [
        | inl few ↦ absurd (omega (arith, ap length e, length-append c.receive_buffer []))
        | inr none_left ↦ none_left
      ] in
      ap₂ (λ b l. some (record c { receive_buffer = b }, l)) empty
        (sym (ap (λ l. inbound ++ received c.connection_id l) nothing ∙ append-nil inbound))
  receive_from (chunk ∷ chunks) c inbound ps fits e partial enough room =
      let whole = sym (sym e ∙ sym (append_assoc c.receive_buffer chunk (concat chunks))) in
      let short : length (c.receive_buffer ++ chunk) < fuel = omega (
        arith,
        ap length e,
        ap length (append_assoc c.receive_buffer chunk (concat chunks)),
        length-append (c.receive_buffer ++ chunk) (concat chunks),
      ) in
      let (got, left, ran, t) =
        loop-Taken fuel c.connection_id (c.receive_buffer ++ chunk) (concat chunks) ps fits
          (append_assoc c.receive_buffer chunk (concat chunks) ∙ e) short in
      let fit = All-split t.before t.after (subst (All Fits) t.parts fits) in
      let counts = ap length t.parts ∙ length-append t.before t.after in
      let delivered : deliver inbound got ≡ inbound ++ received c.connection_id t.before =
        ap (deliver inbound) t.all
        ∙ deliver-room inbound (received c.connection_id t.before)
            (omega (arith, counts, received-length c.connection_id t.before)) in
      receive_some c inbound chunk chunks got left ran
      ∙ ap (λ l. receive_all fuel (record c { receive_buffer = left }) l chunks) delivered
      ∙ receive_from chunks (record c { receive_buffer = left })
          (inbound ++ received c.connection_id t.before) t.after fit.1 t.continues t.incomplete
          (omega (arith, stream-split t.before t.after, ap (λ l. length (stream l)) t.parts))
          (omega (
            arith,
            counts,
            received-length c.connection_id t.before,
            length-append inbound (received c.connection_id t.before),
          ))
      ∙ ap (λ l. some (record c { receive_buffer = [] }, l))
          (append_assoc inbound (received c.connection_id t.before)
              (received c.connection_id t.after)
            ∙ ap (λ l. inbound ++ l)
                (sym (received-append c.connection_id t.before t.after)
                  ∙ ap (received c.connection_id) (sym t.parts)))

  -- A connection whose receive buffer is empty reads chunks that together are the encoding of a
  -- sequence of packets, each with an id of 16 bits and at most 64 KiB of payload, wherever the
  -- stream is cut. With room in the inbound queue for all of them and fuel above the length of the
  -- stream, the reads end, every packet is in the inbound queue once, in order, whole and marked
  -- with the connection's id, and the receive buffer is empty.
  pub receive_all_packets :
      (chunks : List (List ℕ)) (c : TcpConnection) (inbound ps : List ReceivedPacket)
      → All Fits ps
      → c.receive_buffer ≡ []
      → concat chunks ≡ stream ps
      → length (stream ps) < fuel
      → length inbound + length ps ≤ inbound_queue_capacity
      → receive_all fuel c inbound chunks
        ≡ some (record c { receive_buffer = [] }, inbound ++ received c.connection_id ps)
  receive_all_packets chunks c inbound ps fits empty e enough room =
      receive_from chunks c inbound ps fits (ap (λ b. b ++ concat chunks) empty ∙ e)
        (partly ps (ap length empty)) enough room
    where
      partly :
          (ps : List ReceivedPacket)
          → length c.receive_buffer ≡ 0
          → (length c.receive_buffer < length (stream ps)) ⊎ (ps ≡ [])
      partly [] z = inr refl
      partly (p ∷ ps) z = inl (
          omega (
            arith,
            z,
            length-encode p.packet_id p.payload,
            length-append (encode p.packet_id p.payload) (stream ps),
          ))
