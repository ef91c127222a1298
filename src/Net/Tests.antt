-- ===== src/Net/Tests.antt =====
-- Two packets that arrive in three pieces, and the theorems on the connection at them.
use mmo_server.Common.{ℕ, ◌≤◌, All, length, false, ◌≡◌, refl, some, List, [], ◌∷◌, arith}
use mmo_server.Net.Malformed.{decode_loop_ends}
use mmo_server.Net.{decode_loop, max_packet_size, ReceivedPacket, empty_packet, encode, decode}
use mmo_server.Net.Connection.{construct, receive_all}
use mmo_server.Net.Connection.Reading.{receive_all_packets}
use mmo_server.Net.Connection.Writing.{
  sends, completes, fails, disconnects, run, InStep, writes_in_order,
}

encode_two : encode 258 (7 ∷ 8 ∷ []) ≡ 2 ∷ 0 ∷ 0 ∷ 0 ∷ 2 ∷ 1 ∷ 7 ∷ 8 ∷ []
unfolding encode
encode_two = refl

abbrev first_packet : ReceivedPacket
first_packet = record { connection_id = 0; packet_id = 258; payload = 7 ∷ 8 ∷ [] }

abbrev second_packet : ReceivedPacket
second_packet = record { connection_id = 0; packet_id = 1; payload = [] }

abbrev pieces : List (List ℕ)
pieces = (2 ∷ 0 ∷ []) ∷ (0 ∷ 0 ∷ 2 ∷ 1 ∷ 7 ∷ 8 ∷ 0 ∷ []) ∷ (0 ∷ 0 ∷ 0 ∷ 1 ∷ 0 ∷ []) ∷ []

receive_all_packets_example :
    receive_all 100 (construct 3) [] pieces
    ≡ some (
      construct 3,
      record first_packet { connection_id = 3 } ∷ record second_packet { connection_id = 3 } ∷ [],
    )
unfolding encode
receive_all_packets_example =
    receive_all_packets 100 pieces (construct 3) [] (first_packet ∷ second_packet ∷ [])
      ((omega arith, omega arith), ((omega arith, omega arith), tt)) refl refl (omega arith)
      (omega arith)

writes_in_order_example : InStep (
    run
      (record { connection = construct 3; accepted = []; begun = [] })
      (sends 1 []
        ∷ sends 2 (5 ∷ [])
        ∷ completes
        ∷ sends 3 []
        ∷ fails
        ∷ sends 4 []
        ∷ disconnects
        ∷ []))
writes_in_order_example =
    writes_in_order 3 (
      sends 1 []
      ∷ sends 2 (5 ∷ [])
      ∷ completes
      ∷ sends 3 []
      ∷ fails
      ∷ sends 4 []
      ∷ disconnects
      ∷ [])

decode_loop_ends_example :
    (got : List ReceivedPacket) × (left : List ℕ) × (decode_loop 8 3
        (0 ∷ 0 ∷ 2 ∷ 0 ∷ 0 ∷ 0 ∷ 7 ∷ [])
      ≡ some (got, left))
    × All (λ p. (length p.payload ≤ max_packet_size) × (p.connection_id ≡ 3)) got
    × (length left ≤ 7)
    × (decode left empty_packet ≡ (false, empty_packet, left))
decode_loop_ends_example = decode_loop_ends 8 3 (0 ∷ 0 ∷ 2 ∷ 0 ∷ 0 ∷ 0 ∷ 7 ∷ []) (omega arith)
