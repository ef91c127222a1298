-- ===== src/Net.antt =====
-- infrastructure/Net: PacketCodec, TcpConnection and the loops of NetServer. A `ByteBuffer` is a list
-- of bytes, a PacketFrame the six bytes of its two little-endian fields. The socket is not under
-- the repository: what arrives on it and whether a write succeeds are arguments of the handlers.
pub mod Stream
pub mod Malformed
pub mod Connection
pub mod Server
mod Tests
use mmo_server.Common.{
  ℕ, zero, suc, ◌+◌, ◌*◌, ◌%◌, ◌^◌, Bool, true, false, not, Option, none, some, List, [], ◌∷◌, ◌++◌,
  length, take, drop, ltb, leb, ◌==◌, if◌then◌else◌, encode_le, decode_le,
}
use mmo_server.Queue.Fifo
use mmo_server.Queue.Fifo.{enqueues, dequeues}

pub record ReceivedPacket : Type 0 where
  pub connection_id : ℕ
  pub packet_id : ℕ
  pub payload : List ℕ

abbrev pub empty_packet : ReceivedPacket
empty_packet = record { connection_id = 0; packet_id = 0; payload = [] }

abbrev pub header_size : ℕ
header_size = 6

abbrev pub max_packet_size : ℕ
max_packet_size = 64 * 1024

-- The payload's length is cut to 32 bits.
unfoldable pub encode : ℕ → List ℕ → List ℕ
encode packet_id payload =
    encode_le 4 (length payload % 2 ^ 32) ++ (encode_le 2 packet_id ++ payload)

-- The two fields of the frame at the start of a buffer.
abbrev pub frame_length : List ℕ → ℕ
frame_length buffer = decode_le (take 4 buffer)

abbrev pub frame_id : List ℕ → ℕ
frame_id buffer = decode_le (take 2 (drop 4 buffer))

-- Decode: the return value, `outPacket` and the receive buffer.
unfoldable pub decode : List ℕ → ReceivedPacket → Bool × ReceivedPacket × List ℕ
decode buffer out =
    if ltb (length buffer) header_size
    then (false, out, buffer)
    else if ltb max_packet_size (frame_length buffer)
    then (false, out, [])
    else if ltb (length buffer) (header_size + frame_length buffer)
    then (false, out, buffer)
    else (
      true,
      record out {
        packet_id = frame_id buffer;
        payload = take (frame_length buffer) (drop header_size buffer);
      },
      drop (header_size + frame_length buffer) buffer,
    )

-- The loop of the read handler on the receive buffer: the packets in order, with the connection's
-- id, and what stays in the buffer; `none` when the fuel runs out.
unfoldable pub decode_loop : ℕ → ℕ → List ℕ → Option (List ReceivedPacket × List ℕ)
unfolding decode
decode_loop zero id buffer = none
decode_loop (suc fuel) id buffer =
    let (found, packet, rest) = decode buffer empty_packet in
    elim found [
      | false ↦ some ([], rest)
      | true ↦ elim (decode_loop fuel id rest) [
        | none ↦ none
        | some (packets, left) ↦ some (record packet { connection_id = id } ∷ packets, left)
      ]
    ]
