-- ===== src/Serialization.antt =====
-- infrastructure/serialization: BinaryWriter, BinaryReader and StringSerializer on top of the packets.
-- A BinaryWriter is the PacketWriter that it refers to, a BinaryReader the PacketReader.
pub mod Strings
mod Tests
use mmo_server.Common.{
  ℕ, ◌+◌, ◌*◌, ◌%◌, ◌^◌, Bool, true, false, Option, none, some, List, [], length, ltb, ◌==◌,
  if◌then◌else◌, encode_le, decode_le, Result, returned, thrown,
}
use mmo_server.Packet
use mmo_server.Packet.{PacketWriter, PacketReader}

abbrev pub max_string_length : ℕ
max_string_length = 1024 * 1024

unfoldable pub write_bytes : PacketWriter → Option (List ℕ) → ℕ → Result (Bool × PacketWriter)
write_bytes w source size = if size == 0 then returned (true, w) else elim source [
  | none ↦ returned (false, w)
  | some bytes ↦ Packet.write_bytes w (some bytes) size
]

-- A value of `width` bytes.
unfoldable pub write : PacketWriter → ℕ → ℕ → Result (Bool × PacketWriter)
unfolding write_bytes
write w width value = write_bytes w (some (encode_le width value)) width

-- ReadBytes to a destination that is not null: the return value, with the bytes that are read.
unfoldable pub read_bytes : PacketReader → ℕ → Option (List ℕ) × PacketReader
read_bytes r size = if size == 0 then (some [], r) else Packet.read_bytes r size

unfoldable pub read : PacketReader → ℕ → Option ℕ × PacketReader
unfolding read_bytes
read r width =
    let (bytes, r') = read_bytes r width in
    elim bytes [ none ↦ (none, r') | some bs ↦ (some (decode_le bs), r') ]

unfoldable pub serialize : PacketWriter → List ℕ → Result (Bool × PacketWriter)
unfolding write
serialize w value =
    if ltb max_string_length (length value)
    then returned (false, w)
    else elim (write w 4 (length value % 2 ^ 32)) [
      | thrown e ↦ thrown e
      | returned (wrote, w') ↦ elim wrote [
        | false ↦ returned (false, w')
        | true ↦
            if length value % 2 ^ 32 == 0
            then returned (true, w')
            else write_bytes w' (some value) (length value % 2 ^ 32)
      ]
    ]

-- Deserialize, with the string `value` that it writes to.
unfoldable pub deserialize : PacketReader → List ℕ → Bool × List ℕ × PacketReader
unfolding read
deserialize r value =
    let (len, r') = read r 4 in
    elim len [
      | none ↦ (false, value, r')
      | some n ↦
          if ltb max_string_length n
          then (false, value, r')
          else if n == 0
          then (true, [], r')
          else let (bytes, r'') = read_bytes r' n in
            elim bytes [ none ↦ (false, [], r'') | some bs ↦ (true, bs, r'') ]
    ]
