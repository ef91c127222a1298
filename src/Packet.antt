-- ===== src/Packet.antt =====
-- infrastructure/packet: PacketBuffer, PacketView, PacketWriter and PacketReader. A buffer is the
-- list of its bytes; a value of a trivially copyable type is its little-endian bytes. `none` is the
-- null pointer, and a pointer that is not null has at least the bytes that are asked for.
pub mod Bounds
pub mod RoundTrip
pub mod Reading
mod Tests
use mmo_server.Common.{
  ℕ, zero, suc, ◌+◌, ◌-◌, ◌*◌, ◌%◌, ◌^◌, Bool, true, false, not, Option, none, some, List, [], ◌∷◌,
  ◌++◌, length, take, drop, replicate, ltb, leb, ◌==◌, if◌then◌else◌, encode_le, decode_le, Result,
  returned, thrown, length_error,
}

abbrev pub max_packet_size : ℕ
max_packet_size = 64 * 1024

unfoldable pub is_valid_capacity : ℕ → Bool
is_valid_capacity size = leb size max_packet_size

-- What `reserve` allocates is not part of the state.
unfoldable pub construct : ℕ → Result (List ℕ)
unfolding is_valid_capacity
construct capacity = if not (is_valid_capacity capacity) then thrown length_error else returned []

unfoldable pub resize : List ℕ → ℕ → Result (List ℕ)
unfolding is_valid_capacity
resize buffer size =
    if not (is_valid_capacity size)
    then thrown length_error
    else returned (take size buffer ++ replicate (size - length buffer) 0)

unfoldable pub reserve : List ℕ → ℕ → Result (List ℕ)
unfolding is_valid_capacity
reserve buffer capacity =
    if not (is_valid_capacity capacity) then thrown length_error else returned buffer

abbrev pub clear : List ℕ → List ℕ
clear buffer = []

-- A writer with the buffer that it refers to.
pub record PacketWriter : Type 0 where
  pub buffer : List ℕ
  pub offset : ℕ

-- `memcpy` to an offset of the buffer.
abbrev pub overwrite : List ℕ → ℕ → List ℕ → List ℕ
overwrite buffer offset bytes = take offset buffer ++ (bytes ++ drop (offset + length bytes) buffer)

-- The writer after the copy into `buffer`.
abbrev pub copied : PacketWriter → List ℕ → ℕ → List ℕ → PacketWriter
copied w bytes size buffer = record {
  buffer = overwrite buffer w.offset bytes;
  offset = (w.offset + size) % 2 ^ 64;
}

unfoldable pub write_bytes : PacketWriter → Option (List ℕ) → ℕ → Result (Bool × PacketWriter)
unfolding resize
write_bytes w source size = if size == 0 then returned (true, w) else elim source [
  | none ↦ returned (false, w)
  | some bytes ↦
      let required = (w.offset + size) % 2 ^ 64 in
      if ltb max_packet_size required
      then returned (false, w)
      else if ltb (length w.buffer) required
      then elim (resize w.buffer required) [
        | thrown e ↦ thrown e
        | returned buffer ↦ returned (true, copied w (take size bytes) size buffer)
      ]
      else returned (true, copied w (take size bytes) size w.buffer)
]

-- `Write` of a value of `width` bytes.
unfoldable pub write : PacketWriter → ℕ → ℕ → Result (Bool × PacketWriter)
unfolding write_bytes
write w width value = write_bytes w (some (encode_le width value)) width

-- A string is not null here, and is empty where its length is 0.
unfoldable pub write_string : PacketWriter → List ℕ → Result (Bool × PacketWriter)
unfolding write write_bytes
write_string w str = elim (write w 4 (length str % 2 ^ 32)) [
  | thrown e ↦ thrown e
  | returned (wrote, w') ↦ elim wrote [
    | false ↦ returned (false, w')
    | true ↦ elim (write_bytes w' (some str) (length str)) [
      | thrown e ↦ thrown e
      | returned (copied, w'') ↦ elim copied [
        | false ↦ returned (false, record w'' { offset = w.offset })
        | true ↦ returned (true, w'')
      ]
    ]
  ]
]

unfoldable pub write_span : PacketWriter → Option (List ℕ) → ℕ → Result (Bool × PacketWriter)
unfolding write_bytes
write_span w source size = write_bytes w source size

unfoldable pub reset : PacketWriter → PacketWriter
reset w = record w { offset = 0 }

-- A view is the bytes that it covers, `none` for a null pointer of size 0.
pub record PacketView : Type 0 where
  pub data_bytes : Option (List ℕ)
  pub size : ℕ

unfoldable pub sub_view : PacketView → ℕ → ℕ → PacketView
sub_view v offset size =
    if ltb v.size offset
    then record { data_bytes = none; size = 0 }
    else if ltb (v.size - offset) size
    then record { data_bytes = none; size = 0 }
    else record {
      data_bytes = elim v.data_bytes [ none ↦ none | some bytes ↦ some (drop offset bytes) ];
      size = size;
    }

-- A reader of a view that is not null.
pub record PacketReader : Type 0 where
  pub view : List ℕ
  pub offset : ℕ

abbrev pub remaining_bytes : PacketReader → ℕ
remaining_bytes r = length r.view - r.offset

-- ReadBytes to a destination that is not null: the bytes that it writes there, `none` for the return
-- value false.
unfoldable pub read_bytes : PacketReader → ℕ → Option (List ℕ) × PacketReader
read_bytes r size =
    if size == 0
    then (none, r)
    else if ltb (remaining_bytes r) size
    then (none, r)
    else (some (take size (drop r.offset r.view)), record r { offset = r.offset + size })

unfoldable pub read : PacketReader → ℕ → Option ℕ × PacketReader
unfolding read_bytes
read r width =
    let (bytes, r') = read_bytes r width in
    elim bytes [ none ↦ (none, r') | some bs ↦ (some (decode_le bs), r') ]

unfoldable pub read_string : PacketReader → Option (List ℕ) × PacketReader
unfolding read
read_string r =
    let (value, r') = read r 4 in
    elim value [
      | none ↦ (none, r')
      | some len ↦
          if ltb (remaining_bytes r') len
          then (none, record r' { offset = r.offset })
          else (some (take len (drop r'.offset r'.view)), record r' { offset = r'.offset + len })
    ]
