-- ===== src/Packet/RoundTrip.antt =====
-- Strings and numbers through a packet, and the outcomes of WriteString.
use mmo_server.Common.{
  ℕ, ◌+◌, ◌-◌, ◌%◌, ◌^◌, ◌≤◌, ◌<◌, ◌≡◌, refl, sym, ap, ap₂, ◌∙◌, ◌⊎◌, inl, inr, true, false, some,
  List, ◌++◌, arith, length, length-append, length-take, length-drop, take, drop, take-append,
  drop-append, append_assoc, le→ltb, ne→==, encode_le, decode_le, decode_le-encode_le4, returned,
}
use mmo_server.Packet.{
  PacketWriter, PacketReader, max_packet_size, write, write_string, read_bytes, read, read_string,
  remaining_bytes,
}
use mmo_server.Packet.Bounds.{Bounded, advanced, write_bytes_cases}

pub advanced-Bounded :
    (w : PacketWriter) (bytes : List ℕ)
    → Bounded w
    → w.offset + length bytes ≤ max_packet_size
    → Bounded (advanced w bytes)
advanced-Bounded w bytes b room =
    let total =
      length-append (take w.offset w.buffer) (bytes ++ drop (w.offset + length bytes) w.buffer) in
    let back = length-append bytes (drop (w.offset + length bytes) w.buffer) in
    record {
      inside = omega (
        arith,
        total,
        back,
        length-take w.offset w.buffer,
        length-drop (w.offset + length bytes) w.buffer,
        b.inside,
      );
      limited = omega (
        arith,
        total,
        back,
        length-take w.offset w.buffer,
        length-drop (w.offset + length bytes) w.buffer,
        b.inside,
        b.limited,
      );
    }

-- The length that goes in front of a string.
abbrev pub length_bytes : List ℕ → List ℕ
length_bytes str = encode_le 4 (length str % 2 ^ 32)

-- WriteString on a writer inside a buffer within the limit, of a string of less than 2 ^ 32 bytes,
-- never throws. It writes the length and the string where both fit within 64 KiB. Where the length
-- fits and the string does not, it returns false and puts the offset back, but the four bytes of the
-- length stay in the buffer. Where not even the length fits, it returns false and changes nothing.
pub write_string_outcome :
    (w : PacketWriter) (str : List ℕ)
    → Bounded w
    → length str < 2 ^ 32
    → ((w.offset + 4 + length str ≤ max_packet_size)
        × (write_string w str ≡ returned (true, advanced (advanced w (length_bytes str)) str)))
      ⊎ (((w.offset + 4 ≤ max_packet_size)
            × (max_packet_size < w.offset + 4 + length str)
            × (write_string w str
                ≡ returned (false, record (advanced w (length_bytes str)) { offset = w.offset })))
          ⊎ ((max_packet_size < w.offset + 4) × (write_string w str ≡ returned (false, w))))
unfolding write_string write
write_string_outcome w str b small = elim (write_bytes_cases w (length_bytes str) b (omega arith)) [
  | inl (over, e) ↦ inr (inr (over, ground (arith, e)))
  | inr (room, e) ↦
      elim (write_bytes_cases (advanced w (length_bytes str)) str
        (advanced-Bounded w (length_bytes str) b room) (omega arith)) [
          | inl (over, e') ↦ inr (inl (room, over, ground (arith, e, e')))
          | inr (fits, e') ↦ inl (fits, ground (arith, e, e'))
        ]
]

-- A reader at the end of `front` finds what follows it.
pub read_bytes-here :
    (front bytes rest : List ℕ)
    → 0 < length bytes
    → read_bytes (record { view = front ++ (bytes ++ rest); offset = length front }) (length bytes)
      ≡ (
        some bytes,
        record { view = front ++ (bytes ++ rest); offset = length front + length bytes },
      )
unfolding read_bytes
read_bytes-here front bytes rest nonempty =
    rw
      (
        ne→== (length bytes) 0 (λ e. omega (arith, e, nonempty)),
        le→ltb (length (front ++ (bytes ++ rest)) - length front) (length bytes)
            (omega (arith, length-append front (bytes ++ rest), length-append bytes rest)),
        drop-append front (bytes ++ rest),
        take-append bytes rest,
      )
      refl

read_string-some :
    (r r' : PacketReader) (bytes : List ℕ) (len : ℕ)
    → read_bytes r 4 ≡ (some bytes, r')
    → decode_le bytes ≡ len
    → len ≤ remaining_bytes r'
    → read_string r
      ≡ (some (take len (drop r'.offset r'.view)), record r' { offset = r'.offset + len })
unfolding read_string read
read_string-some r r' bytes len e value room = ground (arith, e, value, room)

read_string-here :
    (front str rest : List ℕ)
    → length str < 2 ^ 32
    → read_string
        (record { view = front ++ (length_bytes str ++ (str ++ rest)); offset = length front })
      ≡ (
        some str,
        record {
          view = front ++ (length_bytes str ++ (str ++ rest));
          offset = length front + 4 + length str;
        },
      )
unfolding read_string read
read_string-here front str rest small =
    let whole : List ℕ = front ++ (length_bytes str ++ (str ++ rest)) in
    let found = read_bytes-here front (length_bytes str) (str ++ rest) (omega arith) in
    let value : decode_le (length_bytes str) ≡ length str =
      decode_le-encode_le4 (length str % 2 ^ 32) (omega arith) ∙ omega arith in
    let total = length-append front (length_bytes str ++ (str ++ rest)) in
    let back = length-append str rest in
    let tail : drop (length front + 4) whole ≡ str ++ rest =
      ap₂ drop (sym (length-append front (length_bytes str)))
        (sym (append_assoc front (length_bytes str) (str ++ rest)))
      ∙ drop-append (front ++ length_bytes str) (str ++ rest) in
    let room : length str ≤ length whole - (length front + 4) = omega (arith, total, back) in
    read_string-some (record { view = whole; offset = length front })
      (record { view = whole; offset = length front + 4 }) (length_bytes str) (length str) found
      value room
    ∙ ap (λ bytes. (some bytes, record { view = whole; offset = length front + 4 + length str }))
        (ap (take (length str)) tail ∙ take-append str rest)

pub twice_advanced :
    (w : PacketWriter) (xs ys : List ℕ)
    → Bounded w
    → (rest : List ℕ) × ((advanced (advanced w xs) ys).buffer
        ≡ take w.offset w.buffer ++ (xs ++ (ys ++ rest)))
twice_advanced w xs ys b =
    let front : List ℕ = take w.offset w.buffer in
    let back : List ℕ = drop (w.offset + length xs) w.buffer in
    let size : length (front ++ xs) ≡ w.offset + length xs =
      length-append front xs ∙ omega (arith, length-take w.offset w.buffer, b.inside) in
    (
      drop (w.offset + length xs + length ys) (front ++ (xs ++ back)),
      ap (λ l. l ++ (ys ++ drop (w.offset + length xs + length ys) (front ++ (xs ++ back))))
            (ap₂ take (sym size) (sym (append_assoc front xs back))
              ∙ take-append (front ++ xs) back)
          ∙ append_assoc front xs _,
    )

-- A string of less than 2 ^ 32 bytes that fits within the limit, written by a writer that stands
-- anywhere inside a buffer within the limit: WriteString returns true, and ReadString of a reader
-- over the buffer that stands where the writer stood gives the string back and ends where the writer
-- ends.
pub write_string-read_string :
    (w : PacketWriter) (str : List ℕ)
    → Bounded w
    → length str < 2 ^ 32
    → w.offset + 4 + length str ≤ max_packet_size
    → (w' : PacketWriter) × (write_string w str ≡ returned (true, w'))
      × Bounded w'
      × (read_string (record { view = w'.buffer; offset = w.offset })
          ≡ (some str, record { view = w'.buffer; offset = w'.offset }))
write_string-read_string w str b small room = elim (write_string_outcome w str b small) [
  | inr (inl (_, over, _)) ↦ absurd (omega (arith, over, room))
  | inr (inr (over, _)) ↦ absurd (omega (arith, over, room))
  | inl (_, e) ↦
      let bounded =
        advanced-Bounded (advanced w (length_bytes str)) str
          (advanced-Bounded w (length_bytes str) b (omega arith)) room in
      let (rest, buffer) = twice_advanced w (length_bytes str) str b in
      let size : length (take w.offset w.buffer) ≡ w.offset =
        length-take w.offset w.buffer ∙ omega (arith, b.inside) in
      (
        advanced (advanced w (length_bytes str)) str,
        e,
        bounded,
        ap read_string (ap₂ (λ v o. record { view = v; offset = o }) buffer (sym size))
            ∙ read_string-here (take w.offset w.buffer) str rest small
            ∙ ap₂ (λ v o. (some str, record { view = v; offset = o })) (sym buffer)
                (ap (λ n. n + 4 + length str) size),
      )
]
