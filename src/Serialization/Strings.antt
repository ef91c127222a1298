-- ===== src/Serialization/Strings.antt =====
-- Strings through the serializer, and how it differs from the strings of the packet library.
use native.Mathlib.Decide.{dec_lt, ℕ_discrete}
use mmo_server.Common.{
  ℕ, ◌+◌, ◌%◌, ◌^◌, ◌≤◌, ◌<◌, ◌≡◌, refl, sym, ap, ap₂, ◌∙◌, ◌⊎◌, inl, inr, true, false, some, List,
  [], ◌∷◌, ◌++◌, arith, length, length-append, length-take, take, decode_le, decode_le-encode_le4,
  append_assoc, returned,
}
use mmo_server.Packet
use mmo_server.Packet.{PacketWriter, PacketReader, max_packet_size}
use mmo_server.Packet.Bounds.{Bounded, advanced, write_bytes_cases}
use mmo_server.Packet.RoundTrip.{advanced-Bounded, length_bytes, twice_advanced, read_bytes-here}
use mmo_server.Serialization.{
  max_string_length, write_bytes, write, read_bytes, read, serialize, deserialize,
}

empty_write :
    (w : PacketWriter) (str : List ℕ)
    → length str ≡ 0
    → Packet.write_bytes w (some str) (length str) ≡ returned (true, w)
unfolding Packet.write_bytes
empty_write w str e = ground (arith, e)

-- Once the length is written, the rest is a WriteBytes of the packet's writer.
serialize_wrote :
    (w w' : PacketWriter) (str : List ℕ)
    → length str ≤ max_string_length
    → Packet.write_bytes w (some (length_bytes str)) 4 ≡ returned (true, w')
    → serialize w str ≡ Packet.write_bytes w' (some str) (length str)
unfolding serialize write write_bytes
serialize_wrote w w' str short e = elim (ℕ_discrete (length str) 0) [
  | yes z ↦ ground (arith, short, e, z, empty_write w' str z)
  | no ne ↦
      let same : length str % 2 ^ 32 ≡ length str = omega (arith, short) in
      ground (arith, short, e, ne) ∙ ap (Packet.write_bytes w' (some str)) same
]

-- Serialize on a writer inside a buffer within the limit never throws. A string beyond 1 MiB is
-- refused and changes nothing. Otherwise it writes the length and the string where both fit within 64
-- KiB; where the length fits and the string does not, it returns false and leaves the writer behind
-- the length that it wrote; where not even the length fits, it returns false and changes nothing.
serialize_outcome :
    (w : PacketWriter) (str : List ℕ)
    → Bounded w
    → ((max_string_length < length str) × (serialize w str ≡ returned (false, w)))
      ⊎ (((w.offset + 4 + length str ≤ max_packet_size)
            × (serialize w str ≡ returned (true, advanced (advanced w (length_bytes str)) str)))
          ⊎ (((w.offset + 4 ≤ max_packet_size)
                × (max_packet_size < w.offset + 4 + length str)
                × (serialize w str ≡ returned (false, advanced w (length_bytes str))))
              ⊎ ((max_packet_size < w.offset + 4) × (serialize w str ≡ returned (false, w)))))
unfolding serialize write write_bytes
serialize_outcome w str b = elim (dec_lt max_string_length (length str)) [
  | yes long ↦ inl (long, ground (arith, long))
  | no short ↦ elim (write_bytes_cases w (length_bytes str) b (omega arith)) [
    | inl (over, e) ↦ inr (inr (inr (over, ground (arith, e, short))))
    | inr (room, e) ↦
        let rest = serialize_wrote w (advanced w (length_bytes str)) str (omega (arith, short)) e in
        elim (write_bytes_cases (advanced w (length_bytes str)) str
          (advanced-Bounded w (length_bytes str) b room) (omega (arith, short))) [
            | inl (over, e') ↦ inr (inr (inl (room, over, rest ∙ e')))
            | inr (fits, e') ↦ inr (inl (fits, rest ∙ e'))
          ]
  ]
]

read_bytes-some :
    (r r' r'' : PacketReader) (head bytes value : List ℕ) (len : ℕ)
    → Packet.read_bytes r 4 ≡ (some head, r')
    → decode_le head ≡ len
    → len ≤ max_string_length
    → 0 < len
    → Packet.read_bytes r' len ≡ (some bytes, r'')
    → deserialize r value ≡ (true, bytes, r'')
unfolding deserialize read read_bytes
read_bytes-some r r' r'' head bytes value len e same short some_bytes e' =
    ground (arith, e, same, short, some_bytes, e')

read_bytes-none :
    (r r' : PacketReader) (head value : List ℕ)
    → Packet.read_bytes r 4 ≡ (some head, r')
    → decode_le head ≡ 0
    → deserialize r value ≡ (true, [], r')
unfolding deserialize read read_bytes
read_bytes-none r r' head value e same = ground (arith, e, same)

deserialize-here :
    (front str rest value : List ℕ)
    → length str ≤ max_string_length
    → deserialize
        (record { view = front ++ (length_bytes str ++ (str ++ rest)); offset = length front })
        value
      ≡ (
        true,
        str,
        record {
          view = front ++ (length_bytes str ++ (str ++ rest));
          offset = length front + 4 + length str;
        },
      )
deserialize-here front str rest value short =
    let whole : List ℕ = front ++ (length_bytes str ++ (str ++ rest)) in
    let start : PacketReader = record { view = whole; offset = length front } in
    let behind : PacketReader = record { view = whole; offset = length front + 4 } in
    let found : Packet.read_bytes start 4 ≡ (some (length_bytes str), behind) =
      read_bytes-here front (length_bytes str) (str ++ rest) (omega arith) in
    let same : decode_le (length_bytes str) ≡ length str =
      decode_le-encode_le4 (length str % 2 ^ 32) (omega arith) ∙ omega (arith, short) in
    elim (ℕ_discrete (length str) 0) [
      | yes z ↦
          read_bytes-none start behind (length_bytes str) value found (same ∙ z)
          ∙ ap₂ (λ bytes n. (true, bytes, record { view = whole; offset = n }))
              (sym (nothing str z)) (omega (arith, z))
      | no ne ↦
          read_bytes-some start behind _ (length_bytes str) str value (length str) found same short
            (omega (arith, ne))
            (ap (λ v. Packet.read_bytes v (length str))
                (ap₂ (λ v n. record { view = v; offset = n })
                  (sym (append_assoc front (length_bytes str) (str ++ rest)))
                  (sym (length-append front (length_bytes str))))
              ∙ read_bytes-here (front ++ length_bytes str) str rest (omega (arith, ne))
              ∙ ap₂ (λ v n. (some str, record { view = v; offset = n + length str }))
                  (append_assoc front (length_bytes str) (str ++ rest))
                  (length-append front (length_bytes str)))
    ]
  where
    nothing : (xs : List ℕ) → length xs ≡ 0 → xs ≡ []
    nothing [] z = refl
    nothing (x ∷ xs) z = absurd (omega (arith, z))

-- A string of at most 1 MiB that fits within the limit of 64 KiB, serialized by a writer that stands
-- anywhere inside a buffer within the limit: Serialize returns true, and Deserialize of a reader over
-- the buffer that stands where the writer stood gives the string back, whatever the target held, and
-- ends where the writer ends.
pub serialize-deserialize :
    (w : PacketWriter) (str value : List ℕ)
    → Bounded w
    → length str ≤ max_string_length
    → w.offset + 4 + length str ≤ max_packet_size
    → (w' : PacketWriter) × (serialize w str ≡ returned (true, w'))
      × Bounded w'
      × (deserialize (record { view = w'.buffer; offset = w.offset }) value
          ≡ (true, str, record { view = w'.buffer; offset = w'.offset }))
serialize-deserialize w str value b short room = elim (serialize_outcome w str b) [
  | inl (long, _) ↦ absurd (omega (arith, long, short))
  | inr (inr (inl (_, over, _))) ↦ absurd (omega (arith, over, room))
  | inr (inr (inr (over, _))) ↦ absurd (omega (arith, over, room))
  | inr (inl (_, e)) ↦
      let (rest, buffer) = twice_advanced w (length_bytes str) str b in
      let size : length (take w.offset w.buffer) ≡ w.offset =
        length-take w.offset w.buffer ∙ omega (arith, b.inside) in
      (
        advanced (advanced w (length_bytes str)) str,
        e,
        advanced-Bounded (advanced w (length_bytes str)) str
            (advanced-Bounded w (length_bytes str) b (omega arith)) room,
        ap (λ r. deserialize r value)
              (ap₂ (λ v o. record { view = v; offset = o }) buffer (sym size))
            ∙ deserialize-here (take w.offset w.buffer) str rest value short
            ∙ ap₂ (λ v o. (true, str, record { view = v; offset = o })) (sym buffer)
                (ap (λ n. n + 4 + length str) size),
      )
]
