-- ===== src/Net/Malformed.antt =====
-- Whatever bytes arrive: the decode loop ends, and hands on no packet beyond the limit.
use native.Mathlib.Decide.{dec_lt}
use mmo_server.Common.{
  ℕ, zero, suc, ◌+◌, ◌≤◌, ◌<◌, ◌≡◌, refl, ◌∙◌, ◌⊎◌, inl, inr, true, false, some, List, [], ◌∷◌, All,
  arith, length, length-take, length-drop, take, drop, le→ltb, lt→ltb,
}
use mmo_server.Net.{
  ReceivedPacket, empty_packet, header_size, max_packet_size, frame_length, frame_id, decode,
  decode_loop,
}
use mmo_server.Net.Stream.{loop_round, decode_loop-round}

-- The packet at the start of a buffer.
abbrev packet_at : List ℕ → ReceivedPacket → ReceivedPacket
packet_at buffer out = record out {
  packet_id = frame_id buffer;
  payload = take (frame_length buffer) (drop header_size buffer);
}

decode_cases :
    (buffer : List ℕ) (out : ReceivedPacket)
    → (decode buffer out ≡ (false, out, buffer))
      ⊎ ((decode buffer out ≡ (false, out, []))
          ⊎ ((frame_length buffer ≤ max_packet_size)
              × (header_size + frame_length buffer ≤ length buffer)
              × (decode buffer out
                  ≡ (true, packet_at buffer out, drop (header_size + frame_length buffer) buffer))))
unfolding decode
decode_cases buffer out = elim (dec_lt (length buffer) header_size) [
  | yes short ↦ inl (rw (lt→ltb (length buffer) header_size short) refl)
  | no long ↦
      let header = le→ltb (length buffer) header_size (omega (arith, long)) in
      elim (dec_lt max_packet_size (frame_length buffer)) [
        | yes big ↦ inr (inl (rw (header, lt→ltb max_packet_size (frame_length buffer) big) refl))
        | no fits ↦
            let small = le→ltb max_packet_size (frame_length buffer) (omega (arith, fits)) in
            elim (dec_lt (length buffer) (header_size + frame_length buffer)) [
              | yes part ↦ inl (
                  rw
                    (header, small, lt→ltb (length buffer) (header_size + frame_length buffer) part)
                    refl)
              | no whole ↦ inr (
                  inr (
                    omega (arith, fits),
                    omega (arith, whole),
                    rw
                        (
                          header,
                          small,
                          le→ltb (length buffer) (header_size + frame_length buffer)
                              (omega (arith, whole)),
                        )
                        refl,
                  ))
            ]
      ]
]

-- The decode loop on any bytes ends, with fuel above their number: it hands on packets of at most
-- 64 KiB of payload, marked with the connection's id, and leaves no more bytes than it found, in
-- which Decode finds no packet and which it does not change.
pub decode_loop_ends :
    (fuel id : ℕ) (buffer : List ℕ)
    → length buffer < fuel
    → (got : List ReceivedPacket) × (left : List ℕ) × (decode_loop fuel id buffer
        ≡ some (got, left))
      × All (λ p. (length p.payload ≤ max_packet_size) × (p.connection_id ≡ id)) got
      × (length left ≤ length buffer)
      × (decode left empty_packet ≡ (false, empty_packet, left))
unfolding decode
decode_loop_ends zero id buffer enough = absurd (omega arith)
decode_loop_ends (suc fuel) id buffer enough = elim (decode_cases buffer empty_packet) [
  | inl e ↦ ([], buffer, decode_loop-round fuel id buffer _ e, tt, omega arith, e)
  | inr (inl e) ↦ ([], [], decode_loop-round fuel id buffer _ e, tt, omega arith, decode_nothing)
  | inr (inr (fits, whole, e)) ↦
      let rest : List ℕ = drop (header_size + frame_length buffer) buffer in
      let (got, left, ran, all, shorter, stuck) =
        decode_loop_ends fuel id rest
          (omega (arith, length-drop (header_size + frame_length buffer) buffer)) in
      (
        record (packet_at buffer empty_packet) { connection_id = id } ∷ got,
        left,
        decode_loop-round fuel id buffer _ e
            ∙ found fuel id (packet_at buffer empty_packet) rest got left ran,
        (
          (omega (arith, length-take (frame_length buffer) (drop header_size buffer), fits), refl),
          all,
        ),
        omega (arith, shorter, length-drop (header_size + frame_length buffer) buffer),
        stuck,
      )
]
  where
    found :
        (fuel id : ℕ) (p : ReceivedPacket) (rest : List ℕ) (got : List ReceivedPacket)
        (left : List ℕ)
        → decode_loop fuel id rest ≡ some (got, left)
        → loop_round fuel id (true, p, rest) ≡ some (record p { connection_id = id } ∷ got, left)
    found fuel id p rest got left ran = ground (arith, ran)

    decode_nothing : decode [] empty_packet ≡ (false, empty_packet, [])
    decode_nothing = refl
