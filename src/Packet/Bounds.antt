-- ===== src/Packet/Bounds.antt =====
-- What the writer keeps whatever is written, and that a failed call moves nothing.
use native.Mathlib.Decide.{dec_lt}
use mmo_server.Common.{
  ℕ, zero, suc, ◌+◌, ◌-◌, ◌%◌, ◌^◌, ◌≤◌, ◌<◌, ◌≡◌, refl, sym, ap, ap₂, ◌∙◌, ◌⊎◌, inl, inr, true,
  false, some, List, [], ◌∷◌, ◌++◌, arith, length, length-append, length-replicate, take, drop,
  take-prefix, take-append-drop, replicate, returned,
}
use mmo_server.Packet.{
  PacketWriter, max_packet_size, write_bytes, resize, is_valid_capacity, overwrite, copied,
}

-- The writer stands inside its buffer, and the buffer is within the limit.
pub record Bounded (w : PacketWriter) : Type 0 where
  pub inside : w.offset ≤ length w.buffer
  pub limited : length w.buffer ≤ max_packet_size

-- The writer after `bytes` were written at the offset, the buffer grown where it was too short.
abbrev pub advanced : PacketWriter → List ℕ → PacketWriter
advanced w bytes = record {
  buffer = take w.offset w.buffer ++ (bytes ++ drop (w.offset + length bytes) w.buffer);
  offset = w.offset + length bytes;
}

drop_all : (n : ℕ) (xs : List ℕ) → length xs ≤ n → drop n xs ≡ []
drop_all zero [] h = refl
drop_all zero (x ∷ xs) h = absurd (omega arith)
drop_all (suc n) [] h = refl
drop_all (suc n) (x ∷ xs) h = drop_all n xs (omega arith)

take_all : (n : ℕ) (xs : List ℕ) → length xs ≤ n → take n xs ≡ xs
take_all zero [] h = refl
take_all zero (x ∷ xs) h = absurd (omega arith)
take_all (suc n) [] h = refl
take_all (suc n) (x ∷ xs) h = ap (λ l. x ∷ l) (take_all n xs (omega arith))

-- The bytes written do not depend on how far the buffer was grown before.
overwrite_grown :
    (buffer bytes : List ℕ) (offset required : ℕ)
    → offset ≤ length buffer
    → required ≡ offset + length bytes
    → length buffer < required
    → overwrite (take required buffer ++ replicate (required - length buffer) 0) offset bytes
      ≡ overwrite buffer offset bytes
overwrite_grown buffer bytes offset required inside total short =
    let whole : take required buffer ≡ buffer = take_all required buffer (omega arith) in
    let front =
      ap (λ l. take offset (l ++ replicate (required - length buffer) 0)) whole
      ∙ take-prefix offset buffer (replicate (required - length buffer) 0) inside in
    let back =
      drop_all (offset + length bytes)
        (take required buffer ++ replicate (required - length buffer) 0)
        (omega (
          arith,
          length-append (take required buffer) (replicate (required - length buffer) 0),
          length-replicate {A = ℕ} (required - length buffer) 0,
          ap length whole,
        ))
      ∙ sym (drop_all (offset + length bytes) buffer (omega arith)) in
    ap₂ (λ xs ys. xs ++ (bytes ++ ys)) front back

write_grown :
    (w : PacketWriter) (bytes : List ℕ) (required : ℕ)
    → (w.offset + length bytes) % 2 ^ 64 ≡ required
    → length w.buffer < required
    → required ≤ max_packet_size
    → 0 < length bytes
    → write_bytes w (some bytes) (length bytes)
      ≡ returned (
        true,
        copied w
            (take (length bytes) bytes)
            (length bytes)
            (take required w.buffer ++ replicate (required - length w.buffer) 0),
      )
unfolding write_bytes resize is_valid_capacity
write_grown w bytes required total grows under some_bytes =
    ground (arith, total, grows, under, some_bytes)

-- WriteBytes of some bytes: refused beyond the limit, written otherwise.
pub write_bytes_cases :
    (w : PacketWriter) (bytes : List ℕ)
    → Bounded w
    → length bytes < 2 ^ 63
    → ((max_packet_size < w.offset + length bytes)
        × (write_bytes w (some bytes) (length bytes) ≡ returned (false, w)))
      ⊎ ((w.offset + length bytes ≤ max_packet_size)
          × (write_bytes w (some bytes) (length bytes) ≡ returned (true, advanced w bytes)))
unfolding write_bytes resize is_valid_capacity
write_bytes_cases w [] b small = inr (
  omega (arith, b.inside, b.limited),
  ap returned (
      ap (λ v. (true, v))
        (sym (
          ap₂ (λ xs n. record { buffer = xs; offset = n })
            (ap (λ n. take w.offset w.buffer ++ drop n w.buffer) (omega arith)
              ∙ take-append-drop w.offset w.buffer)
            (omega arith)))),
)
write_bytes_cases w (x ∷ bytes) b small =
    elim (dec_lt max_packet_size (w.offset + length (x ∷ bytes))) [
      | yes over ↦ inl (over, ground (arith, over, b.inside, b.limited))
      | no under ↦ elim (dec_lt (length w.buffer) (w.offset + length (x ∷ bytes))) [
        | yes grows ↦ inr (
          omega arith,
          (let total : (w.offset + length (x ∷ bytes)) % 2 ^ 64 ≡ w.offset + length (x ∷ bytes) =
                omega (arith, b.inside, b.limited) in
              let grown =
                overwrite_grown w.buffer (x ∷ bytes) w.offset (w.offset + length (x ∷ bytes))
                  b.inside refl grows in
              write_grown w (x ∷ bytes) (w.offset + length (x ∷ bytes)) total grows (omega arith)
                (omega arith)
              ∙ ap returned (
                  ap (λ v. (true, v))
                    (ap₂ (λ xs n. record { buffer = xs; offset = n })
                      (ap (overwrite _ w.offset)
                          (take_all (length (x ∷ bytes)) (x ∷ bytes) (omega arith))
                        ∙ grown)
                      total))),
        )
        | no stays ↦ inr (
          omega arith,
          ground
              (arith, b.inside, b.limited, take_all (length (x ∷ bytes)) (x ∷ bytes) (omega arith)),
        )
      ]
    ]
