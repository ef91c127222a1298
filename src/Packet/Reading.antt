-- ===== src/Packet/Reading.antt =====
-- The reader on any bytes: it stays inside the view, and a failed read moves nothing.
use native.Mathlib.Decide.{dec_lt}
use mmo_server.Common.{
  ℕ, ◌+◌, ◌-◌, ◌≤◌, ◌≡◌, sym, ap, ◌∙◌, ◌⊎◌, inl, inr, none, some, List, arith, length, length-take,
  length-drop, take, drop, decode_le,
}
use mmo_server.Packet.{PacketReader, read_bytes, read, read_string, remaining_bytes}

-- ReadBytes of four bytes fails and moves nothing, or moves by four.
read_four :
    (r : PacketReader)
    → r.offset ≤ length r.view
    → (read_string r ≡ (none, r))
      ⊎ ((len : ℕ) × (r.offset + 4 ≤ length r.view)
          × (read r 4 ≡ (some len, record r { offset = r.offset + 4 })))
unfolding read_string read read_bytes
read_four r inside = elim (dec_lt (remaining_bytes r) 4) [
  | yes short ↦ inl (ground (arith, short))
  | no long ↦
      inr (decode_le (take 4 (drop r.offset r.view)), omega (arith, long), ground (arith, long))
]

-- ReadString of a reader inside its view, whatever the bytes are: it returns false and leaves the
-- reader as it was, or it returns a string that lies in the view behind its length, and moves the
-- offset by four and the string's length, so that the reader is inside its view again.
pub read_string_outcome :
    (r : PacketReader)
    → r.offset ≤ length r.view
    → (read_string r ≡ (none, r))
      ⊎ ((str : List ℕ) × (r.offset + 4 + length str ≤ length r.view)
          × (str ≡ take (length str) (drop (r.offset + 4) r.view))
          × (read_string r ≡ (some str, record r { offset = r.offset + 4 + length str })))
unfolding read_string
read_string_outcome r inside = elim (read_four r inside) [
  | inl e ↦ inl e
  | inr (len, long, e) ↦ elim (dec_lt (length r.view - (r.offset + 4)) len) [
    | yes short ↦ inl (ground (arith, e, short))
    | no fits ↦
        let str : List ℕ = take len (drop (r.offset + 4) r.view) in
        let size : length str ≡ len =
          length-take len (drop (r.offset + 4) r.view)
          ∙ omega (arith, length-drop (r.offset + 4) r.view, fits) in
        inr (
          str,
          omega (arith, size, fits, long),
          sym (ap (λ n. take n (drop (r.offset + 4) r.view)) size),
          ground (arith, e, fits, size),
        )
  ]
]
