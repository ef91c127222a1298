-- ===== src/Net/Stream.antt =====
-- Packets on a byte stream: however the network cuts it, each packet is decoded once, in order.
use native.Mathlib.Decide.{dec_lt}
use mmo_server.Common.{
  ℕ, zero, suc, ◌+◌, ◌%◌, ◌^◌, ◌≤◌, ◌<◌, ◌≡◌, refl, sym, ap, ap₂, ◌∙◌, ◌⊎◌, inl, inr, Bool, true,
  false, Option, none, some, List, [], ◌∷◌, ◌++◌, All, arith, length, length-append, take, drop,
  le→ltb, lt→ltb, decode_le, decode_le-encode_le2, decode_le-encode_le4, append-nil, take-prefix,
  take-append, drop-append, cut_longer,
}
use mmo_server.Net.{
  ReceivedPacket, empty_packet, header_size, max_packet_size, encode, frame_length, frame_id,
  decode, decode_loop,
}

-- A packet that the protocol can carry.
abbrev pub Fits : ReceivedPacket → Type 0
Fits p = (p.packet_id < 2 ^ 16) × (length p.payload ≤ max_packet_size)

pub length-encode : (id : ℕ) (payload : List ℕ) → length (encode id payload) ≡ 6 + length payload
unfolding encode
length-encode id payload = omega arith

encode_frame :
    (id : ℕ) (payload rest : List ℕ)
    → id < 2 ^ 16
    → length payload ≤ max_packet_size
    → (frame_length (encode id payload ++ rest) ≡ length payload)
      × (frame_id (encode id payload ++ rest) ≡ id)
unfolding encode
encode_frame id payload rest small short = (
  decode_le-encode_le4 (length payload % 2 ^ 32) (omega arith) ∙ omega arith,
  decode_le-encode_le2 id small,
)

encode_payload :
    (id : ℕ) (payload rest : List ℕ)
    → take (length payload) (drop header_size (encode id payload ++ rest)) ≡ payload
unfolding encode
encode_payload id payload rest = take-append payload rest

-- Decode of a buffer that starts with an encoded packet, of at most 64 KiB of payload, gives back
-- its id and payload and leaves the bytes behind it in the buffer.
decode-encode :
    (id : ℕ) (payload rest : List ℕ) (out : ReceivedPacket)
    → id < 2 ^ 16
    → length payload ≤ max_packet_size
    → decode (encode id payload ++ rest) out
      ≡ (true, record out { packet_id = id; payload = payload }, rest)
unfolding decode
decode-encode id payload rest out small short =
    let (len, name) = encode_frame id payload rest small short in
    let total = length-append (encode id payload) rest in
    rw
      (
        le→ltb (length (encode id payload ++ rest)) header_size
            (omega (arith, total, length-encode id payload)),
        len,
        name,
        le→ltb max_packet_size (length payload) short,
        le→ltb (length (encode id payload ++ rest)) (header_size + length payload)
            (omega (arith, total, length-encode id payload)),
      )
      (ap₂ (λ bytes left. (true, record out { packet_id = id; payload = bytes }, left))
        (encode_payload id payload rest)
        (ap (λ k. drop k (encode id payload ++ rest)) (sym (length-encode id payload))
          ∙ drop-append (encode id payload) rest))

-- A buffer that holds a part of an encoded packet only is left as it is.
decode-part :
    (id : ℕ) (payload part rest : List ℕ) (out : ReceivedPacket)
    → id < 2 ^ 16
    → length payload ≤ max_packet_size
    → encode id payload ≡ part ++ rest
    → length part < 6 + length payload
    → decode part out ≡ (false, out, part)
unfolding decode
decode-part id payload part rest out small short cut few = elim (dec_lt (length part) 6) [
  | yes h ↦ rw (lt→ltb (length part) header_size h) refl
  | no h ↦
      let len : frame_length part ≡ length payload =
        ap decode_le (sym (take-prefix 4 part rest (omega arith)) ∙ ap (take 4) (sym cut))
        ∙ sym (ap frame_length (append-nil (encode id payload)))
        ∙ (encode_frame id payload [] small short).0 in
      rw
        (
          le→ltb (length part) header_size (omega arith),
          len,
          le→ltb max_packet_size (length payload) short,
          lt→ltb (length part) (header_size + length payload) few,
        )
        refl
]

-- The bytes of a sequence of packets.
abbrev pub stream : List ReceivedPacket → List ℕ
stream [] = []
stream (p ∷ ps) = encode p.packet_id p.payload ++ stream ps

-- The packets as the read handler of connection `id` passes them on.
abbrev pub received : ℕ → List ReceivedPacket → List ReceivedPacket
received id [] = []
received id (p ∷ ps) = record p { connection_id = id } ∷ received id ps

-- What the loop leaves of a stream: it has taken the packets that are complete.
pub record Taken (id : ℕ) (ps : List ReceivedPacket) (rest : List ℕ) (got : List ReceivedPacket)
    (left : List ℕ) : Type 0 where
  pub before : List ReceivedPacket
  pub after : List ReceivedPacket
  pub parts : ps ≡ before ++ after
  pub all : got ≡ received id before
  pub continues : left ++ rest ≡ stream after
  pub incomplete : length left < length (stream after) ⊎ (after ≡ [])

-- A round of the loop on what Decode has returned.
abbrev pub loop_round :
    ℕ → ℕ → Bool × ReceivedPacket × List ℕ → Option (List ReceivedPacket × List ℕ)
loop_round fuel id (false, packet, rest) = some ([], rest)
loop_round fuel id (true, packet, rest) = elim (decode_loop fuel id rest) [
  | none ↦ none
  | some (packets, left) ↦ some (record packet { connection_id = id } ∷ packets, left)
]

pub decode_loop-round :
    (fuel id : ℕ) (buffer : List ℕ) (answer : Bool × ReceivedPacket × List ℕ)
    → decode buffer empty_packet ≡ answer
    → decode_loop (suc fuel) id buffer ≡ loop_round fuel id answer
unfolding decode_loop
decode_loop-round fuel id buffer answer e = by_answer _ ∙ ap (loop_round fuel id) e
  where
    by_answer :
        (a : Bool × ReceivedPacket × List ℕ)
        → (elim a.0 [
          | false ↦ some ([], a.2)
          | true ↦ elim (decode_loop fuel id a.2) [
            | none ↦ none
            | some (packets, left) ↦ some (record (a.1) { connection_id = id } ∷ packets, left)
          ]
        ])
          ≡ loop_round fuel id a
    by_answer (false, packet, rest) = refl
    by_answer (true, packet, rest) = refl

after_found :
    (fuel id : ℕ) (p : ReceivedPacket) (rest : List ℕ) (got : List ReceivedPacket) (left : List ℕ)
    → decode_loop fuel id rest ≡ some (got, left)
    → loop_round fuel id
        (true, record empty_packet { packet_id = p.packet_id; payload = p.payload }, rest)
      ≡ some (record p { connection_id = id } ∷ got, left)
after_found fuel id p rest got left e = ground (arith, e)

pub loop-Taken :
    (fuel id : ℕ) (buffer rest : List ℕ) (ps : List ReceivedPacket)
    → All Fits ps
    → buffer ++ rest ≡ stream ps
    → length buffer < fuel
    → (got : List ReceivedPacket) × (left : List ℕ) × (decode_loop fuel id buffer
        ≡ some (got, left))
      × Taken id ps rest got left
unfolding decode_loop
loop-Taken zero id buffer rest ps fits e enough = absurd (omega arith)
loop-Taken (suc fuel) id [] rest [] fits e enough = (
  [],
  [],
  refl,
  record {
    before = [];
    after = [];
    parts = refl;
    all = refl;
    continues = e;
    incomplete = inr refl;
  },
)
loop-Taken (suc fuel) id (b ∷ buffer) rest [] fits e enough = absurd (omega (arith, ap length e))
loop-Taken (suc fuel) id buffer rest (p ∷ ps) ((small, short), fits) e enough =
    elim (dec_lt (length buffer) (6 + length p.payload)) [
      | yes few ↦
          let whole = length-encode p.packet_id p.payload in
          let (more, cut, _) =
            cut_longer (encode p.packet_id p.payload) (stream ps) buffer rest (sym e)
              (omega arith) in
          let stays =
            decode-part p.packet_id p.payload buffer more empty_packet small short cut few in
          (
            [],
            buffer,
            decode_loop-round fuel id buffer _ stays,
            record {
              before = [];
              after = p ∷ ps;
              parts = refl;
              all = refl;
              continues = e;
              incomplete =
                  inl (
                    omega (arith, whole, length-append (encode p.packet_id p.payload) (stream ps)));
            },
          )
      | no many ↦
          let whole = length-encode p.packet_id p.payload in
          let (more, cut, next) =
            cut_longer buffer rest (encode p.packet_id p.payload) (stream ps) e (omega arith) in
          let shorter : length more < fuel =
            omega
              (arith, whole, ap length cut, length-append (encode p.packet_id p.payload) more) in
          let (got, left, ran, t) = loop-Taken fuel id more rest ps fits next shorter in
          let found =
            ap (λ l. decode l empty_packet) cut
            ∙ decode-encode p.packet_id p.payload more empty_packet small short in
          (
            record p { connection_id = id } ∷ got,
            left,
            decode_loop-round fuel id buffer _ found ∙ after_found fuel id p more got left ran,
            record {
              before = p ∷ t.before;
              after = t.after;
              parts = ap (λ l. p ∷ l) t.parts;
              all = ap (λ l. record p { connection_id = id } ∷ l) t.all;
              continues = t.continues;
              incomplete = t.incomplete;
            },
          )
    ]

pub All-split :
    (before after : List ReceivedPacket)
    → All Fits (before ++ after)
    → All Fits before × All Fits after
All-split [] after h = (tt, h)
All-split (p ∷ before) after (h, hs) = let (a, b) = All-split before after hs in ((h, a), b)
