-- ===== src/Common/Bytes.antt =====
-- Little-endian bytes of an unsigned number, as `memcpy` lays it out, and lists cut at a length.
use Prim.Native.Nat.{ℕ, zero, suc, ◌+◌, ◌*◌, ◌/◌, ◌%◌, ◌^◌, ◌≤◌, ◌<◌}
use mathlib.Core.Path.{◌≡◌, refl, ap, ap₂, ◌∙◌}
use mathlib.Core.List.{List, [], ◌∷◌, ◌++◌}
use native.Mathlib.Omega.{arith}
use mmo_server.Common.Lists.{length, take, All}

abbrev pub encode_le : ℕ → ℕ → List ℕ
encode_le zero n = []
encode_le (suc w) n = n % 256 ∷ encode_le w (n / 256)

abbrev pub decode_le : List ℕ → ℕ
decode_le [] = 0
decode_le (b ∷ bs) = b + 256 * decode_le bs

pub length-encode_le : (w n : ℕ) → length (encode_le w n) ≡ w
length-encode_le zero n = refl
length-encode_le (suc w) n = ap suc (length-encode_le w (n / 256))

pub decode_le-encode_le2 : (n : ℕ) → n < 2 ^ 16 → decode_le (encode_le 2 n) ≡ n
decode_le-encode_le2 n h = omega arith

pub decode_le-encode_le4 : (n : ℕ) → n < 2 ^ 32 → decode_le (encode_le 4 n) ≡ n
decode_le-encode_le4 n h = omega arith

pub encode_le-decode_le :
    (bs : List ℕ) → All (λ b. b < 256) bs → encode_le (length bs) (decode_le bs) ≡ bs
encode_le-decode_le [] h = refl
encode_le-decode_le (b ∷ bs) (h, hs) =
    ap₂ (λ x xs. x ∷ xs) (omega arith)
      (ap (encode_le (length bs)) (omega arith) ∙ encode_le-decode_le bs hs)

module _ {ℓ} {A : Type ℓ} where
  pub append_assoc : (xs ys zs : List A) → (xs ++ ys) ++ zs ≡ xs ++ (ys ++ zs)
  append_assoc [] ys zs = refl
  append_assoc (x ∷ xs) ys zs = ap (λ l. x ∷ l) (append_assoc xs ys zs)

  pub append-nil : (xs : List A) → xs ++ [] ≡ xs
  append-nil [] = refl
  append-nil (x ∷ xs) = ap (λ l. x ∷ l) (append-nil xs)

  pub take-prefix : (n : ℕ) (xs ys : List A) → n ≤ length xs → take n (xs ++ ys) ≡ take n xs
  take-prefix zero xs ys h = refl
  take-prefix (suc n) [] ys h = absurd (omega arith)
  take-prefix (suc n) (x ∷ xs) ys h = ap (λ l. x ∷ l) (take-prefix n xs ys (omega arith))

  -- Two ways to cut a list in two: the longer first part is the shorter one and more.
  pub cut_longer :
      (us vs xs ys : List A)
      → us ++ vs ≡ xs ++ ys
      → length xs ≤ length us
      → (ms : List A) × (us ≡ xs ++ ms) × (ms ++ vs ≡ ys)
  cut_longer us vs [] ys e h = (us, refl, e)
  cut_longer [] vs (x ∷ xs) ys e h = absurd (omega arith)
  cut_longer (a ∷ us) vs (x ∷ xs) ys e h =
      let tails : us ++ vs ≡ xs ++ ys = cc in
      let heads : a ≡ x = cc in
      let (ms, p, q) = cut_longer us vs xs ys tails (omega arith) in
      (ms, ap₂ (λ z zs. z ∷ zs) heads p, q)
