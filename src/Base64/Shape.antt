-- ===== src/Base64/Shape.antt =====
-- The size of what base64.hpp writes and reads, and where its decoder stops.
use libfatbat.Prelude.{
  ℕ, ◌+◌, ◌*◌, ◌/◌, ◌≤◌, ◌≡◌, ap, false, inl, inr, Bool-cases, List, [], ◌∷◌, ◌++◌, All, length,
  length-append, arith,
}
use libfatbat.Base64.{
  encode_group, encode_tail, base64_encode, continues, decode_group, decode_tail, decode_char,
  decode_loop, base64_decode,
}
use libfatbat.Base64.RoundTrip.{groups, encode_loop-groups, IsByte}

length-groups : (bytes : List ℕ) → length (groups bytes) ≡ (length bytes + 2) / 3 * 4
unfolding encode_group encode_tail
length-groups [] = omega arith
length-groups (a ∷ []) = omega arith
length-groups (a ∷ b ∷ []) = omega arith
length-groups (a ∷ b ∷ c ∷ rest) = omega (arith, length-groups rest)

-- The text of `n` bytes has four characters for every three bytes, the last group padded.
pub length-base64_encode :
    (bytes : List ℕ) → length (base64_encode bytes) ≡ (length bytes + 2) / 3 * 4
unfolding base64_encode
length-base64_encode bytes =
    omega (arith, length-groups bytes, ap length (encode_loop-groups bytes []))

-- A round of the decoder keeps its budget: three quarters of a byte for each character.
decode_char_budget :
    (filled ret : List ℕ) (c : ℕ)
    → length filled ≤ 3
    → (length (decode_char filled ret c).0 ≤ 3)
      × (length (decode_char filled ret c).1 * 4 + length (decode_char filled ret c).0 * 3
          ≡ length ret * 4 + length filled * 3 + 3)
unfolding decode_char decode_group
decode_char_budget [] ret c h = omega arith
decode_char_budget (w ∷ []) ret c h = omega arith
decode_char_budget (w ∷ x ∷ []) ret c h = omega arith
decode_char_budget (w ∷ x ∷ y ∷ []) ret c h = omega (arith, length-append {0} ret)
decode_char_budget (w ∷ x ∷ y ∷ z ∷ rest) ret c h = absurd (omega arith)

decode_tail_budget :
    (filled ret : List ℕ)
    → length (ret ++ decode_tail filled) * 4 ≤ length ret * 4 + length filled * 3
unfolding decode_tail
decode_tail_budget [] ret = omega (arith, length-append ret [])
decode_tail_budget (w ∷ []) ret = omega (arith, length-append ret [])
decode_tail_budget (w ∷ x ∷ []) ret = omega (arith, length-append {0} ret)
decode_tail_budget (w ∷ x ∷ y ∷ rest) ret = omega (arith, length-append {0} ret)

decode_loop_budget :
    (text filled ret : List ℕ)
    → length filled ≤ 3
    → length (decode_loop text filled ret) * 4
      ≤ length ret * 4 + length filled * 3 + length text * 3
unfolding decode_loop
decode_loop_budget [] filled ret h = omega (arith, decode_tail_budget filled ret)
decode_loop_budget (c ∷ text) filled ret h =
    let (small, kept) = decode_char_budget filled ret c h in
    elim (Bool-cases (continues c)) [
      | inl e ↦ rw e (omega (arith, kept, decode_loop_budget text _ _ small))
      | inr e ↦ rw e (omega (arith, decode_tail_budget filled ret))
    ]

length-base64_decode-le : (text : List ℕ) → length (base64_decode text) * 4 ≤ length text * 3
unfolding base64_decode
length-base64_decode-le text = omega (arith, decode_loop_budget text [] [] (omega arith))

decode_loop-stops :
    (text rest filled ret : List ℕ) (c : ℕ)
    → continues c ≡ false
    → decode_loop (text ++ c ∷ rest) filled ret ≡ decode_loop text filled ret
unfolding decode_loop
decode_loop-stops [] rest filled ret c h = rw h
decode_loop-stops (x ∷ text) rest filled ret c h = rw (decode_loop-stops text rest _ _ c h)

-- The decoder ignores whatever follows the first `=` or other character outside the alphabet.
pub decode-stops :
    (text rest : List ℕ) (c : ℕ)
    → continues c ≡ false
    → base64_decode (text ++ c ∷ rest) ≡ base64_decode text
unfolding base64_decode
decode-stops text rest c h = decode_loop-stops text rest [] [] c h

All-append : (xs ys : List ℕ) → All IsByte xs → All IsByte ys → All IsByte (xs ++ ys)
All-append [] ys hx hy = hy
All-append (x ∷ xs) ys (h, hx) hy = (h, All-append xs ys hx hy)

decode_char-IsByte :
    (filled ret : List ℕ) (c : ℕ) → All IsByte ret → All IsByte (decode_char filled ret c).1
unfolding decode_char decode_group
decode_char-IsByte [] ret c h = h
decode_char-IsByte (w ∷ []) ret c h = h
decode_char-IsByte (w ∷ x ∷ []) ret c h = h
decode_char-IsByte (w ∷ x ∷ y ∷ []) ret c h = All-append ret _ h (omega arith)
decode_char-IsByte (w ∷ x ∷ y ∷ z ∷ rest) ret c h = h

decode_tail-IsByte : (filled : List ℕ) → All IsByte (decode_tail filled)
unfolding decode_tail
decode_tail-IsByte [] = tt
decode_tail-IsByte (w ∷ []) = tt
decode_tail-IsByte (w ∷ x ∷ []) = omega arith
decode_tail-IsByte (w ∷ x ∷ y ∷ rest) = omega arith

decode_loop-IsByte :
    (text filled ret : List ℕ) → All IsByte ret → All IsByte (decode_loop text filled ret)
unfolding decode_loop
decode_loop-IsByte [] filled ret h = All-append ret _ h (decode_tail-IsByte filled)
decode_loop-IsByte (c ∷ text) filled ret h = elim (Bool-cases (continues c)) [
  | inl e ↦ rw e (decode_loop-IsByte text _ _ (decode_char-IsByte filled ret c h))
  | inr e ↦ rw e (All-append ret _ h (decode_tail-IsByte filled))
]

base64_decode-IsByte : (text : List ℕ) → All IsByte (base64_decode text)
unfolding base64_decode
base64_decode-IsByte text = decode_loop-IsByte text [] [] tt

-- On any text, well formed or not, the decoder returns at most three elements for four characters,
-- and each of them is a byte.
pub base64_decode_bounds :
    (text : List ℕ)
    → (length (base64_decode text) * 4 ≤ length text * 3) × All IsByte (base64_decode text)
base64_decode_bounds text = (length-base64_decode-le text, base64_decode-IsByte text)
