-- ===== src/Base64/RoundTrip.antt =====
-- Decoding gives back the bytes that were encoded.
use libfatbat.Prelude.{
  ℕ, ◌+◌, ◌*◌, ◌/◌, ◌%◌, ◌<◌, ◌≡◌, refl, true, ap, ◌∙◌, List, [], ◌∷◌, ◌++◌, All, arith,
}
use mathlib.Core.Path.{ap₂}
use mathlib.Core.List.{append_assoc}
use libfatbat.Base64.{
  sextet0, sextet1, sextet2, sextet3, octet0, octet1, octet2, char_at, char_index, encode_group,
  encode_tail, encode_loop, base64_encode, continues, decode_group, decode_loop, base64_decode,
}
use libfatbat.Base64.Masks.{and-fc, and-03, and-f0, and-0f, and-c0, and-3f, and-30, and-3c}
use libfatbat.Base64.Alphabet.{char_index-char_at, continues-char_at}

abbrev pub IsByte : ℕ → Type 0
IsByte b = b < 256

-- The encoding by groups of three bytes.
abbrev pub groups : List ℕ → List ℕ
groups (a ∷ b ∷ c ∷ rest) = encode_group a b c ++ groups rest
groups filled = encode_tail filled

pub encode_loop-groups : (bytes ret : List ℕ) → encode_loop bytes [] ret ≡ ret ++ groups bytes
unfolding encode_loop
encode_loop-groups [] ret = refl
encode_loop-groups (a ∷ []) ret = refl
encode_loop-groups (a ∷ b ∷ []) ret = refl
encode_loop-groups (a ∷ b ∷ c ∷ rest) ret =
    encode_loop-groups rest (ret ++ encode_group a b c) ∙ append_assoc ret _ (groups rest)

-- The four sextets are below 64 and give the bytes back.
sextets :
    (a b c : ℕ)
    → IsByte a
    → IsByte b
    → IsByte c
    → (sextet0 a ≡ a / 4)
      × (sextet1 a b ≡ a % 4 * 16 + b / 16)
      × (sextet2 b c ≡ b % 16 * 4 + c / 64)
      × (sextet3 c ≡ c % 64)
sextets a b c ha hb hc =
    omega (arith, and-fc a ha, and-03 a ha, and-f0 b hb, and-0f b hb, and-c0 c hc, and-3f c hc)

octets :
    (p q r s : ℕ)
    → p < 64
    → q < 64
    → r < 64
    → s < 64
    → (octet0 p q ≡ p * 4 + q / 16)
      × (octet1 q r ≡ q % 16 * 16 + r / 4)
      × (octet2 r s ≡ r % 4 * 64 + s)
octets p q r s hp hq hr hs = omega (
  arith,
  and-30 q (omega arith),
  and-0f q (omega arith),
  and-3c r (omega arith),
  and-03 r (omega arith),
)

-- Four characters of the alphabet are one group of the decoder.
decode_loop-group :
    (w x y z : ℕ) (rest ret : List ℕ)
    → continues w ≡ true
    → continues x ≡ true
    → continues y ≡ true
    → continues z ≡ true
    → decode_loop (w ∷ x ∷ y ∷ z ∷ rest) [] ret ≡ decode_loop rest [] (ret ++ decode_group w x y z)
decode_loop-group w x y z rest ret hw hx hy hz = unfold decode_loop in rw (hw, hx, hy, hz)

cons3 {ℓ} :
    {A : Type ℓ} {x y z x' y' z' : A}
    → x ≡ x'
    → y ≡ y'
    → z ≡ z'
    → x ∷ y ∷ z ∷ [] ≡ x' ∷ y' ∷ z' ∷ []
cons3 p q r = cc

-- The arithmetic of the round trip: 24 bits cut in sixes, then in eights.
regroup :
    (a b c p q r s : ℕ)
    → IsByte a
    → IsByte b
    → IsByte c
    → p ≡ a / 4
    → q ≡ a % 4 * 16 + b / 16
    → r ≡ b % 16 * 4 + c / 64
    → s ≡ c % 64
    → (octet0 p q ≡ a) × (octet1 q r ≡ b) × (octet2 r s ≡ c)
regroup a b c p q r s ha hb hc hp hq hr hs =
    let (e0, e1, e2) = octets p q r s (omega arith) (omega arith) (omega arith) (omega arith) in
    (omega (arith, e0), omega (arith, e1), omega (arith, e2))

module _ (a b c : ℕ) (ha : IsByte a) (hb : IsByte b) (hc : IsByte c) where
  sextet_bounds : (sextet0 a < 64) × (sextet1 a b < 64) × (sextet2 b c < 64) × (sextet3 c < 64)
  sextet_bounds = omega (arith, sextets a b c ha hb hc)

  -- The four characters of a group decode to its three bytes.
  decode_group-encode_group :
      decode_group
        (char_at (sextet0 a))
        (char_at (sextet1 a b))
        (char_at (sextet2 b c))
        (char_at (sextet3 c))
      ≡ a ∷ b ∷ c ∷ []
  decode_group-encode_group =
      let (h0, h1, h2, h3) = sextet_bounds in
      let (s0, s1, s2, s3) = sextets a b c ha hb hc in
      let (e0, e1, e2) = regroup a b c _ _ _ _ ha hb hc s0 s1 s2 s3 in
      unfold decode_group in
      rw
        (
          char_index-char_at _ h0,
          char_index-char_at _ h1,
          char_index-char_at _ h2,
          char_index-char_at _ h3,
        )
        (cons3 e0 e1 e2)

  decode_loop-encode_group :
      (rest ret : List ℕ)
      → decode_loop (encode_group a b c ++ rest) [] ret
        ≡ decode_loop rest [] (ret ++ a ∷ b ∷ c ∷ [])
  unfolding encode_group
  decode_loop-encode_group rest ret =
      let (h0, h1, h2, h3) = sextet_bounds in
      decode_loop-group _ _ _ _ rest ret (continues-char_at _ h0) (continues-char_at _ h1)
        (continues-char_at _ h2) (continues-char_at _ h3)
      ∙ ap (λ g. decode_loop rest [] (ret ++ g)) decode_group-encode_group

-- A last group of two or three characters, then a `=`.
decode_loop-pair :
    (w x : ℕ) (rest ret : List ℕ)
    → continues w ≡ true
    → continues x ≡ true
    → decode_loop (w ∷ x ∷ b'=' ∷ rest) [] ret ≡ ret ++ octet0 (char_index w) (char_index x) ∷ []
decode_loop-pair w x rest ret hw hx = unfold decode_loop in rw (hw, hx)

decode_loop-triple :
    (w x y : ℕ) (rest ret : List ℕ)
    → continues w ≡ true
    → continues x ≡ true
    → continues y ≡ true
    → decode_loop (w ∷ x ∷ y ∷ b'=' ∷ rest) [] ret
      ≡ ret ++ octet0 (char_index w) (char_index x) ∷ octet1 (char_index x) (char_index y) ∷ []
decode_loop-triple w x y rest ret hw hx hy = unfold decode_loop in rw (hw, hx, hy)

decode_loop-encode_tail1 :
    (a : ℕ) (ret : List ℕ) → IsByte a → decode_loop (encode_tail (a ∷ [])) [] ret ≡ ret ++ a ∷ []
unfolding encode_tail
decode_loop-encode_tail1 a ret ha =
    let (h0, h1, h2, h3) = sextet_bounds a 0 0 ha (omega arith) (omega arith) in
    let (s0, s1, s2, s3) = sextets a 0 0 ha (omega arith) (omega arith) in
    let (e0, e1, e2) = regroup a 0 0 _ _ _ _ ha (omega arith) (omega arith) s0 s1 s2 s3 in
    decode_loop-pair _ _ _ ret (continues-char_at _ h0) (continues-char_at _ h1)
    ∙ rw (char_index-char_at _ h0, char_index-char_at _ h1) (ap (λ x. ret ++ x ∷ []) e0)

decode_loop-encode_tail2 :
    (a b : ℕ) (ret : List ℕ)
    → IsByte a
    → IsByte b
    → decode_loop (encode_tail (a ∷ b ∷ [])) [] ret ≡ ret ++ a ∷ b ∷ []
unfolding encode_tail
decode_loop-encode_tail2 a b ret ha hb =
    let (h0, h1, h2, h3) = sextet_bounds a b 0 ha hb (omega arith) in
    let (s0, s1, s2, s3) = sextets a b 0 ha hb (omega arith) in
    let (e0, e1, e2) = regroup a b 0 _ _ _ _ ha hb (omega arith) s0 s1 s2 s3 in
    decode_loop-triple _ _ _ _ ret (continues-char_at _ h0) (continues-char_at _ h1)
      (continues-char_at _ h2)
    ∙ rw (char_index-char_at _ h0, char_index-char_at _ h1, char_index-char_at _ h2)
        (ap₂ (λ x y. ret ++ x ∷ y ∷ []) e0 e1)

decode_loop-groups :
    (bytes ret : List ℕ) → All IsByte bytes → decode_loop (groups bytes) [] ret ≡ ret ++ bytes
decode_loop-groups [] ret h = unfold encode_tail decode_loop in refl
decode_loop-groups (a ∷ []) ret (ha, _) = decode_loop-encode_tail1 a ret ha
decode_loop-groups (a ∷ b ∷ []) ret (ha, (hb, _)) = decode_loop-encode_tail2 a b ret ha hb
decode_loop-groups (a ∷ b ∷ c ∷ rest) ret (ha, (hb, (hc, h))) =
    decode_loop-encode_group a b c ha hb hc (groups rest) ret
    ∙ decode_loop-groups rest (ret ++ a ∷ b ∷ c ∷ []) h
    ∙ append_assoc ret (a ∷ b ∷ c ∷ []) rest

-- `base64_decode` gives back every sequence of bytes that `base64_encode` was given.
pub decode-encode :
    (bytes : List ℕ) → All IsByte bytes → base64_decode (base64_encode bytes) ≡ bytes
unfolding base64_decode base64_encode
decode-encode bytes h =
    ap (λ t. decode_loop t [] []) (encode_loop-groups bytes []) ∙ decode_loop-groups bytes [] h
