-- ===== src/Flags/Caps.antt =====
-- The loop of caps_flags, digit by digit.
use libfatbat.Prelude.{
  ℕ, zero, suc, ◌+◌, ◌^◌, ◌<◌, bit_and, ◌≡◌, refl, sym, ap, ◌∙◌, Bool, true, false, not, ◌&&◌,
  Bool-cases, inl, inr, if◌then◌else◌, ◌==◌, ==_iff, ltb, arith,
}
use libfatbat.Bits.{
  bit, bit-le, bit-bit_and, above, above-bit_and, above-word, bits-ext, bit-mask, bit_and-one,
}
use libfatbat.Flags.{clear_unavailable, caps_loop, caps_flags, complement}

-- Where digit `b` is cleared if `t` says so.
cleared :
    (t : Bool) (i b final : ℕ)
    → i < 64
    → b < 64
    → bit i (if t then bit_and final (complement (2 ^ b)) else final)
      ≡ (if i == b then (if t then 0 else bit b final) else bit i final)
cleared true i b final hi hb = elim (Bool-cases (i == b)) [
  | inl e ↦
      let none : bit i (complement (2 ^ b)) ≡ 0 = bit-mask i b hi hb ∙ rw e refl in
      rw e (omega (arith, bit-bit_and i final (complement (2 ^ b))))
  | inr e ↦
      let one : bit i (complement (2 ^ b)) ≡ 1 = bit-mask i b hi hb ∙ rw e refl in
      rw e (omega (arith, bit-bit_and i final (complement (2 ^ b)), bit-le i final))
]
cleared false i b final hi hb = elim (Bool-cases (i == b)) [
  | inl e ↦ rw e (ap (λ t. bit t final) ((==_iff i b).0 e))
  | inr e ↦ rw e refl
]

module _ (required available : ℕ) (hr : required < 2 ^ 64) (ha : available < 2 ^ 64) where
  -- What the round for digit `b` makes of it.
  kept : ℕ → ℕ → ℕ
  kept b x = if not (bit b required == 0) && (bit b available == 0) then 0 else x

  clear_unavailable-bit :
      (i b final : ℕ)
      → i < 64
      → b < 64
      → bit i (clear_unavailable required available b final)
        ≡ (if i == b then kept b (bit b final) else bit i final)
  unfolding clear_unavailable kept
  clear_unavailable-bit i b final hi hb =
      rw (bit_and-one required b hb hr, bit_and-one available b hb ha) (cleared _ i b final hi hb)

  clear_unavailable-above :
      (b final : ℕ)
      → above 64 final ≡ 0
      → above 64 (clear_unavailable required available b final) ≡ 0
  unfolding clear_unavailable
  clear_unavailable-above b final h =
      elim (Bool-cases (not (bit_and required (2 ^ b) == 0) && (bit_and available (2 ^ b) == 0))) [
        | inl e ↦ rw e (above-bit_and 64 final (complement (2 ^ b)) h)
        | inr e ↦ rw e h
      ]

  -- One digit of the result, by the digit after the first round.
  later_round :
      (i b final final' : ℕ)
      → bit i final' ≡ (if i == b then kept b (bit b final) else bit i final)
      → (if ltb i (suc b) then bit i final' else kept i (bit i final'))
        ≡ (if ltb i b then bit i final else kept i (bit i final))
  later_round i b final final' h = elim (Bool-cases (i == b)) [
    | inl e ↦
        let same : i ≡ b = (==_iff i b).0 e in
        let here : bit i final' ≡ kept b (bit b final) = h ∙ rw e refl in
        let moved : kept b (bit b final) ≡ kept i (bit i final) =
          ap (λ t. kept t (bit t final)) (sym same) in
        let below : ltb i (suc b) ≡ true = ground arith in
        let not_below : ltb i b ≡ false = ground arith in rw (below, not_below) (here ∙ moved)
    | inr e ↦
        let other : bit i final' ≡ bit i final = h ∙ rw e refl in
        let same_side : ltb i (suc b) ≡ ltb i b = ground arith in rw (other, same_side) refl
  ]

  caps_loop-bit :
      (left b final i : ℕ)
      → b + left ≡ 64
      → i < 64
      → bit i (caps_loop required available left b final)
        ≡ (if ltb i b then bit i final else kept i (bit i final))
  unfolding caps_loop
  caps_loop-bit zero b final i h lt = ground arith
  caps_loop-bit (suc left) b final i h lt =
      let final' = clear_unavailable required available b final in
      caps_loop-bit left (suc b) final' i (omega arith) lt
      ∙ later_round i b final final' (clear_unavailable-bit i b final lt (omega arith))

  caps_loop-above :
      (left b final : ℕ)
      → above 64 final ≡ 0
      → above 64 (caps_loop required available left b final) ≡ 0
  unfolding caps_loop
  caps_loop-above zero b final h = h
  caps_loop-above (suc left) b final h =
      caps_loop-above left (suc b) _ (clear_unavailable-above b final h)

  whole :
      (i : ℕ)
      → (if ltb i 0 then bit i required else kept i (bit i required))
        ≡ bit i (bit_and required available)
  unfolding kept
  whole i = ground (arith, bit-bit_and i required available, bit-le i required, bit-le i available)

-- What is left of the required capabilities are those that are available: for words of 64 bits,
-- the result of caps_flags is the bitwise intersection of what the derived controller requires and
-- what is available.
pub caps_flags-bit_and :
    (derived : ℕ → ℕ) (available : ℕ)
    → derived available < 2 ^ 64
    → available < 2 ^ 64
    → caps_flags derived available ≡ bit_and (derived available) available
unfolding caps_flags
caps_flags-bit_and derived available hr ha =
    let required = derived available in
    bits-ext 64 _ _
      (caps_loop-above required available hr ha 64 0 required (above-word required hr))
      (above-bit_and 64 required available (above-word required hr))
      (λ i lt.
        caps_loop-bit required available hr ha 64 0 required i (omega arith) lt
        ∙ whole required available hr ha i)
