-- ===== src/Bits.antt =====
-- Single binary digits of numbers, and what the bitwise operations of 64-bit words do to them.
use Prim.Native.Nat.{digits, max, two, bit_and-bitwise, bit_or-bitwise}
use libfatbat.Prelude.{
  ℕ, zero, suc, ◌+◌, ◌-◌, ◌*◌, ◌/◌, ◌%◌, ◌^◌, ◌≤◌, ◌<◌, min, bit_and, bit_or, ◌≡◌, refl, sym, ap,
  ◌∙◌, Bool-cases, inl, inr, if◌then◌else◌, ◌==◌, ==_iff, all_below, all_below-holds, arith,
}

module _ (z : ℕ → ℕ) (f : ℕ → ℕ → ℕ) where
  digits-zero : (n b : ℕ) → digits z f n zero b ≡ z b
  digits-zero zero b = refl
  digits-zero (suc n) b = refl

  -- The count of digits to go may be any that the first number does not exceed.
  digits_enough : (a n m b : ℕ) → a ≤ n → a ≤ m → digits z f n a b ≡ digits z f m a b
  digits_enough zero n m b p q = digits-zero n b ∙ sym (digits-zero m b)
  digits_enough (suc a) zero m b p q = absurd (omega arith)
  digits_enough (suc a) (suc n) zero b p q = absurd (omega arith)
  digits_enough (suc a) (suc n) (suc m) b p q =
      ap (λ t. t * two + f (suc a % two) (b % two))
        (digits_enough (suc a / two) n m (b / two) (omega arith) (omega arith))

bit_and-halves : (a b : ℕ) → bit_and a b ≡ bit_and (a / 2) (b / 2) * 2 + min (a % 2) (b % 2)
bit_and-halves zero b = omega (arith, bit_and-bitwise 0 b, bit_and-bitwise 0 (b / 2))
bit_and-halves (suc a) b = omega (
  arith,
  bit_and-bitwise (suc a) b,
  bit_and-bitwise (suc a / 2) (b / 2),
  digits_enough (λ y. zero) min (suc a / 2) a (suc a / 2) (b / 2) (omega arith) (omega arith),
)

bit_or-halves : (a b : ℕ) → bit_or a b ≡ bit_or (a / 2) (b / 2) * 2 + max (a % 2) (b % 2)
bit_or-halves zero b = omega (arith, bit_or-bitwise 0 b, bit_or-bitwise 0 (b / 2))
bit_or-halves (suc a) b = omega (
  arith,
  bit_or-bitwise (suc a) b,
  bit_or-bitwise (suc a / 2) (b / 2),
  digits_enough (λ y. y) max (suc a / 2) a (suc a / 2) (b / 2) (omega arith) (omega arith),
)

-- The digit of `n` at the place `i`, and what is left of `n` above the lowest `i` digits.
unfoldable pub bit : ℕ → ℕ → ℕ
bit zero n = n % 2
bit (suc i) n = bit i (n / 2)

unfoldable pub above : ℕ → ℕ → ℕ
above zero n = n
above (suc i) n = above i (n / 2)

pub bit-le : (i n : ℕ) → bit i n ≤ 1
unfolding bit
bit-le zero n = omega arith
bit-le (suc i) n = bit-le i (n / 2)

pub bit-bit_and : (i a b : ℕ) → bit i (bit_and a b) ≡ min (bit i a) (bit i b)
unfolding bit
bit-bit_and zero a b = omega (arith, bit_and-halves a b)
bit-bit_and (suc i) a b =
    let half : bit_and a b / 2 ≡ bit_and (a / 2) (b / 2) = omega (arith, bit_and-halves a b) in
    ap (bit i) half ∙ bit-bit_and i (a / 2) (b / 2)

pub bit-bit_or : (i a b : ℕ) → bit i (bit_or a b) ≡ max (bit i a) (bit i b)
unfolding bit
bit-bit_or zero a b = omega (arith, bit_or-halves a b)
bit-bit_or (suc i) a b =
    let half : bit_or a b / 2 ≡ bit_or (a / 2) (b / 2) = omega (arith, bit_or-halves a b) in
    ap (bit i) half ∙ bit-bit_or i (a / 2) (b / 2)

above-zero : (k : ℕ) → above k 0 ≡ 0
unfolding above
above-zero zero = refl
above-zero (suc k) = above-zero k

pub above-bit_and : (k a b : ℕ) → above k a ≡ 0 → above k (bit_and a b) ≡ 0
unfolding above
above-bit_and zero a b h = omega (arith, ap (λ t. bit_and t b) h, bit_and-bitwise 0 b)
above-bit_and (suc k) a b h =
    let half : bit_and a b / 2 ≡ bit_and (a / 2) (b / 2) = omega (arith, bit_and-halves a b) in
    ap (above k) half ∙ above-bit_and k (a / 2) (b / 2) h

-- Two numbers of `k` digits are equal if their digits are.
pub bits-ext :
    (k m n : ℕ) → above k m ≡ 0 → above k n ≡ 0 → ((i : ℕ) → i < k → bit i m ≡ bit i n) → m ≡ n
unfolding above bit
bits-ext zero m n p q h = omega arith
bits-ext (suc k) m n p q h =
    let halves : m / 2 ≡ n / 2 = bits-ext k (m / 2) (n / 2) p q (λ i lt. h (suc i) (omega arith)) in
    omega (arith, h 0 (omega arith))

pub bits-zero : (i : ℕ) → bit i 0 ≡ 0
unfolding bit
bits-zero zero = refl
bits-zero (suc i) = bits-zero i

bit_or-zeros : bit_or 0 0 ≡ 0
bit_or-zeros = bit_or-bitwise 0 0

above-bit_or : (k a b : ℕ) → above k a ≡ 0 → above k b ≡ 0 → above k (bit_or a b) ≡ 0
unfolding above
above-bit_or zero a b p q = ap (λ t. bit_or t b) p ∙ (ap (bit_or 0) q ∙ bit_or-zeros)
above-bit_or (suc k) a b p q =
    let half : bit_or a b / 2 ≡ bit_or (a / 2) (b / 2) = omega (arith, bit_or-halves a b) in
    ap (above k) half ∙ above-bit_or k (a / 2) (b / 2) p q

-- 2 ^ k by doubling, for proofs.
abbrev pub power : ℕ → ℕ
power zero = 1
power (suc k) = power k + power k

pub above-small : (k n : ℕ) → n < power k → above k n ≡ 0
unfolding above
above-small zero n h = omega arith
above-small (suc k) n h = above-small k (n / 2) (omega arith)

above-lt : (k n : ℕ) → above k n ≡ 0 → n < power k
unfolding above
above-lt zero n h = omega arith
above-lt (suc k) n h = omega (arith, above-lt k (n / 2) h)

-- One digit: 1 at the place `b`.
pub bit-power : (i b : ℕ) → bit i (power b) ≡ (if i == b then 1 else 0)
unfolding bit
bit-power zero zero = refl
bit-power zero (suc b) = ground arith
bit-power (suc i) zero = ground (arith, bits-zero i)
bit-power (suc i) (suc b) =
    let half : (power b + power b) / 2 ≡ power b = omega arith in
    ap (bit i) half ∙ (bit-power i b ∙ ground arith)

-- `~n` in a word of `k` digits.
pub bit-complement : (k i n : ℕ) → i < k → n < power k → bit i (power k - 1 - n) ≡ 1 - bit i n
unfolding bit
bit-complement zero i n lt h = absurd (omega arith)
bit-complement (suc k) zero n lt h = omega arith
bit-complement (suc k) (suc i) n lt h =
    let half : (power k + power k - 1 - n) / 2 ≡ power k - 1 - n / 2 = omega arith in
    ap (bit i) half ∙ bit-complement k i (n / 2) (omega arith) (omega arith)

power-positive : (k : ℕ) → 1 < power k + power k
power-positive zero = omega arith
power-positive (suc k) = omega (arith, power-positive k)

power-lt : (b k : ℕ) → b < k → power b < power k
power-lt b zero h = absurd (omega arith)
power-lt zero (suc k) h = power-positive k
power-lt (suc b) (suc k) h = omega (arith, power-lt b k (omega arith))

-- The powers that the code writes, up to the size of a word.
pub power_eq : (b : ℕ) → b < 65 → 2 ^ b ≡ power b
unfolding all_below
power_eq b h = (==_iff _ _).0 (all_below-holds (λ x. 2 ^ x == power x) 65 b refl h)

pub one-lt : (b : ℕ) → b < 64 → 2 ^ b < 2 ^ 64
one-lt b h = omega (arith, power_eq b (omega arith), power-lt b 64 h)

pub bit-one : (i b : ℕ) → b < 64 → bit i (2 ^ b) ≡ (if i == b then 1 else 0)
bit-one i b h = ap (bit i) (power_eq b (omega arith)) ∙ bit-power i b

-- `~(1ULL << b)`.
pub bit-mask :
    (i b : ℕ) → i < 64 → b < 64 → bit i (2 ^ 64 - 1 - 2 ^ b) ≡ 1 - (if i == b then 1 else 0)
bit-mask i b hi hb =
    ap (λ t. bit i (2 ^ 64 - 1 - t)) (power_eq b (omega arith))
    ∙ (bit-complement 64 i (power b) hi (power-lt b 64 hb) ∙ ap (λ t. 1 - t) (bit-power i b))

pub above-word : (n : ℕ) → n < 2 ^ 64 → above 64 n ≡ 0
above-word n h = above-small 64 n h

pub bit_or-lt : (a b : ℕ) → a < 2 ^ 64 → b < 2 ^ 64 → bit_or a b < 2 ^ 64
bit_or-lt a b p q = above-lt 64 (bit_or a b) (above-bit_or 64 a b (above-word a p) (above-word b q))

masked_bit : (n b i : ℕ) → b < 64 → bit i (bit_and n (2 ^ b)) ≡ (if i == b then bit b n else 0)
masked_bit n b i hb = elim (Bool-cases (i == b)) [
  | inl e ↦
      let same : bit i n ≡ bit b n = ap (λ t. bit t n) ((==_iff i b).0 e) in
      let one : bit i (2 ^ b) ≡ 1 = bit-one i b hb ∙ rw e refl in
      rw e (omega (arith, bit-bit_and i n (2 ^ b), bit-le i n))
  | inr e ↦
      let none : bit i (2 ^ b) ≡ 0 = bit-one i b hb ∙ rw e refl in
      rw e (omega (arith, bit-bit_and i n (2 ^ b)))
]

-- A test of one digit by a mask.
pub bit_and-one : (n b : ℕ) → b < 64 → n < 2 ^ 64 → (bit_and n (2 ^ b) == 0) ≡ (bit b n == 0)
bit_and-one n b hb hn = elim (Bool-cases (bit b n == 0)) [
  | inl e ↦
      let z : bit b n ≡ 0 = (==_iff _ _).0 e in
      let nothing : bit_and n (2 ^ b) ≡ 0 =
        bits-ext 64 _ 0 (above-bit_and 64 n (2 ^ b) (above-word n hn)) (above-zero 64)
          (λ i lt. masked_bit n b i hb ∙ (rw z (ground arith) ∙ sym (bits-zero i))) in
      rw nothing (sym e)
  | inr e ↦
      let some_bit : bit b (bit_and n (2 ^ b)) ≡ bit b n = masked_bit n b b hb ∙ ground arith in
      elim (Bool-cases (bit_and n (2 ^ b) == 0)) [
        | inl z ↦
            let gone : bit b n ≡ 0 = sym some_bit ∙ (ap (bit b) ((==_iff _ _).0 z) ∙ bits-zero b) in
            absurd (ground arith)
        | inr k ↦ rw (k, e) refl
      ]
]
