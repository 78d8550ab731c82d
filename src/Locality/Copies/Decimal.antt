-- ===== src/Locality/Copies/Decimal.antt =====
-- The digits that `operator<<` of include/libfatbat/locality.hpp writes of a word.
use libfatbat.Prelude.{
  ℕ, zero, suc, ◌+◌, ◌*◌, ◌/◌, ◌%◌, ◌^◌, ◌<◌, List, [], ◌∷◌, leb, ltb, true, ◌-◌, ◌≡◌, ◌∙◌, refl,
  arith, Bool-cases, inl, inr,
}
use libfatbat.Settings.{digits_from}
use libfatbat.Locality.Copies.{decimal}

digits_from-digit :
    (acc d n : ℕ) (text : List ℕ)
    → d < 10
    → acc * 10 + d ≡ n
    → digits_from acc ((48 + d) ∷ text) ≡ digits_from n text
unfolding digits_from
digits_from-digit acc d n text small sum =
    let value : acc * 10 + (48 + d - 48) ≡ n = omega arith in
    let above : leb 48 (48 + d) ≡ true = ground arith in
    let below : leb (48 + d) 57 ≡ true = ground arith in rw (above, below, value) refl

-- `std::atoi` reads the digits of a number, before a text, as the number, if there is fuel for all
-- of them.
pub digits_from-decimal :
    (fuel n : ℕ) (text : List ℕ)
    → n < 10 ^ fuel
    → digits_from 0 (decimal fuel n text) ≡ digits_from n text
unfolding decimal
digits_from-decimal zero n text small = let none : n ≡ 0 = omega arith in rw none refl
digits_from-decimal (suc fuel) n text small = elim (Bool-cases (ltb n 10)) [
  | inl h ↦ rw h (digits_from-digit 0 n n text (ground arith) (omega arith))
  | inr h ↦ rw h (
      digits_from-decimal fuel (n / 10) ((48 + n % 10) ∷ text) (omega arith)
      ∙ digits_from-digit (n / 10) (n % 10) n text (omega arith) (omega arith))
]

-- A word of 32 bits has ten digits at most, and is read back from them.
digits_from-decimal_word : (n : ℕ) → n < 2 ^ 32 → digits_from 0 (decimal 10 n []) ≡ n
unfolding digits_from
digits_from-decimal_word n small = digits_from-decimal 10 n [] (omega arith)
