-- ===== src/Base64/Masks.antt =====
-- The masks of base64.hpp on one byte, as arithmetic: tables over the 256 values of a byte.
use libfatbat.Prelude.{
  ℕ, ◌*◌, ◌/◌, ◌%◌, ◌<◌, ◌≡◌, refl, true, bit_and, ◌==◌, ==_iff, all_below, all_below-holds,
}

module _ (f g : ℕ → ℕ) where
  -- Two functions that agree by evaluation below `n` are equal there.
  agree : (n : ℕ) → all_below (λ x. f x == g x) n ≡ true → (x : ℕ) → x < n → f x ≡ g x
  agree n table x h = (==_iff _ _).0 (all_below-holds _ n x table h)

pub and-fc : (a : ℕ) → a < 256 → bit_and a 0xfc ≡ a / 4 * 4
unfolding all_below
and-fc = agree _ _ 256 refl

pub and-03 : (a : ℕ) → a < 256 → bit_and a 0x03 ≡ a % 4
unfolding all_below
and-03 = agree _ _ 256 refl

pub and-f0 : (a : ℕ) → a < 256 → bit_and a 0xf0 ≡ a / 16 * 16
unfolding all_below
and-f0 = agree _ _ 256 refl

pub and-0f : (a : ℕ) → a < 256 → bit_and a 0x0f ≡ a % 16
unfolding all_below
and-0f = agree _ _ 256 refl

pub and-c0 : (a : ℕ) → a < 256 → bit_and a 0xc0 ≡ a / 64 * 64
unfolding all_below
and-c0 = agree _ _ 256 refl

pub and-3f : (a : ℕ) → a < 256 → bit_and a 0x3f ≡ a % 64
unfolding all_below
and-3f = agree _ _ 256 refl

pub and-30 : (a : ℕ) → a < 256 → bit_and a 0x30 ≡ a / 16 % 4 * 16
unfolding all_below
and-30 = agree _ _ 256 refl

pub and-3c : (a : ℕ) → a < 256 → bit_and a 0x3c ≡ a / 4 % 16 * 4
unfolding all_below
and-3c = agree _ _ 256 refl
