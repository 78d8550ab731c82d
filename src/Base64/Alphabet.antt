-- ===== src/Base64/Alphabet.antt =====
-- The 64 characters: `base64_chars[k]` and `base64_chars.find` undo one another.
use libfatbat.Prelude.{
  ℕ, ◌<◌, ◌≡◌, refl, Bool, true, not, ◌||◌, ltb, ◌==◌, ==_iff, all_below, all_below-holds, arith,
}
use libfatbat.Base64.{char_at, char_index, continues}

or_left : (t : Bool) {u : Bool} → t ≡ true → (not t || u) ≡ true → u ≡ true
or_left t e h = ground arith

from_tests : (t : Bool) (n : ℕ) → t ≡ true → (not t || ltb n 64) ≡ true → n < 64
from_tests t n e h = ground arith

-- Every index below 64 is found again under its character.
pub char_index-char_at : (k : ℕ) → k < 64 → char_index (char_at k) ≡ k
unfolding all_below char_at char_index
char_index-char_at k h =
    (==_iff _ _).0 (all_below-holds (λ x. char_index (char_at x) == x) 64 k refl h)

-- No character of the alphabet stops the decoder.
pub continues-char_at : (k : ℕ) → k < 64 → continues (char_at k) ≡ true
unfolding all_below char_at continues
continues-char_at k h = all_below-holds (λ x. continues (char_at x)) 64 k refl h

-- The decoder goes on only at characters of the alphabet, whose index is below 64.
pub char_index-lt : (c : ℕ) → c < 256 → continues c ≡ true → char_index c < 64
unfolding all_below continues char_index
char_index-lt c h e =
    let table : (not (continues c) || ltb (char_index c) 64) ≡ true =
      all_below-holds (λ x. not (continues x) || ltb (char_index x) 64) 256 c refl h in
    from_tests (continues c) (char_index c) e table

-- Each of them is the character of its index.
pub char_at-char_index : (c : ℕ) → c < 256 → continues c ≡ true → char_at (char_index c) ≡ c
unfolding all_below continues char_at char_index
char_at-char_index c h e =
    let table : (not (continues c) || (char_at (char_index c) == c)) ≡ true =
      all_below-holds (λ x. not (continues x) || (char_at (char_index x) == x)) 256 c refl h in
    (==_iff _ _).0 (or_left (continues c) e table)
