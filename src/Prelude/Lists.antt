-- ===== src/Prelude/Lists.antt =====
-- Lists measured and indexed by native numbers.
use Prim.Native.Nat.{ℕ, zero, suc, ◌+◌, ◌≤◌, ◌<◌}
use mathlib.Core.Path.{◌≡◌}
use mathlib.Core.Bool.{Bool, true, cond, ◌&&◌}
use mathlib.Core.List.{List, [], ◌∷◌, ◌++◌}
use native.Mathlib.Omega.{arith}

module _ {ℓ} {A : Type ℓ} where
  abbrev pub length : List A → ℕ
  length [] = 0
  length (x ∷ xs) = suc (length xs)

  abbrev pub get_or : List A → ℕ → A → A
  get_or [] i d = d
  get_or (x ∷ xs) zero d = x
  get_or (x ∷ xs) (suc i) d = get_or xs i d

  abbrev pub All {κ} : (A → Type κ) → List A → Type κ
  All P [] = Unit {κ}
  All P (x ∷ xs) = P x × All P xs

  pub length-append : (xs ys : List A) → length (xs ++ ys) ≡ length xs + length ys
  length-append [] ys = omega arith
  length-append (x ∷ xs) ys = omega (arith, length-append xs ys)

-- Every number below `n` passes the test `p`: small ranges are checked by evaluation.
unfoldable pub all_below : (ℕ → Bool) → ℕ → Bool
all_below p zero = true
all_below p (suc bound) = let rest = all_below p bound in p bound && rest

pub all_below-holds :
    (p : ℕ → Bool) (bound x : ℕ) → all_below p bound ≡ true → x < bound → p x ≡ true
unfolding all_below
all_below-holds p (suc bound) x table small = ground (arith, all_below-holds p bound x)
all_below-holds p zero x table small = absurd (omega arith)

-- How many elements pass a test.
abbrev pub count_if {ℓ} : {A : Type ℓ} → (A → Bool) → List A → ℕ
count_if p [] = 0
count_if p (x ∷ xs) = cond (p x) (suc (count_if p xs)) (count_if p xs)

module _ {ℓ} {A : Type ℓ} where
  abbrev pub take : ℕ → List A → List A
  take zero xs = []
  take (suc n) [] = []
  take (suc n) (x ∷ xs) = x ∷ take n xs

  abbrev pub drop : ℕ → List A → List A
  drop zero xs = xs
  drop (suc n) [] = []
  drop (suc n) (x ∷ xs) = drop n xs

  -- What is taken is no longer than asked for, and what is left is shorter by as much.
  pub length-take-drop :
      (n : ℕ) (xs : List A)
      → (length (take n xs) ≤ n) × (length (drop n xs) + length (take n xs) ≤ length xs)
  length-take-drop zero xs = omega arith
  length-take-drop (suc n) [] = omega arith
  length-take-drop (suc n) (x ∷ xs) = omega (arith, length-take-drop n xs)
