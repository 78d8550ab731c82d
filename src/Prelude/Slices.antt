-- ===== src/Prelude/Slices.antt =====
-- Parts of lists: how long they are, and what a part of a part is.
use mathlib.Core.List.{append_assoc, map-append}
use libfatbat.Prelude.{
  ℕ, zero, suc, ◌+◌, ◌-◌, ◌≤◌, min, ◌≡◌, refl, ap, sym, ◌∙◌, List, [], ◌∷◌, ◌++◌, map, All, length,
  take, drop, arith,
}

module _ {ℓ} {A : Type ℓ} where
  pub length-take : (n : ℕ) (xs : List A) → length (take n xs) ≡ min n (length xs)
  length-take zero xs = omega arith
  length-take (suc n) [] = omega arith
  length-take (suc n) (x ∷ xs) = omega (arith, length-take n xs)

  pub length-drop : (n : ℕ) (xs : List A) → length (drop n xs) ≡ length xs - n
  length-drop zero xs = omega arith
  length-drop (suc n) [] = omega arith
  length-drop (suc n) (x ∷ xs) = omega (arith, length-drop n xs)

  pub drop-nil : (n : ℕ) → let none : List A = [] in drop n none ≡ none
  drop-nil zero = refl
  drop-nil (suc n) = refl

  pub drop-drop : (m n k : ℕ) (xs : List A) → m + n ≡ k → drop n (drop m xs) ≡ drop k xs
  drop-drop zero n k xs e = ap (λ t. drop t xs) (omega arith)
  drop-drop (suc m) n zero xs e = absurd (omega arith)
  drop-drop (suc m) n (suc k) [] e = drop-nil n
  drop-drop (suc m) n (suc k) (x ∷ xs) e = drop-drop m n k xs (omega arith)

  pub take-nil : (n : ℕ) → let none : List A = [] in take n none ≡ none
  take-nil zero = refl
  take-nil (suc n) = refl

  pub take-all : (n : ℕ) (xs : List A) → length xs ≤ n → take n xs ≡ xs
  take-all zero [] h = refl
  take-all zero (x ∷ xs) h = absurd (omega arith)
  take-all (suc n) [] h = refl
  take-all (suc n) (x ∷ xs) h = ap (λ t. x ∷ t) (take-all n xs (omega arith))

  pub drop-all : (n : ℕ) (xs : List A) → length xs ≤ n → drop n xs ≡ []
  drop-all zero [] h = refl
  drop-all zero (x ∷ xs) h = absurd (omega arith)
  drop-all (suc n) [] h = refl
  drop-all (suc n) (x ∷ xs) h = drop-all n xs (omega arith)

  pub take-append-drop : (n : ℕ) (xs : List A) → take n xs ++ drop n xs ≡ xs
  take-append-drop zero xs = refl
  take-append-drop (suc n) [] = refl
  take-append-drop (suc n) (x ∷ xs) = ap (λ t. x ∷ t) (take-append-drop n xs)

  -- Two counts that take as much of a list take the same.
  pub take-eq :
      (m n : ℕ) (xs : List A) → min m (length xs) ≡ min n (length xs) → take m xs ≡ take n xs
  take-eq zero zero xs e = refl
  take-eq zero (suc n) [] e = refl
  take-eq zero (suc n) (x ∷ xs) e = absurd (omega arith)
  take-eq (suc m) zero [] e = refl
  take-eq (suc m) zero (x ∷ xs) e = absurd (omega arith)
  take-eq (suc m) (suc n) [] e = refl
  take-eq (suc m) (suc n) (x ∷ xs) e = ap (λ t. x ∷ t) (take-eq m n xs (omega arith))

  pub All-take {κ} : (P : A → Type κ) (n : ℕ) (xs : List A) → All P xs → All P (take n xs)
  All-take P zero xs h = tt
  All-take P (suc n) [] h = tt
  All-take P (suc n) (x ∷ xs) h = (h.0, All-take P n xs h.1)

  pub All-drop {κ} : (P : A → Type κ) (n : ℕ) (xs : List A) → All P xs → All P (drop n xs)
  All-drop P zero xs h = h
  All-drop P (suc n) [] h = tt
  All-drop P (suc n) (x ∷ xs) h = All-drop P n xs h.1

-- A list handled in two parts, after another one.
pub map-take-drop {ℓ κ} :
    {A : Type ℓ} {B : Type κ} (f : A → B) (done : List B) (n : ℕ) (xs : List A)
    → (done ++ map f (take n xs)) ++ map f (drop n xs) ≡ done ++ map f xs
map-take-drop f done n xs =
    append_assoc done (map f (take n xs)) (map f (drop n xs))
    ∙ ap (λ t. done ++ t)
        (sym (map-append f (take n xs) (drop n xs)) ∙ ap (map f) (take-append-drop n xs))
