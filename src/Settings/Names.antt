-- ===== src/Settings/Names.antt =====
-- The names of the endpoint types.
use libfatbat.Prelude.{
  ◌≡◌, refl, sym, ap, ◌∙◌, ◌≢◌, ◌↔◌, ◌⊎◌, inl, inr, Bool, true, false, ◌||◌, some, List, [], ◌∷◌,
  ◌==◌, if◌then◌else◌, ℕ, ℤ, pos, negsuc, eq_int, arith,
}
use mathlib.Core.Bool.{false≢true}
use libfatbat.Settings.{
  EndpointType, single, multiple, threadlocal_tx, scalable_tx, scalable_tx_rx, text_eq, atoi, names,
  to_int, libfabric_endpoint_type, libfabric_endpoint_string,
}

-- The name that is printed for an endpoint type selects that type again.
pub endpoint_type-endpoint_string :
    (t : EndpointType) → libfabric_endpoint_type (some (libfabric_endpoint_string t)) ≡ t
unfolding libfabric_endpoint_type libfabric_endpoint_string names
endpoint_type-endpoint_string single = refl
endpoint_type-endpoint_string multiple = refl
endpoint_type-endpoint_string threadlocal_tx = refl
endpoint_type-endpoint_string scalable_tx = refl
endpoint_type-endpoint_string scalable_tx_rx = refl

text_eq_iff : (xs ys : List ℕ) → (text_eq xs ys ≡ true) ↔ (xs ≡ ys)
text_eq_iff [] [] = ((λ h. refl), (λ h. refl))
text_eq_iff [] (y ∷ ys) = ((λ h. cc), (λ h. cc))
text_eq_iff (x ∷ xs) [] = ((λ h. cc), (λ h. cc))
text_eq_iff (x ∷ xs) (y ∷ ys) =
    let (mp, mpr) = text_eq_iff xs ys in ((λ h. ground (arith, mp)), (λ h. ground (arith, mpr)))

-- The variable selects `t` if it is the name of `t` or a text that `std::atoi` reads as its number.
abbrev pub Selects : List ℕ → EndpointType → Type 0
Selects env t = (env ≡ libfabric_endpoint_string t) ⊎ (atoi env ≡ pos (to_int t))

eq_int_iff : (i j : ℤ) → (eq_int i j ≡ true) ↔ (i ≡ j)
eq_int_iff (pos a) (pos b) = ground arith
eq_int_iff (pos a) (negsuc b) = ground arith
eq_int_iff (negsuc a) (pos b) = ground arith
eq_int_iff (negsuc a) (negsuc b) = ground arith

or_iff {ℓ κ} :
    (p q : Bool) {P : Type ℓ} {Q : Type κ}
    → (p ≡ true) ↔ P
    → (q ≡ true) ↔ Q
    → ((p || q) ≡ true) ↔ (P ⊎ Q)
or_iff true q a b = ((λ h. inl (a.0 refl)), (λ h. refl))
or_iff false q a b =
    ((λ h. inr (b.0 h)), elim [ inl x ↦ absurd (false≢true (a.1 x)) | inr y ↦ b.1 y ])

names_iff :
    (env : List ℕ) (t : EndpointType)
    → (names env (libfabric_endpoint_string t) t ≡ true) ↔ Selects env t
unfolding names
names_iff env t = or_iff _ _ (text_eq_iff _ _) (eq_int_iff _ _)

atoi-endpoint_string : (t : EndpointType) → atoi (libfabric_endpoint_string t) ≡ pos 0
unfolding atoi libfabric_endpoint_string
atoi-endpoint_string single = refl
atoi-endpoint_string multiple = refl
atoi-endpoint_string threadlocal_tx = refl
atoi-endpoint_string scalable_tx = refl
atoi-endpoint_string scalable_tx_rx = refl

of_int : ℕ → EndpointType
of_int n =
    if n == 1
    then multiple
    else if n == 2
    then threadlocal_tx
    else if n == 3
    then scalable_tx
    else if n == 4
    then scalable_tx_rx
    else single

of_int-to_int : (t : EndpointType) → of_int (to_int t) ≡ t
unfolding of_int
of_int-to_int single = refl
of_int-to_int multiple = refl
of_int-to_int threadlocal_tx = refl
of_int-to_int scalable_tx = refl
of_int-to_int scalable_tx_rx = refl

to_int-injective : (s t : EndpointType) → pos (to_int s) ≡ pos (to_int t) → s ≡ t
to_int-injective s t e =
    let same : to_int s ≡ to_int t = cc in sym (of_int-to_int s) ∙ ap of_int same ∙ of_int-to_int t

not_zero : (t : EndpointType) → t ≢ single → pos 0 ≢ pos (to_int t)
not_zero t h e = h (to_int-injective t single (sym e))

Selects-unique :
    (env : List ℕ) (s t : EndpointType)
    → s ≢ single
    → t ≢ single
    → Selects env s
    → Selects env t
    → s ≡ t
Selects-unique env s t hs ht (inl p) (inl q) =
    sym (endpoint_type-endpoint_string s)
    ∙ ap (λ x. libfabric_endpoint_type (some x)) (sym p ∙ q)
    ∙ endpoint_type-endpoint_string t
Selects-unique env s t hs ht (inl p) (inr q) =
    absurd (not_zero t ht (sym (atoi-endpoint_string s) ∙ sym (ap atoi p) ∙ q))
Selects-unique env s t hs ht (inr p) (inl q) =
    absurd (not_zero s hs (sym (atoi-endpoint_string t) ∙ sym (ap atoi q) ∙ p))
Selects-unique env s t hs ht (inr p) (inr q) = to_int-injective s t (sym p ∙ q)

-- The four tests in the order of the code.
tests : (env : List ℕ) (t : EndpointType) → Bool
tests env t = names env (libfabric_endpoint_string t) t

chosen :
    (env : List ℕ) (t : EndpointType)
    → libfabric_endpoint_type (some env) ≡ t
    → t ≢ single
    → tests env t ≡ true
unfolding libfabric_endpoint_type libfabric_endpoint_string tests
chosen env single e h = absurd (h refl)
chosen env multiple e h = ground arith
chosen env threadlocal_tx e h = ground arith
chosen env scalable_tx e h = ground arith
chosen env scalable_tx_rx e h = ground arith

not_single :
    (env : List ℕ) (t : EndpointType)
    → tests env t ≡ true
    → t ≢ single
    → libfabric_endpoint_type (some env) ≢ single
unfolding libfabric_endpoint_type libfabric_endpoint_string tests
not_single env single e h = absurd (h refl)
not_single env multiple e h = ground arith
not_single env threadlocal_tx e h = ground arith
not_single env scalable_tx e h = ground arith
not_single env scalable_tx_rx e h = ground arith

-- A value of LIBFABRIC_ENDPOINT_TYPE gives the type `t`, other than `single`, exactly if it is the
-- name of `t` or is read as the number of `t`. Any other value gives `single`.
pub endpoint_type_iff :
    (env : List ℕ) (t : EndpointType)
    → t ≢ single
    → (libfabric_endpoint_type (some env) ≡ t) ↔ Selects env t
unfolding tests
endpoint_type_iff env t h =
    let r : EndpointType = libfabric_endpoint_type (some env) in
    (
      (λ e. (names_iff env t).0 (chosen env t e h)),
      λ sel.
          let other : r ≢ single = not_single env t ((names_iff env t).1 sel) h in
          Selects-unique env r t other h ((names_iff env r).0 (chosen env r refl other)) sel,
    )
