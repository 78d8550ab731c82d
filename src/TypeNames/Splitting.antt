-- ===== src/TypeNames/Splitting.antt =====
-- What a reader of a log gets back from a list of type names.
use mathlib.Core.List.{append_assoc}
use libfatbat.Prelude.{
  ℕ, Bool, false, ◌≡◌, refl, ap, ◌∙◌, List, [], ◌∷◌, ◌++◌, map, All, ◌==◌, ==_iff, if◌then◌else◌,
}
use libfatbat.Base64.{codes}
use libfatbat.TypeNames.{CppType, print_one, print_type}

-- The parts of a text between the occurrences of a character.
abbrev add_first : ℕ → List (List ℕ) → List (List ℕ)
add_first c [] = (c ∷ []) ∷ []
add_first c (part ∷ parts) = (c ∷ part) ∷ parts

pub split : ℕ → List ℕ → List (List ℕ)
split d [] = [] ∷ []
split d (c ∷ cs) = let rest = split d cs in if c == d then [] ∷ rest else add_first c rest

abbrev pub Lacks : ℕ → List ℕ → Type 0
Lacks d = All (λ c. (c == d) ≡ false)

split-append :
    (d : ℕ) (name rest : List ℕ) → Lacks d name → split d (name ++ (d ∷ rest)) ≡ name ∷ split d rest
unfolding split
split-append d [] rest l = rw ((==_iff d d).1 refl) refl
split-append d (c ∷ name) rest l = rw (l.0, split-append d name rest l.1) refl

split-whole : (d : ℕ) (name : List ℕ) → Lacks d name → split d name ≡ name ∷ []
unfolding split
split-whole d [] l = refl
split-whole d (c ∷ name) l = rw (l.0, split-whole d name l.1) refl

-- Where no name contains the delimiter, a character, splitting the text at it gives the names of
-- the types, in their order.
pub split-print_type :
    (supported : Bool) (d : ℕ) (t : CppType) (ts : List CppType)
    → All (λ u. Lacks d (print_one supported u)) (t ∷ ts)
    → split d (print_type supported (d ∷ []) (t ∷ ts)) ≡ map (print_one supported) (t ∷ ts)
unfolding print_type
split-print_type supported d t [] l = split-whole d (print_one supported t) l.0
split-print_type supported d t (u ∷ us) l =
    ap (split d) (append_assoc (print_one supported t) (d ∷ []) _)
    ∙ (split-append d (print_one supported t) _ l.0
        ∙ ap (λ names. print_one supported t ∷ names) (split-print_type supported d u us l.1))

a_list_and_a_map : (supported : Bool) → print_type supported (codes ";") [] ≡ codes "<>"
unfolding print_type
a_list_and_a_map supported = refl
