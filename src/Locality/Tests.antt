-- ===== src/Locality/Tests.antt =====
-- Runs of the localities, with a table that is the list of its entries.
use libfatbat.Prelude.{
  ℕ, zero, suc, ◌≤◌, ◌<◌, ◌≡◌, ◌↔◌, ◌⊎◌, refl, List, [], ◌∷◌, ◌++◌, length, true, false, Option,
  none, some, ◌==◌, ltb, if◌then◌else◌, pos, negsuc, arith,
}
use libfatbat.Outcome.{returns, faults}
use libfatbat.Locality.{
  Locality, equals_member, equals_friend, locality_from_text, port, no_address,
}
use libfatbat.Locality.Equality.{equals_member-equals_friend, port-locality_from_text}
use libfatbat.Base64.{codes}
use libfatbat.Log.Dump.{little_endian}
use libfatbat.Locality.Copies.{
  decimal, print_locality, print_words, to_str, copy_construct, copy_assign, move_construct,
}
use libfatbat.Locality.Vector.{AddressEnv, debug_print_av_vector}
use libfatbat.Locality.Vector.Table.{
  Tabled, insert_all, bytes_of, in_vector, insert_all-debug_print_av_vector,
}

abbrev entry_or_none : List (List ℕ) → ℕ → List ℕ
entry_or_none [] i = []
entry_or_none (e ∷ es) zero = e
entry_or_none (e ∷ es) (suc i) = entry_or_none es i

-- Addresses of 16 bytes.
abbrev table : AddressEnv (List (List ℕ))
table = record {
  fi_getname = λ id len w. ((pos 0, [], 16), w);
  fi_av_insert = λ av bytes i w. ((pos 1, length w), w ++ bytes ∷ []);
  fi_av_lookup =
      λ av i len w. ((if ltb i (length w) then pos 0 else negsuc 21, entry_or_none w i, 16), w);
}

table-Tabled : Tabled table 16 (λ w. w)
table-Tabled = record {
  inserts = λ av i bytes w. (refl, refl, refl);
  finds = λ av i len w small room. (ground arith, refl, refl);
}

abbrev rank0 : Locality
rank0 = record { fabric_data = 2 ∷ 0 ∷ 0x1f ∷ 0x90 ∷ []; fi_address = 0; av = 0 }

abbrev rank1 : Locality
rank1 = record { fabric_data = 2 ∷ 0 ∷ 0x1f ∷ 0x91 ∷ []; fi_address = 1; av = 0 }

-- The words 1 and 11, and the words 11 and 1: the text does not keep them apart.
abbrev one_eleven : Locality
one_eleven = record { fabric_data = 1 ∷ 0 ∷ 0 ∷ 0 ∷ 11 ∷ 0 ∷ 0 ∷ 0 ∷ []; fi_address = 0; av = 0 }

abbrev eleven_one : Locality
eleven_one = record one_eleven { fabric_data = 11 ∷ 0 ∷ 0 ∷ 0 ∷ 1 ∷ 0 ∷ 0 ∷ 0 ∷ [] }

print_alike :
    (print_locality 8 one_eleven ≡ codes "111")
    × (print_locality 8 eleven_one ≡ codes "111")
    × (equals_member one_eleven eleven_one ≡ false)
unfolding print_locality print_words decimal little_endian equals_member
print_alike = (refl, refl, refl)

-- A text of the vector that a locality has, or else of the one that is given.
name_vector : ℕ → List ℕ → ℕ → Option (List ℕ)
name_vector av bytes room = if av == 9 then some (codes "vector 9") else none

to_str_runs :
    (to_str name_vector one_eleven 0 ≡ codes "No address vector")
    × (to_str name_vector one_eleven 9 ≡ codes "vector 9")
    × (to_str name_vector (record one_eleven { av = 9 }) 8 ≡ codes "vector 9")
    × (to_str name_vector (record one_eleven { av = 8 }) 9 ≡ codes "Address formatting Error")
unfolding to_str name_vector
to_str_runs = (refl, refl, refl, refl)

copies_equal :
    (equals_friend rank0 (copy_construct rank0) ≡ true)
    × (equals_friend rank0 (copy_assign rank1 rank0) ≡ true)
    × (move_construct rank0 ≡ (rank0, rank0))
unfolding equals_friend copy_construct copy_assign move_construct
copies_equal = (refl, refl, refl)

equals_member-equals_friend_example :
    ((equals_member rank0 (record rank0 { fi_address = 5 }) ≡ true)
      ↔ (rank0.fabric_data ≡ rank0.fabric_data))
    × ((equals_friend rank0 (record rank0 { fi_address = 5 }) ≡ true)
        ↔ ((rank0.fabric_data ≡ rank0.fabric_data) × (rank0.fi_address ≡ 5)))
equals_member-equals_friend_example =
    equals_member-equals_friend rank0 (record rank0 { fi_address = 5 })

port-locality_from_text_example :
    ((32 ≤ 16)
      × (l : Locality) × (locality_from_text
            (λ t. returns (pos 7910))
            (λ t. some (127 ∷ 0 ∷ 0 ∷ 1 ∷ []))
            32
            []
            []
          ≡ returns l)
      × (port l ≡ 7910)
      × (l.fi_address ≡ no_address))
    ⊎ ((16 < 32)
        × (locality_from_text (λ t. returns (pos 7910)) (λ t. some (127 ∷ 0 ∷ 0 ∷ 1 ∷ [])) 32 [] []
            ≡ faults))
port-locality_from_text_example =
    port-locality_from_text (λ t. returns (pos 7910)) (λ t. some (127 ∷ 0 ∷ 0 ∷ 1 ∷ [])) 32 7910 []
      [] refl (omega arith) (omega arith)

insert_all-debug_print_av_vector_example :
    (full printed : List (List ℕ)) × (insert_all table 16 2 9 (rank0 ∷ rank1 ∷ []) []
      ≡ returns (in_vector 9 (rank0 ∷ rank1 ∷ []), full))
    × (full ≡ bytes_of (rank0 ∷ rank1 ∷ []))
    × (debug_print_av_vector table 16 9 2 full ≡ returns (tt, printed))
    × (printed ≡ bytes_of (rank0 ∷ rank1 ∷ []))
insert_all-debug_print_av_vector_example =
    insert_all-debug_print_av_vector table 16 (λ w. w) table-Tabled 2 9 (rank0 ∷ rank1 ∷ []) [] refl
      (refl, (refl, tt)) (omega arith)
