-- ===== src/Locality/Copies.antt =====
-- The copies, moves and assignments of a locality, and what is written of one: `to_str` and
-- `operator<<`. The words of the array are read with their lowest byte first.
pub mod Decimal
use libfatbat.Prelude.{
  ℕ, zero, suc, ◌+◌, ◌-◌, ◌/◌, ◌%◌, List, [], ◌∷◌, ◌++◌, Option, none, some, ◌==◌, ◌&&◌, ltb,
  if◌then◌else◌, take, drop,
}
use libfatbat.Base64.{codes}
use libfatbat.Log.Dump.{little_endian}
use libfatbat.Locality.{Locality}

unfoldable pub copy_construct : Locality → Locality
copy_construct other = record {
  fabric_data = other.fabric_data;
  fi_address = other.fi_address;
  av = other.av;
}

-- The move constructor: the new object and what is left of the source. To move an array of numbers
-- copies it.
unfoldable pub move_construct : Locality → Locality × Locality
move_construct other = (
  record { fabric_data = other.fabric_data; fi_address = other.fi_address; av = other.av },
  other,
)

-- `operator=`: the assigned object.
unfoldable pub copy_assign : Locality → Locality → Locality
copy_assign this other = record this {
  fabric_data = other.fabric_data;
  fi_address = other.fi_address;
  av = other.av;
}

-- `to_str(av)`, where `fi_av_straddr` gives the text for a vector, an address and a length of the
-- buffer, and `none` for null. The vector 0 is null, and one of the locality's own goes first.
unfoldable pub to_str : (ℕ → List ℕ → ℕ → Option (List ℕ)) → Locality → ℕ → List ℕ
to_str fi_av_straddr l av =
    if l.av == 0 && av == 0
    then codes "No address vector"
    else elim (fi_av_straddr (if l.av == 0 then av else l.av) l.fabric_data 256) [
      | none ↦ codes "Address formatting Error"
      | some text ↦ text
    ]

-- The digits of a number, before a text; the first argument bounds how many there are.
unfoldable pub decimal : ℕ → ℕ → List ℕ → List ℕ
decimal zero n text = text
decimal (suc fuel) n text =
    let more = decimal fuel (n / 10) ((48 + n % 10) ∷ text) in
    if ltb n 10 then (48 + n) ∷ text else more

-- `os << loc.data_[i]` for each of `n` words of 32 bits, which have ten digits at most.
unfoldable pub print_words : ℕ → List ℕ → List ℕ
unfolding decimal little_endian
print_words zero bytes = []
print_words (suc n) bytes =
    decimal 10 (little_endian (take 4 bytes)) [] ++ print_words n (drop 4 bytes)

-- `operator<<`, where `size` is locality_defs::array_size, and a word has four bytes.
unfoldable pub print_locality : ℕ → Locality → List ℕ
unfolding print_words
print_locality size l = print_words (size / 4) l.fabric_data
