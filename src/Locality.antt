-- ===== src/Locality.antt =====
-- include/libfatbat/locality.hpp: the address of an endpoint, as libfabric gives it, with the rank
-- that it belongs to. The array of `uint32_t` is the list of its bytes, in memory order, which is
-- how the code fills and reads it.
pub mod Vector
pub mod Equality
pub mod Copies
mod Tests
use libfatbat.Prelude.{
  ℕ, zero, suc, ◌+◌, ◌*◌, ◌/◌, ◌%◌, ◌^◌, List, [], ◌∷◌, ◌++◌, Bool, true, false, ◌&&◌, leb, ◌==◌,
  if◌then◌else◌, take, get_or, Option, none, some, ℤ, pos, to_u32,
}
use libfatbat.Outcome.{Outcome, returns, faults, ◌>>=◌}
use libfatbat.Locks.{Provider, gni, cxi, efa, verbs, tcp, sockets, psm2, shm, lnx}

-- LIBFATBAT_HAVE_PROVIDER_LOCALITY_SIZE; `cxi_1_15` is LIBFATBAT_HAVE_PROVIDER_CXI_1_15, and a
-- `long int` has 8 bytes.
abbrev pub array_size : Provider → Bool → ℕ
array_size gni old = 48
array_size cxi old = if old then 4 else 8
array_size efa old = 32
array_size verbs old = 16
array_size tcp old = 16
array_size sockets old = 16
array_size psm2 old = 16
array_size shm old = 24
array_size lnx old = 32

pub record Locality : Type 0 where
  pub fabric_data : List ℕ
  pub fi_address : ℕ
  pub av : ℕ

-- The index that stands for none.
abbrev pub no_address : ℕ
no_address = 0xffffffff

abbrev zeros : ℕ → List ℕ
zeros zero = []
zeros (suc n) = 0 ∷ zeros n

-- The explicit constructor from data, a vector and an index.
unfoldable pub locality_of : List ℕ → ℕ → ℕ → Locality
locality_of bytes av fi_addr = record { fabric_data = bytes; fi_address = fi_addr; av = av }

unfoldable pub default_locality : ℕ → Locality
default_locality size = record { fabric_data = zeros size; fi_address = no_address; av = 0 }

-- `locality(other, addr, av)`.
unfoldable pub with_address : Locality → ℕ → ℕ → Locality
with_address other addr av = record { fabric_data = other.fabric_data; fi_address = addr; av = av }

abbrev pub set_fi_address : Locality → ℕ → Locality
set_fi_address l addr = record l { fi_address = addr }

-- `struct sockaddr_in`: the family AF_INET, which is 2, the port with its high byte first, the
-- address, and padding.
unfoldable pub sockaddr_in : ℕ → List ℕ → List ℕ
sockaddr_in port address =
    2 ∷ 0 ∷ (port / 256) ∷ (port % 256) ∷ (address ++ (0 ∷ 0 ∷ 0 ∷ 0 ∷ 0 ∷ 0 ∷ 0 ∷ 0 ∷ []))

-- The four bytes of the address that `inet_pton` writes; they stay 0 where it cannot read the text.
abbrev pub in_addr : Option (List ℕ) → List ℕ
in_addr (some bytes) = bytes
in_addr none = 0 ∷ 0 ∷ 0 ∷ 0 ∷ []

-- `locality(address, portnum)`, where `stol` and `inet_pton` say what these read from a text:
-- `stol` throws an invalid_argument where it finds no number, and an out_of_range where that does
-- not fit. The copy of `size` bytes leaves the 16 of the structure where `size` is larger.
unfoldable pub locality_from_text :
    (List ℕ → Outcome ℤ) → (List ℕ → Option (List ℕ)) → ℕ → List ℕ → List ℕ → Outcome Locality
unfolding sockaddr_in
locality_from_text stol inet_pton size address portnum = stol portnum >>= λ port.
    if leb size 16
    then returns (record {
      fabric_data = take size (sockaddr_in (to_u32 port % 2 ^ 16) (in_addr (inet_pton address)));
      fi_address = no_address;
      av = 0;
    })
    else faults

-- `port()`, a uint16_t.
unfoldable pub port : Locality → ℕ
port l = (256 * get_or l.fabric_data 2 0 + get_or l.fabric_data 3 0) % 2 ^ 16

abbrev pub bytes_eq : List ℕ → List ℕ → Bool
bytes_eq [] [] = true
bytes_eq (x ∷ xs) (y ∷ ys) = let rest = bytes_eq xs ys in (x == y) && rest
bytes_eq _ _ = false

-- The member `operator==`, which a call on an object that is not const chooses.
unfoldable pub equals_member : Locality → Locality → Bool
equals_member l r = bytes_eq l.fabric_data r.fabric_data

-- The friend `operator==`.
unfoldable pub equals_friend : Locality → Locality → Bool
equals_friend l r = bytes_eq l.fabric_data r.fabric_data && (l.fi_address == r.fi_address)
