-- ===== src/Settings.antt =====
-- The settings of include/libfatbat/controller_base.hpp that are read from the environment: each
-- function takes the result of its `std::getenv`, `none` for an unset variable.
pub mod Names
pub mod Numbers
mod Tests
use libfatbat.Prelude.{
  ℕ, ◌+◌, ◌-◌, ◌*◌, Bool, true, false, ◌&&◌, ◌||◌, Option, none, some, List, [], ◌∷◌, leb, ltb,
  ◌==◌, if◌then◌else◌, ℤ, pos, negsuc, neg, eq_int,
}
use libfatbat.Base64.{codes}

-- enum class endpoint_type : int.
pub data EndpointType : Type 0 where
  single multiple threadlocal_tx scalable_tx scalable_tx_rx : EndpointType

-- `int(endpoint_type::t)`.
abbrev pub to_int : EndpointType → ℕ
to_int single = 0
to_int multiple = 1
to_int threadlocal_tx = 2
to_int scalable_tx = 3
to_int scalable_tx_rx = 4

-- `std::string(a) == std::string(b)`.
abbrev pub text_eq : List ℕ → List ℕ → Bool
text_eq [] [] = true
text_eq (a ∷ xs) (b ∷ ys) = a == b && text_eq xs ys
text_eq [] (b ∷ ys) = false
text_eq (a ∷ xs) [] = false

-- `std::atoi`: white space, a sign, then digits up to the first other character; 0 without digits.
abbrev pub is_digit : ℕ → Bool
is_digit c = leb b'0' c && leb c b'9'

abbrev pub is_space : ℕ → Bool
is_space c = (c == 0x20) || (leb 0x09 c && leb c 0x0d)

unfoldable pub digits_from : ℕ → List ℕ → ℕ
digits_from acc [] = acc
digits_from acc (c ∷ cs) =
    let rest = digits_from (acc * 10 + (c - b'0')) cs in if is_digit c then rest else acc

signed_digits : List ℕ → ℤ
unfolding digits_from
signed_digits [] = pos 0
signed_digits (c ∷ cs) =
    if c == b'-'
    then neg (digits_from 0 cs)
    else if c == b'+'
    then pos (digits_from 0 cs)
    else pos (digits_from 0 (c ∷ cs))

pub atoi : List ℕ → ℤ
unfolding signed_digits
atoi [] = pos 0
atoi (c ∷ cs) = let rest = atoi cs in if is_space c then rest else signed_digits (c ∷ cs)

-- One test of `libfabric_endpoint_type`: the name, or the number.
unfoldable pub names : List ℕ → List ℕ → EndpointType → Bool
unfolding atoi
names env name t = text_eq env name || eq_int (atoi env) (pos (to_int t))

-- LIBFABRIC_ENDPOINT_TYPE.
unfoldable pub libfabric_endpoint_type : Option (List ℕ) → EndpointType
libfabric_endpoint_type none = single
libfabric_endpoint_type (some env) =
    if names env (codes "multiple") multiple
    then multiple
    else if names env (codes "threadlocal") threadlocal_tx
    then threadlocal_tx
    else if names env (codes "scalableTx") scalable_tx
    then scalable_tx
    else if names env (codes "scalableTxRx") scalable_tx_rx
    then scalable_tx_rx
    else single

unfoldable pub libfabric_endpoint_string : EndpointType → List ℕ
libfabric_endpoint_string multiple = codes "multiple"
libfabric_endpoint_string threadlocal_tx = codes "threadlocal"
libfabric_endpoint_string scalable_tx = codes "scalableTx"
libfabric_endpoint_string scalable_tx_rx = codes "scalableTxRx"
libfabric_endpoint_string single = codes "single"

-- enum fi_progress, as far as the code uses it.
pub data Progress : Type 0 where
  progress_manual progress_auto : Progress

-- LIBFABRIC_AUTO_PROGRESS.
pub libfabric_progress_type : Option (List ℕ) → Progress
libfabric_progress_type none = progress_manual
libfabric_progress_type (some env) = progress_auto

pub libfabric_progress_string : Option (List ℕ) → List ℕ
unfolding libfabric_progress_type
libfabric_progress_string env = elim (libfabric_progress_type env) [
  | progress_auto ↦ codes "auto"
  | progress_manual ↦ codes "manual"
]

-- LIBFABRIC_POLL_SIZE; `std::atoi` throws nothing, so the `catch` is never reached.
unfoldable pub libfabric_completions_per_poll : Option (List ℕ) → ℤ
libfabric_completions_per_poll none = pos 4
libfabric_completions_per_poll (some env) = atoi env

-- LIBFABRIC_RENDEZVOUS_THRESHOLD, read by the C library's `std::strtoul` at base 0.
unfoldable pub libfabric_rendezvous_threshold : (List ℕ → ℕ) → Option (List ℕ) → ℕ → ℕ
libfabric_rendezvous_threshold strtoul none def_val = def_val
libfabric_rendezvous_threshold strtoul (some env) def_val = strtoul env
