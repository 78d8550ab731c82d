-- ===== src/Locality/Vector.antt =====
-- The address vector: get_endpoint_address, insert_address and debug_print_av_vector of
-- include/libfatbat/controller_base.hpp.
pub mod Table
use libfatbat.Prelude.{
  ℕ, zero, suc, ◌+◌, List, [], ◌∷◌, Bool, true, false, not, ◌||◌, ltb, leb, ◌==◌, if◌then◌else◌, ℤ,
  pos, negsuc, eq_int,
}
use libfatbat.Outcome.{
  Outcome, returns, throws, runtime_error, throw_fabric_error, construct_error_msg, check,
}
use libfatbat.Action.{Action, ◌>>=◌, ◌>>◌, pure, throw_error, require}
use libfatbat.Locality.{Locality, locality_of, with_address, default_locality, set_fi_address}

-- libfabric's part. `fi_getname` and `fi_av_lookup` return their result, the bytes that the array
-- holds afterwards, and the length of the address; `fi_av_insert` returns its result, which is the
-- number of addresses inserted or a negated error, and the index.
pub record AddressEnv (W : Type 0) : Type 0 where
  pub fi_getname : ℕ → ℕ → W → (ℤ × List ℕ × ℕ) × W
  pub fi_av_insert : ℕ → List ℕ → ℕ → W → (ℤ × ℕ) × W
  pub fi_av_lookup : ℕ → ℕ → ℕ → W → (ℤ × List ℕ × ℕ) × W

abbrev pub ask : {W A : Type 0} → (W → A × W) → Action W A
ask f w = returns (f w)

-- A `fabric_error` that is constructed and not thrown.
abbrev pub construct : {W : Type 0} → ℤ → Action W (Unit {0})
construct err w = libfatbat.Outcome.◌>>=◌ (construct_error_msg err) λ e. returns (tt, w)

abbrev pub is_negative : ℤ → Bool
is_negative (pos n) = false
is_negative (negsuc n) = true

-- `size` is locality_defs::array_size.
module _ {W : Type 0} (env : AddressEnv W) (size : ℕ) where
  -- `get_endpoint_address(id, rank)`, where `av` is the controller's address vector.
  unfoldable pub get_endpoint_address : ℕ → ℕ → ℕ → Action W Locality
  unfolding locality_of
  get_endpoint_address av id rank = do
    name ← ask (env.fi_getname id size)
    if not (eq_int name.0 (pos 0)) || ltb size name.2 then construct name.0 else pure tt
    pure (locality_of name.1 av rank)

  -- `insert_address(av, address)`, where `num_ranks` is the number of ranks.
  unfoldable pub insert_address : ℕ → ℕ → Locality → Action W Locality
  unfolding with_address
  insert_address num_ranks av address = do
    if leb num_ranks address.fi_address then throw_error (negsuc 0) else pure tt
    inserted ← ask (env.fi_av_insert av address.fabric_data address.fi_address)
    if is_negative inserted.0
        then throw_error inserted.0
        else if eq_int inserted.0 (pos 0)
        then construct inserted.0
        else pure tt
    let new_locality = with_address address inserted.1 av
    if not (address.fi_address == new_locality.fi_address) then throw_error (negsuc 0) else pure tt
    pure new_locality

  -- The loop of debug_print_av_vector, with `left` entries to go: each entry is read into `addr`,
  -- and `addrlen` is what the last one left there.
  unfoldable pub print_av_entries : ℕ → ℕ → ℕ → ℕ → Locality → Action W (Unit {0})
  print_av_entries av zero i addrlen addr = pure tt
  print_av_entries av (suc left) i addrlen addr = do
    found ← ask (env.fi_av_lookup av i addrlen)
    require found.0
    if leb found.2 size then pure tt else λ w. throws runtime_error
    let addr' : Locality = record addr { fabric_data = found.1; fi_address = i }
    print_av_entries av left (suc i) found.2 addr'

  unfoldable pub debug_print_av_vector : ℕ → ℕ → Action W (Unit {0})
  unfolding print_av_entries default_locality
  debug_print_av_vector av n = print_av_entries av n 0 size (default_locality size)
