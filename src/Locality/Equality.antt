-- ===== src/Locality/Equality.antt =====
-- The two comparisons of localities, and the port of one that was made from a text.
use libfatbat.Prelude.{
  ℕ, zero, suc, ◌+◌, ◌*◌, ◌/◌, ◌%◌, ◌^◌, ◌≤◌, ◌<◌, List, [], ◌∷◌, true, leb, ◌≡◌, refl, Option, ℤ,
  pos, arith, ◌↔◌, take, get_or, to_u32, Bool-cases, ◌⊎◌, inl, inr,
}
use libfatbat.Outcome.{Outcome, returns, faults}
use libfatbat.Locality.{
  Locality, bytes_eq, equals_member, equals_friend, locality_from_text, sockaddr_in, in_addr, port,
  no_address,
}

bytes_eq_refl : (l : List ℕ) → bytes_eq l l ≡ true
bytes_eq_refl [] = refl
bytes_eq_refl (x ∷ xs) = ground (arith, bytes_eq_refl xs)

bytes_eq_sound : (l r : List ℕ) → bytes_eq l r ≡ true → l ≡ r
bytes_eq_sound [] [] h = refl
bytes_eq_sound [] (y ∷ ys) h = absurd (cc)
bytes_eq_sound (x ∷ xs) [] h = absurd (cc)
bytes_eq_sound (x ∷ xs) (y ∷ ys) h = ground (arith, bytes_eq_sound xs ys)

-- The member operator== holds exactly where the data are the same, and the friend exactly where the
-- data and the index are: two localities that differ in their index alone are equal by the first
-- and different by the second. The address vector is compared by neither.
pub equals_member-equals_friend :
    (l r : Locality)
    → ((equals_member l r ≡ true) ↔ (l.fabric_data ≡ r.fabric_data))
      × ((equals_friend l r ≡ true)
          ↔ ((l.fabric_data ≡ r.fabric_data) × (l.fi_address ≡ r.fi_address)))
unfolding equals_member equals_friend
equals_member-equals_friend l r = (
  (bytes_eq_sound l.fabric_data r.fabric_data, λ e. rw e (bytes_eq_refl r.fabric_data)),
  (
    λ h. (ground (arith, bytes_eq_sound l.fabric_data r.fabric_data), ground arith),
    λ e. rw (e.0, e.1) (ground (arith, bytes_eq_refl r.fabric_data)),
  ),
)

port_bytes : (p : ℕ) → p < 2 ^ 16 → (256 * (p / 256) + p % 256) % 2 ^ 16 ≡ p
port_bytes p h = omega arith

-- The first four bytes of the copy are the family and the port.
port-take :
    (size p : ℕ) (address : List ℕ)
    → 4 ≤ size
    → p < 2 ^ 16
    → (256 * get_or (take size (sockaddr_in p address)) 2 0
          + get_or (take size (sockaddr_in p address)) 3 0)
        % 2 ^ 16
      ≡ p
unfolding sockaddr_in
port-take (suc (suc (suc (suc size)))) p address four small = port_bytes p small
port-take (suc (suc (suc zero))) p address four small = absurd (omega arith)
port-take (suc (suc zero)) p address four small = absurd (omega arith)
port-take (suc zero) p address four small = absurd (omega arith)
port-take zero p address four small = absurd (omega arith)

-- A locality made from a text whose port number reads as `p`, below 2 ^ 16, has the port `p` and no
-- index, if the size of the data is from 4 to 16 bytes. If it is larger, as it is for the EFA, SHM,
-- LNX and GNI providers, the constructor reads past the structure that it copies from.
pub port-locality_from_text :
    (stol : List ℕ → Outcome ℤ) (inet_pton : List ℕ → Option (List ℕ)) (size p : ℕ)
    (address portnum : List ℕ)
    → stol portnum ≡ returns (pos p)
    → p < 2 ^ 16
    → 4 ≤ size
    → ((size ≤ 16)
        × (l : Locality) × (locality_from_text stol inet_pton size address portnum ≡ returns l)
        × (port l ≡ p)
        × (l.fi_address ≡ no_address))
      ⊎ ((16 < size) × (locality_from_text stol inet_pton size address portnum ≡ faults))
unfolding locality_from_text port
port-locality_from_text stol inet_pton size p address portnum h small four =
    let word : to_u32 (pos p) % 2 ^ 16 ≡ p = omega arith in
    elim (Bool-cases (leb size 16)) [
      | inl e ↦ inl (
        ground arith,
        record {
          fabric_data = take size (sockaddr_in p (in_addr (inet_pton address)));
          fi_address = no_address;
          av = 0;
        },
        rw (h, locality_from_text, e, word) refl,
        port-take size p (in_addr (inet_pton address)) four small,
        refl,
      )
      | inr e ↦ inr (ground arith, rw (h, locality_from_text, e) refl)
    ]
