-- ===== src/OpenFabric/Caps.antt =====
-- The capabilities that open_fabric asks of libfabric.
use libfatbat.Prelude.{ℕ, ◌^◌, ◌<◌, bit_or, ◌≡◌, ap, ◌∙◌, ◌↔◌, ◌⊎◌, inl, inr, List, [], ◌∷◌, arith}
use libfatbat.Bits.{bit, bit-le, bit-bit_and, bit-bit_or, bit_or-lt, bits-zero}
use libfatbat.Flags.Caps.{caps_flags-bit_and}
use libfatbat.Endpoint.{EndpointEnv}
use libfatbat.OpenFabric.{
  Candidate, FabricEnv, Config, Hints, attr_caps, available_caps, second_hints,
}

-- A candidate offers the capability of digit `i`, itself or by one of its attributes.
abbrev pub Offering : ℕ → Candidate → Type 0
Offering i c =
    (bit i c.caps ≡ 1) ⊎ ((bit i (attr_caps c.tx_caps) ≡ 1) ⊎ (bit i (attr_caps c.rx_caps) ≡ 1))

-- Some candidate of the list does.
abbrev pub Offered : ℕ → List Candidate → Type 0
Offered i [] = ⊥
Offered i (c ∷ cs) = Offering i c ⊎ Offered i cs

-- The capabilities are 64-bit words.
abbrev pub AllWords : List Candidate → Type 0
AllWords [] = Unit {0}
AllWords (c ∷ cs) =
    (c.caps < 2 ^ 64)
    × (attr_caps c.tx_caps < 2 ^ 64)
    × (attr_caps c.rx_caps < 2 ^ 64)
    × AllWords cs

abbrev with_candidate : ℕ → Candidate → ℕ
with_candidate acc c =
    bit_or (bit_or (bit_or acc c.caps) (attr_caps c.tx_caps)) (attr_caps c.rx_caps)

with_candidate-bit :
    (i acc : ℕ) (c : Candidate)
    → (bit i (with_candidate acc c) ≡ 1) ↔ ((bit i acc ≡ 1) ⊎ Offering i c)
with_candidate-bit i acc c =
    let e1 = bit-bit_or i acc c.caps in
    let e2 = bit-bit_or i (bit_or acc c.caps) (attr_caps c.tx_caps) in
    let e3 =
      bit-bit_or i (bit_or (bit_or acc c.caps) (attr_caps c.tx_caps)) (attr_caps c.rx_caps) in
    let b0 = bit-le i acc in
    let b1 = bit-le i c.caps in
    let b2 = bit-le i (attr_caps c.tx_caps) in
    let b3 = bit-le i (attr_caps c.rx_caps) in (λ h. ground arith, λ h. ground arith)

available_caps-bit :
    (i acc : ℕ) (cs : List Candidate)
    → (bit i (available_caps acc cs) ≡ 1) ↔ ((bit i acc ≡ 1) ⊎ Offered i cs)
unfolding available_caps
available_caps-bit i acc [] = (λ h. inl h, λ h. elim h [ inl e ↦ e | inr never ↦ absurd never ])
available_caps-bit i acc (c ∷ cs) =
    let here = with_candidate-bit i acc c in
    let rest = available_caps-bit i (with_candidate acc c) cs in
    (
      λ h. elim (rest.0 h) [
        | inl e ↦ elim (here.0 e) [ inl a ↦ inl a | inr a ↦ inr (inl a) ]
        | inr a ↦ inr (inr a)
      ],
      λ h. elim h [
        | inl a ↦ rest.1 (inl (here.1 (inl a)))
        | inr (inl a) ↦ rest.1 (inl (here.1 (inr a)))
        | inr (inr a) ↦ rest.1 (inr a)
      ],
    )

available_caps-lt :
    (acc : ℕ) (cs : List Candidate) → acc < 2 ^ 64 → AllWords cs → available_caps acc cs < 2 ^ 64
unfolding available_caps
available_caps-lt acc [] h words = h
available_caps-lt acc (c ∷ cs) h words =
    available_caps-lt (with_candidate acc c) cs
      (bit_or-lt _ _ (bit_or-lt _ _ (bit_or-lt acc c.caps h words.0) words.1) words.2) words.3

-- The capabilities that are asked for are those that the derived controller requires and that some
-- candidate among the first answers offers, itself or by its transmit or receive attributes: each
-- of the 64 digits of the second hints is set exactly then, where the flags are 64-bit words.
pub second_hints-caps :
    {W : Type 0} (env : EndpointEnv W) (fab : FabricEnv W) (cfg : Config) (threads init i : ℕ)
    (h : Hints)
    → cfg.derived_caps_flags (available_caps 0 (fab.candidates init)) < 2 ^ 64
    → AllWords (fab.candidates init)
    → (bit i (second_hints env fab cfg threads init h).caps ≡ 1) ↔ (
        (bit i (cfg.derived_caps_flags (available_caps 0 (fab.candidates init))) ≡ 1)
        × Offered i (fab.candidates init))
unfolding second_hints
second_hints-caps env fab cfg threads init i h word words =
    let available = available_caps 0 (fab.candidates init) in
    let required = cfg.derived_caps_flags available in
    let offered = available_caps-bit i 0 (fab.candidates init) in
    let none = bits-zero i in
    let both =
      ap (bit i) (
        caps_flags-bit_and cfg.derived_caps_flags available word
          (available_caps-lt 0 (fab.candidates init) (omega arith) words))
      ∙ bit-bit_and i required available in
    let r1 = bit-le i required in
    let a1 = bit-le i available in
    (
      λ e. (
        omega arith,
        elim (offered.0 (omega arith)) [ inl bad ↦ absurd (omega arith) | inr some_one ↦ some_one ],
      ),
      λ p. let a : bit i available ≡ 1 = offered.1 (inr p.1) in omega (arith, p.0),
    )
