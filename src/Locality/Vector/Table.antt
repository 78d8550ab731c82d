-- ===== src/Locality/Vector/Table.antt =====
-- An address vector that is a table: the entries are numbered in the order of insertion, which is
-- what a vector of the type FI_AV_TABLE does.
use libfatbat.Prelude.{
  ℕ, zero, suc, ◌+◌, ◌≤◌, ◌<◌, List, [], ◌∷◌, ◌++◌, length, length-append, true, false, leb, ◌==◌,
  pos, negsuc, ◌≡◌, ◌≢◌, refl, sym, ap, ◌∙◌, ◌⊎◌, inl, inr, Bool-cases, ==_iff, arith, subst,
}
use mathlib.Core.List.{append-nil, append_assoc}
use libfatbat.Outcome.{returns, terminates, throw_fabric_error}
use libfatbat.Action.{Action, ◌>>=◌, pure, after}
use libfatbat.Action.Runs.{Runs, Runs-returns, Runs-after, Runs-mono}
use libfatbat.Locality.{Locality, with_address, default_locality}
use libfatbat.Locality.Vector.{AddressEnv, insert_address, print_av_entries, debug_print_av_vector}

-- `entries` are the addresses in the table.
pub record Tabled {W : Type 0} (env : AddressEnv W) (size : ℕ) (entries : W → List (List ℕ))
    : Type 0 where
  pub inserts :
      (av index : ℕ) (bytes : List ℕ) (w : W)
      → ((env.fi_av_insert av bytes index w).0.0 ≡ pos 1)
        × ((env.fi_av_insert av bytes index w).0.1 ≡ length (entries w))
        × (entries (env.fi_av_insert av bytes index w).1 ≡ entries w ++ bytes ∷ [])
  pub finds :
      (av i addrlen : ℕ) (w : W)
      → i < length (entries w)
      → size ≤ addrlen
      → ((env.fi_av_lookup av i addrlen w).0.0 ≡ pos 0)
        × ((env.fi_av_lookup av i addrlen w).0.2 ≡ size)
        × (entries (env.fi_av_lookup av i addrlen w).1 ≡ entries w)

-- The addresses of the ranks are inserted one after the other.
unfoldable pub insert_all :
    {W : Type 0} → AddressEnv W → ℕ → ℕ → ℕ → List Locality → Action W (List Locality)
unfolding insert_address
insert_all env size num_ranks av [] = pure []
insert_all env size num_ranks av (a ∷ rest) = do
  l ← insert_address env size num_ranks av a
  ls ← insert_all env size num_ranks av rest
  pure (l ∷ ls)

-- The indices of the addresses go up by one, from `i` on.
abbrev pub InOrder : ℕ → List Locality → Type 0
InOrder i [] = Unit {0}
InOrder i (a ∷ rest) = (a.fi_address ≡ i) × InOrder (suc i) rest

abbrev pub bytes_of : List Locality → List (List ℕ)
bytes_of [] = []
bytes_of (a ∷ rest) = a.fabric_data ∷ bytes_of rest

length-bytes_of : (l : List Locality) → length (bytes_of l) ≡ length l
length-bytes_of [] = refl
length-bytes_of (a ∷ rest) = omega (arith, length-bytes_of rest)

abbrev pub in_vector : ℕ → List Locality → List Locality
in_vector av [] = []
in_vector av (a ∷ rest) = record a { av = av } ∷ in_vector av rest

module _ {W : Type 0} (env : AddressEnv W) (size : ℕ) (entries : W → List (List ℕ))
    (d : Tabled env size entries) where
  -- Into a table, an address whose index is below the number of ranks is inserted exactly if its
  -- index is the number of the entries before: then the locality is as it was, in the vector, and
  -- the table has its bytes as its last entry. Any other index ends the program.
  pub insert_address-Tabled :
      (num_ranks av : ℕ) (address : Locality) (w : W)
      → address.fi_address < num_ranks
      → ((address.fi_address ≡ length (entries w))
          × Runs
              (λ l w'.
                (l ≡ record address { av = av })
                × (entries w' ≡ entries w ++ address.fabric_data ∷ []))
              (insert_address env size num_ranks av address w))
        ⊎ ((address.fi_address ≢ length (entries w))
            × (insert_address env size num_ranks av address w ≡ terminates (negsuc 0)))
  unfolding insert_address with_address after throw_fabric_error
  insert_address-Tabled num_ranks av address w small =
      let (one, index, grown) = d.inserts av address.fi_address address.fabric_data w in
      let in_range : leb num_ranks address.fi_address ≡ false = ground arith in
      elim (Bool-cases (address.fi_address == length (entries w))) [
        | inl e ↦
            let same : address.fi_address ≡ length (entries w) = (==_iff _ _).0 e in
            inl (same, rw (in_range, one, index, e) (Runs-returns _ _ _ (rw same refl, grown)))
        | inr e ↦ inr (λ same. ground arith, rw (in_range, one, index, e) refl)
      ]

  -- Where the addresses of all ranks are inserted in the order of their indices.
  insert_all-Runs :
      (num_ranks av : ℕ) (addresses : List Locality) (w : W)
      → InOrder (length (entries w)) addresses
      → length (entries w) + length addresses ≤ num_ranks
      → Runs
          (λ ls w'. (ls ≡ in_vector av addresses) × (entries w' ≡ entries w ++ bytes_of addresses))
          (insert_all env size num_ranks av addresses w)
  unfolding insert_all
  insert_all-Runs num_ranks av [] w order room =
      Runs-returns _ _ _ (refl, sym (append-nil (entries w)))
  insert_all-Runs num_ranks av (a ∷ rest) w order room =
      elim (insert_address-Tabled num_ranks av a w (omega (arith, order.0))) [
        | inl p ↦ Runs-after _ _ _ _ p.1 λ l w1 q.
            let len : length (entries w1) ≡ suc (length (entries w)) =
              ap length q.1 ∙ (length-append (entries w) (a.fabric_data ∷ []) ∙ omega arith) in
            Runs-after _ _ _ _
              (insert_all-Runs num_ranks av rest w1 (subst (λ n. InOrder n rest) (sym len) order.1)
                (omega (arith, len)))
              λ ls w2 r. Runs-returns _ _ _ (
                cc,
                r.1
                    ∙ (ap (λ t. t ++ bytes_of rest) q.1
                        ∙ append_assoc (entries w) (a.fabric_data ∷ []) (bytes_of rest)),
              )
        | inr p ↦ absurd (p.0 order.0)
      ]

  print_av_entries-Runs :
      (av left i addrlen : ℕ) (addr : Locality) (w : W)
      → i + left ≤ length (entries w)
      → size ≤ addrlen
      → Runs (λ u w'. entries w' ≡ entries w) (print_av_entries env size av left i addrlen addr w)
  unfolding print_av_entries after
  print_av_entries-Runs av zero i addrlen addr w room len = Runs-returns _ tt w refl
  print_av_entries-Runs av (suc left) i addrlen addr w room len =
      let (found, got, kept) = d.finds av i addrlen w (omega arith) len in
      let small : leb size size ≡ true = ground arith in
      let w' = (env.fi_av_lookup av i addrlen w).1 in
      rw (found, got, small)
        (Runs-mono _ _ _
          (print_av_entries-Runs av left (suc i) size _ w' (omega (arith, ap length kept))
            (omega arith))
          (λ u w2 k. k ∙ kept))

  -- A table of the ranks' addresses: where they are inserted into an empty table in the order of
  -- their indices, from 0 on, and there are no more of them than ranks, every insertion returns
  -- its address, now in the vector; the table holds their bytes in that order; and
  -- debug_print_av_vector over as many entries returns, and leaves the table as it is.
  pub insert_all-debug_print_av_vector :
      (num_ranks av : ℕ) (addresses : List Locality) (w : W)
      → entries w ≡ []
      → InOrder 0 addresses
      → length addresses ≤ num_ranks
      → (full printed : W) × (insert_all env size num_ranks av addresses w
          ≡ returns (in_vector av addresses, full))
        × (entries full ≡ bytes_of addresses)
        × (debug_print_av_vector env size av (length addresses) full ≡ returns (tt, printed))
        × (entries printed ≡ bytes_of addresses)
  unfolding debug_print_av_vector
  insert_all-debug_print_av_vector num_ranks av addresses w empty order room =
      let none : length (entries w) ≡ 0 = ap length empty in
      let r =
        insert_all-Runs num_ranks av addresses w (subst (λ n. InOrder n addresses) (sym none) order)
          (omega (arith, none)) in
      let held : entries r.final ≡ bytes_of addresses =
        r.post.1 ∙ ap (λ t. t ++ bytes_of addresses) empty in
      let p =
        print_av_entries-Runs av (length addresses) 0 size (default_locality size) r.final
          (omega (arith, ap length held, length-bytes_of addresses)) (omega arith) in
      (
        r.final,
        p.final,
        r.ran ∙ ap (λ ls. returns (ls, r.final)) r.post.0,
        held,
        p.ran,
        p.post ∙ held,
      )
