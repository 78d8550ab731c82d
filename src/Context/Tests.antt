-- ===== src/Context/Tests.antt =====
-- Runs of the pool.
use libfatbat.Prelude.{ℕ, suc, ◌+◌, ◌≤◌, ◌<◌, ◌≡◌, refl, true, List, [], ◌∷◌, arith}
use libfatbat.Context.{Pool, acquire_from_pool, recycle_to_pool, pool_storage, destroy_pool}
use libfatbat.Context.Reuse.{
  Reaches, starts, acquires, recycles, Allocates, occurs, is_at, acquire_recycle_once,
  destroy_pool-occurs,
}

abbrev sum : List ℕ → ℕ
sum [] = 0
sum (h ∷ hs) = h + sum hs

abbrev after_all : List ℕ → ℕ
after_all l = suc (sum l)

beyond : (x : ℕ) (l : List ℕ) → sum l < x → occurs x l ≡ 0
unfolding occurs is_at
beyond x [] h = refl
beyond x (y ∷ ys) h = ground (arith, beyond x ys)

after_all-Allocates : Allocates after_all
after_all-Allocates = record {
  not_null = λ l. ground arith;
  fresh = λ l. beyond (after_all l) l (omega arith);
}

-- Two contexts are acquired, and the first is recycled.
abbrev first : Pool
first = (acquire_from_pool after_all pool_storage).1

abbrev second : Pool
second = (acquire_from_pool after_all first).1

abbrev recycled : Pool
recycled = recycle_to_pool true (acquire_from_pool after_all pool_storage).0 second

recycled-Reaches : Reaches after_all recycled ((acquire_from_pool after_all first).0 ∷ [])
recycled-Reaches =
    recycles true (acquire_from_pool after_all pool_storage).0
      ((acquire_from_pool after_all first).0 ∷ []) [] second
      (acquires first _ (acquires pool_storage [] starts))

acquire_recycle_once_example :
    (occurs 1 recycled.free_list + occurs 1 ((acquire_from_pool after_all first).0 ∷ []) ≤ 1)
    × (occurs 1 recycled.allocated
        ≡ occurs 1 recycled.free_list + occurs 1 ((acquire_from_pool after_all first).0 ∷ []))
    × (occurs 0 recycled.free_list + occurs 0 ((acquire_from_pool after_all first).0 ∷ []) ≡ 0)
acquire_recycle_once_example =
    acquire_recycle_once after_all recycled ((acquire_from_pool after_all first).0 ∷ [])
      after_all-Allocates recycled-Reaches 1

destroy_pool-occurs_example :
    occurs 2 (destroy_pool recycled).allocated
    ≡ occurs 2 ((acquire_from_pool after_all first).0 ∷ [])
destroy_pool-occurs_example =
    destroy_pool-occurs after_all recycled ((acquire_from_pool after_all first).0 ∷ [])
      after_all-Allocates recycled-Reaches 2
