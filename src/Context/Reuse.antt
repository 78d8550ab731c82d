-- ===== src/Context/Reuse.antt =====
-- Who holds a context: the pool, or the program.
use libfatbat.Prelude.{
  ℕ, ◌+◌, ◌≤◌, ◌<◌, ◌≡◌, ◌≢◌, refl, sym, ap, subst, Bool, true, false, Bool-cases, inl, inr, List,
  [], ◌∷◌, ◌++◌, if◌then◌else◌, ◌==◌, ==_iff, arith,
}
use libfatbat.Fabric.{is_null}
use libfatbat.Context.{
  Pool, pool_storage, delete, new_derived, acquire_from, acquire_from_pool, recycle_to_pool,
  delete_all, destroy_pool,
}

unfoldable pub is_at : ℕ → ℕ → ℕ
is_at y x = if y == x then 1 else 0

-- How often a list holds a context.
unfoldable pub occurs : ℕ → List ℕ → ℕ
occurs x [] = 0
occurs x (y ∷ ys) = is_at y x + occurs x ys

is_at_self : (x : ℕ) → is_at x x ≡ 1
unfolding is_at
is_at_self x = ground arith

is_at_cases : (y x : ℕ) → is_at y x ≤ 1
unfolding is_at
is_at_cases y x = ground arith

-- The program holds the contexts `used`: it acquires one more, or recycles one that it holds.
pub data Reaches (new : List ℕ → ℕ) : Pool → List ℕ → Type 0 where
  starts : Reaches new pool_storage []
  acquires :
      (p : Pool) (used : List ℕ)
      → Reaches new p used
      → Reaches new (acquire_from_pool new p).1 ((acquire_from_pool new p).0 ∷ used)
  recycles :
      (pushed : Bool) (r : ℕ) (before after : List ℕ) (p : Pool)
      → Reaches new p (before ++ r ∷ after)
      → Reaches new (recycle_to_pool pushed r p) (before ++ after)

-- The allocator gives an address that is not null and not in use.
pub record Allocates (new : List ℕ → ℕ) : Type 0 where
  pub not_null : (l : List ℕ) → new l ≢ 0
  pub fresh : (l : List ℕ) → occurs (new l) l ≡ 0

record Consistent (p : Pool) (used : List ℕ) : Type 0 where
  counted : (x : ℕ) → occurs x p.allocated ≡ occurs x p.free_list + occurs x used
  once : (x : ℕ) → occurs x p.allocated ≤ 1
  no_null : occurs 0 p.allocated ≡ 0

is_at_other : (y x : ℕ) → (y == x) ≡ false → is_at y x ≡ 0
unfolding is_at
is_at_other y x e = rw e refl

occurs-append : (x y : ℕ) (l r : List ℕ) → occurs x (l ++ y ∷ r) ≡ is_at y x + occurs x (l ++ r)
unfolding occurs
occurs-append x y [] r = refl
occurs-append x y (z ∷ l) r = omega (arith, occurs-append x y l r)

occurs-delete :
    (r : ℕ) (l : List ℕ) → 0 < occurs r l → (x : ℕ) → occurs x (delete r l) + is_at r x ≡ occurs x l
unfolding occurs delete
occurs-delete r [] h x = absurd (omega arith)
occurs-delete r (y ∷ ys) h x = elim (Bool-cases (y == r)) [
  | inl e ↦ let same : y ≡ r = (==_iff _ _).0 e in rw e (omega (arith, ap (λ k. is_at k x) same))
  | inr e ↦
      let other : is_at y r ≡ 0 = is_at_other y r e in
      rw e (omega (arith, occurs-delete r ys (omega (arith, other)) x))
]

not_null : (h : ℕ) → h ≢ 0 → (h == 0) ≡ false
not_null h n = ground arith

new_derived-Consistent :
    (new : List ℕ → ℕ) (a : Allocates new) (p : Pool) (used : List ℕ)
    → Consistent p used
    → Consistent (new_derived new p).1 ((new_derived new p).0 ∷ used)
unfolding new_derived occurs
new_derived-Consistent new a p used c = record {
  counted = λ x. omega (arith, c.counted x);
  once = λ x. elim (Bool-cases (new p.allocated == x)) [
    | inl e ↦
        let same : new p.allocated ≡ x = (==_iff _ _).0 e in
        let none : occurs x p.allocated ≡ 0 =
          subst (λ y. occurs y p.allocated ≡ 0) same (a.fresh p.allocated) in
        omega (arith, is_at_cases (new p.allocated) x)
    | inr e ↦ omega (arith, is_at_other (new p.allocated) x e, c.once x)
  ];
  no_null =
      omega
        (arith, is_at_other (new p.allocated) 0 (not_null _ (a.not_null p.allocated)), c.no_null);
}

acquire_from-Consistent :
    (new : List ℕ → ℕ) (a : Allocates new) (l : List ℕ) (p : Pool) (used : List ℕ)
    → p.free_list ≡ l
    → Consistent p used
    → Consistent (acquire_from new l p).1 ((acquire_from new l p).0 ∷ used)
unfolding acquire_from occurs
acquire_from-Consistent new a [] p used e c = new_derived-Consistent new a p used c
acquire_from-Consistent new a (r ∷ rs) p used e c =
    let split : (x : ℕ) → occurs x p.free_list ≡ is_at r x + occurs x rs = λ x. ap (occurs x) e in
    elim (Bool-cases (is_null r)) [
      | inl z ↦
          let null : r ≡ 0 = (==_iff _ _).0 z in
          let one : is_at r 0 ≡ 1 = subst (λ y. is_at y 0 ≡ 1) (sym null) (is_at_self 0) in
          absurd (omega (arith, c.counted 0, c.no_null, split 0, one))
      | inr z ↦ rw z (record {
        counted = λ x. omega (arith, c.counted x, split x);
        once = c.once;
        no_null = c.no_null;
      })
    ]

recycle_to_pool-Consistent :
    (pushed : Bool) (r : ℕ) (before after : List ℕ) (p : Pool)
    → Consistent p (before ++ r ∷ after)
    → Consistent (recycle_to_pool pushed r p) (before ++ after)
unfolding recycle_to_pool occurs
recycle_to_pool-Consistent true r before after p c = record {
  counted = λ x. omega (arith, c.counted x, occurs-append x r before after);
  once = c.once;
  no_null = c.no_null;
}
recycle_to_pool-Consistent false r before after p c =
    let deleted : (x : ℕ) → occurs x (delete r p.allocated) + is_at r x ≡ occurs x p.allocated =
      occurs-delete r p.allocated
        (omega (arith, c.counted r, occurs-append r r before after, is_at_self r)) in
    record {
      counted = λ x. omega (arith, c.counted x, occurs-append x r before after, deleted x);
      once = λ x. omega (arith, c.once x, deleted x);
      no_null = omega (arith, c.no_null, deleted 0);
    }

Reaches-Consistent :
    (new : List ℕ → ℕ) (a : Allocates new) (p : Pool) (used : List ℕ)
    → Reaches new p used
    → Consistent p used
unfolding occurs acquire_from_pool
Reaches-Consistent new a p used starts = record {
  counted = λ x. refl;
  once = λ x. omega arith;
  no_null = refl;
}
Reaches-Consistent new a _ _ (acquires p used h) =
    acquire_from-Consistent new a p.free_list p used refl (Reaches-Consistent new a p used h)
Reaches-Consistent new a _ _ (recycles pushed r before after p h) =
    recycle_to_pool-Consistent pushed r before after p (Reaches-Consistent new a p _ h)

-- Whatever contexts are acquired and recycled, in any order, and whether or not the stack has
-- memory for them: no context is in use twice, or in use and in the pool at once, and every context
-- that exists is in use or in the pool. So a context is never null, and none is leaked.
pub acquire_recycle_once :
    (new : List ℕ → ℕ) (p : Pool) (used : List ℕ)
    → Allocates new
    → Reaches new p used
    → (x : ℕ)
    → (occurs x p.free_list + occurs x used ≤ 1)
      × (occurs x p.allocated ≡ occurs x p.free_list + occurs x used)
      × (occurs 0 p.free_list + occurs 0 used ≡ 0)
acquire_recycle_once new p used a h x =
    let c = Reaches-Consistent new a p used h in
    (omega (arith, c.counted x, c.once x), c.counted x, omega (arith, c.counted 0, c.no_null))

delete_all-occurs :
    (l allocated : List ℕ) (rest : ℕ → ℕ)
    → ((x : ℕ) → occurs x allocated ≡ rest x + occurs x l)
    → (x : ℕ) → occurs x (delete_all l allocated) ≡ rest x
unfolding delete_all occurs
delete_all-occurs [] allocated rest h x = omega (arith, h x)
delete_all-occurs (r ∷ rs) allocated rest h x =
    delete_all-occurs rs (delete r allocated) rest
      (λ y. omega (arith, h y, occurs-delete r allocated (omega (arith, h r, is_at_self r)) y)) x

-- The destructor of the pool deletes the contexts that are in the pool, each once: what exists
-- afterwards are the contexts that are still in use.
pub destroy_pool-occurs :
    (new : List ℕ → ℕ) (p : Pool) (used : List ℕ)
    → Allocates new
    → Reaches new p used
    → (x : ℕ) → occurs x (destroy_pool p).allocated ≡ occurs x used
unfolding destroy_pool
destroy_pool-occurs new p used a h =
    let c = Reaches-Consistent new a p used h in
    delete_all-occurs p.free_list p.allocated (λ x. occurs x used) (λ x. omega (arith, c.counted x))
