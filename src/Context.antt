-- ===== src/Context.antt =====
-- The pool of operation contexts in include/libfatbat/operation_context_base.hpp. A context is the
-- number of its address. The lock-free stack is a list with its top first: one operation of it
-- takes effect at a time, and a thread's calls stand between those of others in any order.
pub mod Reuse
mod Tests
use libfatbat.Prelude.{ℕ, List, [], ◌∷◌, Bool, true, false, if◌then◌else◌, ◌==◌}
use libfatbat.Fabric.{is_null}

-- The free list of pool(), and the contexts that exist.
pub record Pool : Type 0 where
  pub free_list : List ℕ
  pub allocated : List ℕ

-- pool_storage(), which reserves memory for 1024 elements, and puts none there.
abbrev pub pool_storage : Pool
pool_storage = record { free_list = []; allocated = [] }

-- `delete ctx`.
unfoldable pub delete : ℕ → List ℕ → List ℕ
delete r [] = []
delete r (x ∷ xs) = let rest = delete r xs in if x == r then xs else x ∷ rest

-- `new Derived()`, where `new` is the address that the allocator gives while `allocated` exist.
unfoldable pub new_derived : (List ℕ → ℕ) → Pool → ℕ × Pool
new_derived new p = (new p.allocated, record p { allocated = new p.allocated ∷ p.allocated })

-- acquire_from_pool: `free_list_.pop(request)`, and a new one where that gave none.
unfoldable pub acquire_from : (List ℕ → ℕ) → List ℕ → Pool → ℕ × Pool
unfolding new_derived
acquire_from new [] p = new_derived new p
acquire_from new (r ∷ rs) p =
    if is_null r
    then new_derived new (record p { free_list = rs })
    else (r, record p { free_list = rs })

unfoldable pub acquire_from_pool : (List ℕ → ℕ) → Pool → ℕ × Pool
unfolding acquire_from
acquire_from_pool new p = acquire_from new p.free_list p

-- recycle_to_pool, where `pushed` says whether the stack had memory for one more.
unfoldable pub recycle_to_pool : Bool → ℕ → Pool → Pool
unfolding delete
recycle_to_pool true r p = record p { free_list = r ∷ p.free_list }
recycle_to_pool false r p = record p { allocated = delete r p.allocated }

-- ~pool_storage.
unfoldable pub delete_all : List ℕ → List ℕ → List ℕ
unfolding delete
delete_all [] allocated = allocated
delete_all (r ∷ rs) allocated = delete_all rs (delete r allocated)

unfoldable pub destroy_pool : Pool → Pool
unfolding delete_all
destroy_pool p = record { free_list = []; allocated = delete_all p.free_list p.allocated }
