-- ===== src/Counter/Laws.antt =====
-- How the operators of simple_counter.hpp relate to one another.
use libfatbat.Prelude.{ℕ, zero, suc, ◌<◌, u32_mod, ◌≡◌, refl, ◌∙◌, ◌≢◌, arith}
use libfatbat.Counter.{
  Counter, enabled, disabled, value, IsCount, add_assign, sub_assign, pre_increment, post_increment,
  pre_decrement, post_decrement, advance,
}

sub_assign-add_assign :
    (c : Counter) (n : ℕ)
    → IsCount c
    → (sub_assign (add_assign c n).1 n ≡ (value c, c))
      × ((add_assign c n).0 ≡ value (add_assign c n).1)
unfolding add_assign sub_assign
sub_assign-add_assign (enabled v) n h = ground arith
sub_assign-add_assign disabled n h = (refl, refl)

pre_decrement-pre_increment :
    (c : Counter)
    → IsCount c
    → ((pre_decrement (pre_increment c).1).1 ≡ c) × (post_increment c ≡ pre_increment c)
unfolding pre_increment post_increment pre_decrement
pre_decrement-pre_increment (enabled v) h = ground arith
pre_decrement-pre_increment disabled h = (refl, refl)

-- Subtracting what was added gives the counter back, wrap-around included, and each of the two
-- expressions has the value that the counter is left with; `--c` undoes `++c`, and `c++` is `++c`:
-- the counter is the same after it, and so is the value of the expression, which is the new value.
pub decrements-increments :
    (c : Counter) (n : ℕ)
    → IsCount c
    → (sub_assign (add_assign c n).1 n ≡ (value c, c))
      × ((add_assign c n).0 ≡ value (add_assign c n).1)
      × ((pre_decrement (pre_increment c).1).1 ≡ c)
      × (post_increment c ≡ pre_increment c)
decrements-increments c n h =
    let (added, valued) = sub_assign-add_assign c n h in
    let (undone, same) = pre_decrement-pre_increment c h in (added, valued, undone, same)

-- `c--` leaves a counter as it was, whatever its value, while `--c` always changes it.
pub post_decrement_keeps :
    (v : ℕ)
    → v < u32_mod
    → ((post_decrement (enabled v)).1 ≡ enabled v) × ((pre_decrement (enabled v)).1 ≢ enabled v)
unfolding post_decrement pre_decrement
post_decrement_keeps v h = ground arith

pre_increment-IsCount : (c : Counter) → IsCount c → IsCount (pre_increment c).1
unfolding pre_increment
pre_increment-IsCount (enabled v) h = omega arith
pre_increment-IsCount disabled h = omega arith

add_assign-suc :
    (c : Counter) (n : ℕ) → (add_assign (pre_increment c).1 n).1 ≡ (add_assign c (suc n)).1
unfolding pre_increment add_assign
add_assign-suc (enabled v) n = ground arith
add_assign-suc disabled n = refl

add_assign_zero : (c : Counter) → IsCount c → c ≡ (add_assign c 0).1
unfolding add_assign
add_assign_zero (enabled v) h = ground arith
add_assign_zero disabled h = refl

-- `n` times `++c` is `c += n`.
advance-add_assign : (c : Counter) (n : ℕ) → IsCount c → advance c n ≡ (add_assign c n).1
advance-add_assign c zero h = add_assign_zero c h
advance-add_assign c (suc n) h =
    advance-add_assign (pre_increment c).1 n (pre_increment-IsCount c h) ∙ add_assign-suc c n
