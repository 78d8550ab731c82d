-- ===== src/Counter.antt =====
-- include/libfatbat/simple_counter.hpp: `simple_counter<T, enabled>`, at T = uint32_t, the only
-- instance of the library. A counter that is compiled out has no state.
pub mod Laws
mod Tests
use libfatbat.Prelude.{ℕ, zero, suc, ◌+◌, ◌-◌, ◌%◌, ◌<◌, u32_mod}

pub data Counter : Type 0 where
  enabled : ℕ → Counter
  disabled : Counter

-- `simple_counter(T const& init)`, by the template's flag.
pub init : Counter → ℕ → Counter
init (enabled _) x = enabled (x % u32_mod)
init disabled x = disabled

-- `operator T()`.
abbrev pub value : Counter → ℕ
value (enabled v) = v
value disabled = 0

-- Each operator returns the value of its expression and the counter after it.
pub assign : Counter → ℕ → ℕ × Counter
assign (enabled v) x = (x % u32_mod, enabled (x % u32_mod))
assign disabled x = (0, disabled)

pub add_assign : Counter → ℕ → ℕ × Counter
add_assign (enabled v) rhs = ((v + rhs) % u32_mod, enabled ((v + rhs) % u32_mod))
add_assign disabled rhs = (0, disabled)

pub sub_assign : Counter → ℕ → ℕ × Counter
sub_assign (enabled v) rhs = let v' = (v + (u32_mod - rhs % u32_mod)) % u32_mod in (v', enabled v')
sub_assign disabled rhs = (0, disabled)

-- `++c`.
unfoldable pub pre_increment : Counter → ℕ × Counter
pre_increment (enabled v) = ((v + 1) % u32_mod, enabled ((v + 1) % u32_mod))
pre_increment disabled = (0, disabled)

-- `c++`: `value_++; return value_;`
pub post_increment : Counter → ℕ × Counter
post_increment (enabled v) = ((v + 1) % u32_mod, enabled ((v + 1) % u32_mod))
post_increment disabled = (0, disabled)

-- `--c`.
pub pre_decrement : Counter → ℕ × Counter
pre_decrement (enabled v) = let v' = (v + (u32_mod - 1)) % u32_mod in (v', enabled v')
pre_decrement disabled = (0, disabled)

-- `c--`: `operator--(int x) { return (value_ -= x); }`, where the language passes 0 for `x`.
pub post_decrement : Counter → ℕ × Counter
unfolding sub_assign
post_decrement c = sub_assign c 0

-- The value of a counter is a uint32_t.
abbrev pub IsCount : Counter → Type 0
IsCount c = value c < u32_mod

-- `n` increments.
abbrev pub advance : Counter → ℕ → Counter
advance c zero = c
advance c (suc n) = advance (pre_increment c).1 n
