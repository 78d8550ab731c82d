-- ===== src/UniqueFunction/Tests.antt =====
-- Functions over a counter that adds its argument and returns the sum.
use libfatbat.Prelude.{ℕ, ◌+◌, ◌≡◌, refl, [], ◌∷◌, map, none, some, ◌==◌, if◌then◌else◌}
use libfatbat.UniqueFunction.{
  Objects, lvalue, rvalue, move_only_rvalue, result, dangling, bad_function_call, construct, empty,
  assign_callable, assign_null, copy_base, call, calls, invoke_all,
}
use libfatbat.UniqueFunction.Calls.{calls-copy_base}

abbrev add : ℕ → ℕ → ℕ × ℕ
add s x = (s + x, s + x)

-- One object, at the address 8.
abbrev at_eight : Objects ℕ
at_eight q = if q == 8 then some 100 else none

abbrev nothing : Objects ℕ
nothing q = none

abbrev gone : ℕ → ℕ
gone s = 0

lvalue_changes : (calls add (construct (lvalue 8)) at_eight (1 ∷ 2 ∷ [])).2 8 ≡ some 103
unfolding calls call construct
lvalue_changes = refl

lvalue_dangles : (call add (construct (lvalue 8)) nothing 1).0 ≡ dangling
unfolding call construct
lvalue_dangles = refl

null_throws :
    (call add (assign_null (assign_callable empty (rvalue 5))) at_eight 1).0 ≡ bad_function_call
unfolding call assign_callable assign_null
null_throws = refl

calls-copy_base_example :
    (calls add (copy_base gone (construct (move_only_rvalue 7))).1 nothing (1 ∷ 2 ∷ [])).0
    ≡ map result (invoke_all add (gone 7) (1 ∷ 2 ∷ [])).0
unfolding construct copy_base
calls-copy_base_example =
    calls-copy_base add gone (construct (move_only_rvalue 7)) nothing (1 ∷ 2 ∷ []) 7 refl refl
