-- ===== src/Counter/Tests.antt =====
-- The laws of the counters at concrete values.
use libfatbat.Prelude.{◌≡◌, ◌≢◌, arith}
use libfatbat.Counter.{Counter, enabled, pre_decrement, post_decrement}
use libfatbat.Counter.Laws.{post_decrement_keeps}

abbrev top : Counter
top = enabled 0xffff_ffff

post_decrement_keeps_example :
    ((post_decrement (enabled 7)).1 ≡ enabled 7) × ((pre_decrement (enabled 7)).1 ≢ enabled 7)
post_decrement_keeps_example = post_decrement_keeps 7 (omega arith)
