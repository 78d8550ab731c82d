-- ===== src/Settings/Numbers.antt =====
-- Settings that are numbers.
use libfatbat.Prelude.{ℕ, ◌≡◌, false, some, List, ◌∷◌, ◌==◌, pos}
use libfatbat.Settings.{is_digit, is_space, atoi, libfabric_completions_per_poll}

-- A poll size that does not begin like a number, as `many` or `"8"` with its quotes, is 0, and not
-- the default of 4.
pub completions_per_poll_text :
    (c : ℕ) (cs : List ℕ)
    → is_digit c ≡ false
    → is_space c ≡ false
    → (c == b'-') ≡ false
    → (c == b'+') ≡ false
    → libfabric_completions_per_poll (some (c ∷ cs)) ≡ pos 0
unfolding libfabric_completions_per_poll atoi
completions_per_poll_text c cs hd hs hm hp = rw (hs, hm, hp, hd)
