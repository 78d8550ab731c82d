-- ===== src/Flags/Tests.antt =====
-- Runs of the capability flags.
use libfatbat.Prelude.{ℕ, ◌≡◌, bit_and, arith}
use libfatbat.Flags.{caps_flags}
use libfatbat.Flags.Caps.{caps_flags-bit_and}

abbrev available : ℕ
available = 0xb0e

-- FI_MSG, FI_RMA, FI_TAGGED, FI_HMEM are required, and the last is not available.
abbrev required : ℕ
required = 0x4000000e

caps_flags-bit_and_example : caps_flags (λ a. required) available ≡ bit_and required available
caps_flags-bit_and_example =
    caps_flags-bit_and (λ a. required) available (omega arith) (omega arith)
