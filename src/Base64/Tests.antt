-- ===== src/Base64/Tests.antt =====
-- Runs of base64.hpp on concrete input.
use libfatbat.Prelude.{ℕ, ◌≡◌, refl, List, [], ◌∷◌, ◌++◌, length, All, ◌≤◌, ◌*◌, arith}
use libfatbat.Base64.{codes, base64_encode, base64_decode, continues}
use libfatbat.Base64.RoundTrip.{decode-encode, IsByte}
use libfatbat.Base64.Shape.{length-base64_encode, decode-stops, base64_decode_bounds}

abbrev address : List ℕ
address = 2 ∷ 0 ∷ 31 ∷ 144 ∷ 127 ∷ 0 ∷ 0 ∷ 1 ∷ []

encode_address : base64_encode address ≡ codes "AgAfkH8AAAE="
unfolding base64_encode
encode_address = refl

decode_unpadded : base64_decode (codes "AgAfkH8AAAE") ≡ address
unfolding base64_decode continues
decode_unpadded = refl

decode-encode_example : base64_decode (base64_encode address) ≡ address
decode-encode_example = decode-encode address (omega arith)

length-base64_encode_example : length (base64_encode address) ≡ 12
length-base64_encode_example = length-base64_encode address

decode-stops_example :
    base64_decode (codes "AgAf" ++ b'=' ∷ codes "kH8A") ≡ base64_decode (codes "AgAf")
unfolding continues
decode-stops_example = decode-stops (codes "AgAf") (codes "kH8A") b'=' refl

base64_decode_bounds_example :
    (length (base64_decode (codes "AgAf kH8A")) * 4 ≤ length (codes "AgAf kH8A") * 3)
    × All IsByte (base64_decode (codes "AgAf kH8A"))
base64_decode_bounds_example = base64_decode_bounds (codes "AgAf kH8A")
