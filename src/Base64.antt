-- ===== src/Base64.antt =====
-- include/libfatbat/util/base64.hpp: the text form in which an endpoint's address travels
-- through the process manager's key/value store. A `std::string` and a `std::vector<unsigned char>`
-- are lists of bytes. The cells of `char_array_3` and `char_array_4` below the index `i` are the
-- list `filled`, whose length is `i`: no other cell is read before it is written again.
pub mod Masks
pub mod Alphabet
pub mod RoundTrip
pub mod Shape
mod Tests
use libfatbat.Prelude.{
  ℕ, zero, suc, ◌+◌, ◌-◌, ◌*◌, ◌/◌, ◌%◌, ◌^◌, ◌<◌, bit_and, Bool, true, false, not, ◌&&◌, ◌||◌,
  List, [], ◌∷◌, ◌++◌, leb, ltb, ◌==◌, if◌then◌else◌, length, get_or,
}
use Prim.Native.Char.{code}
use Prim.Native.String.{String}

-- A text literal as the list of its bytes.
abbrev pub codes : String → List ℕ
codes String.[] = []
codes (String.◌∷◌ c s) = code c ∷ codes s

pub base64_chars : List ℕ
base64_chars = codes "ABCDEFGHIJKLMNOPQRSTUVWXYZabcdefghijklmnopqrstuvwxyz0123456789+/"

-- `std::string::npos`.
abbrev pub npos : ℕ
npos = 2 ^ 64 - 1

-- `std::string::find` of one character: the first position at or after `pos`.
find_from : ℕ → List ℕ → ℕ → ℕ
find_from pos [] c = npos
find_from pos (x ∷ xs) c = if x == c then pos else find_from (pos + 1) xs c

-- `char_array_4[i] = base64_chars.find(c)`, whose result is cut to an `unsigned char`.
pub char_index : ℕ → ℕ
unfolding find_from base64_chars
char_index c = find_from 0 base64_chars c % 256

-- `base64_chars[k]`.
pub char_at : ℕ → ℕ
unfolding base64_chars
char_at k = get_or base64_chars k 0

-- `char_array_4[0]` to `char_array_4[3]` of the encoder, from the three bytes.
abbrev pub sextet0 : ℕ → ℕ
sextet0 a = bit_and a 0xfc / 4

abbrev pub sextet1 : ℕ → ℕ → ℕ
sextet1 a b = (bit_and a 0x03 * 16 + bit_and b 0xf0 / 16) % 256

abbrev pub sextet2 : ℕ → ℕ → ℕ
sextet2 b c = (bit_and b 0x0f * 4 + bit_and c 0xc0 / 64) % 256

abbrev pub sextet3 : ℕ → ℕ
sextet3 c = bit_and c 0x3f

-- The four characters of a full group.
pub encode_group : ℕ → ℕ → ℕ → List ℕ
unfolding char_at
encode_group a b c =
    char_at (sextet0 a) ∷ char_at (sextet1 a b) ∷ char_at (sextet2 b c) ∷ char_at (sextet3 c) ∷ []

-- What follows the loop: the rest of `char_array_3` is zeroed, `i + 1` characters are written and
-- then one `=` for each missing byte.
pub encode_tail : List ℕ → List ℕ
unfolding char_at
encode_tail [] = []
encode_tail (a ∷ []) = char_at (sextet0 a) ∷ char_at (sextet1 a 0) ∷ b'=' ∷ b'=' ∷ []
encode_tail (a ∷ b ∷ rest) =
    char_at (sextet0 a) ∷ char_at (sextet1 a b) ∷ char_at (sextet2 b 0) ∷ b'=' ∷ []

-- One round of the encoder's loop: `char_array_3[i++] = byte`, and a group when `i == 3`.
pub encode_byte : List ℕ → List ℕ → ℕ → List ℕ × List ℕ
unfolding encode_group
encode_byte (a ∷ b ∷ []) ret c = ([], ret ++ encode_group a b c)
encode_byte filled ret c = (filled ++ (c ∷ []), ret)

pub encode_loop : List ℕ → List ℕ → List ℕ → List ℕ
unfolding encode_byte encode_tail
encode_loop [] filled ret = ret ++ encode_tail filled
encode_loop (c ∷ bytes) filled ret =
    let (filled', ret') = encode_byte filled ret c in encode_loop bytes filled' ret'

-- `base64_encode(bytes_to_encode, in_len)`: the list is the `in_len` bytes.
pub base64_encode : List ℕ → List ℕ
unfolding encode_loop
base64_encode bytes = encode_loop bytes [] []

-- `isalnum` in the "C" locale.
isalnum : ℕ → Bool
isalnum c = (leb b'0' c && leb c b'9') || (leb b'A' c && leb c b'Z') || (leb b'a' c && leb c b'z')

-- The decoder's loop goes on while this holds of the next character.
pub continues : ℕ → Bool
unfolding isalnum
continues c = not (c == b'=') && (isalnum c || (c == b'+') || (c == b'/'))

-- `char_array_3[0]` to `char_array_3[2]` of the decoder, from the four indices.
abbrev pub octet0 : ℕ → ℕ → ℕ
octet0 p q = (p * 4 + bit_and q 0x30 / 16) % 256

abbrev pub octet1 : ℕ → ℕ → ℕ
octet1 q r = (bit_and q 0x0f * 16 + bit_and r 0x3c / 4) % 256

abbrev pub octet2 : ℕ → ℕ → ℕ
octet2 r s = (bit_and r 0x03 * 64 + s) % 256

pub decode_group : ℕ → ℕ → ℕ → ℕ → List ℕ
unfolding char_index
decode_group w x y z =
    octet0 (char_index w) (char_index x)
    ∷ octet1 (char_index x) (char_index y)
    ∷ octet2 (char_index y) (char_index z)
    ∷ []

-- What follows the loop: `i - 1` bytes of the group whose missing characters are `'\0'`.
pub decode_tail : List ℕ → List ℕ
unfolding char_index
decode_tail [] = []
decode_tail (w ∷ []) = []
decode_tail (w ∷ x ∷ []) = octet0 (char_index w) (char_index x) ∷ []
decode_tail (w ∷ x ∷ y ∷ rest) =
    octet0 (char_index w) (char_index x) ∷ octet1 (char_index x) (char_index y) ∷ []

-- One round of the decoder's loop: `char_array_4[i++] = c`, and a group when `i == 4`.
pub decode_char : List ℕ → List ℕ → ℕ → List ℕ × List ℕ
unfolding decode_group
decode_char (w ∷ x ∷ y ∷ []) ret z = ([], ret ++ decode_group w x y z)
decode_char filled ret c = (filled ++ (c ∷ []), ret)

pub decode_loop : List ℕ → List ℕ → List ℕ → List ℕ
unfolding decode_char decode_tail continues
decode_loop [] filled ret = ret ++ decode_tail filled
decode_loop (c ∷ text) filled ret =
    let (filled', ret') = decode_char filled ret c in
    let rest = decode_loop text filled' ret' in
    if continues c then rest else ret ++ decode_tail filled

pub base64_decode : List ℕ → List ℕ
unfolding decode_loop
base64_decode text = decode_loop text [] []
