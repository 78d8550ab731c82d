-- ===== src/Log/Dump.antt =====
-- `mem_crc32` of include/libfatbat/logging.hpp and its formatter, which prints the start of a
-- buffer in words of 64 bits, on a machine that stores their lowest byte first. A buffer is the
-- list of its bytes, and a read that goes past its end is `none`. The checksum is boost's.
pub mod Bytes
use libfatbat.Prelude.{
  ℕ, zero, suc, ◌+◌, ◌-◌, ◌*◌, ◌/◌, ◌%◌, ◌^◌, min, List, [], ◌∷◌, Option, none, some, ◌==◌, ltb,
  if◌then◌else◌, length, take, drop,
}

-- What one `fmt::format_to` writes: the line with the address, the length and the checksum, a word,
-- or the end of a line.
pub data Printed : Type 0 where
  header : ℕ → ℕ → ℕ → Printed
  word : ℕ → Printed
  newline : Printed

-- `len` and `wrap` are `size_t`.
pub record MemCrc32 : Type 0 where
  pub addr : ℕ
  pub len : ℕ
  pub wrap : ℕ

-- The constructor: at least one word to a line.
unfoldable pub mem_crc32 : ℕ → ℕ → ℕ → MemCrc32
mem_crc32 a len wrap = record { addr = a; len = len; wrap = if ltb wrap 1 then 1 else wrap }

-- `n` bytes from the place `offset` on.
pub read_bytes : List ℕ → ℕ → ℕ → Option (List ℕ)
read_bytes buffer offset n =
    let part = take n (drop offset buffer) in if length part == n then some part else none

-- `std::memcpy(&chunk, ...)` into a word that is 0.
unfoldable pub little_endian : List ℕ → ℕ
little_endian [] = 0
little_endian (b ∷ bs) = b + 256 * little_endian bs

-- One round of the loop, before the rest of what is printed.
pub print_chunk : ℕ → ℕ → List ℕ → Option (List Printed) → Option (List Printed)
print_chunk wrap i part none = none
print_chunk wrap i part (some rest) =
    some (word (little_endian part) ∷ (if i % wrap == wrap - 1 then newline ∷ rest else rest))

-- The rounds from `i` on, of which there are as many as the first argument says. The difference is
-- one of `size_t`.
pub print_chunks : ℕ → ℕ → MemCrc32 → List ℕ → Option (List Printed)
unfolding read_bytes print_chunk
print_chunks zero i value buffer = some []
print_chunks (suc rounds) i value buffer =
    let offset = i * 8 in
    let bytes = min ((value.len + 2 ^ 64 - offset) % 2 ^ 64) 8 in
    let rest = print_chunks rounds (i + 1) value buffer in
    elim (read_bytes buffer offset bytes) [
      | none ↦ none
      | some part ↦ print_chunk value.wrap i part rest
    ]

abbrev pub num_chunks : ℕ → ℕ
num_chunks len = min ((len + 7) % 2 ^ 64 / 8) 128

-- The first line, which reads the whole buffer for the checksum, before the chunks.
pub print_header :
    (List ℕ → ℕ) → MemCrc32 → Option (List ℕ) → Option (List Printed) → Option (List Printed)
print_header crc32 value none chunks = none
print_header crc32 value (some all) none = none
print_header crc32 value (some all) (some chunks) =
    some (header value.addr value.len (crc32 all) ∷ chunks)

-- `format`, where `crc32` is the checksum of a list of bytes.
unfoldable pub format : (List ℕ → ℕ) → MemCrc32 → List ℕ → Option (List Printed)
unfolding print_header print_chunks
format crc32 value buffer =
    print_header crc32 value (read_bytes buffer 0 value.len)
      (print_chunks (num_chunks value.len) 0 value buffer)
