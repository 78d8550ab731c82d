-- ===== src/Log/Dump/Bytes.antt =====
-- The words that are printed of a buffer are its bytes.
use mathlib.Core.Option
use libfatbat.Prelude.{
  ℕ, zero, suc, ◌+◌, ◌-◌, ◌*◌, ◌/◌, ◌%◌, ◌^◌, ◌≤◌, ◌<◌, min, ◌≡◌, refl, sym, ap, ◌∙◌, List, [], ◌∷◌,
  ◌++◌, Option, none, some, All, ◌==◌, if◌then◌else◌, length, take, drop, arith, ==_iff,
}
use libfatbat.Prelude.Slices.{
  length-take, length-drop, drop-nil, drop-drop, take-eq, All-take, All-drop,
}
use libfatbat.Log.Dump.{
  Printed, header, word, newline, MemCrc32, read_bytes, little_endian, print_chunk, print_chunks,
  num_chunks, print_header, format,
}

-- The lowest `k` bytes of a number, and the bytes of the words that were printed.
unfoldable pub bytes_of : ℕ → ℕ → List ℕ
bytes_of zero n = []
bytes_of (suc k) n = (n % 256) ∷ bytes_of k (n / 256)

abbrev pub unpack : List Printed → List ℕ
unpack [] = []
unpack (header a l c ∷ out) = unpack out
unpack (word n ∷ out) = bytes_of 8 n ++ unpack out
unpack (newline ∷ out) = unpack out

-- The first `k` bytes of a list, with zeros after its end.
abbrev pub padded : ℕ → List ℕ → List ℕ
padded zero xs = []
padded (suc k) [] = 0 ∷ padded k []
padded (suc k) (x ∷ xs) = x ∷ padded k xs

abbrev pub IsByte : ℕ → Type 0
IsByte b = b < 256

bytes_of-zero : (k : ℕ) → bytes_of k 0 ≡ padded k []
unfolding bytes_of
bytes_of-zero zero = refl
bytes_of-zero (suc k) = ap (λ t. 0 ∷ t) (bytes_of-zero k)

-- A word has the bytes that it was read from, and zeros above them.
bytes_of-little_endian :
    (k : ℕ) (xs : List ℕ) → All IsByte xs → bytes_of k (little_endian xs) ≡ padded k xs
unfolding bytes_of little_endian
bytes_of-little_endian k [] small = bytes_of-zero k
bytes_of-little_endian zero (x ∷ xs) small = refl
bytes_of-little_endian (suc k) (x ∷ xs) small =
    let low : (x + 256 * little_endian xs) % 256 ≡ x = omega arith in
    let high : (x + 256 * little_endian xs) / 256 ≡ little_endian xs = omega arith in
    rw (low, high) (ap (λ t. x ∷ t) (bytes_of-little_endian k xs small.1))

padded-take : (k : ℕ) (xs : List ℕ) → padded k (take k xs) ≡ padded k xs
padded-take zero xs = refl
padded-take (suc k) [] = refl
padded-take (suc k) (x ∷ xs) = ap (λ t. x ∷ t) (padded-take k xs)

padded-add :
    (m n k : ℕ) (xs : List ℕ) → m + n ≡ k → padded m xs ++ padded n (drop m xs) ≡ padded k xs
padded-add zero n k xs e = ap (λ t. padded t xs) (omega arith)
padded-add (suc m) n zero xs e = absurd (omega arith)
padded-add (suc m) n (suc k) [] e =
    let rest = padded-add m n k [] (omega arith) in
    ap (λ t. 0 ∷ t) (ap (λ t. padded m [] ++ padded n t) (sym (drop-nil m)) ∙ rest)
padded-add (suc m) n (suc k) (x ∷ xs) e = ap (λ t. x ∷ t) (padded-add m n k xs (omega arith))

print_chunk-unpack :
    (wrap i : ℕ) (part : List ℕ) (rest : Option (List Printed)) (first last all : List ℕ)
    → Option.map unpack rest ≡ some last
    → bytes_of 8 (little_endian part) ≡ first
    → first ++ last ≡ all
    → Option.map unpack (print_chunk wrap i part rest) ≡ some all
unfolding print_chunk
print_chunk-unpack wrap i part none first last all h e f = cc
print_chunk-unpack wrap i part (some rest) first last all h e f =
    let out : unpack (if i % wrap == wrap - 1 then newline ∷ rest else rest) ≡ unpack rest =
      ground arith in
    let tail : unpack rest ≡ last = cc h in ap some (rw (out, tail, e) f)

module _ (value : MemCrc32) (buffer : List ℕ) (whole : length buffer ≡ value.len)
    (small : value.len < 2 ^ 64) (bytes : All IsByte buffer) where
  -- What a round reads: up to eight bytes, and not beyond the end of the buffer.
  read_bytes-round :
      (i : ℕ)
      → i * 8 < value.len
      → read_bytes buffer (i * 8) (min ((value.len + 2 ^ 64 - i * 8) % 2 ^ 64) 8)
        ≡ some (take 8 (drop (i * 8) buffer))
  unfolding read_bytes
  read_bytes-round i h =
      let n = min ((value.len + 2 ^ 64 - i * 8) % 2 ^ 64) 8 in
      let rest = drop (i * 8) buffer in
      let left : length rest ≡ value.len - i * 8 = length-drop (i * 8) buffer ∙ omega arith in
      let same : take n rest ≡ take 8 rest = take-eq n 8 rest (omega arith) in
      let full : length (take n rest) ≡ n = length-take n rest ∙ omega arith in
      rw ((==_iff _ _).1 full) (ap some same)

  print_chunks-suc :
      (rounds i : ℕ)
      → i * 8 < value.len
      → print_chunks (suc rounds) i value buffer
        ≡ print_chunk value.wrap i
            (take 8 (drop (i * 8) buffer))
            (print_chunks rounds (i + 1) value buffer)
  unfolding print_chunks
  print_chunks-suc rounds i h = rw (read_bytes-round i h, print_chunks) refl

  print_chunks-unpack :
      (rounds i : ℕ)
      → (i + rounds) * 8 < value.len + 8
      → Option.map unpack (print_chunks rounds i value buffer)
        ≡ some (padded (rounds * 8) (drop (i * 8) buffer))
  unfolding print_chunks
  print_chunks-unpack zero i h = refl
  print_chunks-unpack (suc rounds) i h =
      let part = take 8 (drop (i * 8) buffer) in
      let rest = print_chunks rounds (i + 1) value buffer in
      let here : bytes_of 8 (little_endian part) ≡ padded 8 (drop (i * 8) buffer) =
        bytes_of-little_endian 8 part (All-take IsByte 8 _ (All-drop IsByte (i * 8) buffer bytes))
        ∙ padded-take 8 (drop (i * 8) buffer) in
      let next : drop 8 (drop (i * 8) buffer) ≡ drop ((i + 1) * 8) buffer =
        drop-drop (i * 8) 8 ((i + 1) * 8) buffer (omega arith) in
      let more : Option.map unpack rest
          ≡ some (padded (rounds * 8) (drop 8 (drop (i * 8) buffer))) =
        print_chunks-unpack rounds (i + 1) (omega arith)
        ∙ ap (λ t. some (padded (rounds * 8) t)) (sym next) in
      rw (print_chunks-suc rounds i (omega arith)) (
        print_chunk-unpack value.wrap i part rest _ _ _ more here
          (padded-add 8 (rounds * 8) (suc rounds * 8) (drop (i * 8) buffer) (omega arith)))

print_header-unpack :
    (crc32 : List ℕ → ℕ) (value : MemCrc32) (all : List ℕ) (chunks : Option (List Printed))
    → Option.map unpack (print_header crc32 value (some all) chunks) ≡ Option.map unpack chunks
unfolding print_header
print_header-unpack crc32 value all none = refl
print_header-unpack crc32 value all (some chunks) = refl

-- Printing a buffer of any length reads nothing beyond its end, and its words are, byte for byte,
-- the first 1024 bytes of the buffer, or all where it is shorter, with zeros in the place of fewer
-- than eight bytes that are missing from the last word.
pub format-unpack :
    (crc32 : List ℕ → ℕ) (value : MemCrc32) (buffer : List ℕ)
    → length buffer ≡ value.len
    → value.len + 7 < 2 ^ 64
    → All IsByte buffer
    → (Option.map unpack (format crc32 value buffer)
        ≡ some (padded (num_chunks value.len * 8) buffer))
      × (min value.len 1024 ≤ num_chunks value.len * 8)
      × (num_chunks value.len * 8 < min value.len 1024 + 8)
unfolding format read_bytes
format-unpack crc32 value buffer whole small bytes =
    let chunks = print_chunks (num_chunks value.len) 0 value buffer in
    let words : Option.map unpack chunks ≡ some (padded (num_chunks value.len * 8) buffer) =
      print_chunks-unpack value buffer whole (omega arith) bytes (num_chunks value.len) 0
        (omega arith) in
    let all : length (take value.len buffer) ≡ value.len =
      length-take value.len buffer ∙ omega arith in
    let read : read_bytes buffer 0 value.len ≡ some (take value.len buffer) =
      rw ((==_iff _ _).1 all, read_bytes) refl in
    (
      rw read (print_header-unpack crc32 value (take value.len buffer) chunks ∙ words),
      omega arith,
      omega arith,
    )
