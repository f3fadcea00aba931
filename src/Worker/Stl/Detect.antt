-- ===== src/Worker/Stl/Detect.antt =====
-- `_detect_stl_type` of tasks/stl.py, over the bytes of the file.
use mathlib.Core.List.{reverse}
use open_format_3d_viewer.Prelude.{
  ℕ, zero, suc, ◌+◌, ◌*◌, ◌-◌, ◌/◌, ◌%◌, ◌^◌, ◌<◌, ◌≡◌, refl, ap, ◌∙◌, Bool, true, false, ◌&&◌,
  ◌||◌, List, [], ◌∷◌, ◌++◌, map, length, length-append, take, drop, select, ltb, leb, ◌==◌, nat_eq,
  if◌then◌else◌, arith, Option, none, some,
}

pub data StlType : Type 0 where
  ascii binary : StlType

-- What `str.strip` takes off, among the ASCII characters.
abbrev is_space : ℕ → Bool
is_space c = leb 9 c && leb c 13 || leb 28 c && leb c 32

lstrip : List ℕ → List ℕ
lstrip [] = []
lstrip (c ∷ cs) = if is_space c then lstrip cs else c ∷ cs

strip : List ℕ → List ℕ
unfolding lstrip
strip s = reverse (lstrip (reverse (lstrip s)))

abbrev lower : ℕ → ℕ
lower c = if leb b'A' c && leb c b'Z' then c + 32 else c

starts_with : List ℕ → List ℕ → Bool
starts_with [] s = true
starts_with (c ∷ cs) [] = false
starts_with (c ∷ cs) (d ∷ ds) = c == d && starts_with cs ds

-- `header.decode("ascii", errors="ignore").strip().lower().startswith("solid")`
unfoldable pub says_solid : List ℕ → Bool
unfolding strip starts_with
says_solid header =
    starts_with (b's' ∷ b'o' ∷ b'l' ∷ b'i' ∷ b'd' ∷ [])
      (map lower (strip (select (λ c. ltb c 128) header)))

-- `struct.unpack("<I", f.read(4))[0]`; `none` is `struct.error`
unfoldable pub unpack_u32 : List ℕ → Option ℕ
unpack_u32 (a ∷ b ∷ c ∷ d ∷ rest) = some (a + 256 * b + 65536 * c + 16777216 * d)
unpack_u32 s = none

-- `abs(file_size - expected)`
abbrev distance : ℕ → ℕ → ℕ
distance a b = (a - b) + (b - a)

abbrev by_size : ℕ → Option ℕ → StlType
by_size file_size none = ascii
by_size file_size (some face_count) =
    if ltb (distance file_size (80 + 4 + face_count * 50)) 10 then binary else ascii

unfoldable pub detect_stl_type : List ℕ → StlType
unfolding unpack_u32 says_solid
detect_stl_type file =
    if says_solid (take 80 file)
    then by_size (length file) (unpack_u32 (take 4 (drop 80 file)))
    else binary

-- The layout of a binary file: 80 bytes of header, the number of faces, 50 bytes for each.
abbrev pub pack_u32 : ℕ → List ℕ
pack_u32 n = n % 256 ∷ n / 256 % 256 ∷ n / 65536 % 256 ∷ n / 16777216 % 256 ∷ []

abbrev pub binary_stl : (header : List ℕ) → ℕ → (faces : List ℕ) → List ℕ
binary_stl header n faces = header ++ (pack_u32 n ++ faces)

pub drop-append_length {ℓ} :
    {A : Type ℓ} (k : ℕ) (xs ys : List A) → length xs ≡ k → drop k (xs ++ ys) ≡ ys
drop-append_length zero [] ys h = refl
drop-append_length zero (x ∷ xs) ys h = absurd (omega arith)
drop-append_length (suc k) [] ys h = absurd (omega arith)
drop-append_length (suc k) (x ∷ xs) ys h = drop-append_length k xs ys (omega arith)

unpack-pack : (n : ℕ) → n < 2 ^ 32 → unpack_u32 (pack_u32 n) ≡ some n
unfolding unpack_u32
unpack-pack n h = ap (λ m. some m) (omega arith)

by_size-fits : (n : ℕ) → by_size (84 + n * 50) (some n) ≡ binary
by_size-fits n = let e : distance (84 + n * 50) (80 + 4 + n * 50) ≡ 0 = omega arith in rw e

if_same : {t : StlType} (b : Bool) → t ≡ binary → (if b then t else binary) ≡ binary
if_same true e = e
if_same false e = refl

-- A binary STL file of any number of faces that fits its counter is taken for binary whatever its
-- header, also when that begins with "solid".
pub detect-binary_stl :
    (header : List ℕ) (n : ℕ) (faces : List ℕ)
    → length header ≡ 80
    → n < 2 ^ 32
    → length faces ≡ n * 50
    → detect_stl_type (binary_stl header n faces) ≡ binary
unfolding detect_stl_type
detect-binary_stl header n faces h small f =
    let after_header = drop-append_length 80 header (pack_u32 n ++ faces) h in
    let counter : unpack_u32 (take 4 (drop 80 (binary_stl header n faces))) ≡ some n =
      ap (λ r. unpack_u32 (take 4 r)) after_header ∙ unpack-pack n small in
    let size : length (binary_stl header n faces) ≡ 84 + n * 50 =
      length-append header (pack_u32 n ++ faces) ∙ omega arith in
    rw (counter, size) (if_same (says_solid (take 80 (binary_stl header n faces))) (by_size-fits n))
