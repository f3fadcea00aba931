-- ===== src/Worker/Scan/Framing.antt =====
-- What clamd reads from the stream that `_clamd_scan` sends.
use open_format_3d_viewer.Prelude.{
  ℕ, zero, suc, ◌+◌, ◌*◌, ◌/◌, ◌%◌, ◌<◌, ◌≤◌, ◌≡◌, refl, ap, ◌∙◌, false, Option, none, some, List,
  [], ◌∷◌, ◌++◌, length, length-append, take, drop, All, ◌==◌, nat_eq, if◌then◌else◌, arith,
}
use open_format_3d_viewer.Worker.Chunks.{Bytes, IsPart, join, read_loop, read_loop_lem}
use open_format_3d_viewer.Worker.Stl.Detect.{drop-append_length}
use open_format_3d_viewer.Worker.Scan.{frames, instream}

abbrev prefixed : Bytes → Option Bytes → Option Bytes
prefixed chunk none = none
prefixed chunk (some rest) = some (chunk ++ rest)

-- clamd's side of the protocol: chunks, each after its length in four bytes, the highest first, up
-- to a chunk of length zero. Every round of fuel reads a chunk.
unfoldable pub unframe : (fuel : ℕ) → Bytes → Option Bytes
unframe (suc fuel) (a ∷ b ∷ c ∷ d ∷ rest) =
    let n = a * 16777216 + b * 65536 + c * 256 + d in
    let next = unframe fuel (drop n rest) in if n == 0 then some [] else prefixed (take n rest) next
unframe fuel bytes = none

take-append_length : (xs ys : Bytes) → take (length xs) (xs ++ ys) ≡ xs
take-append_length [] ys = refl
take-append_length (x ∷ xs) ys = ap (λ r. x ∷ r) (take-append_length xs ys)

value-pack :
    (n : ℕ)
    → n ≤ 65536
    → n / 16777216 % 256 * 16777216 + n / 65536 % 256 * 65536 + n / 256 % 256 * 256 + n % 256 ≡ n
value-pack n h = omega (arith, h)

unframe-frames :
    (fuel : ℕ) (chunks : List Bytes)
    → All (IsPart 65536) chunks
    → length chunks < fuel
    → unframe fuel (frames chunks) ≡ some (join chunks)
unfolding unframe
unframe-frames zero chunks a h = absurd (omega (arith, h))
unframe-frames (suc fuel) [] a h = refl
unframe-frames (suc fuel) (chunk ∷ chunks) a h =
    let positive : (length chunk == 0) ≡ false = ground (arith, a.0) in
    rw
      (
        value-pack (length chunk) a.0.1,
        positive,
        take-append_length chunk (frames chunks),
        drop-append_length (length chunk) chunk (frames chunks) refl,
        unframe-frames fuel chunks a.1 (omega (arith, h)),
      )
      refl

length-join :
    (m : ℕ) (chunks : List Bytes) → All (IsPart m) chunks → length chunks ≤ length (join chunks)
length-join m [] a = omega arith
length-join m (chunk ∷ chunks) a =
    omega (arith, length-append chunk (join chunks), length-join m chunks a.1, a.0.0)

-- clamd gets the bytes of the file, whatever they are and however many: reading the stream as the
-- protocol says gives the file back, with more rounds than the file has bytes.
pub unframe-instream : (file : Bytes) → unframe (suc (length file)) (instream file) ≡ some file
unfolding instream
unframe-instream file =
    let (e, a) = read_loop_lem (suc (length file)) 65536 file (omega arith) (omega arith) in
    let chunks : List Bytes = read_loop (suc (length file)) 65536 file in
    let b : length chunks < suc (length file) =
      omega (arith, length-join 65536 chunks a, ap (λ r. length r) e) in
    unframe-frames (suc (length file)) chunks a b ∙ ap some e
