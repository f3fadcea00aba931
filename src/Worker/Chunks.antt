-- ===== src/Worker/Chunks.antt =====
-- Splitting a file into bounded parts: `split_binary_chunks` of tasks/common.py and
-- `_split_xkt_chunks` of tasks/ifc.py. A file is its list of bytes; the names of the parts are left
-- out, but for their order.
use mathlib.Core.Path.{ap₂}
use mathlib.Core.List.{append-nil, append_assoc}
use open_format_3d_viewer.Prelude.{
  All-imp, ℕ, zero, suc, ◌≤◌, ◌<◌, ◌≡◌, refl, sym, ap, ◌∙◌, List, [], ◌∷◌, ◌++◌, length, take, drop,
  take-append-drop, length-take, length-drop, All, leb, if◌then◌else◌, arith, Bool-cases, inl, inr,
}

abbrev pub Bytes : Type 0
Bytes = List ℕ

-- `while True: data = fh.read(max_bytes); if not data: break; …`
unfoldable pub read_loop : (fuel max_bytes : ℕ) → Bytes → List Bytes
read_loop zero max_bytes rest = []
read_loop (suc fuel) max_bytes rest = elim (take max_bytes rest) [
  | [] ↦ []
  | b ∷ bs ↦ (b ∷ bs) ∷ read_loop fuel max_bytes (drop max_bytes rest)
]

-- One round more than the file has bytes: every round but the last reads one at least.
unfoldable pub split_binary_chunks : (max_bytes : ℕ) → Bytes → List Bytes
split_binary_chunks max_bytes file =
    if leb (length file) max_bytes then file ∷ [] else read_loop (suc (length file)) max_bytes file

-- The loop over the converter's files: an oversized one is replaced by its parts.
unfoldable pub split_xkt_chunks : (max_bytes : ℕ) → List Bytes → List Bytes
split_xkt_chunks max_bytes [] = []
split_xkt_chunks max_bytes (file ∷ files) =
    (if leb (length file) max_bytes
      then file ∷ []
      else read_loop (suc (length file)) max_bytes file)
    ++ split_xkt_chunks max_bytes files

-- The parts one after the other.
abbrev pub join : List Bytes → Bytes
join [] = []
join (b ∷ bs) = b ++ join bs

abbrev pub IsPart : ℕ → Bytes → Type 0
IsPart max_bytes b = (0 < length b) × (length b ≤ max_bytes)

-- With fuel above the bytes left, the loop reads all of them, in parts that are not empty.
pub read_loop_lem :
    (fuel m : ℕ) (rest : Bytes)
    → 0 < m
    → length rest < fuel
    → (join (read_loop fuel m rest) ≡ rest) × All (IsPart m) (read_loop fuel m rest)
unfolding read_loop
read_loop_lem zero m rest p h = absurd (omega arith)
read_loop_lem (suc fuel) zero rest p h = absurd (omega arith)
read_loop_lem (suc fuel) (suc m) [] p h = (refl, tt)
read_loop_lem (suc fuel) (suc m) (x ∷ xs) p h =
    let (e, a) = read_loop_lem fuel (suc m) (drop m xs) p (omega (arith, length-drop {0} m xs)) in
    (
      ap (λ r. x ∷ r) (ap (λ r. take m xs ++ r) e ∙ take-append-drop m xs),
      ((omega arith, omega (arith, length-take {0} m xs)), a),
    )

-- A file of any length, split for any positive limit, is all its parts in order; no part is longer
-- than the limit; and no part is empty unless the file is.
pub split_binary_chunks_lem :
    (m : ℕ) (file : Bytes)
    → 0 < m
    → (join (split_binary_chunks m file) ≡ file)
      × All (λ b. length b ≤ m) (split_binary_chunks m file)
      × (0 < length file → All (IsPart m) (split_binary_chunks m file))
unfolding split_binary_chunks
split_binary_chunks_lem m file p = elim (Bool-cases (leb (length file) m)) [
  | inl t ↦ rw t (append-nil file, (ground arith, tt), λ h. ((h, ground arith), tt))
  | inr t ↦
      let (e, a) = read_loop_lem (suc (length file)) m file p (omega arith) in
      rw t (e, All-imp (IsPart m) _ (λ b h. h.1) _ a, λ h. a)
]

join-append : (cs bs : List Bytes) → join (cs ++ bs) ≡ join cs ++ join bs
join-append [] bs = refl
join-append (a ∷ cs) bs =
    ap (λ r. a ++ r) (join-append cs bs) ∙ sym (append_assoc a (join cs) (join bs))

All-append {κ} : (P : Bytes → Type κ) (cs bs : List Bytes) → All P cs → All P bs → All P (cs ++ bs)
All-append P [] bs h k = k
All-append P (a ∷ cs) bs h k = (h.0, All-append P cs bs h.1 k)

-- The converter's files, one after the other, are the chunks one after the other, and no chunk is
-- longer than the limit.
pub split_xkt_chunks_lem :
    (m : ℕ) (files : List Bytes)
    → 0 < m
    → (join (split_xkt_chunks m files) ≡ join files)
      × All (λ b. length b ≤ m) (split_xkt_chunks m files)
unfolding split_xkt_chunks split_binary_chunks
split_xkt_chunks_lem m [] p = (refl, tt)
split_xkt_chunks_lem m (file ∷ files) p =
    let (e, a) = split_xkt_chunks_lem m files p in
    let (f, b, _) = split_binary_chunks_lem m file p in
    let parts : List Bytes = split_binary_chunks m file in
    (
      join-append parts (split_xkt_chunks m files) ∙ ap₂ (λ r t. r ++ t) f e,
      All-append (λ b. length b ≤ m) parts (split_xkt_chunks m files) b a,
    )
