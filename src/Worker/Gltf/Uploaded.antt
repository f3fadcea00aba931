-- ===== src/Worker/Gltf/Uploaded.antt =====
-- The chunks of a file, and what the loop that uploads them stores.
use Prim.Native.String.{◌++◌ as string_append}
use mathlib.Core.List.{append-nil, append_assoc, ◌++◌ as list_append}
use open_format_3d_viewer.Prelude.{
  ℕ, ◌+◌, String, ◌≡◌, refl, sym, ap, ◌∙◌, inl, inr, Bool, Option, none, some, List, [], ◌∷◌, leb,
  nat_eq, string_eq, length, map, Bool-cases,
}
use open_format_3d_viewer.Worker.Chunks.{Bytes, split_binary_chunks}
use open_format_3d_viewer.Worker.Common.{PyError, LockStore, World}
use open_format_3d_viewer.Worker.Stl.Task.{Tools, Attempt, done, failed, chunk_max, upload_chunks}
use open_format_3d_viewer.Worker.Gltf.{out_stem, out_ext, numbered, gltf_chunks}

abbrev pub bytes : String × Bytes → Bytes
bytes c = c.1

abbrev pub under : (prefix : String) → String × Bytes → String × Bytes
under prefix c = (string_append prefix (string_append "/" c.0), c.1)

numbered-bytes :
    (stem ext : String) (part : ℕ) (cs : List Bytes) → map bytes (numbered stem ext part cs) ≡ cs
numbered-bytes stem ext part [] = refl
numbered-bytes stem ext part (c ∷ cs) = ap (λ r. c ∷ r) (numbered-bytes stem ext (part + 1) cs)

pub gltf_chunks-bytes :
    (in_ext : String) (o : Bool) (file : Bytes)
    → map bytes (gltf_chunks in_ext o file) ≡ split_binary_chunks chunk_max file
unfolding split_binary_chunks
gltf_chunks-bytes in_ext o file = elim (Bool-cases (leb (length file) chunk_max)) [
  | inl n ↦ rw n refl
  | inr n ↦ rw n (numbered-bytes (out_stem o) (out_ext in_ext o) 0 _)
]

pub map-under-bytes :
    (prefix : String) (cs : List (String × Bytes))
    → map bytes (map (under prefix) cs) ≡ map bytes cs
map-under-bytes prefix [] = refl
map-under-bytes prefix (c ∷ cs) = ap (λ r. c.1 ∷ r) (map-under-bytes prefix cs)

module _ {L : LockStore} where
  -- All chunks are stored under the prefix, in order.
  abbrev pub IsUploaded :
      List (String × Bytes) → List String → World L → Attempt (List String) × World L → Type 0
  IsUploaded cs keys w (failed stage e, v) = Unit
  IsUploaded cs keys w (done ks, v) =
      (ks ≡ list_append keys (map (λ c. c.0) cs))
      × (v.uploads ≡ list_append w.uploads cs)
      × (v.metadata ≡ w.metadata)

  IsUploaded-one :
      (c : String × Bytes) (cs : List (String × Bytes)) (keys : List String) (w : World L)
      (x : Attempt (List String) × World L)
      → IsUploaded cs
          (list_append keys (c.0 ∷ []))
          (record w { uploads = list_append w.uploads (c ∷ []) })
          x
      → IsUploaded (c ∷ cs) keys w x
  IsUploaded-one c cs keys w (failed stage e, v) h = tt
  IsUploaded-one c cs keys w (done ks, v) (a, b, m) = (
    a ∙ append_assoc keys (c.0 ∷ []) (map (λ d. d.0) cs),
    b ∙ append_assoc w.uploads (c ∷ []) cs,
    m,
  )

  IsUploaded-put :
      (cs : List (String × Bytes)) (keys : List String) (w : World L) (o : Option PyError)
      (x : Attempt (List String) × World L)
      → IsUploaded cs keys w x
      → IsUploaded cs keys w (elim o [ none ↦ x | some e ↦ (failed "upload" e, w) ])
  IsUploaded-put cs keys w none x h = h
  IsUploaded-put cs keys w (some e) x h = tt

  pub upload_chunks-IsUploaded :
      (t : Tools) (prefix : String) (cs : List (String × Bytes)) (keys : List String) (w : World L)
      → IsUploaded (map (under prefix) cs) keys w (upload_chunks t prefix cs keys w)
  unfolding upload_chunks
  upload_chunks-IsUploaded t prefix [] keys w =
      (sym (append-nil keys), sym (append-nil w.uploads), refl)
  upload_chunks-IsUploaded t prefix (c ∷ cs) keys w =
      IsUploaded-put (under prefix c ∷ map (under prefix) cs) keys w
        (t.store_error (under prefix c).0) _
        (IsUploaded-one (under prefix c) (map (under prefix) cs) keys w _
          (upload_chunks-IsUploaded t prefix cs _ _))
