-- ===== src/Worker/Gltf/Stages.antt =====
-- The stages of process_gltf up to the metadata: what is stored when they all succeed.
use Prim.Native.String.{◌++◌ as string_append}
use mathlib.Core.List.{◌++◌ as list_append}
use open_format_3d_viewer.Prelude.{
  false, ℕ, String, ◌≡◌, ◌≤◌, refl, sym, ap, subst, ◌∙◌, inl, inr, Bool, Option, none, some, List,
  [], ◌∷◌, ltb, nat_eq, string_eq, length, map, All, Bool-cases, arith,
}
use open_format_3d_viewer.Worker.Chunks.{Bytes, join, split_binary_chunks, split_binary_chunks_lem}
use open_format_3d_viewer.Worker.Common.{
  PyError, LockStore, World, ModelRow, get_model_row, dispatch_webhook_event, publish,
  model_processing,
}
use open_format_3d_viewer.Worker.Stl.Task.{
  Attempt, done, failed, Answer, value, throws, chunk_max, finalize,
}
use open_format_3d_viewer.Worker.Gltf.{
  GltfTools, validate_gltf, optimize_gltf, gltf_chunks, GltfReady, gltf_ended, gltf_stored,
  gltf_optimized, gltf_validated, gltf_downloaded,
}
use open_format_3d_viewer.Worker.Gltf.Rejected.{finds_errors, validate_gltf-done}
use open_format_3d_viewer.Worker.Gltf.Uploaded.{
  bytes, under, IsUploaded, gltf_chunks-bytes, map-under-bytes, upload_chunks-IsUploaded,
}

module _ {L : LockStore} (t : GltfTools) (k : String) (w : World L) where
  -- The storage hands out `file` for the raw key of the model's row.
  pub record IsSource (file : Bytes) : Type 0 where
    pub row : ModelRow
    pub key : String
    pub found : get_model_row k w ≡ some row
    pub raw : row.raw_s3_key ≡ some key
    pub downloaded : t.shared.download key ≡ value file

  -- The validator found no errors in the file that the storage handed out, and the new objects, in order, are the parts
  -- of the optimized file, or of that file itself, none longer than a chunk may be; the metadata has their
  -- keys.
  pub record IsStored (r : GltfReady) (v : World L) : Type 0 where
    pub file : Bytes
    pub source : IsSource file
    pub final : Bytes
    pub parts : List (String × Bytes)
    pub valid : validate_gltf (t.validator file) ≡ done r.warnings
    pub no_errors : finds_errors (t.validator file) ≡ false
    pub optimized : optimize_gltf file (t.pipeline file) ≡ done (r.optimized, final)
    pub uploads : v.uploads ≡ list_append w.uploads parts
    pub keys : map (λ c. c.0) parts ≡ r.keys
    pub joined : join (map bytes parts) ≡ final
    pub bounded : All (λ b. length b ≤ chunk_max) (map bytes parts)
    pub metadata : v.metadata ≡ (k, r.keys) ∷ w.metadata

  abbrev pub IsDone : Attempt GltfReady × World L → Type 0
  IsDone (failed stage e, v) = Unit
  IsDone (done r, v) = IsStored r v

  -- `finalize` keeps the uploads, and saves the keys.
  abbrev IsFinal : (keys : List String) → World L → Attempt (Unit {0}) × World L → Type 0
  IsFinal keys u (failed stage e, v) = Unit
  IsFinal keys u (done _, v) = (v.uploads ≡ u.uploads) × (v.metadata ≡ (k, keys) ∷ u.metadata)

  finalize-IsFinal :
      (user : String) (keys : List String) (u : World L)
      → IsFinal keys u (finalize t.shared k user keys u)
  unfolding finalize dispatch_webhook_event
  finalize-IsFinal user keys u =
      by_answers t.shared.metadata_error t.shared.ready_error t.shared.webhook_error refl refl refl
    where
      by_answers :
          (a b c : Option PyError)
          → t.shared.metadata_error ≡ a
          → t.shared.ready_error ≡ b
          → t.shared.webhook_error ≡ c
          → IsFinal keys u (finalize t.shared k user keys u)
      by_answers (some e) b c x y z = rw (IsFinal, x) tt
      by_answers none (some e) c x y z = rw (IsFinal, x, y) tt
      by_answers none none (some e) x y z = rw (IsFinal, x, y, z) tt
      by_answers none none none x y z = rw (IsFinal, x, y, z) (refl, refl)

  pub IsStored-moved :
      (r : GltfReady) (u v : World L)
      → v.uploads ≡ u.uploads
      → v.metadata ≡ u.metadata
      → IsStored r u
      → IsStored r v
  IsStored-moved r u v e m h = record {
    file = h.file;
    source = h.source;
    final = h.final;
    parts = h.parts;
    valid = h.valid;
    no_errors = h.no_errors;
    optimized = h.optimized;
    uploads = e ∙ h.uploads;
    keys = h.keys;
    joined = h.joined;
    bounded = h.bounded;
    metadata = m ∙ h.metadata;
  }

  IsDone-ended :
      (user : String) (r : GltfReady) (u : World L) (x : Attempt (Unit {0}) × World L)
      → IsFinal r.keys u x
      → ((v : World L)
          → v.uploads ≡ u.uploads
          → v.metadata ≡ (k, r.keys) ∷ u.metadata
          → IsStored r v)
      → IsDone (gltf_ended t k user r x)
  IsDone-ended user r u (failed stage e, v) h stored = tt
  IsDone-ended user r u (done _, v) (e, m) stored = stored v e m

  module _ (user in_ext : String) (file : Bytes) (source : IsSource file) (u : World L)
      (same : u.uploads ≡ w.uploads) (saved : u.metadata ≡ w.metadata) where
    IsDone-stored :
        (warnings : ℕ) (o : Bool) (final : Bytes) (x : Attempt (List String) × World L)
        → validate_gltf (t.validator file) ≡ done warnings
        → optimize_gltf file (t.pipeline file) ≡ done (o, final)
        → IsUploaded
            (map (under (string_append "processed/" k)) (gltf_chunks in_ext o final))
            []
            u
            x
        → IsDone (gltf_stored t k user in_ext o warnings x)
    IsDone-stored warnings o final (failed stage e, v) valid optimized h = tt
    IsDone-stored warnings o final (done ks, v) valid optimized (a, b, m) =
        let parts = map (under (string_append "processed/" k)) (gltf_chunks in_ext o final) in
        let split : map bytes parts ≡ split_binary_chunks chunk_max final =
          map-under-bytes (string_append "processed/" k) (gltf_chunks in_ext o final)
          ∙ gltf_chunks-bytes in_ext o final in
        let (joined, bounded, _) = split_binary_chunks_lem chunk_max final (omega arith) in
        IsDone-ended user _ v _ (finalize-IsFinal user ks v) (λ z e n. record {
          file = file;
          source = source;
          final = final;
          parts = parts;
          valid = valid;
          no_errors = validate_gltf-done (t.validator file) warnings valid;
          optimized = optimized;
          uploads = e ∙ b ∙ ap (λ l. list_append l parts) same;
          keys = sym a;
          joined = ap join split ∙ joined;
          bounded = subst (All (λ d. length d ≤ chunk_max)) (sym split) bounded;
          metadata = n ∙ ap (λ l. (k, ks) ∷ l) (m ∙ saved);
        })

    IsDone-optimized :
        (warnings : ℕ) (x : Attempt (Bool × Bytes))
        → validate_gltf (t.validator file) ≡ done warnings
        → optimize_gltf file (t.pipeline file) ≡ x
        → IsDone (gltf_optimized t k user in_ext warnings u x)
    IsDone-optimized warnings (failed stage e) valid h = tt
    IsDone-optimized warnings (done (o, final)) valid h = IsDone-stored warnings o final _ valid h (
        upload_chunks-IsUploaded t.shared (string_append "processed/" k)
          (gltf_chunks in_ext o final) [] _)

  module _ (user : String) (u : World L) (same : u.uploads ≡ w.uploads)
      (saved : u.metadata ≡ w.metadata) where
    IsDone-validated :
        (in_ext : String) (file : Bytes) (x : Attempt ℕ)
        → IsSource file
        → validate_gltf (t.validator file) ≡ x
        → IsDone (gltf_validated t k user in_ext file u x)
    IsDone-validated in_ext file (failed stage e) source h = tt
    IsDone-validated in_ext file (done warnings) source h =
        IsDone-optimized user in_ext file source (publish (model_processing user k 25 "validate") u)
          same saved warnings (optimize_gltf file (t.pipeline file)) h refl

  module _ (user : String) (u : World L) (same : u.uploads ≡ w.uploads)
      (saved : u.metadata ≡ w.metadata) where
    pub IsDone-downloaded :
        (in_ext : String) (max_bytes : ℕ) (row : ModelRow) (key : String) (file : Answer Bytes)
        → get_model_row k w ≡ some row
        → row.raw_s3_key ≡ some key
        → t.shared.download key ≡ file
        → IsDone (gltf_downloaded t k user in_ext max_bytes u file)
    IsDone-downloaded in_ext max_bytes row key (throws e) found raw h = tt
    IsDone-downloaded in_ext max_bytes row key (value file) found raw h =
        elim (Bool-cases (ltb max_bytes (length file))) [
          | inl n ↦ rw (IsDone, n) tt
          | inr n ↦ rw n (
              IsDone-validated user (publish (model_processing user k 10 "download") u) same saved
                in_ext file (validate_gltf (t.validator file))
                (record { row = row; key = key; found = found; raw = raw; downloaded = h }) refl)
        ]
