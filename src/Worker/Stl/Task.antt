-- ===== src/Worker/Stl/Task.antt =====
-- `process_stl` of tasks/stl.py, as one delivery of the task: the result that the task returns, or
-- the retry that it raises, and the world that it leaves. What trimesh, gltf-pipeline, the storage
-- and the database answer are the fields of `Tools`.
use Prim.Native.String.{◌++◌}
use mathlib.Core.List.{◌++◌ as list_append}
use open_format_3d_viewer.Prelude.{
  decimal, ℕ, ◌+◌, ◌*◌, String, Bool, true, false, Option, none, some, List, [], ◌∷◌, ltb, leb, not,
  map, length, ◌==◌, nat_eq, if◌then◌else◌,
}
use open_format_3d_viewer.Worker.Chunks.{Bytes, split_binary_chunks}
use open_format_3d_viewer.Worker.Common.{
  PyError, LockStore, World, update_model_status, publish, model_processing, model_ready,
  dispatch_webhook_event,
}
use open_format_3d_viewer.Worker.Stl.Detect.{StlType, detect_stl_type}

pub data Attempt {ℓ} (A : Type ℓ) : Type ℓ where
  done : A → Attempt A
  failed : (stage : String) → PyError → Attempt A

-- What the code reads of a trimesh mesh.
pub record Mesh : Type 0 where
  pub vertices : ℕ
  pub faces : ℕ
  pub finite : Bool

-- What gltf-pipeline does: its binary is missing, it fails, it writes no file, or it writes one.
pub data Draco : Type 0 where
  missing : Draco
  error : PyError → Draco
  no_output : Draco
  output : Bytes → Draco

pub data Answer {ℓ} (A : Type ℓ) : Type ℓ where
  value : A → Answer A
  throws : PyError → Answer A

pub record Tools : Type 0 where
  pub download : String → Answer Bytes
  pub load : Bytes → Answer (Option Mesh)
  pub repair : Mesh → Mesh
  pub export : Mesh → Answer Bytes
  pub draco : Bytes → Draco
  pub store_error : String → Option PyError
  pub cdn_url : String → String
  pub metadata_error : Option PyError
  pub ready_error : Option PyError
  pub failed_error : Option PyError
  pub webhook_error : Option PyError
  -- What escapes from a task before its `try`: from the read of the model's row once the lock is taken,
  -- from marking a model that has no raw key, and from making the temporary directories.
  pub row_error : Option PyError
  pub status_error : Option PyError
  pub directory_error : Option PyError

pub data TaskResult : Type 0 where
  already_processed duplicate_task model_not_found no_s3_key : TaskResult
  failed_at : (stage : String) → PyError → TaskResult
  ready : StlType → (keys : List String) → TaskResult
  retry raised : PyError → TaskResult

abbrev runtime_error : String → PyError
runtime_error message = record {
  type_name = "RuntimeError";
  transient = false;
  time_limit = false;
  message = message;
}

abbrev pub file_too_large : PyError
file_too_large = record {
  type_name = "FileTooLargeError";
  transient = false;
  time_limit = false;
  message = "File size exceeds the limit";
}

infixl 5 ◌>>=◌ ◌>>◌
abbrev ◌>>=◌ {ℓ κ} : {A : Type ℓ} {B : Type κ} → Attempt A → (A → Attempt B) → Attempt B
done a >>= f = f a
failed stage e >>= f = failed stage e

abbrev ◌>>◌ {ℓ} : {B : Type ℓ} → Attempt (Unit {0}) → Attempt B → Attempt B
m >> k = m >>= λ _. k

abbrev at_stage {ℓ} : {A : Type ℓ} → String → Answer A → Attempt A
at_stage stage (value a) = done a
at_stage stage (throws e) = failed stage e

-- `raise RuntimeError(message)` where the test holds
abbrev refuse_if : Bool → (stage : String) → PyError → Attempt (Unit {0})
refuse_if true stage e = failed stage e
refuse_if false stage e = done tt

abbrev loaded : Option Mesh → Attempt Mesh
loaded none =
    failed "parse" (runtime_error "trimesh.load returned invalid object — file may be corrupt")
loaded (some m) = done m

-- The final file of `_apply_draco`, and whether it is the compressed one.
abbrev apply_draco : Bytes → Draco → Attempt (Bool × Bytes)
apply_draco glb missing = done (false, glb)
apply_draco glb (error e) = failed "compress" e
apply_draco glb no_output = done (false, glb)
apply_draco glb (output out) = done (true, out)

abbrev stem : Bool → String
stem compressed = if compressed then "model_draco" else "model"

-- The names that `split_binary_chunks` gives: the file's own, or one for each part.
abbrev part_names : String → ℕ → List Bytes → List (String × Bytes)
part_names name part [] = []
part_names name part (c ∷ cs) =
    (name ++ "_part" ++ decimal part ++ ".glb", c) ∷ part_names name (part + 1) cs

abbrev pub chunk_max : ℕ
chunk_max = 32 * 1024 * 1024

unfoldable pub named_chunks : Bool → Bytes → List (String × Bytes)
unfolding decimal split_binary_chunks
named_chunks compressed final =
    if leb (length final) chunk_max
    then (stem compressed ++ ".glb", final) ∷ []
    else part_names (stem compressed) 0 (split_binary_chunks chunk_max final)

-- The stages "size_check" to "compress", on the downloaded file.
unfoldable pub convert : Tools → (max_bytes : ℕ) → Bytes → Attempt (StlType × (Bool × Bytes))
unfolding detect_stl_type
convert t max_bytes file = do
  refuse_if (ltb max_bytes (length file)) "size_check" file_too_large
  let stl_type = detect_stl_type file
  found ← at_stage "parse" (t.load file)
  mesh ← loaded found
  refuse_if (mesh.vertices == 0) "parse"
      (runtime_error "STL loaded with 0 vertices — file is empty or degenerate")
  refuse_if (mesh.faces == 0) "parse"
      (runtime_error "STL loaded with 0 faces — file is empty or degenerate")
  let repaired = t.repair mesh
  refuse_if (repaired.vertices == 0) "validate"
      (runtime_error "Mesh has 0 vertices after repair — cannot export")
  refuse_if (repaired.faces == 0) "validate"
      (runtime_error "Mesh has 0 faces after repair — cannot export")
  refuse_if (not repaired.finite) "validate"
      (runtime_error "Mesh contains NaN or Inf vertex coordinates — corrupt geometry")
  glb ← at_stage "export" (t.export repaired)
  refuse_if (length glb == 0) "export" (runtime_error "trimesh GLB export produced empty file")
  final ← apply_draco glb (t.draco glb)
  done (stl_type, final)

module _ {L : LockStore} where
  -- The loop of the stage "upload"; what was stored before an error stays.
  unfoldable pub upload_chunks :
      Tools
      → (prefix : String) → List (String × Bytes)
      → (keys : List String) → World L
      → Attempt (List String) × World L
  upload_chunks t prefix [] keys w = (done keys, w)
  upload_chunks t prefix ((name, chunk) ∷ rest) keys w =
      let s3_key = prefix ++ "/" ++ name in
      let next =
        upload_chunks t prefix rest (list_append keys (s3_key ∷ []))
          (record w { uploads = list_append w.uploads ((s3_key, chunk) ∷ []) }) in
      elim (t.store_error s3_key) [ none ↦ next | some e ↦ (failed "upload" e, w) ]

  -- The stages "metadata" and "finalize".
  unfoldable pub finalize :
      Tools
      → (model_id user_id : String) → (keys : List String) → World L
      → Attempt (Unit {0}) × World L
  finalize t model_id user_id keys w = elim t.metadata_error [
    | some e ↦ (failed "metadata" e, w)
    | none ↦
        let saved : World L = record w { metadata = (model_id, keys) ∷ w.metadata } in
        elim t.ready_error [
          | some e ↦ (failed "finalize" e, saved)
          | none ↦
              let marked =
                update_model_status model_id "ready" (some ("processed/" ++ model_id)) none saved in
              let told = publish (model_ready user_id model_id (map t.cdn_url keys)) marked in
              elim t.webhook_error [
                | some e ↦ (failed "finalize" e, told)
                | none ↦ (
                  done tt,
                  dispatch_webhook_event "model.ready" (("model_id", model_id) ∷ []) user_id told,
                )
              ]
        ]
  ]

  abbrev pub ended :
      StlType
      → List String
      → Attempt (Unit {0}) × World L
      → Attempt (StlType × List String) × World L
  ended stl_type keys (failed stage e, w) = (failed stage e, w)
  ended stl_type keys (done _, w) = (done (stl_type, keys), w)

  abbrev pub stored :
      Tools
      → (model_id user_id : String) → StlType
      → Attempt (List String) × World L
      → Attempt (StlType × List String) × World L
  stored t model_id user_id stl_type (failed stage e, w) = (failed stage e, w)
  stored t model_id user_id stl_type (done keys, w) =
      ended stl_type keys (finalize t model_id user_id keys w)

  abbrev pub progressed : (model_id user_id : String) → World L → World L
  progressed model_id user_id w = publish (model_processing user_id model_id 10 "download") w

  abbrev pub converted :
      Tools
      → (model_id user_id : String) → Attempt (StlType × (Bool × Bytes))
      → World L
      → Attempt (StlType × List String) × World L
  converted t model_id user_id (failed stage e) w = (failed stage e, w)
  converted t model_id user_id (done (stl_type, (compressed, final))) w =
      stored t model_id user_id stl_type
        (upload_chunks t ("processed/" ++ model_id) (named_chunks compressed final) [] w)

  abbrev pub downloaded :
      Tools
      → (model_id user_id : String) → (max_bytes : ℕ) → World L
      → Answer Bytes
      → Attempt (StlType × List String) × World L
  downloaded t model_id user_id max_bytes w (throws e) = (failed "download" e, w)
  downloaded t model_id user_id max_bytes w (value file) =
      converted t model_id user_id (convert t max_bytes file) (progressed model_id user_id w)

  -- The body of the `try`.
  unfoldable pub run_stages :
      Tools
      → (model_id user_id s3_raw_key : String) → (max_bytes : ℕ) → World L
      → Attempt (StlType × List String) × World L
  unfolding convert named_chunks upload_chunks finalize
  run_stages t model_id user_id s3_raw_key max_bytes w =
      downloaded t model_id user_id max_bytes w (t.download s3_raw_key)
