-- ===== src/Worker/Gltf.antt =====
-- `process_gltf` of apps/worker/app/tasks/gltf.py, as one delivery of the task, with the shared stages of
-- `Worker/Stl/Task.antt`. What gltf-validator and gltf-pipeline do to a file, and pathlib's suffix of a key
-- in lower case, are fields of `GltfTools`; of the fields of `Tools` it uses the storage's and the
-- database's.
pub mod Rejected
pub mod Uploaded
pub mod Stages
pub mod Stored
pub mod Tests
use Prim.Native.Char.{code}
use Prim.Native.String
use Prim.Native.String.{◌++◌}
use open_format_3d_viewer.Prelude.{
  decimal, ℕ, ◌+◌, String, Bool, true, false, Option, none, some, List, [], ◌∷◌, ltb, leb, length,
  ◌==◌, nat_eq, string_eq, if◌then◌else◌,
}
use open_format_3d_viewer.Worker.Chunks.{Bytes, split_binary_chunks}
use open_format_3d_viewer.Worker.Common.{
  PyError, LockStore, World, ModelRow, get_model_row, get_plan_max_bytes, is_already_processed,
  acquire_task_lock, release_task_lock, update_model_status, handle_task_failure, is_retryable,
  publish, model_processing,
}
use open_format_3d_viewer.Worker.Stl.Task.{
  Attempt, done, failed, Answer, value, throws, Tools, file_too_large, chunk_max, upload_chunks,
  finalize,
}
use open_format_3d_viewer.Worker.Stl.Process.{soft_time_limit, size_or_0}

-- gltf-validator: its binary is missing, it exits with another status than 0, `subprocess.run` raises
-- anything else, its output is no JSON, or its report counts errors and warnings.
pub data Validator : Type 0 where
  no_validator unreadable_report : Validator
  exited : (message : String) → Validator
  validator_raised : PyError → Validator
  report : (errors warnings : ℕ) → Validator

-- gltf-pipeline: its binary is missing, it fails, it writes no file, something else is raised, or it
-- writes a file.
pub data Pipeline : Type 0 where
  no_pipeline pipeline_failed no_output : Pipeline
  pipeline_raised : PyError → Pipeline
  optimized_file : Bytes → Pipeline

pub record GltfTools : Type 0 where
  pub shared : Tools
  pub suffix : (key : String) → String
  pub validator : Bytes → Validator
  pub pipeline : Bytes → Pipeline

abbrev pub gltf_task_name : String
gltf_task_name = "app.tasks.gltf.process_gltf"

abbrev pub validation_name : String
validation_name = "GltfValidationError"

abbrev pub validation_error : String → PyError
validation_error message = record {
  type_name = validation_name;
  transient = false;
  time_limit = false;
  message = message;
}

-- The number of warnings; the messages that the error quotes from the report are left out.
abbrev pub validate_gltf : Validator → Attempt ℕ
validate_gltf no_validator = done 0
validate_gltf unreadable_report = done 0
validate_gltf (exited message) =
    failed "validate" (validation_error ("GLTF validation failed: " ++ message))
validate_gltf (validator_raised e) = failed "validate" e
validate_gltf (report errors warnings) =
    if errors == 0
    then done warnings
    else failed "validate" (validation_error ("GLTF asset has " ++ decimal errors ++ " error(s)"))

-- The final file, and whether it is the optimized one.
abbrev pub optimize_gltf : Bytes → Pipeline → Attempt (Bool × Bytes)
optimize_gltf file no_pipeline = done (false, file)
optimize_gltf file pipeline_failed = done (false, file)
optimize_gltf file no_output = done (false, file)
optimize_gltf file (pipeline_raised e) = failed "compress" e
optimize_gltf file (optimized_file out) = done (true, out)

-- `Path(s3_raw_key).suffix.lower() or ".gltf"`
abbrev pub input_ext : (suffix : String) → String
input_ext suffix = if suffix == "" then ".gltf" else suffix

-- `s.lstrip(".")`
abbrev pub lstrip_dots : String → String
lstrip_dots String.[] = String.[]
lstrip_dots (String.◌∷◌ c s) =
    let rest = lstrip_dots s in if code c == 46 then rest else String.◌∷◌ c s

abbrev pub out_stem : Bool → String
out_stem optimized = if optimized then "input_optimized" else "input"

abbrev pub out_ext : (in_ext : String) → Bool → String
out_ext in_ext optimized = if optimized then ".glb" else in_ext

abbrev pub numbered : (stem ext : String) → ℕ → List Bytes → List (String × Bytes)
numbered stem ext part [] = []
numbered stem ext part (c ∷ cs) =
    (stem ++ "_part" ++ decimal part ++ ext, c) ∷ numbered stem ext (part + 1) cs

abbrev pub gltf_chunks : (in_ext : String) → Bool → Bytes → List (String × Bytes)
gltf_chunks in_ext optimized file =
    if leb (length file) chunk_max
    then (out_stem optimized ++ out_ext in_ext optimized, file) ∷ []
    else numbered (out_stem optimized) (out_ext in_ext optimized) 0
        (split_binary_chunks chunk_max file)

pub record GltfReady : Type 0 where
  pub source_format : String
  pub output_format : String
  pub optimized : Bool
  pub keys : List String
  pub warnings : ℕ

pub data GltfResult : Type 0 where
  already_processed duplicate_task model_not_found no_s3_key : GltfResult
  failed_at : (stage : String) → PyError → GltfResult
  ready : GltfReady → GltfResult
  retry raised : PyError → GltfResult

module _ {L : LockStore} (t : GltfTools) (model_id user_id : String) where
  abbrev pub gltf_ended : GltfReady → Attempt (Unit {0}) × World L → Attempt GltfReady × World L
  gltf_ended r (failed stage e, w) = (failed stage e, w)
  gltf_ended r (done _, w) = (done r, w)

  abbrev pub gltf_stored :
      (in_ext : String)
      → Bool
      → (warnings : ℕ) → Attempt (List String) × World L
      → Attempt GltfReady × World L
  gltf_stored in_ext optimized warnings (failed stage e, w) = (failed stage e, w)
  gltf_stored in_ext optimized warnings (done keys, w) =
      gltf_ended
        (record {
          source_format = lstrip_dots in_ext;
          output_format = lstrip_dots (out_ext in_ext optimized);
          optimized = optimized;
          keys = keys;
          warnings = warnings;
        })
        (finalize t.shared model_id user_id keys w)

  abbrev pub gltf_optimized :
      (in_ext : String)
      → (warnings : ℕ) → World L
      → Attempt (Bool × Bytes)
      → Attempt GltfReady × World L
  gltf_optimized in_ext warnings w (failed stage e) = (failed stage e, w)
  gltf_optimized in_ext warnings w (done (optimized, file)) =
      gltf_stored in_ext optimized warnings (
        upload_chunks t.shared ("processed/" ++ model_id) (gltf_chunks in_ext optimized file) []
          (publish (model_processing user_id model_id 50 "optimize") w))

  abbrev pub gltf_validated :
      (in_ext : String) → Bytes → World L → Attempt ℕ → Attempt GltfReady × World L
  gltf_validated in_ext file w (failed stage e) = (failed stage e, w)
  gltf_validated in_ext file w (done warnings) =
      gltf_optimized in_ext warnings (publish (model_processing user_id model_id 25 "validate") w)
        (optimize_gltf file (t.pipeline file))

  abbrev pub gltf_downloaded :
      (in_ext : String) → (max_bytes : ℕ) → World L → Answer Bytes → Attempt GltfReady × World L
  gltf_downloaded in_ext max_bytes w (throws e) = (failed "download" e, w)
  gltf_downloaded in_ext max_bytes w (value file) =
      let told = publish (model_processing user_id model_id 10 "download") w in
      if ltb max_bytes (length file)
      then (failed "size_check" file_too_large, told)
      else gltf_validated in_ext file told (validate_gltf (t.validator file))

  abbrev pub gltf_fail : (stage : String) → PyError → World L → World L
  gltf_fail stage e =
      handle_task_failure t.shared.failed_error t.shared.webhook_error model_id user_id stage e

  -- `except SoftTimeLimitExceeded`, and `except Exception`.
  abbrev pub gltf_other :
      (time_limit : Bool) → (stage : String) → PyError → World L → GltfResult × World L
  gltf_other true stage e w = (
    failed_at stage soft_time_limit,
    gltf_fail stage soft_time_limit (release_task_lock model_id gltf_task_name w),
  )
  gltf_other false stage e w = (
    if is_retryable e then retry e else failed_at stage e,
    release_task_lock model_id gltf_task_name (gltf_fail stage e w),
  )

  -- `except GltfValidationError` stands before them.
  abbrev pub gltf_handled : Attempt GltfReady × World L → GltfResult × World L
  gltf_handled (done r, w) = (ready r, release_task_lock model_id gltf_task_name w)
  gltf_handled (failed stage e, w) =
      if e.type_name == validation_name
      then (
        failed_at "validate" e,
        gltf_fail "validate" e (release_task_lock model_id gltf_task_name w),
      )
      else gltf_other e.time_limit stage e w

module _ {L : LockStore} (t : GltfTools) (model_id : String) where
  -- `with tempfile.TemporaryDirectory(…)`, and `os.makedirs`
  abbrev pub gltf_in_directory :
      Option PyError → World L → GltfResult × World L → GltfResult × World L
  gltf_in_directory none w processed = processed
  gltf_in_directory (some e) w processed = (raised e, w)

  abbrev pub gltf_row : ModelRow → (s3_raw_key : String) → World L → GltfResult × World L
  gltf_row row key w =
      let max_bytes = get_plan_max_bytes row.plan in
      if ltb max_bytes (size_or_0 row.file_size_bytes)
      then (
        failed_at "size_check" file_too_large,
        release_task_lock model_id gltf_task_name
            (gltf_fail t model_id row.uploaded_by "size_check" file_too_large w),
      )
      else gltf_in_directory t.shared.directory_error w (
          gltf_handled t model_id row.uploaded_by (
            gltf_downloaded t model_id row.uploaded_by (input_ext (t.suffix key)) max_bytes w
              (t.shared.download key)))

  abbrev pub gltf_no_key : Option PyError → World L → GltfResult × World L
  gltf_no_key (some e) w = (raised e, w)
  gltf_no_key none w =
      (no_s3_key, update_model_status model_id "failed" none (some "No S3 raw key on model") w)

  abbrev pub gltf_keyed : ModelRow → Option String → World L → GltfResult × World L
  gltf_keyed row none w = gltf_no_key t.shared.status_error w
  gltf_keyed row (some key) w =
      if key == "" then gltf_no_key t.shared.status_error w else gltf_row row key w

  abbrev pub gltf_found : Option ModelRow → World L → GltfResult × World L
  gltf_found none w = (model_not_found, release_task_lock model_id gltf_task_name w)
  gltf_found (some row) w = gltf_keyed row row.raw_s3_key w

  abbrev pub gltf_row_read : Option PyError → World L → GltfResult × World L
  gltf_row_read none w = gltf_found (get_model_row model_id w) w
  gltf_row_read (some e) w = (raised e, w)

  abbrev pub gltf_locked : Bool × World L → GltfResult × World L
  gltf_locked (true, w) = gltf_row_read t.shared.row_error w
  gltf_locked (false, w) = (duplicate_task, w)

  unfoldable pub process_gltf : World L → GltfResult × World L
  unfolding upload_chunks finalize split_binary_chunks decimal
  process_gltf w =
      if is_already_processed model_id w
      then (already_processed, w)
      else gltf_locked (acquire_task_lock model_id gltf_task_name w)
