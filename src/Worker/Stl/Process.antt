-- ===== src/Worker/Stl/Process.antt =====
-- `process_stl` of tasks/stl.py: the guards before the pipeline, the pipeline, and the handlers of
-- its exceptions.
pub mod Lock
pub mod Terminal
use open_format_3d_viewer.Prelude.{
  ℕ, String, Bool, true, false, Option, none, some, List, ltb, ◌==◌, string_eq, if◌then◌else◌,
}
use open_format_3d_viewer.Worker.Common.{
  PyError, LockStore, World, ModelRow, get_model_row, get_plan_max_bytes, is_already_processed,
  acquire_task_lock, release_task_lock, update_model_status, handle_task_failure, is_retryable,
}
use open_format_3d_viewer.Worker.Stl.Detect.{StlType}
use open_format_3d_viewer.Worker.Stl.Task.{
  Attempt, done, failed, Tools, TaskResult, already_processed, duplicate_task, model_not_found,
  no_s3_key, failed_at, ready, retry, raised, file_too_large, run_stages,
}

abbrev pub task_name : String
task_name = "app.tasks.stl.process_stl"

-- `SoftTimeLimitExceeded("soft time limit")`
abbrev pub soft_time_limit : PyError
soft_time_limit = record {
  type_name = "SoftTimeLimitExceeded";
  transient = false;
  time_limit = true;
  message = "soft time limit";
}

-- `model.get("file_size_bytes") or 0`
abbrev pub size_or_0 : Option ℕ → ℕ
size_or_0 none = 0
size_or_0 (some n) = n

module _ {L : LockStore} where
  -- `release_task_lock` and `handle_task_failure` in the order of each handler.
  abbrev fail : Tools → (model_id user_id stage : String) → PyError → World L → World L
  fail t model_id user_id stage e =
      handle_task_failure t.failed_error t.webhook_error model_id user_id stage e

  -- `except SoftTimeLimitExceeded`, and `except Exception` with its `raise self.retry(exc=exc)`.
  abbrev pub handled :
      Tools
      → (model_id user_id : String) → (time_limit : Bool) → (stage : String) → PyError
      → World L
      → TaskResult × World L
  handled t model_id user_id true stage e w = (
    failed_at stage soft_time_limit,
    fail t model_id user_id stage soft_time_limit (release_task_lock model_id task_name w),
  )
  handled t model_id user_id false stage e w = (
    if is_retryable e then retry e else failed_at stage e,
    release_task_lock model_id task_name (fail t model_id user_id stage e w),
  )

  unfoldable pub after_stages :
      Tools
      → (model_id user_id : String) → Attempt (StlType × List String) × World L
      → TaskResult × World L
  after_stages t model_id user_id (done (stl_type, keys), w) =
      (ready stl_type keys, release_task_lock model_id task_name w)
  after_stages t model_id user_id (failed stage e, w) =
      handled t model_id user_id e.time_limit stage e w

  -- `with tempfile.TemporaryDirectory(…)`, and `os.makedirs`
  abbrev pub in_directory : Option PyError → World L → TaskResult × World L → TaskResult × World L
  in_directory none w processed = processed
  in_directory (some e) w processed = (raised e, w)

  -- From the size check on, with the row of the model and its raw key.
  unfoldable pub process_row :
      Tools
      → (model_id : String) → ModelRow
      → (s3_raw_key : String) → World L
      → TaskResult × World L
  unfolding after_stages
  process_row t model_id row s3_raw_key w =
      let max_bytes = get_plan_max_bytes row.plan in
      if ltb max_bytes (size_or_0 row.file_size_bytes)
      then (
        failed_at "size_check" file_too_large,
        release_task_lock model_id task_name
            (fail t model_id row.uploaded_by "size_check" file_too_large w),
      )
      else in_directory t.directory_error w (
          after_stages t model_id row.uploaded_by
            (run_stages t model_id row.uploaded_by s3_raw_key max_bytes w))

  abbrev pub no_key : Option PyError → (model_id : String) → World L → TaskResult × World L
  no_key (some e) model_id w = (raised e, w)
  no_key none model_id w =
      (no_s3_key, update_model_status model_id "failed" none (some "No S3 raw key on model") w)

  -- `if not s3_raw_key` holds of an empty text too.
  abbrev pub keyed :
      Tools → (model_id : String) → ModelRow → Option String → World L → TaskResult × World L
  keyed t model_id row none w = no_key t.status_error model_id w
  keyed t model_id row (some key) w =
      if key == "" then no_key t.status_error model_id w else process_row t model_id row key w

  unfoldable pub process_found :
      Tools → (model_id : String) → Option ModelRow → World L → TaskResult × World L
  unfolding process_row
  process_found t model_id none w = (model_not_found, release_task_lock model_id task_name w)
  process_found t model_id (some row) w = keyed t model_id row row.raw_s3_key w

  abbrev pub row_read :
      Tools → (model_id : String) → Option PyError → World L → TaskResult × World L
  row_read t model_id (some e) w = (raised e, w)
  row_read t model_id none w = process_found t model_id (get_model_row model_id w) w

  -- `if not acquire_task_lock(…)`
  abbrev pub locked : Tools → (model_id : String) → Bool × World L → TaskResult × World L
  locked t model_id (true, w) = row_read t model_id t.row_error w
  locked t model_id (false, w) = (duplicate_task, w)

  unfoldable pub process_stl : Tools → (model_id : String) → World L → TaskResult × World L
  unfolding process_found
  process_stl t model_id w =
      if is_already_processed model_id w
      then (already_processed, w)
      else locked t model_id (acquire_task_lock model_id task_name w)
