-- ===== src/Worker/Stl/Process/Lock.antt =====
-- The task lock around a delivery of `process_stl`.
use open_format_3d_viewer.Prelude.{
  String, ◌≡◌, refl, Bool, true, false, Option, none, some, List, ◌==◌, string_eq, ltb, Bool-cases,
  Option-cases, inl, inr, if◌then◌else◌,
}
use open_format_3d_viewer.Worker.Common.{
  PyError, LockStore, World, ModelRow, lock_key, is_already_processed, acquire_task_lock,
  release_task_lock, handle_task_failure, get_plan_max_bytes, get_model_row, is_retryable,
}
use open_format_3d_viewer.Worker.Stl.Detect.{StlType}
use open_format_3d_viewer.Worker.Stl.Task.{
  Attempt, done, failed, Tools, TaskResult, failed_at, retry, raised, no_s3_key, file_too_large,
  run_stages,
}
use open_format_3d_viewer.Worker.Stl.Process.{
  process_stl, process_found, process_row, after_stages, handled, in_directory, no_key, row_read,
  keyed, locked, task_name, size_or_0, soft_time_limit,
}

-- What the lock's key is after a result: still set where the task ended for want of a raw key, or with
-- an exception that no handler catches.
abbrev pub lock_left : TaskResult → Bool
lock_left no_s3_key = true
lock_left (raised e) = true
lock_left r = false

-- `DEL` answers.
abbrev pub Answers : LockStore → String → Type 0
Answers L k = (s : L.Keys) → (u : L.Keys) × (L.delete (lock_key task_name k) s ≡ some u)

module _ {L : LockStore} (k : String) where
  abbrev held : World L → Bool
  held w = L.holds (lock_key task_name k) w.locks

  -- The lock is as the result says.
  abbrev Left : TaskResult × World L → Type 0
  Left (r, w) = held w ≡ lock_left r

  held-release_task_lock :
      (w : World L) → Answers L k → held (release_task_lock k task_name w) ≡ false
  held-release_task_lock w up =
      let (u, d) = up w.locks in rw d (L.delete-holds (lock_key task_name k) w.locks u d)

  Left-after_handler :
      (b : Bool) (stage : String) (e : PyError) (w : World L)
      → Answers L k
      → Left (if b then retry e else failed_at stage e, release_task_lock k task_name w)
  Left-after_handler true stage e w up = held-release_task_lock w up
  Left-after_handler false stage e w up = held-release_task_lock w up

module _ {L : LockStore} (t : Tools) (k : String) where
  held-handle_task_failure :
      (user stage : String) (e : PyError) (w : World L)
      → held k (handle_task_failure t.failed_error t.webhook_error k user stage e w) ≡ held k w
  unfolding handle_task_failure
  held-handle_task_failure user stage e w = elim (Option-cases t.failed_error) [
    | inl n ↦ elim (Option-cases t.webhook_error) [
      | inl m ↦ rw (n, m) refl
      | inr (x, m) ↦ rw (n, m) refl
    ]
    | inr (y, n) ↦ elim (Option-cases t.webhook_error) [
      | inl m ↦ rw (n, m) refl
      | inr (x, m) ↦ rw (n, m) refl
    ]
  ]

  Left-handled :
      (time_limit : Bool) (user stage : String) (e : PyError) (w : World L)
      → Answers L k
      → Left k (handled t k user time_limit stage e w)
  Left-handled true user stage e w up =
      rw (held-handle_task_failure user stage soft_time_limit (release_task_lock k task_name w))
        (held-release_task_lock k w up)
  Left-handled false user stage e w up =
      Left-after_handler k (is_retryable e) stage e
        (handle_task_failure t.failed_error t.webhook_error k user stage e w) up

  Left-after_stages :
      (user : String) (r : Attempt (StlType × List String) × World L)
      → Answers L k
      → Left k (after_stages t k user r)
  unfolding after_stages
  Left-after_stages user (done (ty, keys), w) up = held-release_task_lock k w up
  Left-after_stages user (failed stage e, w) up = Left-handled e.time_limit user stage e w up

  Left-in_directory :
      (o : Option PyError) (w : World L) (x : TaskResult × World L)
      → held k w ≡ true
      → Left k x
      → Left k (in_directory o w x)
  Left-in_directory none w x h left = left
  Left-in_directory (some e) w x h left = h

  Left-no_key : (o : Option PyError) (w : World L) → held k w ≡ true → Left k (no_key o k w)
  Left-no_key none w h = h
  Left-no_key (some e) w h = h

  Left-process_row :
      (row : ModelRow) (key : String) (w : World L)
      → Answers L k
      → held k w ≡ true
      → Left k (process_row t k row key w)
  unfolding process_row
  Left-process_row row key w up h =
      elim (Bool-cases (ltb (get_plan_max_bytes row.plan) (size_or_0 row.file_size_bytes))) [
        | inl b ↦ rw b (
            held-release_task_lock k
              (handle_task_failure t.failed_error t.webhook_error k row.uploaded_by "size_check"
                file_too_large w)
              up)
        | inr b ↦ rw b (
            Left-in_directory t.directory_error w _ h (
              Left-after_stages row.uploaded_by
                (run_stages t k row.uploaded_by key (get_plan_max_bytes row.plan) w) up))
      ]

  Left-keyed :
      (row : ModelRow) (key : Option String) (w : World L)
      → Answers L k
      → held k w ≡ true
      → Left k (keyed t k row key w)
  Left-keyed row none w up h = Left-no_key t.status_error w h
  Left-keyed row (some key) w up h = elim (Bool-cases (key == "")) [
    | inl b ↦ rw b (Left-no_key t.status_error w h)
    | inr b ↦ rw b (Left-process_row row key w up h)
  ]

  Left-found :
      (r : Option ModelRow) (w : World L)
      → Answers L k
      → held k w ≡ true
      → Left k (process_found t k r w)
  unfolding process_found
  Left-found none w up h = held-release_task_lock k w up
  Left-found (some row) w up h = Left-keyed row row.raw_s3_key w up h

  Left-locked :
      (r : Bool × World L) → Answers L k → r.0 ≡ true → held k r.1 ≡ true → Left k (locked t k r)
  Left-locked (true, w) up a h = by_read t.row_error
    where
      by_read : (o : Option PyError) → Left k (row_read t k o w)
      by_read none = Left-found (get_model_row k w) w up h
      by_read (some e) = h
  Left-locked (false, w) up a h = cc

  -- A delivery that takes the lock of a model not yet ready or failed gives it back whatever the
  -- delivery answers, retries included, as long as `DEL` answers; and it is still held at the end where
  -- the model has no raw key, and where an exception escapes: from reading the model's row, from marking
  -- a model that has no raw key, or from making the temporary directories.
  pub process_stl-lock :
      (w : World L)
      → Answers L k
      → is_already_processed k w ≡ false
      → (L.set_nx (lock_key task_name k) w.locks).0 ≡ some true
      → L.holds (lock_key task_name k) (process_stl t k w).1.locks ≡ lock_left (process_stl t k w).0
  unfolding process_stl acquire_task_lock
  process_stl-lock w up n a = rw n (
      Left-locked (acquire_task_lock k task_name w) up (rw a refl)
        (L.set_nx-true (lock_key task_name k) w.locks a))
