-- ===== src/Worker/Gltf/Rejected.antt =====
-- Files that gltf-validator refuses.
use open_format_3d_viewer.Prelude.{
  arith, ℕ, String, ◌≡◌, refl, inl, inr, Bool, true, false, Option, none, some, List, ltb, ◌==◌,
  nat_eq, string_eq, length, if◌then◌else◌, Bool-cases, Option-cases,
}
use open_format_3d_viewer.Worker.Chunks.{Bytes}
use open_format_3d_viewer.Worker.Common.{
  PyError, LockStore, World, ModelRow, get_model_row, get_plan_max_bytes, is_already_processed,
  acquire_task_lock, release_task_lock, handle_task_failure, is_retryable,
}
use open_format_3d_viewer.Worker.Stl.Task.{
  Attempt, done, failed, Answer, value, throws, file_too_large,
}
use open_format_3d_viewer.Worker.Stl.Process.{soft_time_limit, size_or_0}
use open_format_3d_viewer.Worker.Gltf.{
  Validator, exited, report, no_validator, unreadable_report, validator_raised, GltfTools,
  validate_gltf, validation_name, input_ext, GltfReady, GltfResult, ready, retry, failed_at,
  gltf_task_name, gltf_downloaded, gltf_fail, gltf_other, gltf_handled, gltf_row, gltf_keyed,
  gltf_found, gltf_in_directory, gltf_no_key, gltf_row_read, gltf_locked, process_gltf,
}

-- The validator exits with another status than 0, or its report counts an error.
abbrev pub finds_errors : Validator → Bool
finds_errors (exited message) = true
finds_errors (report errors warnings) = ltb 0 errors
finds_errors v = false

-- The validator finds errors in every file that the storage may hand out.
abbrev pub Rejects : GltfTools → Type 0
Rejects t = (file : Bytes) → finds_errors (t.validator file) ≡ true

failed_if :
    (b : Bool) (warnings : ℕ) (error : PyError)
    → b ≡ false
    → (e : PyError) × ((if b then done warnings else failed "validate" error) ≡ failed "validate" e)
failed_if true warnings error h = cc
failed_if false warnings error h = (error, refl)

finds_errors-validate_gltf :
    (v : Validator)
    → finds_errors v ≡ true
    → (e : PyError) × (validate_gltf v ≡ failed "validate" e)
finds_errors-validate_gltf (exited message) h = (_, refl)
finds_errors-validate_gltf (report errors warnings) h =
    failed_if (errors == 0) warnings _ (ground (arith, h))
finds_errors-validate_gltf no_validator h = cc
finds_errors-validate_gltf unreadable_report h = cc
finds_errors-validate_gltf (validator_raised e) h = cc

failed-ne-done : {stage : String} {e : PyError} {n : ℕ} → failed stage e ≡ done n → ⊥
failed-ne-done e = cc

-- What the code lets through has no errors that were found.
pub validate_gltf-done : (v : Validator) (n : ℕ) → validate_gltf v ≡ done n → finds_errors v ≡ false
validate_gltf-done no_validator n h = refl
validate_gltf-done unreadable_report n h = refl
validate_gltf-done (validator_raised e) n h = refl
validate_gltf-done (exited message) n h = absurd (failed-ne-done h)
validate_gltf-done (report errors warnings) n h = elim (Bool-cases (errors == 0)) [
  | inl z ↦ ground (arith, z)
  | inr z ↦ absurd (failed-ne-done (rw z at h))
]

abbrev pub is_ready : GltfResult → Bool
is_ready (ready r) = true
is_ready r = false

not_ready :
    (b : Bool) (stage : String) (e : PyError)
    → is_ready (if b then retry e else failed_at stage e) ≡ false
not_ready true stage e = refl
not_ready false stage e = refl

module _ {L : LockStore} (stored : List (String × Bytes)) where
  -- Nothing was uploaded, and the task did not answer "ready".
  abbrev IsRefused : GltfResult × World L → Type 0
  IsRefused (r, w) = (w.uploads ≡ stored) × (is_ready r ≡ false)

  -- The stages failed before the upload.
  abbrev IsStopped : Attempt GltfReady × World L → Type 0
  IsStopped (done r, w) = ⊥
  IsStopped (failed stage e, w) = w.uploads ≡ stored

  module _ (t : GltfTools) (k user : String) where
    fail_uploads :
        (stage : String) (e : PyError) (w : World L)
        → w.uploads ≡ stored
        → (gltf_fail t k user stage e w).uploads ≡ stored
    unfolding handle_task_failure
    fail_uploads stage e w h = elim (Option-cases t.shared.failed_error) [
      | inl n ↦ elim (Option-cases t.shared.webhook_error) [
        | inl m ↦ rw (n, m) h
        | inr (x, m) ↦ rw (n, m) h
      ]
      | inr (y, n) ↦ elim (Option-cases t.shared.webhook_error) [
        | inl m ↦ rw (n, m) h
        | inr (x, m) ↦ rw (n, m) h
      ]
    ]

    IsRefused-other :
        (limit : Bool) (stage : String) (e : PyError) (w : World L)
        → w.uploads ≡ stored
        → IsRefused (gltf_other t k user limit stage e w)
    IsRefused-other true stage e w h =
        (fail_uploads stage soft_time_limit (release_task_lock k gltf_task_name w) h, refl)
    IsRefused-other false stage e w h =
        (fail_uploads stage e w h, not_ready (is_retryable e) stage e)

    IsRefused-handled :
        (x : Attempt GltfReady × World L) → IsStopped x → IsRefused (gltf_handled t k user x)
    IsRefused-handled (done r, w) h = absurd h
    IsRefused-handled (failed stage e, w) h = elim (Bool-cases (e.type_name == validation_name)) [
      | inl n ↦ rw n (fail_uploads "validate" e (release_task_lock k gltf_task_name w) h, refl)
      | inr n ↦ rw n (IsRefused-other e.time_limit stage e w h)
    ]

    IsStopped-downloaded :
        Rejects t
        → (in_ext : String) (max_bytes : ℕ) (w : World L) (file : Answer Bytes) → w.uploads ≡ stored
        → IsStopped (gltf_downloaded t k user in_ext max_bytes w file)
    IsStopped-downloaded rejects in_ext max_bytes w (throws e) h = h
    IsStopped-downloaded rejects in_ext max_bytes w (value file) h =
        elim (Bool-cases (ltb max_bytes (length file))) [
          | inl n ↦ rw n h
          | inr n ↦
              let (e, refused) = finds_errors-validate_gltf (t.validator file) (rejects file) in
              rw (n, refused) h
        ]

  module _ (t : GltfTools) (k : String) (rejects : Rejects t) where
    IsRefused-in_directory :
        (o : Option PyError) (w : World L) (x : GltfResult × World L)
        → w.uploads ≡ stored
        → IsRefused x
        → IsRefused (gltf_in_directory t k o w x)
    IsRefused-in_directory none w x h refused = refused
    IsRefused-in_directory (some e) w x h refused = (h, refl)

    IsRefused-no_key :
        (o : Option PyError) (w : World L) → w.uploads ≡ stored → IsRefused (gltf_no_key t k o w)
    IsRefused-no_key none w h = (h, refl)
    IsRefused-no_key (some e) w h = (h, refl)

    IsRefused-row :
        (row : ModelRow) (key : String) (w : World L)
        → w.uploads ≡ stored
        → IsRefused (gltf_row t k row key w)
    IsRefused-row row key w h =
        elim (Bool-cases (ltb (get_plan_max_bytes row.plan) (size_or_0 row.file_size_bytes))) [
          | inl n ↦ rw n (fail_uploads t k row.uploaded_by "size_check" file_too_large w h, refl)
          | inr n ↦ rw n (
              IsRefused-in_directory t.shared.directory_error w _ h (
                IsRefused-handled t k row.uploaded_by _ (
                  IsStopped-downloaded t k row.uploaded_by rejects (input_ext (t.suffix key))
                    (get_plan_max_bytes row.plan) w (t.shared.download key) h)))
        ]

    IsRefused-keyed :
        (row : ModelRow) (key : Option String) (w : World L)
        → w.uploads ≡ stored
        → IsRefused (gltf_keyed t k row key w)
    IsRefused-keyed row none w h = IsRefused-no_key t.shared.status_error w h
    IsRefused-keyed row (some key) w h = elim (Bool-cases (key == "")) [
      | inl n ↦ rw n (IsRefused-no_key t.shared.status_error w h)
      | inr n ↦ rw n (IsRefused-row row key w h)
    ]

    IsRefused-found :
        (row : Option ModelRow) (w : World L)
        → w.uploads ≡ stored
        → IsRefused (gltf_found t k row w)
    IsRefused-found none w h = (h, refl)
    IsRefused-found (some row) w h = IsRefused-keyed row row.raw_s3_key w h

    IsRefused-locked : (x : Bool × World L) → x.1.uploads ≡ stored → IsRefused (gltf_locked t k x)
    IsRefused-locked (true, w) h = by_read t.shared.row_error
      where
        by_read : (o : Option PyError) → IsRefused (gltf_row_read t k o w)
        by_read none = IsRefused-found (get_model_row k w) w h
        by_read (some e) = (h, refl)
    IsRefused-locked (false, w) h = (h, refl)

-- If gltf-validator exits with another status than 0, or counts an error in its report, for whatever file
-- it is given, a run of process_gltf uploads nothing and does not answer that the model is ready, whatever
-- the storage, the database, Redis and gltf-pipeline answer.
pub process_gltf-refuses :
    {L : LockStore} (t : GltfTools) (k : String) (w : World L)
    → Rejects t
    → ((process_gltf t k w).1.uploads ≡ w.uploads) × (is_ready (process_gltf t k w).0 ≡ false)
unfolding process_gltf acquire_task_lock
process_gltf-refuses t k w rejects = elim (Bool-cases (is_already_processed k w)) [
  | inl n ↦ rw n (refl, refl)
  | inr n ↦
      rw n (IsRefused-locked w.uploads t k rejects (acquire_task_lock k gltf_task_name w) refl)
]
