-- ===== src/Worker/Stl/Process/Terminal.antt =====
-- What a delivery of `process_stl` leaves in the model's row, and what the next delivery does.
use open_format_3d_viewer.Prelude.{
  ℕ, String, ◌≡◌, refl, Bool, true, false, Option, none, some, List, [], ◌∷◌, map, any, ◌==◌,
  nat_eq, string_eq, Bool-cases, inl, inr, arith, ltb, Option-cases,
}
use Prim.Native.String.{◌++◌}
use open_format_3d_viewer.Worker.Chunks.{Bytes}
use open_format_3d_viewer.Worker.Common.{
  PyError, LockStore, World, ModelRow, terminal_row, find_model, with_status, is_terminal,
  is_already_processed, acquire_task_lock, handle_task_failure, dispatch_webhook_event,
  get_plan_max_bytes, release_task_lock, get_model_row,
}
use open_format_3d_viewer.Worker.Stl.Task.{
  Attempt, done, failed, Tools, TaskResult, already_processed, duplicate_task, model_not_found,
  raised, run_stages, downloaded, converted, progressed, convert, named_chunks, ended, stored,
  value, throws, upload_chunks, finalize, file_too_large,
}
use open_format_3d_viewer.Worker.Stl.Detect.{StlType}
use open_format_3d_viewer.Worker.Stl.Process.{
  process_stl, process_found, process_row, after_stages, in_directory, row_read, keyed, task_name,
  handled, no_key, soft_time_limit, locked, size_or_0,
}

-- The results of a delivery that has dealt with the model, for good or by asking for a retry.
abbrev pub is_end : TaskResult → Bool
is_end already_processed = false
is_end duplicate_task = false
is_end model_not_found = false
is_end (raised e) = false
is_end r = true

false-ne-true : false ≡ true → ⊥
false-ne-true e = cc

-- The model has a row.
abbrev has_row : String → List ModelRow → Bool
has_row k ms = any (λ m. m.id == k) ms

module _ (k status : String) (prefix error : Option String) where
  has_row-with_status :
      (ms : List ModelRow) → has_row k (map (with_status k status prefix error) ms) ≡ has_row k ms
  has_row-with_status [] = refl
  has_row-with_status (m ∷ ms) = ground (arith, has_row-with_status ms)

  terminal-with_status :
      (ms : List ModelRow)
      → is_terminal status ≡ true
      → has_row k ms ≡ true
      → terminal_row (find_model k (map (with_status k status prefix error) ms)) ≡ true
  unfolding find_model
  terminal-with_status [] t h = cc
  terminal-with_status (m ∷ ms) t h = elim (Bool-cases (m.id == k)) [
    | inl e ↦ rw (e, e) t
    | inr e ↦ rw (e, e) (terminal-with_status ms t (rw e at h))
  ]

has_row-find :
    (k : String) (ms : List ModelRow) {m : ModelRow}
    → find_model k ms ≡ some m
    → has_row k ms ≡ true
unfolding find_model
has_row-find k [] e = cc
has_row-find k (m ∷ ms) e = elim (Bool-cases (m.id == k)) [
  | inl t ↦ rw t refl
  | inr t ↦ rw t (has_row-find k ms (rw t at e))
]

-- What a part of the pipeline leaves: a terminal row after its end, a row for the failure handler
-- to mark after an exception.
abbrev Settled {ℓ} : {L : LockStore} {A : Type ℓ} → String → Attempt A × World L → Type 0
Settled k (done a, w) = is_already_processed k w ≡ true
Settled k (failed stage e, w) = has_row k w.models ≡ true

module _ {L : LockStore} (t : Tools) (k user : String) where
  models-upload_chunks :
      (prefix : String) (cs : List (String × Bytes)) (keys : List String) (w : World L)
      → (upload_chunks t prefix cs keys w).1.models ≡ w.models
  unfolding upload_chunks
  models-upload_chunks prefix [] keys w = refl
  models-upload_chunks prefix ((name, c) ∷ cs) keys w =
      elim (Option-cases (t.store_error (prefix ++ "/" ++ name))) [
        | inl n ↦ rw (upload_chunks, n) (models-upload_chunks prefix cs _ _)
        | inr (e, s) ↦ rw (upload_chunks, s) refl
      ]

  Settled-finalize :
      (keys : List String) (w : World L)
      → has_row k w.models ≡ true
      → Settled k (finalize t k user keys w)
  unfolding finalize dispatch_webhook_event is_already_processed
  Settled-finalize keys w h = elim (Option-cases t.metadata_error) [
    | inr (e, s) ↦ rw s h
    | inl n ↦ elim (Option-cases t.ready_error) [
      | inr (e, s) ↦ rw (n, s) h
      | inl m ↦ elim (Option-cases t.webhook_error) [
        | inr (e, s) ↦
            rw (n, m, s, has_row-with_status k "ready" (some ("processed/" ++ k)) none w.models) h
        | inl o ↦
            rw (n, m, o)
              (terminal-with_status k "ready" (some ("processed/" ++ k)) none w.models refl h)
      ]
    ]
  ]

  after_failure :
      (stage : String) (e : PyError) (w : World L)
      → t.failed_error ≡ none
      → has_row k w.models ≡ true
      → is_already_processed k (handle_task_failure t.failed_error t.webhook_error k user stage e w)
        ≡ true
  unfolding is_already_processed handle_task_failure dispatch_webhook_event
  after_failure stage e w f h = elim (Option-cases t.webhook_error) [
    | inr (x, s) ↦ rw (f, s) (terminal-with_status k "failed" none (some _) w.models refl h)
    | inl n ↦ rw (f, n) (terminal-with_status k "failed" none (some _) w.models refl h)
  ]

  Settled-ended :
      (ty : StlType) (keys : List String) (r : Attempt (Unit {0}) × World L)
      → Settled k r
      → Settled k (ended ty keys r)
  Settled-ended ty keys (done u, w) h = h
  Settled-ended ty keys (failed stage e, w) h = h

  Settled-stored :
      (ty : StlType) (r : Attempt (List String) × World L)
      → has_row k r.1.models ≡ true
      → Settled k (stored t k user ty r)
  Settled-stored ty (done keys, w) h =
      Settled-ended ty keys (finalize t k user keys w) (Settled-finalize keys w h)
  Settled-stored ty (failed stage e, w) h = h

  Settled-run_stages :
      (key : String) (max : ℕ) (w : World L)
      → has_row k w.models ≡ true
      → Settled k (run_stages t k user key max w)
  unfolding run_stages
  Settled-run_stages key max w h =
      elim (t.download key) as (λ d. Settled k (downloaded t k user max w d)) [
        | throws e ↦ h
        | value file ↦
            elim (convert t max file)
              as (λ a. Settled k (converted t k user a (progressed k user w))) [
                | failed stage e ↦ h
                | done (ty, (c, final)) ↦ Settled-stored ty _ (
                    rw
                      (models-upload_chunks ("processed/" ++ k) (named_chunks c final) []
                        (progressed k user w))
                      h)
              ]
      ]

  -- Both handlers leave the model's row as `handle_task_failure` does.
  handled-terminal :
      (time_limit : Bool) (stage : String) (e : PyError) (w : World L)
      → t.failed_error ≡ none
      → has_row k w.models ≡ true
      → is_already_processed k (handled t k user time_limit stage e w).1 ≡ true
  unfolding is_already_processed handle_task_failure
  handled-terminal true stage e w f h =
      after_failure stage soft_time_limit (release_task_lock k task_name w) f h
  handled-terminal false stage e w f h = after_failure stage e w f h

  after_stages-terminal :
      (r : Attempt (StlType × List String) × World L)
      → t.failed_error ≡ none
      → Settled k r
      → is_already_processed k (after_stages t k user r).1 ≡ true
  unfolding after_stages is_already_processed
  after_stages-terminal (done (ty, keys), w) f h = h
  after_stages-terminal (failed stage e, w) f h = handled-terminal e.time_limit stage e w f h

module _ {L : LockStore} (t : Tools) (k : String) where
  no_key-terminal :
      (o : Option PyError) (w : World L)
      → has_row k w.models ≡ true
      → is_end (no_key o k w).0 ≡ true
      → is_already_processed k (no_key o k w).1 ≡ true
  unfolding is_already_processed
  no_key-terminal none w h e = terminal-with_status k "failed" none (some _) w.models refl h
  no_key-terminal (some x) w h e = cc

  in_directory-terminal :
      (o : Option PyError) (w : World L) (x : TaskResult × World L)
      → is_already_processed k x.1 ≡ true
      → is_end (in_directory o w x).0 ≡ true
      → is_already_processed k (in_directory o w x).1 ≡ true
  in_directory-terminal none w x h e = h
  in_directory-terminal (some y) w x h e = cc

  process_row-terminal :
      (row : ModelRow) (key : String) (w : World L)
      → t.failed_error ≡ none
      → has_row k w.models ≡ true
      → is_end (process_row t k row key w).0 ≡ true
      → is_already_processed k (process_row t k row key w).1 ≡ true
  unfolding process_row is_already_processed handle_task_failure
  process_row-terminal row key w f h e =
      elim (Bool-cases (ltb (get_plan_max_bytes row.plan) (size_or_0 row.file_size_bytes))) [
        | inl b ↦ rw b (after_failure t k row.uploaded_by "size_check" file_too_large w f h)
        | inr b ↦ rw b (
            in_directory-terminal t.directory_error w _
              (after_stages-terminal t k row.uploaded_by
                (run_stages t k row.uploaded_by key (get_plan_max_bytes row.plan) w) f
                (Settled-run_stages t k row.uploaded_by key (get_plan_max_bytes row.plan) w h))
              (rw b at e))
      ]

  keyed-terminal :
      (row : ModelRow) (key : Option String) (w : World L)
      → t.failed_error ≡ none
      → has_row k w.models ≡ true
      → is_end (keyed t k row key w).0 ≡ true
      → is_already_processed k (keyed t k row key w).1 ≡ true
  keyed-terminal row none w f h e = no_key-terminal t.status_error w h e
  keyed-terminal row (some key) w f h e = elim (Bool-cases (key == "")) [
    | inl b ↦ rw b (no_key-terminal t.status_error w h (rw b at e))
    | inr b ↦ rw b (process_row-terminal row key w f h (rw b at e))
  ]

  found-terminal :
      (r : Option ModelRow) (w : World L)
      → t.failed_error ≡ none
      → find_model k w.models ≡ r
      → is_end (process_found t k r w).0 ≡ true
      → is_already_processed k (process_found t k r w).1 ≡ true
  unfolding process_found
  found-terminal none w f e h = cc
  found-terminal (some row) w f e h =
      keyed-terminal row row.raw_s3_key w f (has_row-find k w.models e) h

  locked-terminal :
      (r : Bool × World L)
      → t.failed_error ≡ none
      → is_end (locked t k r).0 ≡ true
      → is_already_processed k (locked t k r).1 ≡ true
  locked-terminal (true, w) f h = by_read t.row_error h
    where
      by_read :
          (o : Option PyError)
          → is_end (row_read t k o w).0 ≡ true
          → is_already_processed k (row_read t k o w).1 ≡ true
      by_read none h = found-terminal (get_model_row k w) w f refl h
      by_read (some e) h = cc
  locked-terminal (false, w) f h = cc

  process_stl-terminal :
      (w : World L)
      → t.failed_error ≡ none
      → is_end (process_stl t k w).0 ≡ true
      → is_already_processed k (process_stl t k w).1 ≡ true
  unfolding process_stl
  process_stl-terminal w f h = elim (Bool-cases (is_already_processed k w)) [
    | inl b ↦ absurd (false-ne-true (rw b at h))
    | inr b ↦ rw b (locked-terminal (acquire_task_lock k task_name w) f (rw b at h))
  ]

  -- Whatever a delivery that took the task up answers, also where it asks Celery for a retry after
  -- a transient error, the next delivery of the task for that model does nothing, whatever its
  -- tools would answer. The update of the row in the failure handler must not fail itself.
  pub process_stl-once :
      (t2 : Tools) (w : World L)
      → t.failed_error ≡ none
      → is_end (process_stl t k w).0 ≡ true
      → process_stl t2 k (process_stl t k w).1 ≡ (already_processed, (process_stl t k w).1)
  unfolding process_stl
  process_stl-once t2 w f h = rw (process_stl-terminal w f h) refl
