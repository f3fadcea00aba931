-- ===== src/Worker/Tests.antt =====
-- Runs of the worker's tasks at concrete inputs.
use open_format_3d_viewer.Prelude.{
  ℕ, zero, suc, String, ◌≡◌, refl, ap, subst, Bool, true, false, not, Option, none, some, List, [],
  ◌∷◌, ◌≤◌, length, any, select, All, ◌==◌, nat_eq, string_eq, arith, Bool-cases, inl, inr,
}
use open_format_3d_viewer.Worker.Chunks.{Bytes, join, split_xkt_chunks, split_xkt_chunks_lem}
use open_format_3d_viewer.Worker.Common.{
  PyError, LockStore, World, ModelRow, lock_key, or_same, acquire_task_lock, get_plan_max_bytes,
  is_retryable, is_already_processed,
}
use open_format_3d_viewer.Worker.Stl.Detect.{binary, binary_stl, detect_stl_type, detect-binary_stl}
use open_format_3d_viewer.Worker.Stl.Task.{
  Tools, value, throws, missing, already_processed, retry, run_stages,
}
use open_format_3d_viewer.Worker.Stl.Process.{process_stl, task_name}
use open_format_3d_viewer.Worker.Stl.Process.Terminal.{process_stl-once}
use open_format_3d_viewer.Worker.Stl.Process.Lock.{lock_left, process_stl-lock}

abbrev three : Bytes
three = 7 ∷ 8 ∷ 9 ∷ []

split_xkt_chunks_example :
    (join (split_xkt_chunks 2 ((1 ∷ []) ∷ three ∷ [])) ≡ 1 ∷ 7 ∷ 8 ∷ 9 ∷ [])
    × All (λ b. length b ≤ 2) (split_xkt_chunks 2 ((1 ∷ []) ∷ three ∷ []))
split_xkt_chunks_example = split_xkt_chunks_lem 2 ((1 ∷ []) ∷ three ∷ []) (omega arith)

abbrev repeat_byte : ℕ → ℕ → Bytes
repeat_byte zero b = []
repeat_byte (suc n) b = b ∷ repeat_byte n b

detect-binary_stl_example :
    detect_stl_type (binary_stl (repeat_byte 80 32) 1 (repeat_byte 50 0)) ≡ binary
detect-binary_stl_example =
    detect-binary_stl (repeat_byte 80 32) 1 (repeat_byte 50 0) refl (omega arith) refl

-- A Redis that always answers, as the list of its keys.
abbrev pub has_key : String → List String → Bool
has_key k s = any (λ x. x == k) s

abbrev pub set_key : Bool → String → List String → Option Bool × List String
set_key true k s = (some false, s)
set_key false k s = (some true, k ∷ s)

abbrev pub without : String → List String → List String
without k s = select (λ x. not (x == k)) s

pub set_key-sets :
    (b : Bool) (k : String) (s : List String)
    → (set_key b k s).0 ≡ some true
    → has_key k (set_key b k s).1 ≡ true
set_key-sets true k s e = cc
set_key-sets false k s e = rw (string_eq.complete k k refl) refl

pub set_key-free :
    (b : Bool) (k : String) (s : List String) → (set_key b k s).0 ≡ some true → b ≡ false
set_key-free true k s e = cc
set_key-free false k s e = refl

pub has_key-without : (k : String) (s : List String) → has_key k (without k s) ≡ false
has_key-without k [] = refl
has_key-without k (x ∷ s) = elim (Bool-cases (x == k)) [
  | inl t ↦ rw t (has_key-without k s)
  | inr t ↦ rw (t, t) (has_key-without k s)
]

abbrev pub key_list : LockStore
key_list = record {
  Keys = List String;
  holds = has_key;
  set_nx = λ k s. set_key (has_key k s) k s;
  delete = λ k s. some (without k s);
  set_nx-true = λ k s e. set_key-sets (has_key k s) k s e;
  set_nx-held = λ k s e. set_key-free (has_key k s) k s e;
  delete-holds =
      λ k s t e. subst (λ u. has_key k u ≡ false) (ap (or_same []) e) (has_key-without k s);
}

abbrev refused : PyError
refused = record {
  type_name = "ConnectionError";
  transient = true;
  time_limit = false;
  message = "Connection refused";
}

-- The storage does not answer.
abbrev pub down : Tools
down = record {
  download = λ key. throws refused;
  load = λ b. value none;
  repair = λ m. m;
  export = λ m. value [];
  draco = λ b. missing;
  store_error = λ key. none;
  cdn_url = λ key. key;
  metadata_error = none;
  ready_error = none;
  failed_error = none;
  webhook_error = none;
  row_error = none;
  status_error = none;
  directory_error = none;
}

abbrev pub pending : ModelRow
pending = record {
  id = "m";
  uploaded_by = "u";
  raw_s3_key = some "raw/m.stl";
  processed_s3_prefix = none;
  status = "processing";
  format = "stl";
  file_size_bytes = some 84;
  plan = none;
  error_message = none;
}

abbrev pub idle : World key_list
idle = record {
  models = pending ∷ [];
  webhooks = [];
  locks = [];
  published = [];
  sent = [];
  raw_objects = [];
  uploads = [];
  metadata = [];
}

down_retries : (process_stl down "m" idle).0 ≡ retry refused
unfolding process_stl is_already_processed acquire_task_lock get_plan_max_bytes run_stages
    is_retryable
down_retries = refl

process_stl-once_example :
    process_stl (record down { download = λ key. value [] }) "m" (process_stl down "m" idle).1
    ≡ (already_processed, (process_stl down "m" idle).1)
process_stl-once_example =
    process_stl-once down "m" (record down { download = λ key. value [] }) idle refl
      (rw down_retries refl)

idle_unprocessed : is_already_processed "m" idle ≡ false
unfolding is_already_processed
idle_unprocessed = refl

process_stl-lock_example :
    has_key (lock_key task_name "m") (process_stl down "m" idle).1.locks
    ≡ lock_left (process_stl down "m" idle).0
process_stl-lock_example =
    process_stl-lock down "m" idle (λ s. (without (lock_key task_name "m") s, refl))
      idle_unprocessed refl
