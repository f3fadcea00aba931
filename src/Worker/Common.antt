-- ===== src/Worker/Common.antt =====
-- tasks/common.py and tasks/error_handler.py: the model rows, the events, the task lock and the
-- failure handler. Identifiers are texts here, as the tasks pass them. PostgreSQL's tables are the
-- lists of their rows; the lock in Redis is a parameter.
use Prim.Native.String.{◌++◌}
use mathlib.Core.List.{◌++◌ as list_append}
use open_format_3d_viewer.Prelude.{
  clip, ℕ, ◌*◌, ◌≡◌, String, Bool, true, false, ◌&&◌, not, Option, none, some, List, [], ◌∷◌, map,
  select, any, ◌==◌, nat_eq, string_eq, if◌then◌else◌,
}
use open_format_3d_viewer.Worker.Chunks.{Bytes}

-- `SELECT m.id, m.uploaded_by, … u.plan FROM models m JOIN users u …`
pub record ModelRow : Type 0 where
  pub id : String
  pub uploaded_by : String
  pub raw_s3_key : Option String
  pub processed_s3_prefix : Option String
  pub status : String
  pub format : String
  pub file_size_bytes : Option ℕ
  pub plan : Option String
  pub error_message : Option String

pub record WebhookRow : Type 0 where
  pub id : String
  pub user_id : String
  pub url : String
  pub secret : String
  pub events : Option (List String)
  pub is_active : Bool

-- A message on `model_events:{user_id}`.
pub data Event : Type 0 where
  model_ready : (user_id model_id : String) → List String → Event
  model_failed : (user_id model_id error : String) → Event
  model_processing : (user_id model_id : String) → ℕ → (stage : String) → Event

-- A task sent to a queue, with its arguments.
pub record Sent : Type 0 where
  pub task : String
  pub args : List String
  pub payload : List (String × String)
  pub queue : String

-- What a task sees of an exception: its class's name, whether it is an instance of one of
-- `_RETRYABLE_BASES`, whether it is `SoftTimeLimitExceeded`, and `str(exc)`.
pub record PyError : Type 0 where
  pub type_name : String
  pub transient : Bool
  pub time_limit : Bool
  pub message : String

-- The Redis key of a lock: `SET key 1 NX EX ttl` answers whether it set the key, and `DEL` drops it;
-- `none` is a connection error, which leaves the keys as they were.
pub record LockStore : Type 1 where
  pub Keys : Type 0
  pub holds : String → Keys → Bool
  pub set_nx : String → Keys → Option Bool × Keys
  pub delete : String → Keys → Option Keys
  pub set_nx-true :
      (k : String) (s : Keys) → (set_nx k s).0 ≡ some true → holds k (set_nx k s).1 ≡ true
  pub set_nx-held : (k : String) (s : Keys) → (set_nx k s).0 ≡ some true → holds k s ≡ false
  pub delete-holds : (k : String) (s t : Keys) → delete k s ≡ some t → holds k t ≡ false

pub record World (L : LockStore) : Type 0 where
  pub models : List ModelRow
  pub webhooks : List WebhookRow
  pub locks : L.Keys
  pub published : List Event
  pub sent : List Sent
  pub raw_objects : List (String × Bytes)
  pub uploads : List (String × Bytes)
  pub metadata : List (String × List String)

abbrev free_max : ℕ
free_max = 50 * 1024 * 1024

-- `PLAN_MAX_UPLOAD_BYTES.get(plan, …)`
unfoldable pub get_plan_max_bytes : Option String → ℕ
get_plan_max_bytes none = free_max
get_plan_max_bytes (some plan) =
    if plan == "pro"
    then 500 * 1024 * 1024
    else if plan == "enterprise"
    then 5 * 1024 * 1024 * 1024
    else free_max

abbrev permanent_names : List String
permanent_names =
    "GltfValidationError" ∷ "ValidationError" ∷ "FileTooLargeError" ∷ "SoftTimeLimitExceeded"
    ∷ "ImportError" ∷ "ModuleNotFoundError" ∷ "RuntimeError" ∷ "ValueError" ∷ "TypeError"
    ∷ "AttributeError" ∷ []

unfoldable pub is_retryable : PyError → Bool
is_retryable exc = not (any (λ n. n == exc.type_name) permanent_names) && exc.transient

-- `if not acquired: …`; an unavailable Redis lets the task go on.
abbrev pub or_open : Option Bool → Bool
or_open none = true
or_open (some b) = b

abbrev pub or_same {ℓ} : {A : Type ℓ} → A → Option A → A
or_same a none = a
or_same a (some b) = b

unfoldable pub find_model : String → List ModelRow → Option ModelRow
find_model model_id [] = none
find_model model_id (m ∷ ms) = if m.id == model_id then some m else find_model model_id ms

-- `error_message[:2000]`, and the other columns only where they are given
abbrev pub with_status : String → String → (prefix error : Option String) → ModelRow → ModelRow
with_status model_id status prefix error m =
    if m.id == model_id
    then record m {
      status = status;
      processed_s3_prefix = elim prefix [ none ↦ m.processed_s3_prefix | some p ↦ some p ];
      error_message = elim error [ none ↦ m.error_message | some e ↦ some (clip 2000 e) ];
    }
    else m

abbrev pub is_terminal : String → Bool
is_terminal status = any (λ s. s == status) ("ready" ∷ "failed" ∷ [])

abbrev pub terminal_row : Option ModelRow → Bool
terminal_row none = false
terminal_row (some row) = is_terminal row.status

abbrev pub lock_key : (task_name model_id : String) → String
lock_key task_name model_id = "task_lock:" ++ task_name ++ ":" ++ model_id

-- `if events and event in events`
abbrev subscribed : String → Option (List String) → Bool
subscribed event none = false
subscribed event (some es) = any (λ e. e == event) es

abbrev deliveries : String → List (String × String) → List WebhookRow → List Sent
deliveries event payload [] = []
deliveries event payload (h ∷ hs) =
    let rest = deliveries event payload hs in
    if subscribed event h.events
    then record {
      task = "app.tasks.webhook.dispatch_webhook";
      args = h.id ∷ event ∷ [];
      payload = payload;
      queue = "webhook";
    }
      ∷ rest
    else rest

module _ {L : LockStore} where
  abbrev pub get_model_row : String → World L → Option ModelRow
  get_model_row model_id w = find_model model_id w.models

  abbrev pub update_model_status :
      String → String → (prefix error : Option String) → World L → World L
  update_model_status model_id status prefix error w = record w {
    models = map (with_status model_id status prefix error) w.models;
  }

  unfoldable pub is_already_processed : String → World L → Bool
  unfolding find_model
  is_already_processed model_id w = terminal_row (get_model_row model_id w)

  unfoldable pub acquire_task_lock : (model_id task_name : String) → World L → Bool × World L
  acquire_task_lock model_id task_name w =
      let (answer, keys) = L.set_nx (lock_key task_name model_id) w.locks in
      (or_open answer, record w { locks = keys })

  abbrev pub release_task_lock : (model_id task_name : String) → World L → World L
  release_task_lock model_id task_name w = record w {
    locks = or_same w.locks (L.delete (lock_key task_name model_id) w.locks);
  }

  abbrev pub publish : Event → World L → World L
  publish e w = record w { published = list_append w.published (e ∷ []) }

  unfoldable pub dispatch_webhook_event :
      (event : String) → List (String × String) → (user_id : String) → World L → World L
  dispatch_webhook_event event payload user_id w = record w {
    sent =
        list_append w.sent
          (deliveries event payload (select (λ h. h.user_id == user_id && h.is_active) w.webhooks));
  }

  -- The status update and the sending of webhooks raise what `update_error` and `webhook_error` say,
  -- if anything; both are logged and swallowed.
  unfoldable pub handle_task_failure :
      (update_error webhook_error : Option PyError) (model_id user_id stage : String)
      → PyError
      → World L
      → World L
  unfolding dispatch_webhook_event
  handle_task_failure update_error webhook_error model_id user_id stage exc w =
      let error_detail = clip 400 exc.message in
      let error_message = "[" ++ stage ++ "] " ++ exc.type_name ++ ": " ++ error_detail in
      let marked : World L = elim update_error [
        | none ↦ update_model_status model_id "failed" none (some error_message) w
        | some e ↦ w
      ] in
      let told = publish (model_failed user_id model_id (clip 500 error_message)) marked in
      elim webhook_error [
        | none ↦
            dispatch_webhook_event "model.failed"
              (("model_id", model_id) ∷ ("error", error_detail) ∷ []) user_id told
        | some e ↦ told
      ]
