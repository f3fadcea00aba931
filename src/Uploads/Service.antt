-- ===== src/Uploads/Service.antt =====
-- services/models.py: the life of a model from the request for an upload to its deletion, and what is
-- read of it. What one request finds outside the tables is the record `World`.
use Prim.Native.String.{◌++◌}
use open_format_3d_viewer.Prelude.{
  ℕ, suc, ◌+◌, ◌-◌, String, Bool, false, ◌&&◌, not, Option, none, some, List, [], ◌∷◌, map, select,
  ltb, ◌==◌, nat_eq, string_eq, if◌then◌else◌, decimal,
}
use open_format_3d_viewer.Core.Exceptions.{
  validation, unsupported_format, not_found, storage, internal,
}
use open_format_3d_viewer.Core.Session.{
  Result, ok, raised, Action, pure, raise, query, update, ◌>>=◌, ◌>>◌, scalar_one_or_none, or_raise,
}
use open_format_3d_viewer.Core.Rows.{User}
use open_format_3d_viewer.Core.Models.{
  Model, ModelElement, ModelMetadata, Properties, Store, scan_file, model_sync, raw_deleted,
  processed_deleted, insert_model, update_model_row, delete_model_row, send,
}
use open_format_3d_viewer.Uploads.Filenames.{Unicode, validate_filename, build_storage_key}
use open_format_3d_viewer.Uploads.Files.{
  Storage, validate_file_size, validate_mime_type_declared, validate_mime_type_from_bytes,
  lower_extension, generate_presigned_upload_url, verify_object_exists, fetch_object_header_bytes,
}

-- Which command of the quota raises a RedisError; a failing EXPIRE changes nothing that is counted.
pub data RedisFault : Type 0 where
  no_fault get_fails incr_fails : RedisFault

-- `new_id` is the UUID that the request draws; `uuid_text` and `uuid` are Python's `str` and parser of
-- UUIDs; `cdn_base` is CDN_BASE_URL without slashes at its end.
pub record World : Type 0 where
  pub unicode : Unicode
  pub from_buffer : List ℕ → String
  pub storage : Storage
  pub uuid_text : ℕ → String
  pub uuid : String → Option ℕ
  pub redis : RedisFault
  pub broker_up : Bool
  pub new_id : ℕ
  pub now : ℕ
  pub today : ℕ
  pub cdn_base : String

-- schemas/models.py, after validation
pub record ModelUploadRequest : Type 0 where
  pub project_id : ℕ
  pub filename : String
  pub content_type : String
  pub size_bytes : ℕ
  pub name : Option String

abbrev pub found_model : ℕ → Action Store Model
found_model model_id = do
  found ← query (λ s. scalar_one_or_none (select (λ m. m.id == model_id) s.models))
  query (λ s. or_raise (not_found "Model not found") found)

unfoldable pub get_model : ℕ → Action Store Model
unfolding or_raise
get_model model_id = found_model model_id

-- `PLAN_DAILY_UPLOAD_LIMITS.get(plan, …)`; `none` is infinity.
abbrev pub plan_daily_upload_limit : String → Option ℕ
plan_daily_upload_limit plan =
    if plan == "enterprise" then none else if plan == "pro" then some 100 else some 5

abbrev pub incremented : (user_id day : ℕ) → Store → Store
incremented user_id day s = record s {
  quota = λ u d. if u == user_id && d == day then suc (s.quota u d) else s.quota u d;
}

abbrev pub count_upload : RedisFault → (user : User) → (day limit : ℕ) → Action Store Unit
count_upload get_fails user day limit s = (ok tt, s)
count_upload incr_fails user day limit s = if ltb (s.quota user.id day) limit then (ok tt, s) else (
  raised (
      validation
        ("Daily upload limit of " ++ decimal limit ++ " reached for " ++ user.plan ++ " plan.")),
  s,
)
count_upload no_fault user day limit s =
    if ltb (s.quota user.id day) limit then (ok tt, incremented user.id day s) else (
      raised (
          validation (
            "Daily upload limit of " ++ decimal limit ++ " reached for " ++ user.plan ++ " plan.")),
      s,
    )

abbrev pub within_quota : RedisFault → (user : User) → (day : ℕ) → Option ℕ → Action Store Unit
within_quota fault user day none = pure tt
within_quota fault user day (some limit) = count_upload fault user day limit

-- `EXT_TO_FORMAT.get(ext)`
abbrev pub ext_to_format : String → Option String
ext_to_format ext =
    if ext == ".ifc"
    then some "ifc"
    else if ext == ".gltf"
    then some "gltf"
    else if ext == ".glb"
    then some "glb"
    else if ext == ".step"
    then some "step"
    else if ext == ".stp"
    then some "stp"
    else if ext == ".obj"
    then some "obj"
    else if ext == ".stl"
    then some "stl"
    else none

abbrev or_name : String → Option String → String
or_name safe none = safe
or_name safe (some name) = if name == "" then safe else name

module _ (w : World) where
  abbrev pub new_model : ModelUploadRequest → User → (safe_filename file_format : String) → Model
  new_model given user safe format = record {
    id = w.new_id;
    project_id = given.project_id;
    uploaded_by = user.id;
    original_filename = safe;
    name = some (or_name safe given.name);
    format = format;
    raw_s3_key = some (build_storage_key (w.uuid_text user.id) (w.uuid_text w.new_id) safe);
    processed_s3_prefix = none;
    file_size_bytes = some given.size_bytes;
    status = "pending";
    error_message = none;
    created_at = w.now;
    updated_at = w.now;
  }

  -- From the format on: the identifier, the URL and the storage key.
  abbrev pub store_upload :
      ModelUploadRequest → User → (safe_filename : String) → Action Store (ℕ × String × String)
  store_upload given user safe = do
    let ext = lower_extension w.unicode safe
    format ← query (λ s.
        or_raise (unsupported_format ("Unsupported file format: " ++ ext)) (ext_to_format ext))
    let key = build_storage_key (w.uuid_text user.id) (w.uuid_text w.new_id) safe
    insert_model (new_model given user safe format)
    url ← query (λ s. generate_presigned_upload_url w.storage key given.content_type)
    pure (w.new_id, url, key)

  unfoldable pub initiate_upload : ModelUploadRequest → User → Action Store (ℕ × String × String)
  initiate_upload given user = do
    safe ← query (λ s. validate_filename w.unicode given.filename)
    size ← query (λ s. validate_file_size given.size_bytes user.plan)
    declared ← query (λ s. validate_mime_type_declared given.content_type)
    counted ← within_quota w.redis user w.today (plan_daily_upload_limit user.plan)
    store_upload given user safe

  abbrev pub failed_with : String → Model → Model
  failed_with message m = record m {
    status = "failed";
    error_message = some message;
    updated_at = w.now;
  }

  -- A model is given up: `status = "failed"`, commit, raise.
  abbrev pub fail_model : (stored message : String) → Model → Action Store Unit
  fail_model stored message m =
      update_model_row (failed_with stored m) >> raise (validation message)

  -- A key that is None makes boto3 and os.path raise.
  abbrev pub key_size : Option String → Result ℕ
  key_size none =
      if w.storage.is_local
      then raised (internal "TypeError")
      else raised (storage "Failed to verify upload")
  key_size (some key) = verify_object_exists w.storage key

  abbrev pub key_header : Option String → Result (List ℕ)
  key_header none =
      if w.storage.is_local
      then raised (internal "TypeError")
      else raised (storage "Failed to read uploaded file")
  key_header (some key) = fetch_object_header_bytes w.storage key

  abbrev pub check_pending : Model → Action Store Unit
  check_pending m =
      if m.status == "pending"
      then pure tt
      else raise (validation ("Model is not in pending state (current: " ++ m.status ++ ")"))

  -- `abs(size - declared) > 1024`
  abbrev pub is_size_mismatch : Option ℕ → (size : ℕ) → Bool
  is_size_mismatch none size = false
  is_size_mismatch (some declared) size =
      not (declared == 0) && ltb 1024 ((size - declared) + (declared - size))

  abbrev pub check_size : Model → (size : ℕ) → Action Store Unit
  check_size m size =
      if is_size_mismatch m.file_size_bytes size
      then fail_model "Uploaded file size does not match declared size"
          "Uploaded file size mismatch" m
      else pure tt

  abbrev pub header_content : Model → Result (List ℕ) → Result String
  header_content m (raised e) = raised e
  header_content m (ok header) =
      validate_mime_type_from_bytes w.from_buffer w.unicode header m.original_filename

  -- `except ValidationException`
  abbrev pub caught : Model → Result String → Action Store Unit
  caught m (ok detected) = pure tt
  caught m (raised (validation message)) = fail_model message message m
  caught m (raised e) = raise e

  abbrev pub check_content : Model → Action Store Unit
  check_content m = caught m (header_content m (key_header m.raw_s3_key))

  abbrev pub confirmed : Model → (size : ℕ) → Model
  confirmed m size = record m {
    status = "processing";
    file_size_bytes = some size;
    updated_at = w.now;
  }

  abbrev pub trigger_clamav_scan :
      (model_id : ℕ) → (storage_key : Option String) → Action Store Unit
  trigger_clamav_scan model_id key =
      if w.broker_up then send (scan_file model_id key) else raise (internal "OperationalError")

  abbrev pub confirm_found : Model → Action Store Model
  confirm_found m = do
    check_pending m
    size ← query (λ s. key_size m.raw_s3_key)
    check_size m size
    check_content m
    update_model_row (confirmed m size)
    trigger_clamav_scan m.id m.raw_s3_key
    send (model_sync m.uploaded_by m.id "processing")
    pure (confirmed m size)

  unfoldable pub confirm_upload : ℕ → Action Store Model
  confirm_upload model_id = do m ← get_model model_id; confirm_found m

-- Failures of the storage are logged and passed over.
abbrev pub clean_raw : Option String → Action Store Unit
clean_raw none = pure tt
clean_raw (some key) = if key == "" then pure tt else send (raw_deleted key)

abbrev pub clean_processed : Option String → Action Store Unit
clean_processed none = pure tt
clean_processed (some prefix) = if prefix == "" then pure tt else send (processed_deleted prefix)

unfoldable pub delete_model : ℕ → Action Store Unit
unfolding get_model
delete_model model_id = do
  m ← get_model model_id
  clean_raw m.raw_s3_key
  clean_processed m.processed_s3_prefix
  update (delete_model_row m.id)

unfoldable pub get_element_by_guid : ℕ → (guid : String) → Action Store ModelElement
get_element_by_guid model_id guid = do
  found ←
      query (λ s.
        scalar_one_or_none (select (λ e. e.model_id == model_id && e.guid == guid) s.elements))
  query (λ s. or_raise (not_found "Element not found") found)

unfoldable pub get_tree : ℕ → Action Store (Option String)
get_tree model_id = do
  found ← query (λ s. scalar_one_or_none (select (λ x. x.model_id == model_id) s.metadata))
  metadata ← query (λ s. or_raise (not_found "Model metadata not found") found)
  pure metadata.spatial_tree

module _ (w : World) where
  abbrev pub build_cdn_url : (processed_key : String) → String
  build_cdn_url key = if w.storage.is_local then "/files/" ++ key else w.cdn_base ++ "/" ++ key

  abbrev by_prefix : Option String → List String
  by_prefix none = []
  by_prefix (some prefix) = if prefix == "" then [] else build_cdn_url prefix ∷ []

  -- `if keys and isinstance(keys, list)`
  abbrev keys_or : Option (List String) → List String → List String
  keys_or none others = others
  keys_or (some []) others = others
  keys_or (some (k ∷ keys)) others = map build_cdn_url (k ∷ keys)

  abbrev pub by_properties : Option Properties → List String → List String
  by_properties none others = others
  by_properties (some p) others = keys_or p.processed_keys (keys_or p.xkt_chunks others)

  abbrev pub by_metadata : Option ModelMetadata → List String → List String
  by_metadata none others = others
  by_metadata (some x) others = by_properties x.properties others

  unfoldable pub get_chunks : ℕ → Action Store (List String)
  get_chunks model_id = do
    m ← get_model model_id
    metadata ← query (λ s. scalar_one_or_none (select (λ x. x.model_id == model_id) s.metadata))
    pure (by_metadata metadata (by_prefix m.processed_s3_prefix))
