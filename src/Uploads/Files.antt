-- ===== src/Uploads/Files.antt =====
-- services/storage.py: the checks of an upload's size and content types, and what it asks the
-- storage, which is a local directory or S3. What they answer is the record `Storage`: a failure is
-- its message.
use Prim.Native.String.{◌++◌}
use text.Mathlib.Text.{starts_with}
use open_format_3d_viewer.Prelude.{
  ℕ, String, Bool, ◌||◌, ◌⊎◌, inl, inr, List, [], ◌∷◌, ltb, ◌==◌, nat_eq, string_eq, ◌*◌, ◌/◌,
  if◌then◌else◌, decimal,
}
use open_format_3d_viewer.Core.Exceptions.{validation, file_too_large, storage}
use open_format_3d_viewer.Core.Session.{Result, ok, raised}
use open_format_3d_viewer.Uploads.Filenames.{Unicode, one_of, after_last_dot}

pub record Storage : Type 0 where
  pub is_local : Bool
  pub local_raw_path : String → String
  pub is_file : (path : String) → Bool
  pub size_of : (path : String) → ℕ
  pub read_file : (path : String) → (bytes : ℕ) → String ⊎ List ℕ
  pub presigned : (key content_type : String) → String ⊎ String
  pub head_object : (key : String) → String ⊎ ℕ
  pub get_object : (key : String) → (bytes : ℕ) → String ⊎ List ℕ

abbrev pub mebibyte : ℕ
mebibyte = 1024 * 1024

abbrev pub plan_max_upload_bytes : String → ℕ
plan_max_upload_bytes plan =
    if plan == "pro"
    then 500 * mebibyte
    else if plan == "enterprise"
    then 5 * 1024 * mebibyte
    else 50 * mebibyte

unfoldable pub validate_file_size : (size_bytes : ℕ) → (plan : String) → Result {0} Unit
validate_file_size size plan =
    if size == 0
    then raised (validation "File size must be greater than 0")
    else if ltb (plan_max_upload_bytes plan) size
    then raised (
        file_too_large (
          "File exceeds the "
          ++ plan
          ++ " plan limit of "
          ++ decimal (plan_max_upload_bytes plan / mebibyte)
          ++ "MB"))
    else ok tt

abbrev pub allowed_mime_types : List String
allowed_mime_types =
    "application/octet-stream" ∷ "application/json" ∷ "model/gltf+json" ∷ "model/gltf-binary"
    ∷ "model/step" ∷ "model/obj" ∷ "application/sla" ∷ "text/plain" ∷ []

unfoldable pub validate_mime_type_declared : (content_type : String) → Result {0} Unit
validate_mime_type_declared content_type =
    if one_of allowed_mime_types content_type
    then ok tt
    else raised (validation ("Unsupported content type '" ++ content_type ++ "'."))

abbrev pub text_based_formats : List String
text_based_formats = ".ifc" ∷ ".step" ∷ ".stp" ∷ ".obj" ∷ []

abbrev pub lower_extension : Unicode → (name : String) → String
lower_extension u name = "." ++ u.lower (after_last_dot name)

abbrev pub is_content_of : (ext detected : String) → Bool
is_content_of ext detected =
    if one_of text_based_formats ext
    then detected == "text/plain" || detected == "application/octet-stream"
    else if ext == ".gltf"
    then detected == "application/json" || detected == "text/plain"
    else one_of allowed_mime_types detected || starts_with detected "model/"

-- `magic.from_buffer(header_bytes, mime=True)`
abbrev pub detected_type : (from_buffer : List ℕ → String) → List ℕ → String
detected_type from_buffer [] = "application/octet-stream"
detected_type from_buffer (b ∷ bytes) = from_buffer (b ∷ bytes)

module _ (from_buffer : List ℕ → String) (u : Unicode) where
  unfoldable pub validate_mime_type_from_bytes :
      (header_bytes : List ℕ) → (declared_filename : String) → Result String
  validate_mime_type_from_bytes header name =
      let detected = detected_type from_buffer header in
      let ext = lower_extension u name in
      if is_content_of ext detected
      then ok detected
      else raised (
          validation (
            "File content does not match declared format '" ++ ext ++ "' (detected: " ++ detected
            ++ ")"))

-- A failed call of the storage raises a StorageException whose message begins with `what`.
abbrev pub or_storage_error : {A : Type 0} → (what : String) → String ⊎ A → Result A
or_storage_error what (inl message) = raised (storage (what ++ message))
or_storage_error what (inr a) = ok a

module _ (st : Storage) where
  -- The directory that local mode makes is not modelled.
  unfoldable pub generate_presigned_upload_url : (storage_key content_type : String) → Result String
  generate_presigned_upload_url key content_type =
      if st.is_local
      then ok ("local://" ++ key)
      else or_storage_error "Failed to generate upload URL: " (st.presigned key content_type)

  -- The size of the object.
  unfoldable pub verify_object_exists : (storage_key : String) → Result ℕ
  verify_object_exists key =
      if st.is_local
      then (if st.is_file (st.local_raw_path key)
          then ok (st.size_of (st.local_raw_path key))
          else raised (
              storage (
                "Upload not found in local storage: "
                ++ st.local_raw_path key
                ++ ". In local mode, copy your file to this path before calling /confirm.")))
      else or_storage_error "Failed to verify upload: " (st.head_object key)

  unfoldable pub fetch_object_header_bytes : (storage_key : String) → Result (List ℕ)
  fetch_object_header_bytes key =
      if st.is_local
      then or_storage_error "Failed to read local file: "
          (st.read_file (st.local_raw_path key) 2048)
      else or_storage_error "Failed to read uploaded file: " (st.get_object key 2048)
