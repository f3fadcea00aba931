-- ===== src/Uploads/Tests.antt =====
-- The theorems on uploads at concrete stores, in local mode.
use Prim.Native.Char.{code}
use open_format_3d_viewer.Prelude.{
  ℕ, ◌+◌, ◌≤◌, ◌≡◌, refl, true, false, String, Option, none, some, inr, List, [], ◌∷◌, ◌==◌, nat_eq,
  string_eq, ltb, ◌&&◌, not, if◌then◌else◌, arith,
}
use open_format_3d_viewer.Core.Exceptions.{Exception}
use open_format_3d_viewer.Core.Session.{ok, raised, scalar_one_or_none, or_raise}
use open_format_3d_viewer.Core.Models.{Model, Store, insert_model, update_model_row}
use open_format_3d_viewer.Projects.Authorization.{
  require_role_for_project, level_lt, role_hierarchy,
}
use open_format_3d_viewer.Projects.Tests.{account, two_admins}
use open_format_3d_viewer.Uploads.Filenames.{Unicode, validate_filename, build_storage_key}
use open_format_3d_viewer.Uploads.Filenames.Safe.{IsSafe, validate_filename-IsSafe}
use open_format_3d_viewer.Uploads.Routes.Keys.{key_model_id-build_storage_key}
use open_format_3d_viewer.Uploads.Files.{
  Storage, validate_file_size, validate_mime_type_declared, validate_mime_type_from_bytes,
  generate_presigned_upload_url, verify_object_exists, fetch_object_header_bytes,
}
use open_format_3d_viewer.Uploads.Service.{
  World, ModelUploadRequest, no_fault, get_model, initiate_upload, confirm_upload,
}
use open_format_3d_viewer.Uploads.Routes.{Request, upload, confirm, handle, run, key_model_id}
use open_format_3d_viewer.Uploads.Routes.Access.{may, routes-denied}
use open_format_3d_viewer.Uploads.Routes.Quota.{uploads_started, uploads_started-bound}
use open_format_3d_viewer.Uploads.Routes.Scans.{run-scanned_once}
use open_format_3d_viewer.Uploads.Routes.Scanned.{scans}

abbrev pub ascii : Unicode
ascii = record {
  is_word = λ c. ltb 47 (code c) && not (ltb 122 (code c));
  is_space = λ c. code c == 32;
  lower = λ s. s;
}

abbrev disk : Storage
disk = record {
  is_local = true;
  local_raw_path = λ key. key;
  is_file = λ path. true;
  size_of = λ path. 10;
  read_file = λ path n. inr (105 ∷ 102 ∷ []);
  presigned = λ key t. inr key;
  head_object = λ key. inr 10;
  get_object = λ key n. inr (105 ∷ []);
}

abbrev world : World
world = record {
  unicode = ascii;
  from_buffer = λ bytes. "text/plain";
  storage = disk;
  uuid_text = λ n. "u";
  uuid = λ s. some 7;
  redis = no_fault;
  broker_up = true;
  new_id = 9;
  now = 5;
  today = 1;
  cdn_base = "https://cdn";
}

abbrev waiting : Model
waiting = record {
  id = 7;
  project_id = 10;
  uploaded_by = 1;
  original_filename = "tower.ifc";
  name = none;
  format = "ifc";
  raw_s3_key = some "u/u/tower.ifc";
  processed_s3_prefix = none;
  file_size_bytes = some 10;
  status = "pending";
  error_message = none;
  created_at = 0;
  updated_at = 0;
}

abbrev pub shelf : Store
shelf = record {
  db = two_admins;
  models = waiting ∷ [];
  elements = [];
  metadata = [];
  quota = λ u d. if u == 1 && d == 1 then 4 else 0;
  sent = [];
}

abbrev tower_file : ModelUploadRequest
tower_file = record {
  project_id = 10;
  filename = "tower.ifc";
  content_type = "text/plain";
  size_bytes = 10;
  name = none;
}

stranger : may world (confirm 7) (account 3) shelf ≡ false
unfolding may
stranger = refl

routes-denied_example :
    (e : Exception) × (handle world (account 3) (confirm 7) shelf ≡ (raised e, shelf))
routes-denied_example = routes-denied world (confirm 7) (account 3) shelf stranger

-- The fifth upload of the day and a sixth one.
abbrev two_uploads : List Request
two_uploads =
    record { world = world; caller = account 1; call = upload tower_file }
    ∷ record { world = record world { new_id = 8 }; caller = account 1; call = upload tower_file }
    ∷ []

uploads_started-bound_example : uploads_started 1 1 two_uploads shelf + 4 ≤ 5
uploads_started-bound_example =
    uploads_started-bound 1 1 5 two_uploads shelf
      ((λ a b. (refl, refl)), ((λ a b. (refl, refl)), tt)) (omega arith)

two_uploads-started : uploads_started 1 1 two_uploads shelf ≡ 1
unfolding uploads_started require_role_for_project scalar_one_or_none or_raise level_lt
    role_hierarchy initiate_upload validate_filename validate_file_size validate_mime_type_declared
    insert_model generate_presigned_upload_url
two_uploads-started = refl

abbrev two_confirmations : List Request
two_confirmations =
    record { world = world; caller = account 1; call = confirm 7 }
    ∷ record { world = world; caller = account 2; call = confirm 7 }
    ∷ []

run-scanned_once_example : scans 7 (run two_confirmations shelf).sent ≤ 1
run-scanned_once_example = run-scanned_once 7 two_confirmations shelf (refl, (refl, tt)) refl

two_confirmations-scanned : scans 7 (run two_confirmations shelf).sent ≡ 1
unfolding run get_model scalar_one_or_none require_role_for_project level_lt role_hierarchy
    confirm_upload verify_object_exists fetch_object_header_bytes validate_mime_type_from_bytes
    update_model_row
two_confirmations-scanned = refl

tower_name-accepted : validate_filename ascii "tower.ifc" ≡ ok "tower.ifc"
unfolding validate_filename
tower_name-accepted = refl

abbrev tower_name : String
tower_name = "tower.ifc"

validate_filename-IsSafe_example : (tower_name ≡ tower_name) × IsSafe ascii tower_name
validate_filename-IsSafe_example =
    validate_filename-IsSafe ascii tower_name tower_name tower_name-accepted

abbrev one_uuid : String → Option ℕ
one_uuid s = if s == "b-2" then some 2 else none

key_model_id-build_storage_key_example :
    key_model_id one_uuid (build_storage_key "a-1" "b-2" "tower.ifc") ≡ ok 2
key_model_id-build_storage_key_example =
    key_model_id-build_storage_key ascii one_uuid "a-1" "b-2" "tower.ifc" "tower.ifc" 2
      (record { filled = refl; dot = refl; slash = refl })
      (record { filled = refl; dot = refl; slash = refl }) refl tower_name-accepted
