-- ===== src/Uploads/Routes.antt =====
-- routers/models.py: the routes of models, each with the role that it requires; the two listings are
-- Paging's. The caller is the user of `get_current_user`.
pub mod Access
pub mod Keys
pub mod Kept
pub mod Uncounted
pub mod Quota
pub mod Scanned
pub mod Scans
use Prim.Native.Char.{Char, code}
use Prim.Native.String
use Prim.Native.String.{◌++◌}
use open_format_3d_viewer.Prelude.{
  ℕ, String, Bool, true, false, ◌||◌, not, Option, none, some, ◌⊎◌, inl, inr, List, [], ◌∷◌, select,
  ◌==◌, nat_eq, string_eq, if◌then◌else◌,
}
use open_format_3d_viewer.Core.Exceptions.{Exception, http_exception, authorization}
use open_format_3d_viewer.Core.Session.{
  Result, ok, raised, Action, pure, raise, query, update, ◌>>=◌, ◌>>◌,
}
use open_format_3d_viewer.Core.Rows.{User, ProjectMember}
use open_format_3d_viewer.Core.Models.{Model, ModelElement, Store, raw_written, send, on_db}
use open_format_3d_viewer.Projects.Authorization.{
  get_project_member, require_role_for_project, role_hierarchy, level_lt,
}
use open_format_3d_viewer.Uploads.Filenames.{has_dots, starts_with_char}
use open_format_3d_viewer.Uploads.Service.{
  World, ModelUploadRequest, get_model, initiate_upload, confirm_upload, delete_model,
  get_element_by_guid, get_tree, get_chunks,
}

abbrev with_head : Char → List String → List String
with_head c [] = String.◌∷◌ c String.[] ∷ []
with_head c (s ∷ parts) = String.◌∷◌ c s ∷ parts

-- `s.split("/")`
abbrev pub split_slash : String → List String
split_slash String.[] = String.[] ∷ []
split_slash (String.◌∷◌ c s) =
    let rest = split_slash s in if code c == 47 then String.[] ∷ rest else with_head c rest

-- The middle one of exactly three.
abbrev pub middle : List String → Option String
middle (a ∷ b ∷ c ∷ []) = some b
middle parts = none

abbrev pub invalid_key : {A : Type 0} → Result A
invalid_key = raised (http_exception 400 "Invalid storage_key.")

abbrev pub parsed_id : (uuid : String → Option ℕ) → Option String → Result ℕ
parsed_id uuid none = invalid_key
parsed_id uuid (some part) = found_id (uuid part)
  where
    found_id : Option ℕ → Result ℕ
    found_id none = invalid_key
    found_id (some id) = ok id

abbrev pub key_model_id : (uuid : String → Option ℕ) → (storage_key : String) → Result ℕ
key_model_id uuid key =
    if has_dots key || starts_with_char 47 key
    then invalid_key
    else parsed_id uuid (middle (split_slash key))

-- A request; `written` is whether the file can be written.
pub data Call : Type 0 where
  upload : ModelUploadRequest → Call
  upload_local : (storage_key : String) → (contents : List ℕ) → (written : Bool) → Call
  confirm get_one delete_one tree chunks : (model_id : ℕ) → Call
  element_by_guid : (model_id : ℕ) → (guid : String) → Call

pub data Reply : Type 0 where
  uploading : (model_id : ℕ) → (upload_url storage_key : String) → Reply
  saved : (storage_key path : String) → Reply
  model : Model → Reply
  element : ModelElement → Reply
  tree_of : Option String → Reply
  chunks_of : List String → Reply
  no_content : Reply

abbrev pub save : (path : String) → (contents : List ℕ) → (written : Bool) → Action Store Unit
save path [] written = raise (http_exception 400 "Uploaded file is empty.")
save path (b ∷ contents) true = send (raw_written path (b ∷ contents))
save path (b ∷ contents) false = raise (http_exception 500 "Failed to save uploaded file")

abbrev pub check_admin : ProjectMember → Action Store Unit
check_admin member =
    if level_lt (role_hierarchy member.role) (role_hierarchy "admin")
    then raise (authorization "This action requires 'admin' role.")
    else pure tt

module _ (w : World) (caller : User) where
  abbrev pub upload_local_file :
      (storage_key : String) → (contents : List ℕ) → (written : Bool) → Action Store Reply
  upload_local_file key contents written =
      if w.storage.is_local
      then (do
        id ← query (λ s. key_model_id w.uuid key)
        m ← get_model id
        member ← on_db (require_role_for_project m.project_id "editor" caller)
        save (w.storage.local_raw_path key) contents written
        pure (saved key (w.storage.local_raw_path key)))
      else raise (
          http_exception 404
            "Direct upload endpoint is only available when STORAGE_PROVIDER=local.")

  -- The model of a route that reads it.
  abbrev pub readable : ℕ → Action Store Model
  readable id = do m ← get_model id; member ← on_db (get_project_member m.project_id caller); pure m

  abbrev pub upload_route : ModelUploadRequest → Action Store Reply
  upload_route given = do
    member ← on_db (require_role_for_project given.project_id "editor" caller)
    (id, url, key) ← initiate_upload w given caller
    pure (uploading id url key)

  abbrev pub confirm_route : (model_id : ℕ) → Action Store Reply
  confirm_route id = do
    m ← get_model id
    member ← on_db (require_role_for_project m.project_id "editor" caller)
    response ← confirm_upload w id
    pure (model response)

  abbrev pub get_one_route : (model_id : ℕ) → Action Store Reply
  get_one_route id = do m ← readable id; pure (model m)

  abbrev pub delete_one_route : (model_id : ℕ) → Action Store Reply
  delete_one_route id = do
    m ← get_model id
    member ← on_db (get_project_member m.project_id caller)
    check_admin member
    deleted ← delete_model id
    pure no_content

  abbrev pub tree_route : (model_id : ℕ) → Action Store Reply
  tree_route id = do m ← readable id; found ← get_tree id; pure (tree_of found)

  abbrev pub chunks_route : (model_id : ℕ) → Action Store Reply
  chunks_route id = do m ← readable id; found ← get_chunks w id; pure (chunks_of found)

  abbrev pub element_by_guid_route : (model_id : ℕ) → (guid : String) → Action Store Reply
  element_by_guid_route id guid = do
    m ← readable id
    found ← get_element_by_guid id guid
    pure (element found)

  unfoldable pub handle : Call → Action Store Reply
  handle (upload given) = upload_route given
  handle (upload_local key contents written) = upload_local_file key contents written
  handle (confirm id) = confirm_route id
  handle (get_one id) = get_one_route id
  handle (delete_one id) = delete_one_route id
  handle (tree id) = tree_route id
  handle (chunks id) = chunks_route id
  handle (element_by_guid id guid) = element_by_guid_route id guid

-- Requests one after the other, each with its caller and what it finds.
pub record Request : Type 0 where
  pub world : World
  pub caller : User
  pub call : Call

unfoldable pub run : List Request → Store → Store
unfolding handle
run [] s = s
run (r ∷ rest) s = run rest (handle r.world r.caller r.call s).1
