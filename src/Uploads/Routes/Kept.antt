-- ===== src/Uploads/Routes/Kept.antt =====
-- What the requests other than uploads and confirmations keep.
use open_format_3d_viewer.Prelude.{
  ℕ, String, ◌≡◌, refl, sym, subst, Option, none, some, inl, inr, Bool, true, false, List, [], ◌∷◌,
  ◌==◌, nat_eq, string_eq, ◌&&◌, select, arith,
}
use open_format_3d_viewer.Core.Session.{
  Result, ok, raised, Action, query, scalar_one_or_none, or_raise, update, pure, ◌>>=◌, Keeps,
  Keeps-bind, Keeps-query, Keeps-pure, Keeps-raise, Keeps-if,
}
use open_format_3d_viewer.Core.Exceptions.{
  validation, file_too_large, unsupported_format, authentication, authorization, not_found,
  conflict, storage, processing, internal, rate_limited, http_exception, integrity_error,
  stale_data, no_result_found, multiple_results_found,
}
use open_format_3d_viewer.Core.Rows.{User}
use open_format_3d_viewer.Core.Models.{
  Model, Store, Outgoing, scan_file, raw_deleted, processed_deleted, raw_written, model_sync,
  delete_model_row, update_model_row, insert_model, send, on_db,
}
use open_format_3d_viewer.Projects.Authorization.{
  get_project_member, require_role, require_role_for_project,
}
use open_format_3d_viewer.Projects.Handlers.Denied.{get_project_member_cases, require_role_cases}
use open_format_3d_viewer.Uploads.Filenames.{validate_filename}
use open_format_3d_viewer.Uploads.Files.{validate_file_size, validate_mime_type_declared}
use open_format_3d_viewer.Uploads.Service.{
  World, ModelUploadRequest, within_quota, plan_daily_upload_limit, initiate_upload, store_upload,
  confirm_found, check_pending, check_size, get_model, delete_model, clean_raw, clean_processed,
  fail_model, caught, confirm_upload, is_size_mismatch, header_content, key_header, key_size,
  confirmed, get_element_by_guid, get_tree, get_chunks,
}
use open_format_3d_viewer.Uploads.Routes.{
  Call, Reply, upload, upload_local, confirm, get_one, delete_one, tree, chunks, element_by_guid,
  handle, readable, save, upload_local_file,
}

-- A role check reads.
member_reads : (caller : User) (p : ℕ) (s : Store) → (on_db (get_project_member p caller) s).1 ≡ s
member_reads caller p s = elim (get_project_member_cases p caller s.db) [
  | inl (e, f) ↦ rw f refl
  | inr (m, f, sel) ↦ rw f refl
]

pub editor_reads :
    (caller : User) (p : ℕ) (s : Store)
    → (on_db (require_role_for_project p "editor" caller) s).1 ≡ s
unfolding require_role_for_project require_role
editor_reads caller p s = elim (require_role_cases p caller s.db "editor") [
  | inl (e, f) ↦ rw f refl
  | inr (m, f, sel, level) ↦ rw f refl
]

abbrev pub is_scan : Outgoing → Bool
is_scan (scan_file id key) = true
is_scan x = false

abbrev pub is_upload : Call → Bool
is_upload (upload given) = true
is_upload c = false

abbrev pub is_confirm : Call → Bool
is_confirm (confirm id) = true
is_confirm c = false

module _ (P : Store → Type 0) where
  pub member-Keeps : (caller : User) (p : ℕ) → Keeps P (on_db (get_project_member p caller))
  unfolding Keeps
  member-Keeps caller p s h = subst P (sym (member_reads caller p s)) h

  pub editor-Keeps :
      (caller : User) (p : ℕ) → Keeps P (on_db (require_role_for_project p "editor" caller))
  unfolding Keeps
  editor-Keeps caller p s h = subst P (sym (editor_reads caller p s)) h

  pub Keeps-get_model : (id : ℕ) → Keeps P (get_model id)
  unfolding get_model
  Keeps-get_model id =
      Keeps-bind P (query (λ s. scalar_one_or_none (select (λ m. m.id == id) s.models))) _
        (Keeps-query P _) (λ found. Keeps-query P _)

  Keeps-readable : (w : World) (caller : User) (id : ℕ) → Keeps P (readable w caller id)
  Keeps-readable w caller id =
      Keeps-bind P _ _ (Keeps-get_model id)
        (λ m. Keeps-bind P _ _ (member-Keeps caller m.project_id) (λ member. Keeps-pure P _))

module _ (P : Store → Type 0) (sends : (x : Outgoing) → is_scan x ≡ false → Keeps P (send x))
    (deletes : (k : ℕ) → Keeps P (update (delete_model_row k))) where
  Keeps-clean_raw : (key : Option String) → Keeps P (clean_raw key)
  Keeps-clean_raw none = Keeps-pure P _
  Keeps-clean_raw (some key) =
      Keeps-if P (key == "") _ _ (Keeps-pure P _) (sends (raw_deleted key) refl)

  Keeps-clean_processed : (prefix : Option String) → Keeps P (clean_processed prefix)
  Keeps-clean_processed none = Keeps-pure P _
  Keeps-clean_processed (some prefix) =
      Keeps-if P (prefix == "") _ _ (Keeps-pure P _) (sends (processed_deleted prefix) refl)

  Keeps-delete_model : (id : ℕ) → Keeps P (delete_model id)
  unfolding delete_model
  Keeps-delete_model id = Keeps-bind P _ _ (Keeps-get_model P id) (λ m.
      Keeps-bind P _ _ (Keeps-clean_raw m.raw_s3_key) (λ raw.
        Keeps-bind P _ _ (Keeps-clean_processed m.processed_s3_prefix) (λ processed. deletes m.id)))

  Keeps-save :
      (path : String) (contents : List ℕ) (written : Bool) → Keeps P (save path contents written)
  Keeps-save path [] written = Keeps-raise P _ _
  Keeps-save path (b ∷ contents) true = sends (raw_written path (b ∷ contents)) refl
  Keeps-save path (b ∷ contents) false = Keeps-raise P _ _

  Keeps-upload_local :
      (w : World) (caller : User) (key : String) (contents : List ℕ) (written : Bool)
      → Keeps P (upload_local_file w caller key contents written)
  Keeps-upload_local w caller key contents written =
      Keeps-if P w.storage.is_local _ _
        (Keeps-bind P _ _ (Keeps-query P _) (λ id. Keeps-bind P _ _ (Keeps-get_model P id) (λ m.
          Keeps-bind P _ _ (editor-Keeps P caller m.project_id) (λ member.
            Keeps-bind P _ _ (Keeps-save (w.storage.local_raw_path key) contents written)
              (λ saved. Keeps-pure P _)))))
        (Keeps-raise P _ _)

  Keeps-delete_one :
      (w : World) (caller : User) (id : ℕ) → Keeps P (handle w caller (delete_one id))
  unfolding handle
  Keeps-delete_one w caller id = Keeps-bind P _ _ (Keeps-get_model P id) (λ m.
      Keeps-bind P _ _ (member-Keeps P caller m.project_id) (λ member.
        Keeps-bind P _ _ (Keeps-if P _ _ _ (Keeps-raise P _ _) (Keeps-pure P _))
          (λ checked. Keeps-bind P _ _ (Keeps-delete_model id) (λ deleted. Keeps-pure P _))))

  Keeps-reading :
      {A : Type 0} (w : World) (caller : User) (id : ℕ) (m : Action Store A) (reply : A → Reply)
      → Keeps P m
      → Keeps P (readable w caller id >>= λ x. m >>= λ a. pure (reply a))
  Keeps-reading w caller id m reply h =
      Keeps-bind P _ _ (Keeps-readable P w caller id)
        (λ x. Keeps-bind P _ _ h (λ a. Keeps-pure P _))

  pub Keeps-handle :
      (w : World) (caller : User) (c : Call)
      → is_upload c ≡ false
      → is_confirm c ≡ false
      → Keeps P (handle w caller c)
  unfolding handle get_tree get_chunks get_element_by_guid
  Keeps-handle w caller (upload given) h k = absurd (ground arith)
  Keeps-handle w caller (upload_local key contents written) h k =
      Keeps-upload_local w caller key contents written
  Keeps-handle w caller (confirm id) h k = absurd (ground arith)
  Keeps-handle w caller (get_one id) h k =
      Keeps-bind P _ _ (Keeps-readable P w caller id) (λ m. Keeps-pure P _)
  Keeps-handle w caller (delete_one id) h k = Keeps-delete_one w caller id
  Keeps-handle w caller (tree id) h k = Keeps-reading w caller id _ _ (
      Keeps-bind P (query (λ s. scalar_one_or_none (select (λ x. x.model_id == id) s.metadata))) _
        (Keeps-query P _)
        (λ found.
          Keeps-bind P (query (λ s. or_raise (not_found "Model metadata not found") found)) _
            (Keeps-query P _) (λ x. Keeps-pure P _)))
  Keeps-handle w caller (chunks id) h k = Keeps-reading w caller id _ _ (
      Keeps-bind P _ _ (Keeps-get_model P id)
        (λ m. Keeps-bind P _ _ (Keeps-query P _) (λ x. Keeps-pure P _)))
  Keeps-handle w caller (element_by_guid id guid) h k = Keeps-reading w caller id _ _ (
      Keeps-bind P
        (query
          (λ s. scalar_one_or_none (select (λ e. e.model_id == id && e.guid == guid) s.elements)))
        _ (Keeps-query P _) (λ found. Keeps-query P _))

-- The part of an upload after the quota.
pub Keeps-store :
    (P : Store → Type 0) (w : World) (given : ModelUploadRequest) (user : User) (safe : String)
    → ((m : Model) → m.id ≡ w.new_id → Keeps P (insert_model m))
    → Keeps P (store_upload w given user safe)
Keeps-store P w given user safe inserts = Keeps-bind P _ _ (Keeps-query P _) (λ format.
    Keeps-bind P _ _ (inserts _ refl)
      (λ inserted. Keeps-bind P _ _ (Keeps-query P _) (λ url. Keeps-pure P _)))

-- An upload, if the quota and the new row are kept.
pub Keeps-upload :
    (P : Store → Type 0) (w : World) (given : ModelUploadRequest) (user : User)
    → Keeps P (within_quota w.redis user w.today (plan_daily_upload_limit user.plan))
    → ((m : Model) → m.id ≡ w.new_id → Keeps P (insert_model m))
    → Keeps P (handle w user (upload given))
unfolding handle initiate_upload
Keeps-upload P w given user counts inserts =
    Keeps-bind P _ _ (editor-Keeps P user given.project_id) (λ member.
      Keeps-bind P _ _
        (Keeps-bind P (query (λ s. validate_filename w.unicode given.filename)) _ (Keeps-query P _)
          (λ safe.
            Keeps-bind P (query (λ s. validate_file_size given.size_bytes user.plan)) _
              (Keeps-query P _)
              (λ size.
                Keeps-bind P (query (λ s. validate_mime_type_declared given.content_type)) _
                  (Keeps-query P _)
                  (λ declared.
                    Keeps-bind P _ _ counts (λ counted. Keeps-store P w given user safe inserts)))))
        (λ x. Keeps-pure P _))

pub Keeps-check_pending : (P : Store → Type 0) (w : World) (m : Model) → Keeps P (check_pending w m)
Keeps-check_pending P w m =
    Keeps-if P (m.status == "pending") _ _ (Keeps-pure P _) (Keeps-raise P _ _)

-- A confirmation, if the writes and the messages are kept.
module _ (P : Store → Type 0) (w : World) (m : Model)
    (writes : (x : Model) → (x.status == "pending") ≡ false → Keeps P (update_model_row x)) where
  pub Keeps-fail_model : (stored message : String) → Keeps P (fail_model w stored message m)
  Keeps-fail_model stored message = Keeps-bind P _ _ (writes _ refl) (λ written. Keeps-raise P _ _)

  pub Keeps-caught : (r : Result String) → Keeps P (caught w m r)
  Keeps-caught (ok detected) = Keeps-pure P _
  Keeps-caught (raised e) = elim e as (λ x. Keeps P (caught w m (raised x))) [
    | validation message ↦ Keeps-fail_model message message
    | file_too_large x ↦ Keeps-raise P _ _
    | unsupported_format x ↦ Keeps-raise P _ _
    | authentication x ↦ Keeps-raise P _ _
    | authorization x ↦ Keeps-raise P _ _
    | not_found x ↦ Keeps-raise P _ _
    | conflict x ↦ Keeps-raise P _ _
    | storage x ↦ Keeps-raise P _ _
    | processing x ↦ Keeps-raise P _ _
    | internal x ↦ Keeps-raise P _ _
    | rate_limited x y ↦ Keeps-raise P _ _
    | http_exception x y ↦ Keeps-raise P _ _
    | integrity_error ↦ Keeps-raise P _ _
    | stale_data ↦ Keeps-raise P _ _
    | no_result_found ↦ Keeps-raise P _ _
    | multiple_results_found ↦ Keeps-raise P _ _
  ]

  pub Keeps-check_size : (size : ℕ) → Keeps P (check_size w m size)
  Keeps-check_size size =
      Keeps-if P (is_size_mismatch w m.file_size_bytes size) _ _ (Keeps-fail_model _ _)
        (Keeps-pure P _)

  pub Keeps-confirm_found :
      Keeps P (send (scan_file m.id m.raw_s3_key))
      → Keeps P (send (model_sync m.uploaded_by m.id "processing"))
      → Keeps P (confirm_found w m)
  Keeps-confirm_found scan sync = Keeps-bind P _ _ (Keeps-check_pending P w m) (λ pending.
      Keeps-bind P (query (λ s. key_size w m.raw_s3_key)) _ (Keeps-query P _) (λ size.
        Keeps-bind P _ _ (Keeps-check_size size) (λ sized.
          Keeps-bind P _ _ (Keeps-caught (header_content w m (key_header w m.raw_s3_key)))
            (λ checked. Keeps-bind P _ _ (writes (confirmed w m size) refl) (λ written.
              Keeps-bind P _ _ (Keeps-if P w.broker_up _ _ scan (Keeps-raise P _ _))
                (λ scanned. Keeps-bind P _ _ sync (λ sent. Keeps-pure P (confirmed w m size))))))))

pub Keeps-confirm :
    (P : Store → Type 0) (w : World) (caller : User) (id : ℕ)
    → Keeps P (confirm_upload w id)
    → Keeps P (handle w caller (confirm id))
unfolding handle
Keeps-confirm P w caller id h = Keeps-bind P _ _ (Keeps-get_model P id) (λ m.
    Keeps-bind P _ _ (editor-Keeps P caller m.project_id)
      (λ member. Keeps-bind P _ _ h (λ response. Keeps-pure P _)))
