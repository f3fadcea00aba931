-- ===== src/Uploads/Routes/Access.antt =====
-- Who may send which request of routers/models.py.
use mathlib.Core.Bool.{false≢true}
use open_format_3d_viewer.Prelude.{
  ℕ, String, ◌≡◌, refl, sym, ◌∙◌, none, some, inl, inr, ◌⊎◌, [], ◌∷◌, Bool, true, false, ◌&&◌, ◌||◌,
  ◌==◌, nat_eq, string_eq, select, any, Bool-cases, List,
}
use open_format_3d_viewer.Core.Exceptions.{Exception, not_found, authorization, http_exception}
use open_format_3d_viewer.Core.Session.{
  Result, ok, raised, after, Action, pure, ◌>>=◌, scalar-some, Result-cases, or_raise,
  scalar_one_or_none,
}
use open_format_3d_viewer.Core.Rows.{User}
use open_format_3d_viewer.Core.Members.{any-selected}
use open_format_3d_viewer.Core.Models.{Model, Store, on_db}
use open_format_3d_viewer.Projects.Authorization.{
  get_project_member, require_role, require_role_for_project, role_hierarchy, level_lt,
}
use open_format_3d_viewer.Projects.Handlers.Denied.{
  holds, at_least_editor, at_least_admin, get_project_member_cases, require_role_cases,
}
use open_format_3d_viewer.Uploads.Service.{World, get_model}
use open_format_3d_viewer.Uploads.Routes.{
  Call, upload, upload_local, confirm, get_one, delete_one, tree, chunks, element_by_guid, handle,
  key_model_id, check_admin, readable, upload_local_file, save, saved,
}

abbrev pub is_editor : String → Bool
is_editor role = role == "editor" || role == "admin"

-- The caller has one of the roles in the project of the model.
abbrev pub holds_model : (String → Bool) → ℕ → User → Store → Bool
holds_model roles id caller s =
    any (λ m. m.id == id && holds roles m.project_id caller s.db) s.models

abbrev holds_parsed : Result ℕ → User → Store → Bool
holds_parsed (ok id) caller s = holds_model is_editor id caller s
holds_parsed (raised e) caller s = false

-- Who may send a request, told by the tables alone.
unfoldable pub may : World → Call → User → Store → Bool
may w (upload given) caller s = holds is_editor given.project_id caller s.db
may w (upload_local key contents written) caller s = holds_parsed (key_model_id w.uuid key) caller s
may w (confirm id) caller s = holds_model is_editor id caller s
may w (get_one id) caller s = holds_model (λ role. true) id caller s
may w (delete_one id) caller s = holds_model (λ role. role == "admin") id caller s
may w (tree id) caller s = holds_model (λ role. true) id caller s
may w (chunks id) caller s = holds_model (λ role. true) id caller s
may w (element_by_guid id guid) caller s = holds_model (λ role. true) id caller s

-- The outcome is an error that leaves the state as it was.
abbrev pub Refused : {B : Type 0} → Store → Result B × Store → Type 0
Refused s x = (e : Exception) × (x ≡ (raised e, s))

Refused-after :
    {A B : Type 0} (s : Store) {x : Result A × Store} (k : A → Action Store B)
    → Refused s x
    → Refused s (after x k)
Refused-after s k (e, f) = (e, rw f)

pub get_model_cases :
    (id : ℕ) (s : Store)
    → Refused s (get_model id s)
      ⊎ ((m : Model) × (get_model id s ≡ (ok m, s)) × (select (λ x. x.id == id) s.models ≡ m ∷ []))
unfolding get_model or_raise
get_model_cases id s =
    elim (Result-cases (scalar_one_or_none (select (λ m. m.id == id) s.models))) [
      | inl (e, f) ↦ inl (e, rw f refl)
      | inr (none, f) ↦ inl (not_found "Model not found", rw f refl)
      | inr (some m, f) ↦ inr (m, rw f refl, scalar-some _ m f)
    ]

module _ (caller : User) (s : Store) where
  pub Refused-member :
      (p : ℕ)
      → holds (λ role. true) p caller s.db ≡ false
      → Refused s (on_db (get_project_member p caller) s)
  Refused-member p h = elim (get_project_member_cases p caller s.db) [
    | inl (e, f) ↦ (e, rw f refl)
    | inr (m, f, sel) ↦
        absurd (false≢true (sym h ∙ any-selected _ (λ x. true) s.db.members sel refl))
  ]

  pub Refused-editor :
      (p : ℕ)
      → holds is_editor p caller s.db ≡ false
      → Refused s (on_db (require_role_for_project p "editor" caller) s)
  unfolding require_role_for_project require_role
  Refused-editor p h = elim (require_role_cases p caller s.db "editor") [
    | inl (e, f) ↦ (e, rw f refl)
    | inr (m, f, sel, level) ↦ absurd (
        false≢true (
          sym h
          ∙ any-selected _ (λ x. is_editor x.role) s.db.members sel (at_least_editor m.role level)))
  ]

  member-Refused :
      {B : Type 0} (p : ℕ) (k : _ → Action Store B)
      → holds (λ role. true) p caller s.db ≡ false
      → Refused s (after (on_db (get_project_member p caller) s) k)
  member-Refused p k h = Refused-after s k (Refused-member p h)

  editor-Refused :
      {B : Type 0} (p : ℕ) (k : _ → Action Store B)
      → holds is_editor p caller s.db ≡ false
      → Refused s (after (on_db (require_role_for_project p "editor" caller) s) k)
  editor-Refused p k h = Refused-after s k (Refused-editor p h)

  admin-Refused :
      {B : Type 0} (p : ℕ) (k : Action Store B)
      → holds (λ role. role == "admin") p caller s.db ≡ false
      → Refused s (
          after
            (on_db (get_project_member p caller) s)
            (λ member t. after (check_admin member t) (λ _. k)))
  admin-Refused p k h = elim (get_project_member_cases p caller s.db) [
    | inl (e, f) ↦ (e, rw f)
    | inr (m, f, sel) ↦
        elim (Bool-cases (level_lt (role_hierarchy m.role) (role_hierarchy "admin"))) [
          | inl low ↦ (authorization "This action requires 'admin' role.", rw (f, low))
          | inr high ↦ absurd (
              false≢true (
                sym h
                ∙ any-selected _ (λ x. x.role == "admin") s.db.members sel
                    (at_least_admin m.role high)))
        ]
  ]

  -- A model is found by its key alone, and then the roles in its project decide.
  model-Refused :
      {B : Type 0} (roles : String → Bool) (id : ℕ) (k : Model → Action Store B)
      → ((m : Model) → holds roles m.project_id caller s.db ≡ false → Refused s (k m s))
      → holds_model roles id caller s ≡ false
      → Refused s (after (get_model id s) k)
  model-Refused roles id k rest h = elim (get_model_cases id s) [
    | inl (e, f) ↦ (e, rw f refl)
    | inr (m, f, sel) ↦ elim (Bool-cases (holds roles m.project_id caller s.db)) [
      | inl t ↦ absurd (
          false≢true
            (sym h ∙ any-selected _ (λ x. holds roles x.project_id caller s.db) s.models sel t))
      | inr t ↦ let (e, g) = rest m t in (e, rw f g)
    ]
  ]

module _ (w : World) (caller : User) (s : Store) where
  readable-Refused :
      {B : Type 0} (id : ℕ) (k : Model → Action Store B)
      → holds_model (λ role. true) id caller s ≡ false
      → Refused s (after (readable w caller id s) k)
  readable-Refused id k h =
      Refused-after s k
        (model-Refused caller s (λ role. true) id _ (λ m. member-Refused caller s m.project_id _) h)

  upload_local-Refused :
      (key : String) (contents : List ℕ) (written : Bool)
      → holds_parsed (key_model_id w.uuid key) caller s ≡ false
      → Refused s (upload_local_file w caller key contents written s)
  upload_local-Refused key contents written h = elim (Bool-cases w.storage.is_local) [
    | inr t ↦ (
      http_exception 404 "Direct upload endpoint is only available when STORAGE_PROVIDER=local.",
      rw t refl,
    )
    | inl t ↦ elim (Result-cases (key_model_id w.uuid key)) [
      | inl (e, f) ↦ (e, rw (t, f) refl)
      | inr (id, f) ↦
          let (e, g) =
            model-Refused caller s is_editor id
              (λ m. on_db (require_role_for_project m.project_id "editor" caller) >>= λ member.
                save (w.storage.local_raw_path key) contents written >>= λ written_out.
                pure (saved key (w.storage.local_raw_path key)))
              (λ m. editor-Refused caller s m.project_id _) (rw f at h) in
          (e, rw (t, f) g)
    ]
  ]

-- A request that the caller may not send is answered with an error, and changes nothing, sends nothing
-- and uses up no upload of the day: uploads, confirmations and direct uploads need an editor or admin of
-- the model's project, deletions an admin, and everything else a member; a direct upload needs a storage
-- key with the identifier of such a model in its middle.
pub routes-denied :
    (w : World) (c : Call) (caller : User) (s : Store)
    → may w c caller s ≡ false
    → (e : Exception) × (handle w caller c s ≡ (raised e, s))
unfolding may handle
routes-denied w (upload given) caller s h = editor-Refused caller s given.project_id _ h
routes-denied w (upload_local key contents written) caller s h =
    upload_local-Refused w caller s key contents written h
routes-denied w (confirm id) caller s h =
    model-Refused caller s is_editor id _ (λ m. editor-Refused caller s m.project_id _) h
routes-denied w (get_one id) caller s h = readable-Refused w caller s id _ h
routes-denied w (delete_one id) caller s h =
    model-Refused caller s (λ role. role == "admin") id _
      (λ m. admin-Refused caller s m.project_id _) h
routes-denied w (tree id) caller s h = readable-Refused w caller s id _ h
routes-denied w (chunks id) caller s h = readable-Refused w caller s id _ h
routes-denied w (element_by_guid id guid) caller s h = readable-Refused w caller s id _ h
