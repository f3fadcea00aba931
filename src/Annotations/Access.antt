-- ===== src/Annotations/Access.antt =====
-- Who may send which request of routers/annotations.py.
use mathlib.Core.Bool.{false≢true}
use open_format_3d_viewer.Prelude.{
  ℕ, String, ◌≡◌, refl, sym, ◌∙◌, none, some, inl, inr, Bool, true, false, ◌&&◌, select, any, ◌==◌,
  nat_eq, string_eq, Bool-cases,
}
use open_format_3d_viewer.Core.Exceptions.{Exception, not_found}
use open_format_3d_viewer.Core.Session.{
  Result, ok, raised, after, Action, Result-cases, scalar_one_or_none, scalar-some, or_raise, query,
  pure, ◌>>=◌,
}
use open_format_3d_viewer.Core.Rows.{User}
use open_format_3d_viewer.Core.Members.{any-selected}
use open_format_3d_viewer.Core.Models.{Model, Store, on_db}
use open_format_3d_viewer.Projects.Authorization.{get_project_member, require_role_for_project}
use open_format_3d_viewer.Projects.Handlers.Denied.{holds}
use open_format_3d_viewer.Uploads.Service.{get_model}
use open_format_3d_viewer.Uploads.Routes.Access.{
  is_editor, holds_model, get_model_cases, Refused-member, Refused-editor,
}
use open_format_3d_viewer.Annotations.{
  Annotation, Board, Ambient, on_base, get_annotation, valid_status, valid_body, Step,
  create_for_model, update_one, add_comment, get_comments, elsewhere, editable, serve,
}

-- The caller has one of the roles in the project of the annotation's model.
abbrev holds_annotation : (String → Bool) → ℕ → User → Board → Bool
holds_annotation roles id caller b =
    any (λ a. a.id == id && holds_model roles a.model_id caller b.base) b.annotations

-- Who may send a request, told by the tables alone.
unfoldable pub may : Step → User → Board → Bool
may (create_for_model model_id given) caller b = holds_model is_editor model_id caller b.base
may (update_one annotation_id given) caller b = holds_annotation is_editor annotation_id caller b
may (add_comment annotation_id body) caller b = holds_annotation is_editor annotation_id caller b
may (get_comments annotation_id) caller b = holds_annotation (λ role. true) annotation_id caller b
may (elsewhere base hooks) caller b = true

abbrev Refused : {B : Type 0} → Board → Result B × Board → Type 0
Refused b x = (e : Exception) × (x ≡ (raised e, b))

Refused-after :
    {A B : Type 0} (b : Board) {x : Result A × Board} (k : A → Action Board B)
    → Refused b x
    → Refused b (after x k)
Refused-after b k (e, f) = (e, rw f refl)

module _ (caller : User) (b : Board) where
  -- A model whose role check is refused.
  model-Refused :
      {A B : Type 0} (roles : String → Bool) (id : ℕ) (check : Model → Action Store A)
      (k : Model → A → Action Board B)
      → ((m : Model)
          → holds roles m.project_id caller b.base.db ≡ false
          → (e : Exception) × (check m b.base ≡ (raised e, b.base)))
      → holds_model roles id caller b.base ≡ false
      → Refused b (after (on_base (get_model id) b) (λ m. on_base (check m) >>= k m))
  model-Refused roles id check k refuses h = elim (get_model_cases id b.base) [
    | inl (e, f) ↦ (e, rw f refl)
    | inr (m, f, sel) ↦ elim (Bool-cases (holds roles m.project_id caller b.base.db)) [
      | inl t ↦ absurd (
          false≢true (
            sym h
            ∙ any-selected _ (λ x. holds roles x.project_id caller b.base.db) b.base.models sel t))
      | inr t ↦ let (e, g) = refuses m t in (e, rw (f, g) refl)
    ]
  ]

  annotation-Refused :
      {B : Type 0} (roles : String → Bool) (id : ℕ) (k : Annotation → Action Board B)
      → ((a : Annotation) → holds_model roles a.model_id caller b.base ≡ false → Refused b (k a b))
      → holds_annotation roles id caller b ≡ false
      → Refused b (after (get_annotation id b) k)
  unfolding get_annotation or_raise
  annotation-Refused roles id k refuses h =
      elim (Result-cases (scalar_one_or_none (select (λ a. a.id == id) b.annotations))) [
        | inl (e, f) ↦ (e, rw f refl)
        | inr (none, f) ↦ (not_found "Annotation not found", rw f refl)
        | inr (some a, f) ↦ elim (Bool-cases (holds_model roles a.model_id caller b.base)) [
          | inl t ↦ absurd (
              false≢true (
                sym h
                ∙ any-selected _ (λ x. holds_model roles x.model_id caller b.base) b.annotations
                    (scalar-some _ a f) t))
          | inr t ↦ let (e, g) = refuses a t in (e, rw f g)
        ]
      ]

  editable-Refused :
      {B : Type 0} (w : Ambient) (id : ℕ) (k : Annotation → Action Board B)
      → holds_annotation is_editor id caller b ≡ false
      → Refused b (after (editable w caller id b) k)
  editable-Refused w id k h = Refused-after b k (
      annotation-Refused is_editor id _
        (λ a.
          model-Refused is_editor a.model_id
            (λ m. on_db (require_role_for_project m.project_id "editor" caller))
            (λ m member. pure a) (λ m. Refused-editor caller b.base m.project_id))
        h)

  checked-Refused :
      {A B : Type 0} (r : Result A) (k : A → Action Board B)
      → ((a : A) → Refused b (k a b))
      → Refused b (after (query (λ x. r) b) k)
  checked-Refused (ok a) k h = h a
  checked-Refused (raised e) k h = (e, refl)

-- A request that the caller may not send is answered with an error, and changes nothing: no event and no
-- webhook task is sent. Annotations and comments are written by editors and admins of the model's project
-- only, and comments are read by its members only.
pub serve-denied :
    (w : Ambient) (step : Step) (caller : User) (b : Board)
    → may step caller b ≡ false
    → (e : Exception) × (serve w caller step b ≡ (raised e, b))
unfolding may serve
serve-denied w (create_for_model model_id given) caller b h =
    model-Refused caller b is_editor model_id
      (λ m. on_db (require_role_for_project m.project_id "editor" caller)) _
      (λ m. Refused-editor caller b.base m.project_id) h
serve-denied w (update_one annotation_id given) caller b h =
    checked-Refused caller b (valid_status given.status) _
      (λ valid. editable-Refused caller b w annotation_id _ h)
serve-denied w (add_comment annotation_id body) caller b h =
    checked-Refused caller b (valid_body w.strip body) _
      (λ stripped. editable-Refused caller b w annotation_id _ h)
serve-denied w (get_comments annotation_id) caller b h =
    annotation-Refused caller b (λ role. true) annotation_id _
      (λ a.
        model-Refused caller b (λ role. true) a.model_id
          (λ m. on_db (get_project_member m.project_id caller)) _
          (λ m. Refused-member caller b.base m.project_id))
      h
serve-denied w (elsewhere base hooks) caller b h = absurd (false≢true (sym h))
