-- ===== src/Annotations/Clean.antt =====
-- What the tables of annotations and comments hold.
use open_format_3d_viewer.Prelude.{
  ℕ, String, Bool, true, false, ◌≡◌, refl, inl, inr, Option, none, some, List, [], ◌∷◌, map, select,
  select-head, All, All-select, ◌==◌, nat_eq, string_eq, if◌then◌else◌, Bool-cases, arith,
}
use open_format_3d_viewer.Core.Session.{
  ok, Result-cases, Keeps, Keeps-bind, Keeps-query, Keeps-pure, Keeps-checked, Action,
  scalar_one_or_none, scalar-some, or_raise, query, update,
}
use open_format_3d_viewer.Core.Rows.{User}
use open_format_3d_viewer.Core.Models.{Store, on_db}
use open_format_3d_viewer.Projects.Authorization.{get_project_member, require_role_for_project}
use open_format_3d_viewer.Uploads.Service.{get_model}
use open_format_3d_viewer.Hooks.{Hooks, dispatch_event}
use open_format_3d_viewer.Annotations.{
  Annotation, AnnotationComment, AnnotationCreate, AnnotationUpdate, Board, Ambient, Event, on_base,
  on_hooks, sanitize_text, new_message, publish_event, insert_annotation, annotation_conflicts,
  insert_comment, comment_conflicts, put_annotation, announce, create_annotation, new_annotation,
  write_changed, get_annotation, changed, changed_message, changed_status, update_annotation,
  create_comment, list_comments, is_status, valid_status, valid_body, Step, create_for_model,
  update_one, add_comment, get_comments, elsewhere, comments_of, no_content, cascaded, editable,
  serve, Request, run,
}

module _ (clean : String → String) where
  -- A text that the sanitizer made.
  abbrev IsCleaned : String → Type 0
  IsCleaned t = (raw : String) × (t ≡ sanitize_text clean raw)

  abbrev IsCleanMessage : Option String → Type 0
  IsCleanMessage none = Unit
  IsCleanMessage (some m) = IsCleaned m

  abbrev pub IsCleanAnnotation : Annotation → Type 0
  IsCleanAnnotation a = IsCleanMessage a.message × (is_status a.status ≡ true)

  abbrev pub IsClean : Board → Type 0
  IsClean b = All IsCleanAnnotation b.annotations × All (λ c. IsCleaned c.body) b.comments

  new_message-IsCleanMessage : (m : Option String) → IsCleanMessage (new_message clean m)
  new_message-IsCleanMessage none = tt
  new_message-IsCleanMessage (some m) = elim (Bool-cases (m == "")) [
    | inl t ↦ rw t tt
    | inr t ↦ rw t (m, rw t refl)
  ]

  IsClean-insert_annotation :
      (a : Annotation) → IsCleanAnnotation a → Keeps IsClean (insert_annotation a)
  unfolding Keeps insert_annotation
  IsClean-insert_annotation a r b h = elim (Bool-cases (annotation_conflicts a b)) [
    | inl t ↦ rw t h
    | inr t ↦ rw t ((r, h.0), h.1)
  ]

  IsClean-insert_comment :
      (c : AnnotationComment) → IsCleaned c.body → Keeps IsClean (insert_comment c)
  unfolding Keeps insert_comment
  IsClean-insert_comment c r b h = elim (Bool-cases (comment_conflicts c b)) [
    | inl t ↦ rw t h
    | inr t ↦ rw t (h.0, (r, h.1))
  ]

  put :
      (a : Annotation)
      → IsCleanAnnotation a
      → (rows : List Annotation) → All IsCleanAnnotation rows
      → All IsCleanAnnotation (map (λ x. if x.id == a.id then a else x) rows)
  put a r [] h = tt
  put a r (x ∷ xs) h = elim (Bool-cases (x.id == a.id)) [
    | inl t ↦ rw t (r, put a r xs h.1)
    | inr t ↦ rw t (h.0, put a r xs h.1)
  ]

  changed-IsCleanAnnotation :
      (w : Ambient) (given : AnnotationUpdate) (a : Annotation)
      → w.clean ≡ clean
      → valid_status given.status ≡ ok tt
      → IsCleanAnnotation a
      → IsCleanAnnotation (changed w given a)
  changed-IsCleanAnnotation w given a e v (m, s) = (message given.message m, status given.status v)
    where
      message :
          (g : Option String)
          → IsCleanMessage a.message
          → IsCleanMessage (changed_message w g a.message)
      message none k = k
      message (some t) k = (t, rw e refl)

      status :
          (g : Option String)
          → valid_status g ≡ ok tt
          → is_status (changed_status w g a.status) ≡ true
      status none k = s
      status (some t) k = ground arith

  IsClean-base : {A : Type 0} (m : Action Store A) → Keeps IsClean (on_base m)
  unfolding Keeps
  IsClean-base m b h = h

  IsClean-hooks : {A : Type 0} (m : Action Hooks A) → Keeps IsClean (on_hooks m)
  unfolding Keeps
  IsClean-hooks m b h = h

  IsClean-publish : (up : Bool) (e : Event) → Keeps IsClean (publish_event up e)
  unfolding Keeps
  IsClean-publish true e b h = h
  IsClean-publish false e b h = h

  IsClean-announce :
      (w : Ambient) (name action : String) (status : Option String) (user_id : ℕ) (a : Annotation)
      → Keeps IsClean (announce w name action status user_id a)
  IsClean-announce w name action status user_id a =
      Keeps-bind IsClean _ _ (IsClean-publish w.redis_up _) (λ sent. IsClean-publish w.redis_up _)

  IsClean-get : (annotation_id : ℕ) → Keeps IsClean (get_annotation annotation_id)
  unfolding get_annotation
  IsClean-get annotation_id =
      Keeps-bind IsClean
        (query (λ b. scalar_one_or_none (select (λ a. a.id == annotation_id) b.annotations))) _
        (Keeps-query IsClean _) (λ found. Keeps-query IsClean _)

  module _ (w : Ambient) (same : w.clean ≡ clean) where
    IsClean-create :
        (model_id : ℕ) (given : AnnotationCreate) (user_id : ℕ)
        → Keeps IsClean (create_annotation w model_id given user_id)
    unfolding create_annotation
    IsClean-create model_id given user_id =
        Keeps-bind IsClean _ _
          (IsClean-insert_annotation (new_annotation w model_id given user_id)
            (rw same (new_message-IsCleanMessage given.message), refl))
          (λ inserted.
            Keeps-bind IsClean _ _
              (IsClean-announce w "ANNOTATION_CREATED" "created" none user_id
                (new_annotation w model_id given user_id))
              (λ told.
                Keeps-bind IsClean _ _
                  (IsClean-hooks
                    (dispatch_event w.broker_up "annotation.created" (w.payload w.new_id) user_id))
                  (λ sent. Keeps-pure IsClean (new_annotation w model_id given user_id))))

    IsClean-put : (a : Annotation) → IsCleanAnnotation a → Keeps IsClean (update (put_annotation a))
    unfolding Keeps
    IsClean-put a r b h = (put a r b.annotations h.0, h.1)

    IsClean-write :
        (given : AnnotationUpdate) (a : Annotation)
        → valid_status given.status ≡ ok tt
        → IsCleanAnnotation a
        → Keeps IsClean (write_changed w given a)
    IsClean-write given a v r =
        Keeps-bind IsClean (update (put_annotation (changed w given a))) _
          (IsClean-put (changed w given a) (changed-IsCleanAnnotation w given a same v r))
          (λ written.
            Keeps-bind IsClean
              (announce w "ANNOTATION_UPDATED" "updated" (some (changed w given a).status)
                a.author_id (changed w given a))
              _ (IsClean-announce w _ _ _ _ (changed w given a))
              (λ told. Keeps-pure IsClean (changed w given a)))

    IsClean-update :
        (annotation_id : ℕ) (given : AnnotationUpdate)
        → valid_status given.status ≡ ok tt
        → Keeps IsClean (update_annotation w annotation_id given)
    unfolding update_annotation get_annotation or_raise Keeps
    IsClean-update annotation_id given v b h =
        elim (Result-cases
          (scalar_one_or_none (select (λ a. a.id == annotation_id) b.annotations))) [
            | inl (e, f) ↦ rw f h
            | inr (none, f) ↦ rw f h
            | inr (some a, f) ↦
                let found =
                  select-head IsCleanAnnotation (λ x. x.id == annotation_id) b.annotations h.0
                    (scalar-some _ a f) in
                rw f (IsClean-write given a v found.1 b h)
          ]

    IsClean-comment :
        (annotation_id : ℕ) (body : String) (user_id : ℕ)
        → Keeps IsClean (create_comment w annotation_id body user_id)
    unfolding create_comment
    IsClean-comment annotation_id body user_id =
        Keeps-bind IsClean _ _ (IsClean-get annotation_id) (λ a.
          Keeps-bind IsClean _ _ (IsClean-insert_comment _ (body, rw same refl))
            (λ inserted. Keeps-pure IsClean _))

    IsClean-editable :
        (caller : User) (annotation_id : ℕ) → Keeps IsClean (editable w caller annotation_id)
    IsClean-editable caller annotation_id = Keeps-bind IsClean _ _ (IsClean-get annotation_id) (λ a.
        Keeps-bind IsClean _ _ (IsClean-base (get_model a.model_id)) (λ m.
          Keeps-bind IsClean _ _
            (IsClean-base (on_db (require_role_for_project m.project_id "editor" caller)))
            (λ member. Keeps-pure IsClean _)))

    IsClean-elsewhere :
        (base : Store) (hooks : Hooks) → Keeps IsClean (update (cascaded base hooks))
    unfolding Keeps
    IsClean-elsewhere base hooks b h = (
      All-select IsCleanAnnotation _ b.annotations h.0,
      All-select (λ c. IsCleaned c.body) _ b.comments h.1,
    )

    IsClean-serve : (caller : User) (step : Step) → Keeps IsClean (serve w caller step)
    unfolding serve list_comments
    IsClean-serve caller (create_for_model model_id given) =
        Keeps-bind IsClean _ _ (IsClean-base (get_model model_id)) (λ m.
          Keeps-bind IsClean _ _
            (IsClean-base (on_db (require_role_for_project m.project_id "editor" caller)))
            (λ member.
              Keeps-bind IsClean _ _ (IsClean-create model_id given caller.id)
                (λ a. Keeps-pure IsClean _)))
    IsClean-serve caller (update_one annotation_id given) =
        Keeps-checked IsClean (valid_status given.status) _ (λ valid v.
          Keeps-bind IsClean _ _ (IsClean-editable caller annotation_id) (λ found.
            Keeps-bind IsClean _ _ (IsClean-update annotation_id given v)
              (λ a. Keeps-pure IsClean _)))
    IsClean-serve caller (add_comment annotation_id body) =
        Keeps-checked IsClean (valid_body w.strip body) _ (λ stripped v.
          Keeps-bind IsClean _ _ (IsClean-editable caller annotation_id) (λ found.
            Keeps-bind IsClean _ _ (IsClean-comment annotation_id stripped caller.id)
              (λ c. Keeps-pure IsClean _)))
    IsClean-serve caller (get_comments annotation_id) =
        Keeps-bind IsClean _ _ (IsClean-get annotation_id) (λ a.
          Keeps-bind IsClean _ _ (IsClean-base (get_model a.model_id)) (λ m.
            Keeps-bind IsClean _ _ (IsClean-base (on_db (get_project_member m.project_id caller)))
              (λ member.
                Keeps-bind IsClean (list_comments annotation_id) _ (Keeps-query IsClean _)
                  (λ found. Keeps-pure IsClean (comments_of found)))))
    IsClean-serve caller (elsewhere base hooks) =
        Keeps-bind IsClean _ _ (IsClean-elsewhere base hooks) (λ x. Keeps-pure IsClean no_content)

  abbrev pub UsesCleaner : Request → Type 0
  UsesCleaner r = r.ambient.clean ≡ clean

  -- Whatever requests come, every message and every comment that is stored is a text that the sanitizer
  -- made, and every annotation is open, in review or resolved, if it was so before.
  pub run-IsClean :
      (rs : List Request) (b : Board) → All UsesCleaner rs → IsClean b → IsClean (run rs b)
  unfolding run Keeps
  run-IsClean [] b u h = h
  run-IsClean (r ∷ rest) b u h =
      run-IsClean rest (serve r.ambient r.caller r.step b).1 u.1
        (IsClean-serve r.ambient u.0 r.caller r.step b h)
