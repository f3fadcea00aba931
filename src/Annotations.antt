-- ===== src/Annotations.antt =====
-- Annotations and their comments: services/annotations.py, routers/annotations.py, schemas/annotations.py and
-- core/sanitize.py of apps/api/app; the list of annotations is Paging's. What a request finds outside the
-- tables is the record `Ambient`.
pub mod Clean
pub mod Access
pub mod Export
pub mod Tests
use open_format_3d_viewer.Prelude.{
  ℕ, String, Bool, true, false, ◌&&◌, ◌||◌, not, Option, none, some, List, [], ◌∷◌, map, select,
  any, ◌==◌, nat_eq, string_eq, if◌then◌else◌,
}
use open_format_3d_viewer.Core.Exceptions.{validation, not_found, integrity_error}
use open_format_3d_viewer.Core.Session.{
  Result, ok, raised, Action, pure, raise, query, update, ◌>>=◌, ◌>>◌, scalar_one_or_none, or_raise,
}
use open_format_3d_viewer.Core.Rows.{User, ProjectMember}
use open_format_3d_viewer.Core.Models.{Model, Store, on_db}
use open_format_3d_viewer.Projects.Authorization.{get_project_member, require_role_for_project}
use open_format_3d_viewer.Uploads.Service.{get_model}
use open_format_3d_viewer.Hooks.{Hooks, dispatch_event}

-- models/annotation.py and models/annotation_comment.py; the position and the normal are their JSON texts.
pub record Annotation : Type 0 where
  pub id : ℕ
  pub model_id : ℕ
  pub author_id : ℕ
  pub message : Option String
  pub position_xyz : String
  pub normal_xyz : String
  pub bcf_guid : String
  pub status : String
  pub created_at : ℕ
  pub updated_at : ℕ

pub record AnnotationComment : Type 0 where
  pub id : ℕ
  pub annotation_id : ℕ
  pub author_id : ℕ
  pub body : String
  pub created_at : ℕ

-- An event to a user's channel or to a model's room.
pub data Channel : Type 0 where
  user_channel room : ℕ → Channel

pub record Event : Type 0 where
  pub channel : Channel
  pub name : String
  pub annotation_id : ℕ
  pub model_id : ℕ
  pub action : String
  pub status : Option String

pub record Board : Type 0 where
  pub base : Store
  pub hooks : Hooks
  pub annotations : List Annotation
  pub comments : List AnnotationComment
  pub events : List Event

-- `clean` is bleach.clean with no tag allowed, `strip` Python's str.strip, `payload` the JSON of a webhook
-- event; `new_id` and `new_guid` are fresh UUIDs.
pub record Ambient : Type 0 where
  pub clean : String → String
  pub strip : String → String
  pub payload : (annotation_id : ℕ) → String
  pub redis_up : Bool
  pub broker_up : Bool
  pub new_id : ℕ
  pub new_guid : String
  pub now : ℕ

pub record AnnotationCreate : Type 0 where
  pub message : Option String
  pub position_xyz : String
  pub normal_xyz : String

pub record AnnotationUpdate : Type 0 where
  pub message : Option String
  pub status : Option String

abbrev pub in_base : {A : Type 0} → Board → Result A × Store → Result A × Board
in_base b (r, s) = (r, record b { base = s })

abbrev pub on_base : {A : Type 0} → Action Store A → Action Board A
on_base m b = in_base b (m b.base)

abbrev pub in_hooks : {A : Type 0} → Board → Result A × Hooks → Result A × Board
in_hooks b (r, h) = (r, record b { hooks = h })

abbrev pub on_hooks : {A : Type 0} → Action Hooks A → Action Board A
on_hooks m b = in_hooks b (m b.hooks)

abbrev pub sanitize_text : (clean : String → String) → String → String
sanitize_text clean value = if value == "" then value else clean value

-- `sanitize_text(data.message) if data.message else None`
abbrev pub new_message : (clean : String → String) → Option String → Option String
new_message clean none = none
new_message clean (some m) = if m == "" then none else some (sanitize_text clean m)

abbrev pub publish_event : (redis_up : Bool) → Event → Action Board Unit
publish_event true e = update (λ b. record b { events = e ∷ b.events })
publish_event false e = pure tt

-- The primary key, the unique GUID and the foreign keys.
abbrev pub annotation_conflicts : Annotation → Board → Bool
annotation_conflicts a b =
    any (λ x. x.id == a.id || x.bcf_guid == a.bcf_guid) b.annotations
    || not (any (λ m. m.id == a.model_id) b.base.models)
    || not (any (λ u. u.id == a.author_id) b.base.db.users)

unfoldable pub insert_annotation : Annotation → Action Board Unit
insert_annotation a b =
    if annotation_conflicts a b
    then (raised integrity_error, b)
    else (ok tt, record b { annotations = a ∷ b.annotations })

abbrev pub comment_conflicts : AnnotationComment → Board → Bool
comment_conflicts c b =
    any (λ x. x.id == c.id) b.comments
    || not (any (λ a. a.id == c.annotation_id) b.annotations)
    || not (any (λ u. u.id == c.author_id) b.base.db.users)

unfoldable pub insert_comment : AnnotationComment → Action Board Unit
insert_comment c b =
    if comment_conflicts c b
    then (raised integrity_error, b)
    else (ok tt, record b { comments = c ∷ b.comments })

abbrev pub put_annotation : Annotation → Board → Board
put_annotation a b = record b {
  annotations = map (λ x. if x.id == a.id then a else x) b.annotations;
}

abbrev pub found_annotation : (annotation_id : ℕ) → Action Board Annotation
found_annotation annotation_id = do
  found ← query (λ b. scalar_one_or_none (select (λ a. a.id == annotation_id) b.annotations))
  query (λ b. or_raise (not_found "Annotation not found") found)

unfoldable pub get_annotation : (annotation_id : ℕ) → Action Board Annotation
get_annotation annotation_id = found_annotation annotation_id

module _ (w : Ambient) where
  -- Both channels of an event.
  abbrev pub announce :
      (name action : String) (status : Option String)
      → (user_id : ℕ) → Annotation
      → Action Board Unit
  announce name action status user_id a = do
    let event : Channel → Event = λ c. record {
      channel = c;
      name = name;
      annotation_id = a.id;
      model_id = a.model_id;
      action = action;
      status = status;
    }
    publish_event w.redis_up (event (user_channel user_id))
    publish_event w.redis_up (event (room a.model_id))

  abbrev pub new_annotation : (model_id : ℕ) → AnnotationCreate → (user_id : ℕ) → Annotation
  new_annotation model_id given user_id = record {
    id = w.new_id;
    model_id = model_id;
    author_id = user_id;
    message = new_message w.clean given.message;
    position_xyz = given.position_xyz;
    normal_xyz = given.normal_xyz;
    bcf_guid = w.new_guid;
    status = "open";
    created_at = w.now;
    updated_at = w.now;
  }

  unfoldable pub create_annotation :
      (model_id : ℕ) → AnnotationCreate → (user_id : ℕ) → Action Board Annotation
  create_annotation model_id given user_id = do
    let annotation = new_annotation model_id given user_id
    insert_annotation annotation
    announce "ANNOTATION_CREATED" "created" none user_id annotation
    on_hooks (dispatch_event w.broker_up "annotation.created" (w.payload w.new_id) user_id)
    pure annotation

  abbrev pub changed_message : Option String → Option String → Option String
  changed_message none old = old
  changed_message (some m) old = some (sanitize_text w.clean m)

  abbrev pub changed_status : Option String → String → String
  changed_status none old = old
  changed_status (some status) old = status

  abbrev pub changed : AnnotationUpdate → Annotation → Annotation
  changed given a = record a {
    message = changed_message given.message a.message;
    status = changed_status given.status a.status;
    updated_at = w.now;
  }

  abbrev pub write_changed : AnnotationUpdate → Annotation → Action Board Annotation
  write_changed given a = do
    update (put_annotation (changed given a))
    announce "ANNOTATION_UPDATED" "updated" (some (changed given a).status) a.author_id
        (changed given a)
    pure (changed given a)

  unfoldable pub update_annotation :
      (annotation_id : ℕ) → AnnotationUpdate → Action Board Annotation
  update_annotation annotation_id given = do a ← get_annotation annotation_id; write_changed given a

  unfoldable pub create_comment :
      (annotation_id : ℕ) → (body : String) → (user_id : ℕ) → Action Board AnnotationComment
  create_comment annotation_id body user_id = do
    a ← get_annotation annotation_id
    let comment : AnnotationComment = record {
      id = w.new_id;
      annotation_id = annotation_id;
      author_id = user_id;
      body = sanitize_text w.clean body;
      created_at = w.now;
    }
    insert_comment comment
    pure comment

-- The rows of the query, without its order.
unfoldable pub list_comments : (annotation_id : ℕ) → Action Board (List AnnotationComment)
list_comments annotation_id =
    query (λ b. ok (select (λ c. c.annotation_id == annotation_id) b.comments))

abbrev pub is_status : String → Bool
is_status s = s == "open" || s == "in_review" || s == "resolved"

abbrev pub valid_status : Option String → Result {0} Unit
valid_status none = ok tt
valid_status (some s) =
    if is_status s then ok tt else raised (validation "Request validation failed")

-- The stripped body; the length bounds of the schemas are left out.
abbrev pub valid_body : (strip : String → String) → String → Result String
valid_body strip body =
    if strip body == "" then raised (validation "Request validation failed") else ok (strip body)

-- The requests of routers/annotations.py; `elsewhere` is what other requests make of the other tables.
pub data Step : Type 0 where
  create_for_model : (model_id : ℕ) → AnnotationCreate → Step
  update_one : (annotation_id : ℕ) → AnnotationUpdate → Step
  add_comment : (annotation_id : ℕ) → (body : String) → Step
  get_comments : (annotation_id : ℕ) → Step
  elsewhere : Store → Hooks → Step

pub data Reply : Type 0 where
  annotation : Annotation → Reply
  comment : AnnotationComment → Reply
  comments_of : List AnnotationComment → Reply
  no_content : Reply

-- `ondelete="CASCADE"` takes the annotations of models that are gone, and their comments.
abbrev pub cascaded : Store → Hooks → Board → Board
cascaded base hooks b =
    let kept = select (λ a. any (λ m. m.id == a.model_id) base.models) b.annotations in
    record b {
      base = base;
      hooks = hooks;
      annotations = kept;
      comments = select (λ c. any (λ a. a.id == c.annotation_id) kept) b.comments;
    }

module _ (w : Ambient) (caller : User) where
  abbrev pub editor_of : Model → Action Board ProjectMember
  editor_of m = on_base (on_db (require_role_for_project m.project_id "editor" caller))

  -- The annotation of a route, its model and the role.
  abbrev pub editable : (annotation_id : ℕ) → Action Board Annotation
  editable annotation_id = do
    a ← get_annotation annotation_id
    m ← on_base (get_model a.model_id)
    member ← editor_of m
    pure a

  abbrev pub create_for_model_route : (model_id : ℕ) → AnnotationCreate → Action Board Reply
  create_for_model_route model_id given = do
    m ← on_base (get_model model_id)
    member ← editor_of m
    a ← create_annotation w model_id given caller.id
    pure (annotation a)

  abbrev pub update_one_route : (annotation_id : ℕ) → AnnotationUpdate → Action Board Reply
  update_one_route annotation_id given = do
    valid ← query (λ b. valid_status given.status)
    found ← editable annotation_id
    a ← update_annotation w annotation_id given
    pure (annotation a)

  abbrev pub add_comment_route : (annotation_id : ℕ) → (body : String) → Action Board Reply
  add_comment_route annotation_id body = do
    stripped ← query (λ b. valid_body w.strip body)
    found ← editable annotation_id
    c ← create_comment w annotation_id stripped caller.id
    pure (comment c)

  abbrev pub get_comments_route : (annotation_id : ℕ) → Action Board Reply
  get_comments_route annotation_id = do
    a ← get_annotation annotation_id
    m ← on_base (get_model a.model_id)
    member ← on_base (on_db (get_project_member m.project_id caller))
    found ← list_comments annotation_id
    pure (comments_of found)

  unfoldable pub serve : Step → Action Board Reply
  serve (create_for_model model_id given) = create_for_model_route model_id given
  serve (update_one annotation_id given) = update_one_route annotation_id given
  serve (add_comment annotation_id body) = add_comment_route annotation_id body
  serve (get_comments annotation_id) = get_comments_route annotation_id
  serve (elsewhere base hooks) = update (cascaded base hooks) >> pure no_content

pub record Request : Type 0 where
  pub ambient : Ambient
  pub caller : User
  pub step : Step

unfoldable pub run : List Request → Board → Board
unfolding serve
run [] b = b
run (r ∷ rest) b = run rest (serve r.ambient r.caller r.step b).1
