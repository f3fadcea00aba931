-- ===== src/Share.antt =====
-- Public share links: services/share.py, routers/share.py and models/share_link.py of apps/api/app.
-- A fresh UUID, a fresh token and the time of the call are arguments.
pub mod Kept
pub mod Live
pub mod Revoked
pub mod Tests
use Prim.Native.String.{◌++◌}
use open_format_3d_viewer.Prelude.{
  ℕ, String, Bool, true, false, ◌&&◌, ◌||◌, not, Option, none, some, List, [], ◌∷◌, map, select,
  any, ltb, ◌==◌, nat_eq, string_eq, if◌then◌else◌,
}
use open_format_3d_viewer.Core.Exceptions.{validation, not_found, authorization, integrity_error}
use open_format_3d_viewer.Core.Session.{
  Result, ok, raised, Action, pure, raise, query, update, ◌>>=◌, ◌>>◌, scalar_one_or_none, or_raise,
}
use open_format_3d_viewer.Core.Rows.{User}
use open_format_3d_viewer.Core.Models.{Model, ModelMetadata, Properties, Store, on_db}
use open_format_3d_viewer.Projects.Authorization.{get_project_member, require_role_for_project}
use open_format_3d_viewer.Uploads.Service.{get_model}

-- models/share_link.py
pub record ShareLink : Type 0 where
  pub id : ℕ
  pub model_id : ℕ
  pub created_by : ℕ
  pub token : String
  pub expires_at : Option ℕ
  pub revoked : Bool
  pub created_at : ℕ

pub record Shares : Type 0 where
  pub base : Store
  pub links : List ShareLink

pub record PublicModelResponse : Type 0 where
  pub id : ℕ
  pub name : String
  pub format : String
  pub status : String
  pub created_at : ℕ
  pub updated_at : ℕ
  pub chunk_urls : List String

abbrev pub on_base_result : {A : Type 0} → Shares → Result A × Store → Result A × Shares
on_base_result s (r, t) = (r, record s { base = t })

abbrev pub on_base : {A : Type 0} → Action Store A → Action Shares A
on_base m s = on_base_result s (m s.base)

-- The primary key, the unique token and the two foreign keys.
abbrev pub link_conflicts : ShareLink → Shares → Bool
link_conflicts l s =
    any (λ x. x.id == l.id || x.token == l.token) s.links
    || not (any (λ m. m.id == l.model_id) s.base.models)
    || not (any (λ u. u.id == l.created_by) s.base.db.users)

unfoldable pub insert_link : ShareLink → Action Shares Unit
insert_link l s =
    if link_conflicts l s
    then (raised integrity_error, s)
    else (ok tt, record s { links = l ∷ s.links })

unfoldable pub create_share_link :
    (link_id : ℕ) (token : String) (now : ℕ) (model_id user_id : ℕ) (expires_at : Option ℕ)
    → Action Shares ShareLink
create_share_link link_id token now model_id user_id expires_at = do
  m ← on_base (get_model model_id)
  let link : ShareLink = record {
    id = link_id;
    model_id = model_id;
    created_by = user_id;
    token = token;
    expires_at = expires_at;
    revoked = false;
    created_at = now;
  }
  insert_link link
  pure link

-- `not link or link.revoked`
abbrev pub live : Option ShareLink → Result ShareLink
live none = raised (not_found "Share link not found or has been revoked")
live (some link) =
    if link.revoked then raised (not_found "Share link not found or has been revoked") else ok link

abbrev pub is_past : Option ℕ → (now : ℕ) → Bool
is_past none now = false
is_past (some expires_at) now = ltb expires_at now

abbrev pub unexpired : (now : ℕ) → ShareLink → Result ShareLink
unexpired now link =
    if is_past link.expires_at now then raised (validation "Share link has expired") else ok link

-- `xkt_chunks or processed_keys or []`
abbrev pub first_keys : Option (List String) → Option (List String) → List String
first_keys (some (k ∷ keys)) others = k ∷ keys
first_keys (some []) none = []
first_keys (some []) (some keys) = keys
first_keys none none = []
first_keys none (some keys) = keys

abbrev pub keys_of : Option Properties → List String
keys_of none = []
keys_of (some p) = first_keys p.xkt_chunks p.processed_keys

abbrev pub keys_in : Option ModelMetadata → List String
keys_in none = []
keys_in (some metadata) = keys_of metadata.properties

abbrev pub or_filename : Option String → String → String
or_filename none filename = filename
or_filename (some name) filename = if name == "" then filename else name

-- `cdn_base` is CDN_BASE_URL without slashes at its end.
module _ (is_local : Bool) (cdn_base : String) where
  abbrev pub public_response : Model → Option ModelMetadata → PublicModelResponse
  public_response m metadata = record {
    id = m.id;
    name = or_filename m.name m.original_filename;
    format = m.format;
    status = m.status;
    created_at = m.created_at;
    updated_at = m.updated_at;
    chunk_urls =
        map (λ k. if is_local then "/files/" ++ k else cdn_base ++ "/" ++ k) (keys_in metadata);
  }

  abbrev pub shown : ShareLink → Action Shares (ShareLink × PublicModelResponse)
  shown link = do
    m ← on_base (get_model link.model_id)
    metadata ← query (λ s. scalar_one_or_none (select (λ x. x.model_id == m.id) s.base.metadata))
    pure (link, public_response m metadata)

  unfoldable pub get_share_link :
      (token : String) (now : ℕ) → Action Shares (ShareLink × PublicModelResponse)
  get_share_link token now = do
    found ← query (λ s. scalar_one_or_none (select (λ l. l.token == token) s.links))
    link ← query (λ s. live found)
    checked ← query (λ s. unexpired now link)
    shown checked

abbrev pub mark_revoked : (link_id : ℕ) → Shares → Shares
mark_revoked link_id s = record s {
  links = map (λ l. if l.id == link_id then record l { revoked = true } else l) s.links;
}

abbrev pub check_creator : (user_id : ℕ) → ShareLink → Action Shares Unit
check_creator user_id link =
    if link.created_by == user_id
    then pure tt
    else raise (authorization "You do not have permission to revoke this share link")

unfoldable pub revoke_share_link : (link_id user_id : ℕ) → Action Shares Unit
revoke_share_link link_id user_id = do
  found ← query (λ s. scalar_one_or_none (select (λ l. l.id == link_id) s.links))
  link ← query (λ s. or_raise (not_found "Share link not found") found)
  check_creator user_id link
  update (mark_revoked link.id)

-- The rows of the query, without its order.
unfoldable pub list_share_links : (model_id : ℕ) → Action Shares (List ShareLink)
list_share_links model_id =
    query (λ s. ok (select (λ l. l.model_id == model_id && not l.revoked) s.links))

-- The requests of routers/share.py; `elsewhere` is what other requests make of the other tables, and the
-- foreign key takes the links of models that are gone (`ondelete="CASCADE"`).
pub data Step : Type 0 where
  create : (link_id : ℕ) → (token : String) → (model_id : ℕ) → (expires_at : Option ℕ) → Step
  resolve : (token : String) → Step
  revoke : (link_id : ℕ) → Step
  list_links : (model_id : ℕ) → Step
  elsewhere : Store → Step

pub data Reply : Type 0 where
  link_of : ShareLink → Reply
  public_model : ShareLink → PublicModelResponse → Reply
  links_of : List ShareLink → Reply
  no_content : Reply

abbrev pub cascaded : Store → Shares → Shares
cascaded base s = record {
  base = base;
  links = select (λ l. any (λ m. m.id == l.model_id) base.models) s.links;
}

abbrev pub create_route :
    (caller : User) (now link_id : ℕ) (token : String) (model_id : ℕ) (expires_at : Option ℕ)
    → Action Shares Reply
create_route caller now link_id token model_id expires_at = do
  m ← on_base (get_model model_id)
  member ← on_base (on_db (require_role_for_project m.project_id "editor" caller))
  link ← create_share_link link_id token now model_id caller.id expires_at
  pure (link_of link)

abbrev pub list_route : (caller : User) (model_id : ℕ) → Action Shares Reply
list_route caller model_id = do
  m ← on_base (get_model model_id)
  member ← on_base (on_db (get_project_member m.project_id caller))
  found ← list_share_links model_id
  pure (links_of found)

module _ (is_local : Bool) (cdn_base : String) (caller : User) (now : ℕ) where
  unfoldable pub serve : Step → Action Shares Reply
  serve (create link_id token model_id expires_at) =
      create_route caller now link_id token model_id expires_at
  serve (resolve token) = do
    (link, m) ← get_share_link is_local cdn_base token now
    pure (public_model link m)
  serve (revoke link_id) = revoke_share_link link_id caller.id >> pure no_content
  serve (list_links model_id) = list_route caller model_id
  serve (elsewhere base) = update (cascaded base) >> pure no_content

-- Requests one after the other, each with its caller and time.
unfoldable pub run :
    (is_local : Bool) (cdn_base : String) → List (Step × User × ℕ) → Shares → Shares
unfolding serve
run is_local cdn_base [] s = s
run is_local cdn_base ((step, caller, now) ∷ rest) s =
    run is_local cdn_base rest (serve is_local cdn_base caller now step s).1
