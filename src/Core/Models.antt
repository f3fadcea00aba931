-- ===== src/Core/Models.antt =====
-- apps/api/app/models: the tables of models with what is read of their metadata and elements, and
-- what the API keeps or sends beside the tables. A JSON document is its text.
use open_format_3d_viewer.Prelude.{
  ℕ, String, Bool, ◌||◌, not, Option, List, ◌∷◌, map, any, select, ◌==◌, nat_eq, string_eq,
  if◌then◌else◌,
}
use open_format_3d_viewer.Core.Exceptions.{integrity_error, stale_data}
use open_format_3d_viewer.Core.Session.{Action, Result, ok, raised}
use open_format_3d_viewer.Core.Rows.{Database}

-- models/model.py; the columns that only the worker writes and the API passes on are left out.
pub record Model : Type 0 where
  pub id : ℕ
  pub project_id : ℕ
  pub uploaded_by : ℕ
  pub original_filename : String
  pub name : Option String
  pub format : String
  pub raw_s3_key : Option String
  pub processed_s3_prefix : Option String
  pub file_size_bytes : Option ℕ
  pub status : String
  pub error_message : Option String
  pub created_at : ℕ
  pub updated_at : ℕ

-- models/model_element.py
pub record ModelElement : Type 0 where
  pub id : ℕ
  pub model_id : ℕ
  pub guid : String
  pub element_type : Option String
  pub name : Option String
  pub created_at : ℕ

-- models/model_metadata.py; of `properties`, the two lists of keys that are read, each only if it is
-- a list.
pub record Properties : Type 0 where
  pub processed_keys : Option (List String)
  pub xkt_chunks : Option (List String)

pub record ModelMetadata : Type 0 where
  pub id : ℕ
  pub model_id : ℕ
  pub properties : Option Properties
  pub spatial_tree : Option String

-- What the API sends: a scan task to the worker's queue, an event to a user's channel, a deletion
-- to the storage.
pub data Outgoing : Type 0 where
  scan_file : (model_id : ℕ) → (s3_key : Option String) → Outgoing
  model_sync : (user_id model_id : ℕ) → (status : String) → Outgoing
  raw_deleted : (storage_key : String) → Outgoing
  processed_deleted : (prefix : String) → Outgoing
  raw_written : (path : String) → (contents : List ℕ) → Outgoing

-- `quota` counts the INCRs of the key "uploads:{user}:{day}".
pub record Store : Type 0 where
  pub db : Database
  pub models : List Model
  pub elements : List ModelElement
  pub metadata : List ModelMetadata
  pub quota : (user_id day : ℕ) → ℕ
  pub sent : List Outgoing

-- A query or a check on the tables of Core.Rows.
abbrev pub lifted : {A : Type 0} → Store → Result A × Database → Result A × Store
lifted s (r, db) = (r, record s { db = db })

abbrev pub on_db : {A : Type 0} → Action Database A → Action Store A
on_db m s = lifted s (m s.db)

-- The primary key and the foreign keys to the project and the user.
unfoldable pub model_conflicts : Model → Store → Bool
model_conflicts m s =
    any (λ x. x.id == m.id) s.models
    || not (any (λ p. p.id == m.project_id) s.db.projects)
    || not (any (λ u. u.id == m.uploaded_by) s.db.users)

unfoldable pub insert_model : Model → Action Store Unit
unfolding model_conflicts
insert_model m s =
    if model_conflicts m s
    then (raised integrity_error, s)
    else (ok tt, record s { models = m ∷ s.models })

-- `UPDATE … WHERE id = …` as the session flushes it.
unfoldable pub update_model_row : Model → Action Store Unit
update_model_row m s =
    if any (λ x. x.id == m.id) s.models
    then (ok tt, record s { models = map (λ x. if x.id == m.id then m else x) s.models })
    else (raised stale_data, s)

-- `ondelete="CASCADE"` takes the elements and the metadata with the model.
abbrev pub delete_model_row : ℕ → Store → Store
delete_model_row k s = record s {
  models = select (λ x. not (x.id == k)) s.models;
  elements = select (λ x. not (x.model_id == k)) s.elements;
  metadata = select (λ x. not (x.model_id == k)) s.metadata;
}

abbrev pub send : Outgoing → Action Store Unit
send message s = (ok tt, record s { sent = message ∷ s.sent })
