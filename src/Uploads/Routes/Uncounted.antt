-- ===== src/Uploads/Routes/Uncounted.antt =====
-- Requests that leave the number of a user's uploads on a day as it is.
use open_format_3d_viewer.Prelude.{
  ℕ, String, ◌≡◌, refl, Option, none, some, inl, inr, false, ◌&&◌, ◌==◌, nat_eq, string_eq, ltb,
  any, Bool-cases, arith,
}
use open_format_3d_viewer.Core.Session.{update, Keeps, Keeps-bind}
use open_format_3d_viewer.Core.Rows.{User}
use open_format_3d_viewer.Core.Models.{
  Model, Store, Outgoing, insert_model, update_model_row, delete_model_row, send, model_conflicts,
}
use open_format_3d_viewer.Uploads.Service.{
  World, ModelUploadRequest, RedisFault, no_fault, get_fails, incr_fails, within_quota,
  store_upload, confirm_upload,
}
use open_format_3d_viewer.Uploads.Routes.Kept.{
  is_upload, is_confirm, Keeps-get_model, Keeps-handle, Keeps-confirm, Keeps-confirm_found,
  Keeps-upload, Keeps-store,
}
use open_format_3d_viewer.Uploads.Routes.{
  Call, upload, upload_local, confirm, get_one, delete_one, tree, chunks, element_by_guid, handle,
}

module _ (u d : ℕ) where
  abbrev pub Has : ℕ → Store → Type 0
  Has n s = s.quota u d ≡ n

  Has-insert : (n : ℕ) (m : Model) → Keeps (Has n) (insert_model m)
  unfolding insert_model Keeps
  Has-insert n m s h = elim (Bool-cases (model_conflicts m s)) [ inl t ↦ rw t h | inr t ↦ rw t h ]

  pub Has-store :
      (n : ℕ) (w : World) (given : ModelUploadRequest) (user : User) (safe : String)
      → Keeps (Has n) (store_upload w given user safe)
  Has-store n w given user safe = Keeps-store (Has n) w given user safe (λ m f. Has-insert n m)

module _ (u d n : ℕ) where
  Has-write : (m : Model) → Keeps (Has u d n) (update_model_row m)
  unfolding update_model_row Keeps
  Has-write m s h = elim (Bool-cases (any (λ x. x.id == m.id) s.models)) [
    | inl t ↦ rw t h
    | inr t ↦ rw t h
  ]

  Has-send : (x : Outgoing) → Keeps (Has u d n) (send x)
  unfolding Keeps
  Has-send x s h = h

  Has-delete : (k : ℕ) → Keeps (Has u d n) (update (delete_model_row k))
  unfolding Keeps
  Has-delete k s h = h

  -- Another user's upload, or one of another day.
  Has-other :
      (fault : RedisFault) (user : User) (day : ℕ) (limit : Option ℕ)
      → (user.id == u && day == d) ≡ false
      → Keeps (Has u d n) (within_quota fault user day limit)
  unfolding Keeps
  Has-other fault user day none e s h = h
  Has-other get_fails user day (some limit) e s h = h
  Has-other incr_fails user day (some limit) e s h =
      elim (Bool-cases (ltb (s.quota user.id day) limit)) [ inl t ↦ rw t h | inr t ↦ rw t h ]
  Has-other no_fault user day (some limit) e s h =
      elim (Bool-cases (ltb (s.quota user.id day) limit)) [
        | inl t ↦ rw t (ground arith)
        | inr t ↦ rw t h
      ]

  Has-confirm_upload : (w : World) (id : ℕ) → Keeps (Has u d n) (confirm_upload w id)
  unfolding confirm_upload
  Has-confirm_upload w id =
      Keeps-bind (Has u d n) _ _ (Keeps-get_model (Has u d n) id)
        (λ m. Keeps-confirm_found (Has u d n) w m (λ x f. Has-write x) (Has-send _) (Has-send _))

  Has-plain :
      (w : World) (user : User) (c : Call)
      → is_upload c ≡ false
      → is_confirm c ≡ false
      → Keeps (Has u d n) (handle w user c)
  Has-plain = Keeps-handle (Has u d n) (λ x f. Has-send x) Has-delete

  pub Has-handle :
      (w : World) (user : User) (c : Call)
      → (user.id == u && w.today == d && is_upload c) ≡ false
      → Keeps (Has u d n) (handle w user c)
  Has-handle w user (upload given) e =
      Keeps-upload (Has u d n) w given user (Has-other w.redis user w.today _ (ground arith))
        (λ m f. Has-insert u d n m)
  Has-handle w user (confirm id) e = Keeps-confirm (Has u d n) w user id (Has-confirm_upload w id)
  Has-handle w user (upload_local key contents written) e = Has-plain w user _ refl refl
  Has-handle w user (get_one id) e = Has-plain w user _ refl refl
  Has-handle w user (delete_one id) e = Has-plain w user _ refl refl
  Has-handle w user (tree id) e = Has-plain w user _ refl refl
  Has-handle w user (chunks id) e = Has-plain w user _ refl refl
  Has-handle w user (element_by_guid id guid) e = Has-plain w user _ refl refl
