-- ===== src/Uploads/Routes/Scans.antt =====
-- How often a model is handed to the scanner by any requests.
use open_format_3d_viewer.Prelude.{
  ℕ, ◌≤◌, ◌≡◌, refl, inl, inr, Option, none, some, false, List, [], ◌∷◌, ◌==◌, nat_eq, string_eq,
  All, ltb, Bool-cases, arith,
}
use open_format_3d_viewer.Core.Session.{Keeps}
use open_format_3d_viewer.Core.Rows.{User}
use open_format_3d_viewer.Core.Models.{Store}
use open_format_3d_viewer.Uploads.Service.{
  World, within_quota, RedisFault, no_fault, get_fails, incr_fails,
}
use open_format_3d_viewer.Uploads.Routes.{
  Call, upload, upload_local, get_one, delete_one, tree, chunks, element_by_guid, confirm, Request,
  handle, run,
}
use open_format_3d_viewer.Uploads.Routes.Kept.{
  is_upload, is_confirm, Keeps-handle, Keeps-confirm, Keeps-upload,
}
use open_format_3d_viewer.Uploads.Routes.Scanned.{
  scans, ScannedOnce, ScannedOnce-send, ScannedOnce-delete, ScannedOnce-insert,
  ScannedOnce-confirm_upload,
}

module _ (id : ℕ) where
  ScannedOnce-quota :
      (fault : RedisFault) (user : User) (day : ℕ) (limit : Option ℕ)
      → Keeps (ScannedOnce id) (within_quota fault user day limit)
  unfolding Keeps
  ScannedOnce-quota fault user day none s h = h
  ScannedOnce-quota get_fails user day (some limit) s h = h
  ScannedOnce-quota incr_fails user day (some limit) s h =
      elim (Bool-cases (ltb (s.quota user.id day) limit)) [ inl t ↦ rw t h | inr t ↦ rw t h ]
  ScannedOnce-quota no_fault user day (some limit) s h =
      elim (Bool-cases (ltb (s.quota user.id day) limit)) [ inl t ↦ rw t h | inr t ↦ rw t h ]

  ScannedOnce-plain :
      (w : World) (user : User) (c : Call)
      → is_upload c ≡ false
      → is_confirm c ≡ false
      → Keeps (ScannedOnce id) (handle w user c)
  ScannedOnce-plain = Keeps-handle (ScannedOnce id) (ScannedOnce-send id) (ScannedOnce-delete id)

  -- No upload draws the identifier of the model again.
  abbrev pub IsNew : Request → Type 0
  IsNew r = (r.world.new_id == id) ≡ false

  ScannedOnce-handle :
      (w : World) (user : User) (c : Call)
      → (w.new_id == id) ≡ false
      → Keeps (ScannedOnce id) (handle w user c)
  ScannedOnce-handle w user (upload given) e =
      Keeps-upload (ScannedOnce id) w given user (ScannedOnce-quota w.redis user w.today _)
        (λ m f. ScannedOnce-insert id m (ground arith))
  ScannedOnce-handle w user (confirm j) e =
      Keeps-confirm (ScannedOnce id) w user j (ScannedOnce-confirm_upload id w j)
  ScannedOnce-handle w user (upload_local key contents written) e =
      ScannedOnce-plain w user _ refl refl
  ScannedOnce-handle w user (get_one j) e = ScannedOnce-plain w user _ refl refl
  ScannedOnce-handle w user (delete_one j) e = ScannedOnce-plain w user _ refl refl
  ScannedOnce-handle w user (tree j) e = ScannedOnce-plain w user _ refl refl
  ScannedOnce-handle w user (chunks j) e = ScannedOnce-plain w user _ refl refl
  ScannedOnce-handle w user (element_by_guid j guid) e = ScannedOnce-plain w user _ refl refl

  ScannedOnce-run :
      (rs : List Request) (s : Store)
      → All IsNew rs
      → (ScannedOnce id) s
      → (ScannedOnce id) (run rs s)
  unfolding run Keeps
  ScannedOnce-run [] s h k = k
  ScannedOnce-run (r ∷ rest) s h k =
      ScannedOnce-run rest (handle r.world r.caller r.call s).1 h.1
        (ScannedOnce-handle r.world r.caller r.call h.0 s k)

  -- Whatever requests come, at most one scan task is sent for a model that had none, as long as no later
  -- upload draws its identifier: of repeated confirmations only one starts the pipeline.
  pub run-scanned_once :
      (rs : List Request) (s : Store)
      → All IsNew rs
      → scans id s.sent ≡ 0
      → scans id (run rs s).sent ≤ 1
  run-scanned_once rs s h z = elim (ScannedOnce-run rs s h (inl z)) [
    | inl e ↦ omega arith
    | inr (e, a) ↦ omega arith
  ]
