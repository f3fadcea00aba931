-- ===== src/Uploads/Routes/Quota.antt =====
-- The daily number of uploads.
use open_format_3d_viewer.Prelude.{
  ℕ, suc, ◌+◌, ◌≤◌, ◌<◌, ◌≡◌, refl, sym, some, inl, inr, ap, subst, true, ◌&&◌, List, [], ◌∷◌, ◌==◌,
  nat_eq, string_eq, ltb, All, if◌then◌else◌, Bool-cases, arith,
}
use open_format_3d_viewer.Core.Session.{Result, ok, raised, after, Action, pure, query, Keeps}
use open_format_3d_viewer.Core.Rows.{User}
use open_format_3d_viewer.Core.Models.{Store, on_db}
use open_format_3d_viewer.Projects.Authorization.{require_role_for_project}
use open_format_3d_viewer.Uploads.Filenames.{validate_filename}
use open_format_3d_viewer.Uploads.Files.{validate_file_size, validate_mime_type_declared}
use open_format_3d_viewer.Uploads.Service.{
  World, ModelUploadRequest, no_fault, plan_daily_upload_limit, count_upload, incremented,
  store_upload, initiate_upload,
}
use open_format_3d_viewer.Uploads.Routes.Kept.{is_upload, editor_reads}
use open_format_3d_viewer.Uploads.Routes.Uncounted.{Has, Has-store, Has-handle}
use open_format_3d_viewer.Uploads.Routes.{
  Call, upload, upload_local, confirm, get_one, delete_one, tree, chunks, element_by_guid, Request,
  handle,
}

module _ {A : Type 0} where
  abbrev oks : Result A → ℕ
  oks (ok a) = 1
  oks (raised e) = 0

  oks_le : (r : Result A) → oks r ≤ 1
  oks_le (ok a) = omega arith
  oks_le (raised e) = omega arith

module _ (u d : ℕ) where
  -- The uploads of user `u` on day `d` that are answered with a URL.
  abbrev pub started : Request → Store → ℕ
  started r s =
      if r.caller.id == u && r.world.today == d && is_upload r.call
      then oks (handle r.world r.caller r.call s).0
      else 0

  unfoldable pub uploads_started : List Request → Store → ℕ
  unfolding handle
  uploads_started [] s = 0
  uploads_started (r ∷ rest) s =
      started r s + uploads_started rest (handle r.world r.caller r.call s).1

  -- An outcome that adds at most the count of its success to `n`, and stays within the limit.
  module _ (limit n : ℕ) where
    abbrev Counted : {A : Type 0} → Result A × Store → Type 0
    Counted (r, t) = (oks r + n ≤ t.quota u d) × (t.quota u d ≤ limit)

    Counted-read :
        {A B : Type 0} (x : Result A × Store) (s : Store) (k : A → Action Store B)
        → x.1 ≡ s
        → s.quota u d ≡ n
        → n ≤ limit
        → ((a : A) → Counted (k a s))
        → Counted (after x k)
    Counted-read (ok a, t) s k e h l f = subst (λ z. Counted (k a z)) (sym e) (f a)
    Counted-read (raised x, t) s k e h l f =
        let same : t.quota u d ≡ s.quota u d = ap (λ z. z.quota u d) e in (omega arith, omega arith)

    Counted-pure :
        {A B : Type 0} (x : Result A × Store) (f : A → B)
        → Counted x
        → Counted (after x (λ a. pure (f a)))
    Counted-pure (ok a, t) f h = h
    Counted-pure (raised e, t) f h = h

    Counted-more :
        {A : Type 0} (x : Result A × Store) → x.1.quota u d ≡ suc n → n < limit → Counted x
    Counted-more (r, t) h l = (omega (arith, oks_le r), omega arith)

module _ (u d limit : ℕ) where
  -- The user has a plan with this limit on the day, and Redis answers.
  abbrev pub IsMetered : Request → Type 0
  IsMetered r =
      (r.caller.id == u) ≡ true
      → (r.world.today == d) ≡ true
      → (plan_daily_upload_limit r.caller.plan ≡ some limit) × (r.world.redis ≡ no_fault)

  Counted-quota :
      {A : Type 0} (user : User) (s : Store) (k : Action Store A)
      → (user.id == u) ≡ true
      → s.quota u d ≤ limit
      → ((n : ℕ) → Keeps (Has u d n) k)
      → Counted u d limit
          (s.quota u d)
          (after (count_upload no_fault user d limit s) (λ counted. k))
  unfolding Keeps
  Counted-quota user s k same l keeps = elim (Bool-cases (ltb (s.quota user.id d) limit)) [
    | inl t ↦ rw t (
        Counted-more u d limit (s.quota u d) (k (incremented user.id d s))
          (keeps (suc (s.quota u d)) (incremented user.id d s) (ground arith)) (ground arith))
    | inr t ↦ rw t (omega arith, l)
  ]

  Counted-initiate :
      (w : World) (given : ModelUploadRequest) (user : User) (s : Store)
      → (user.id == u) ≡ true
      → (w.today == d) ≡ true
      → plan_daily_upload_limit user.plan ≡ some limit
      → w.redis ≡ no_fault
      → s.quota u d ≤ limit
      → Counted u d limit (s.quota u d) (initiate_upload w given user s)
  unfolding initiate_upload
  Counted-initiate w given user s mine day plan up l =
      let n = s.quota u d in
      let today : w.today ≡ d = ground arith in
      Counted-read u d limit n (query (λ t. validate_filename w.unicode given.filename) s) s _ refl
        refl l
        (λ safe.
          Counted-read u d limit n (query (λ t. validate_file_size given.size_bytes user.plan) s) s
            _ refl refl l
            (λ size.
              Counted-read u d limit n
                (query (λ t. validate_mime_type_declared given.content_type) s) s _ refl refl l
                (λ declared.
                  rw (plan, up, today)
                    (Counted-quota user s (store_upload w given user safe) mine l
                      (λ m. Has-store u d m w given user safe)))))

  Counted-upload :
      (w : World) (given : ModelUploadRequest) (user : User) (s : Store)
      → (user.id == u) ≡ true
      → (w.today == d) ≡ true
      → plan_daily_upload_limit user.plan ≡ some limit
      → w.redis ≡ no_fault
      → s.quota u d ≤ limit
      → Counted u d limit (s.quota u d) (handle w user (upload given) s)
  unfolding handle
  Counted-upload w given user s mine day plan up l =
      Counted-read u d limit (s.quota u d)
        (on_db (require_role_for_project given.project_id "editor" user) s) s _
        (editor_reads user given.project_id s) refl l
        (λ member.
          Counted-pure u d limit (s.quota u d) (initiate_upload w given user s) _
            (Counted-initiate w given user s mine day plan up l))

module _ (u d limit : ℕ) where
  Counted-upload_route :
      (w : World) (user : User) (c : Call) (s : Store)
      → IsMetered u d limit (record { world = w; caller = user; call = c })
      → (user.id == u && w.today == d && is_upload c) ≡ true
      → s.quota u d ≤ limit
      → Counted u d limit (s.quota u d) (handle w user c s)
  Counted-upload_route w user (upload given) s h e l =
      let (plan, up) = h (ground arith) (ground arith) in
      Counted-upload u d limit w given user s (ground arith) (ground arith) plan up l
  Counted-upload_route w user (upload_local key contents written) s h e l = absurd (ground arith)
  Counted-upload_route w user (confirm id) s h e l = absurd (ground arith)
  Counted-upload_route w user (get_one id) s h e l = absurd (ground arith)
  Counted-upload_route w user (delete_one id) s h e l = absurd (ground arith)
  Counted-upload_route w user (tree id) s h e l = absurd (ground arith)
  Counted-upload_route w user (chunks id) s h e l = absurd (ground arith)
  Counted-upload_route w user (element_by_guid id guid) s h e l = absurd (ground arith)

  Counted-step :
      (r : Request) (s : Store)
      → IsMetered u d limit r
      → s.quota u d ≤ limit
      → (started u d r s + s.quota u d ≤ (handle r.world r.caller r.call s).1.quota u d)
        × ((handle r.world r.caller r.call s).1.quota u d ≤ limit)
  unfolding Keeps
  Counted-step r s h l =
      elim (Bool-cases (r.caller.id == u && r.world.today == d && is_upload r.call)) [
        | inl t ↦ rw t (Counted-upload_route r.world r.caller r.call s h t l)
        | inr t ↦
            let same = Has-handle u d (s.quota u d) r.world r.caller r.call t s refl in
            rw t (omega arith, omega arith)
      ]

  -- On one day at most as many uploads of a user are answered with a URL as the plan allows,
  -- together with those already counted; whatever requests come from whomever, as long as the
  -- user's plan stays and Redis answers.
  pub uploads_started-bound :
      (rs : List Request) (s : Store)
      → All (IsMetered u d limit) rs
      → s.quota u d ≤ limit
      → uploads_started u d rs s + s.quota u d ≤ limit
  unfolding uploads_started
  uploads_started-bound [] s h l = omega arith
  uploads_started-bound (r ∷ rest) s h l =
      let (a, b) = Counted-step r s h.0 l in
      let more = uploads_started-bound rest (handle r.world r.caller r.call s).1 h.1 b in
      omega arith
