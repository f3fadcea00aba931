-- ===== src/Uploads/Routes/Scanned.antt =====
-- The scan tasks of one model, and what confirmations make of their number.
use open_format_3d_viewer.Prelude.{
  ℕ, ◌+◌, String, ◌≡◌, refl, ◌⊎◌, inl, inr, Option, none, some, true, false, List, [], ◌∷◌, ◌==◌,
  nat_eq, string_eq, any, map, select, All, All-select, select-head, if◌then◌else◌, Bool-cases,
  arith,
}
use open_format_3d_viewer.Core.Session.{
  Result, ok, raised, after, Result-cases, scalar_one_or_none, scalar-some, or_raise, Action, query,
  update, Keeps, Keeps-query,
}
use open_format_3d_viewer.Core.Models.{
  Model, Store, Outgoing, scan_file, model_sync, raw_deleted, processed_deleted, raw_written,
  insert_model, update_model_row, delete_model_row, send, model_conflicts,
}
use open_format_3d_viewer.Uploads.Service.{
  World, get_model, confirm_found, confirm_upload, check_pending, check_size, check_content,
  key_size, key_header, header_content, confirmed, trigger_clamav_scan,
}
use open_format_3d_viewer.Uploads.Routes.Kept.{
  is_scan, Keeps-check_pending, Keeps-check_size, Keeps-caught, Keeps-confirm_found,
}

module _ (id : ℕ) where
  -- The scan tasks for the model.
  abbrev scan_of : Outgoing → ℕ
  scan_of (scan_file model_id key) = if model_id == id then 1 else 0
  scan_of x = 0

  abbrev pub scans : List Outgoing → ℕ
  scans [] = 0
  scans (x ∷ xs) = scan_of x + scans xs

  abbrev IsSettled : Model → Type 0
  IsSettled m = (m.id == id) ≡ true → (m.status == "pending") ≡ false

  -- At most one scan, and none while the model is pending.
  abbrev pub ScannedOnce : Store → Type 0
  ScannedOnce s = (scans s.sent ≡ 0) ⊎ ((scans s.sent ≡ 1) × All IsSettled s.models)

  scan_of-other : (x : Outgoing) → is_scan x ≡ false → scan_of x ≡ 0
  scan_of-other (scan_file model_id key) h = absurd (ground arith)
  scan_of-other (model_sync user_id model_id status) h = refl
  scan_of-other (raw_deleted key) h = refl
  scan_of-other (processed_deleted prefix) h = refl
  scan_of-other (raw_written path contents) h = refl

  pub ScannedOnce-send : (x : Outgoing) → is_scan x ≡ false → Keeps ScannedOnce (send x)
  unfolding Keeps
  ScannedOnce-send x f s (inl h) = inl (omega (arith, scan_of-other x f))
  ScannedOnce-send x f s (inr (h, a)) = inr (omega (arith, scan_of-other x f), a)

  pub ScannedOnce-delete : (k : ℕ) → Keeps ScannedOnce (update (delete_model_row k))
  unfolding Keeps
  ScannedOnce-delete k s (inl h) = inl h
  ScannedOnce-delete k s (inr (h, a)) = inr (h, All-select IsSettled _ s.models a)

  IsSettled-written :
      (m : Model) (ms : List Model)
      → (m.status == "pending") ≡ false
      → All IsSettled ms
      → All IsSettled (map (λ x. if x.id == m.id then m else x) ms)
  IsSettled-written m [] h a = tt
  IsSettled-written m (x ∷ ms) h a = elim (Bool-cases (x.id == m.id)) [
    | inl t ↦ rw t ((λ e. h), IsSettled-written m ms h a.1)
    | inr t ↦ rw t (a.0, IsSettled-written m ms h a.1)
  ]

  ScannedOnce-write :
      (m : Model) → (m.status == "pending") ≡ false → Keeps ScannedOnce (update_model_row m)
  unfolding Keeps update_model_row
  ScannedOnce-write m f s h = elim (Bool-cases (any (λ x. x.id == m.id) s.models)) [
    | inr t ↦ rw t h
    | inl t ↦
        rw t
          (elim h
            as (λ g.
              ScannedOnce
                (record s { models = map (λ x. if x.id == m.id then m else x) s.models })) [
                  | inl z ↦ inl z
                  | inr (z, a) ↦ inr (z, IsSettled-written m s.models f a)
                ])
  ]

  pub ScannedOnce-insert : (m : Model) → (m.id == id) ≡ false → Keeps ScannedOnce (insert_model m)
  unfolding Keeps insert_model
  ScannedOnce-insert m f s h = elim (Bool-cases (model_conflicts m s)) [
    | inl t ↦ rw t h
    | inr t ↦ rw t (elim h as (λ g. ScannedOnce (record s { models = m ∷ s.models })) [
      | inl z ↦ inl z
      | inr (z, a) ↦ inr (z, ((λ e. absurd (ground arith)), a))
    ])
  ]

  -- No scan yet; after the write of the confirmed model, also no row of it that is pending.
  abbrev Unscanned : Store → Type 0
  Unscanned s = scans s.sent ≡ 0

  abbrev Fresh : Store → Type 0
  Fresh s = (scans s.sent ≡ 0) × All IsSettled s.models

  -- From `P` the action leads to `Q`, or it raises and the model is scanned at most once.
  abbrev Ends : {A : Type 0} → (Store → Type 0) → Result A × Store → Type 0
  Ends Q (ok a, t) = Q t
  Ends Q (raised e, t) = ScannedOnce t

  Ends-keeps :
      {A : Type 0} (P : Store → Type 0) (x : Result A × Store)
      → P x.1
      → (P x.1 → ScannedOnce x.1)
      → Ends P x
  Ends-keeps P (ok a, t) h f = h
  Ends-keeps P (raised e, t) h f = f h

  Ends-after :
      {A B : Type 0} (P Q : Store → Type 0) (x : Result A × Store) (k : A → Action Store B)
      → Ends P x
      → ((a : A) (t : Store) → P t → Ends Q (k a t))
      → Ends Q (after x k)
  Ends-after P Q (ok a, t) k h f = f a t h
  Ends-after P Q (raised e, t) k h f = h

  Ends-ScannedOnce : {A : Type 0} (x : Result A × Store) → Ends ScannedOnce x → ScannedOnce x.1
  Ends-ScannedOnce (ok a, t) h = h
  Ends-ScannedOnce (raised e, t) h = h

  Ends-Unscanned :
      {A : Type 0} (m : Action Store A) (s : Store)
      → Keeps Unscanned m
      → Unscanned s
      → Ends Unscanned (m s)
  unfolding Keeps
  Ends-Unscanned m s k h = Ends-keeps Unscanned (m s) (k s h) (λ z. inl z)

  Unscanned-write : (m : Model) → Keeps Unscanned (update_model_row m)
  unfolding Keeps update_model_row
  Unscanned-write m s h = elim (Bool-cases (any (λ x. x.id == m.id) s.models)) [
    | inl t ↦ rw t h
    | inr t ↦ rw t h
  ]

  IsSettled-replaced :
      (m : Model) (ms : List Model)
      → (m.id == id) ≡ true
      → (m.status == "pending") ≡ false
      → All IsSettled (map (λ x. if x.id == m.id then m else x) ms)
  IsSettled-replaced m [] e f = tt
  IsSettled-replaced m (x ∷ ms) e f = elim (Bool-cases (x.id == m.id)) [
    | inl t ↦ rw t ((λ g. f), IsSettled-replaced m ms e f)
    | inr t ↦ rw t ((λ g. absurd (ground arith)), IsSettled-replaced m ms e f)
  ]

  Fresh-write :
      (m : Model) (s : Store)
      → (m.id == id) ≡ true
      → (m.status == "pending") ≡ false
      → Unscanned s
      → Ends Fresh (update_model_row m s)
  unfolding update_model_row
  Fresh-write m s e f h = elim (Bool-cases (any (λ x. x.id == m.id) s.models)) [
    | inl t ↦ rw t (h, IsSettled-replaced m s.models e f)
    | inr t ↦ rw t (inl h)
  ]

  Fresh-trigger :
      (w : World) (key : Option String) (s : Store)
      → Fresh s
      → ScannedOnce (trigger_clamav_scan w id key s).1
  Fresh-trigger w key s (h, a) = elim (Bool-cases w.broker_up) [
    | inl t ↦ rw t (inr (ground arith, a))
    | inr t ↦ rw t (inl h)
  ]

  ScannedOnce-sync :
      (x : Outgoing) → is_scan x ≡ false → (s : Store) → ScannedOnce s → ScannedOnce (send x s).1
  unfolding Keeps
  ScannedOnce-sync x f s h = ScannedOnce-send x f s h

  -- The confirmation of the model that was not scanned yet.
  ScannedOnce-first :
      (w : World) (m : Model) (s : Store)
      → m.id ≡ id
      → Unscanned s
      → ScannedOnce (confirm_found w m s).1
  ScannedOnce-first w m s e h =
      let writes = λ (x : Model) (f : (x.status == "pending") ≡ false). Unscanned-write x in
      Ends-ScannedOnce _ (
        Ends-after Unscanned ScannedOnce (check_pending w m s) _
          (Ends-Unscanned _ s (Keeps-check_pending Unscanned w m) h)
          (λ pending t1 h1.
            Ends-after Unscanned ScannedOnce (query (λ z. key_size w m.raw_s3_key) t1) _
              (Ends-Unscanned _ t1 (Keeps-query Unscanned (λ z. key_size w m.raw_s3_key)) h1)
              (λ size t2 h2.
                Ends-after Unscanned ScannedOnce (check_size w m size t2) _
                  (Ends-Unscanned _ t2 (Keeps-check_size Unscanned w m writes size) h2)
                  (λ sized t3 h3.
                    Ends-after Unscanned ScannedOnce (check_content w m t3) _
                      (Ends-Unscanned _ t3
                        (Keeps-caught Unscanned w m writes
                          (header_content w m (key_header w m.raw_s3_key)))
                        h3)
                      (λ checked t4 h4.
                        Ends-after Fresh ScannedOnce (update_model_row (confirmed w m size) t4) _
                          (Fresh-write (confirmed w m size) t4 (ground arith) refl h4)
                          (λ written t5 h5.
                            Ends-after ScannedOnce ScannedOnce
                              (trigger_clamav_scan w m.id m.raw_s3_key t5) _
                              (Ends-keeps ScannedOnce _ (rw e (Fresh-trigger w m.raw_s3_key t5 h5))
                                (λ z. z))
                              (λ triggered t6 h6.
                                ScannedOnce-sync (model_sync m.uploaded_by m.id "processing") refl
                                  t6 h6)))))))

  ScannedOnce-scan_other :
      (k : ℕ) (key : Option String) → (k == id) ≡ false → Keeps ScannedOnce (send (scan_file k key))
  unfolding Keeps
  ScannedOnce-scan_other k key e s (inl z) = rw e (inl (omega arith))
  ScannedOnce-scan_other k key e s (inr (z, a)) = rw e (inr (omega arith, a))

  ScannedOnce-found :
      (w : World) (m : Model) (s : Store)
      → ScannedOnce s
      → IsSettled m ⊎ (scans s.sent ≡ 0)
      → ScannedOnce (confirm_found w m s).1
  unfolding Keeps
  ScannedOnce-found w m s h k = elim (Bool-cases (m.id == id)) [
    | inr t ↦
        Keeps-confirm_found ScannedOnce w m ScannedOnce-write
          (ScannedOnce-scan_other m.id m.raw_s3_key t)
          (ScannedOnce-send (model_sync m.uploaded_by m.id "processing") refl) s h
    | inl t ↦ elim k [
      | inr z ↦ ScannedOnce-first w m s (ground arith) z
      | inl settled ↦ rw (settled t) h
    ]
  ]

  pub ScannedOnce-confirm_upload : (w : World) (j : ℕ) → Keeps ScannedOnce (confirm_upload w j)
  unfolding confirm_upload get_model or_raise Keeps
  ScannedOnce-confirm_upload w j s h =
      elim (Result-cases (scalar_one_or_none (select (λ m. m.id == j) s.models))) [
        | inl (e, f) ↦ rw f h
        | inr (none, f) ↦ rw f h
        | inr (some m, f) ↦ rw f (
            ScannedOnce-found w m s h (elim h [
              | inl z ↦ inr z
              | inr (z, a) ↦
                  inl (select-head IsSettled (λ x. x.id == j) s.models a (scalar-some _ m f)).1
            ]))
      ]
