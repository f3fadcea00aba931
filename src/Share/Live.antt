-- ===== src/Share/Live.antt =====
-- How long a share link can be used.
use mathlib.Core.Bool.{false≢true}
use open_format_3d_viewer.Prelude.{
  ℕ, String, Bool, true, false, ◌≡◌, refl, sym, ◌∙◌, inl, inr, ◌&&◌, ◌||◌, Option, none, some, List,
  [], ◌∷◌, select, select-passes, any, All, ◌==◌, nat_eq, string_eq, Bool-cases, arith,
}
use open_format_3d_viewer.Core.Session.{
  ok, update, Result-cases, scalar_one_or_none, scalar-some, or_raise, Keeps, Keeps-bind,
  Keeps-pure,
}
use open_format_3d_viewer.Core.Rows.{User}
use open_format_3d_viewer.Core.Models.{Model, ModelMetadata, Store}
use open_format_3d_viewer.Uploads.Service.{get_model}
use open_format_3d_viewer.Share.{
  ShareLink, Shares, PublicModelResponse, Step, create, resolve, revoke, list_links, no_content,
  elsewhere, link_conflicts, insert_link, get_share_link, revoke_share_link, mark_revoked, cascaded,
  is_past, public_response, serve, run,
}
use open_format_3d_viewer.Share.Kept.{
  any-select_cons, select-select_one, select-mark, any-of_selected, Keeps-create, Keeps-list,
  Keeps-resolve,
}

module _ (l : ShareLink) where
  abbrev has_token : ShareLink → Bool
  has_token x = x.token == l.token

  abbrev has_id : ShareLink → Bool
  has_id x = x.id == l.id

  -- The link is the only one with its token and with its identifier, and its model is there.
  abbrev HasModel : Store → Type 0
  HasModel base =
      (m : Model) × (metadata : Option ModelMetadata) × (select (λ x. x.id == l.model_id)
          base.models
        ≡ m ∷ [])
      × (scalar_one_or_none (select (λ x. x.model_id == m.id) base.metadata) ≡ ok metadata)

  abbrev pub IsStanding : Shares → Type 0
  IsStanding s =
      (select has_token s.links ≡ l ∷ []) × (select has_id s.links ≡ l ∷ []) × HasModel s.base

  -- A request that is not its creator's revocation of it; other requests leave its model.
  abbrev pub IsHarmless : Step × User × ℕ → Type 0
  IsHarmless (create link_id token model_id expires_at, caller, now) = Unit
  IsHarmless (resolve token, caller, now) = Unit
  IsHarmless (revoke link_id, caller, now) = (link_id == l.id && l.created_by == caller.id) ≡ false
  IsHarmless (list_links model_id, caller, now) = Unit
  IsHarmless (elsewhere base, caller, now) = HasModel base

  same_token : (x : ShareLink) → has_token x ≡ true → (l.token == x.token) ≡ true
  same_token x h = rw (string_eq.sound x.token l.token h) (string_eq.complete l.token l.token refl)

  unmet : (q : ShareLink → Bool) (s : Shares) → IsStanding s → any q s.links ≡ false → q l ≡ false
  unmet q s (a, b, c) h = elim (Bool-cases (q l)) [
    | inl t ↦ absurd (false≢true (sym h ∙ any-of_selected has_token q s.links a t))
    | inr t ↦ t
  ]

  IsStanding-insert : (x : ShareLink) → Keeps IsStanding (insert_link x)
  unfolding Keeps insert_link
  IsStanding-insert x s (a, b, c) = elim (Bool-cases (link_conflicts x s)) [
    | inl t ↦ rw t (a, b, c)
    | inr t ↦
        let new = unmet (λ y. y.id == x.id || y.token == x.token) s (a, b, c) (ground arith) in
        let other_token : has_token x ≡ false = ground (arith, same_token x) in
        let other_id : has_id x ≡ false = ground arith in rw t (rw other_token a, rw other_id b, c)
  ]

  IsStanding-mark : (k : ℕ) → (l.id == k) ≡ false → Keeps IsStanding (update (mark_revoked k))
  unfolding Keeps
  IsStanding-mark k h s (a, b, c) = (
    select-mark has_token (λ j x. ground arith) k s.links h a,
    select-mark has_id (λ j x. ground arith) k s.links h b,
    c,
  )

  IsStanding-elsewhere : (base : Store) → HasModel base → Keeps IsStanding (update (cascaded base))
  unfolding Keeps
  IsStanding-elsewhere base (m, x, e, f) s (a, b, c) =
      let kept = any-select_cons (λ y. y.id == l.model_id) base.models e in
      (
        select-select_one has_token _ s.links kept a,
        select-select_one has_id _ s.links kept b,
        (m, x, e, f),
      )

  found-other :
      (link_id user_id : ℕ) (s : Shares) (x : ShareLink)
      → (link_id == l.id && l.created_by == user_id) ≡ false
      → select has_id s.links ≡ l ∷ []
      → select (λ y. y.id == link_id) s.links ≡ x ∷ []
      → (x.created_by == user_id) ≡ true
      → (l.id == x.id) ≡ false
  found-other link_id user_id s x h b only t = elim (Bool-cases (l.id == x.id)) [
    | inr u ↦ u
    | inl u ↦
        let all : All (λ y. (y.id == link_id) ≡ true) (select (λ y. y.id == link_id) s.links) =
          select-passes (λ (y : ShareLink). y.id == link_id) s.links in
        let passes : (x.id == link_id) ≡ true = (rw only at all).0 in
        let same : link_id ≡ l.id = ground arith in
        let again : select has_id s.links ≡ x ∷ [] = rw same at only in
        let equal : x ≡ l = ground arith in absurd (ground arith)
  ]

  -- A revocation that finds another link, or that another user asks for.
  IsStanding-revoke :
      (link_id user_id : ℕ)
      → (link_id == l.id && l.created_by == user_id) ≡ false
      → Keeps IsStanding (revoke_share_link link_id user_id)
  unfolding Keeps revoke_share_link or_raise
  IsStanding-revoke link_id user_id h s (a, b, c) =
      elim (Result-cases (scalar_one_or_none (select (λ y. y.id == link_id) s.links))) [
        | inl (e, f) ↦ rw f (a, b, c)
        | inr (none, f) ↦ rw f (a, b, c)
        | inr (some x, f) ↦ elim (Bool-cases (x.created_by == user_id)) [
          | inr t ↦ rw (f, t) (a, b, c)
          | inl t ↦
              let only = scalar-some _ x f in
              let other : (l.id == x.id) ≡ false = found-other link_id user_id s x h b only t in
              rw (f, t) (IsStanding-mark x.id other s (a, b, c))
        ]
      ]

  IsStanding-step :
      (is_local : Bool) (cdn_base : String) (caller : User) (now : ℕ) (step : Step)
      → IsHarmless (step, caller, now)
      → Keeps IsStanding (serve is_local cdn_base caller now step)
  unfolding serve
  IsStanding-step is_local cdn_base caller now (create link_id token model_id expires_at) h =
      Keeps-create IsStanding caller now link_id token model_id expires_at
        (λ x e f. IsStanding-insert x)
  IsStanding-step is_local cdn_base caller now (resolve token) h =
      Keeps-bind IsStanding _ _ (Keeps-resolve IsStanding is_local cdn_base token now)
        (λ x. Keeps-pure IsStanding _)
  IsStanding-step is_local cdn_base caller now (revoke link_id) h =
      Keeps-bind IsStanding _ _ (IsStanding-revoke link_id caller.id h)
        (λ x. Keeps-pure IsStanding _)
  IsStanding-step is_local cdn_base caller now (list_links model_id) h =
      Keeps-list IsStanding caller model_id
  IsStanding-step is_local cdn_base caller now (elsewhere base) h =
      Keeps-bind IsStanding _ _ (IsStanding-elsewhere base h)
        (λ x. Keeps-pure IsStanding no_content)

  IsStanding-run :
      (is_local : Bool) (cdn_base : String) (steps : List (Step × User × ℕ)) (s : Shares)
      → All IsHarmless steps
      → IsStanding s
      → IsStanding (run is_local cdn_base steps s)
  unfolding run Keeps
  IsStanding-run is_local cdn_base [] s h k = k
  IsStanding-run is_local cdn_base ((step, caller, now) ∷ rest) s h k =
      IsStanding-run is_local cdn_base rest (serve is_local cdn_base caller now step s).1 h.1
        (IsStanding-step is_local cdn_base caller now step h.0 s k)

  resolve-standing :
      (is_local : Bool) (cdn_base : String) (now : ℕ) (s : Shares)
      → l.revoked ≡ false
      → is_past l.expires_at now ≡ false
      → IsStanding s
      → (m : PublicModelResponse) × (get_share_link is_local cdn_base l.token now s
          ≡ (ok (l, m), s))
  unfolding get_share_link get_model or_raise scalar_one_or_none
  resolve-standing is_local cdn_base now s r e (a, b, (m, x, f, g)) =
      (public_response is_local cdn_base m x, rw (a, r, e, f, g) refl)

  -- A link that was not revoked can be resolved until it expires, whatever requests come, as long as its
  -- creator does not revoke it and its model stays, with one metadata row at most: nobody else revokes it,
  -- and no other link takes its token or its identifier.
  pub run-resolves :
      (is_local : Bool) (cdn_base : String) (steps : List (Step × User × ℕ)) (now : ℕ) (s : Shares)
      → l.revoked ≡ false
      → is_past l.expires_at now ≡ false
      → IsStanding s
      → All IsHarmless steps
      → (m : PublicModelResponse) × (get_share_link is_local cdn_base l.token now
            (run is_local cdn_base steps s)
          ≡ (ok (l, m), run is_local cdn_base steps s))
  run-resolves is_local cdn_base steps now s r e k h =
      resolve-standing is_local cdn_base now (run is_local cdn_base steps s) r e
        (IsStanding-run is_local cdn_base steps s h k)
