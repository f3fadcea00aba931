-- ===== src/Share/Revoked.antt =====
-- Links after their revocation.
use open_format_3d_viewer.Prelude.{
  ℕ, String, Bool, true, false, ◌≡◌, refl, inl, inr, none, some, List, [], ◌∷◌, map, select,
  select-passes, select-head, All, All-select, ◌==◌, nat_eq, string_eq, Bool-cases, arith,
}
use open_format_3d_viewer.Core.Session.{
  Result, ok, raised, update, Result-cases, scalar_one_or_none, scalar-some, or_raise, Keeps,
  Keeps-bind, Keeps-pure,
}
use open_format_3d_viewer.Core.Exceptions.{Exception, not_found}
use open_format_3d_viewer.Core.Rows.{User}
use open_format_3d_viewer.Core.Models.{Store}
use open_format_3d_viewer.Share.{
  ShareLink, Shares, Step, create, resolve, revoke, list_links, no_content, elsewhere,
  link_conflicts, insert_link, get_share_link, revoke_share_link, cascaded, serve, run,
}
use open_format_3d_viewer.Share.Kept.{mark, Keeps-create, Keeps-list, Keeps-resolve}
use open_format_3d_viewer.Core.Members.{select-one}

raised≢ok : {A : Type 0} {e : Exception} {a : A} → (Result.raised e) ≡ ok a → ⊥
raised≢ok h = ground arith

module _ (token : String) where
  abbrev IsSpent : ShareLink → Type 0
  IsSpent x = (x.token == token) ≡ true → x.revoked ≡ true

  abbrev AllSpent : Shares → Type 0
  AllSpent s = All IsSpent s.links

  -- No later link is created with the same token.
  abbrev pub IsFresh : Step × User × ℕ → Type 0
  IsFresh (create link_id other model_id expires_at, caller, now) = (other == token) ≡ false
  IsFresh (resolve other, caller, now) = Unit
  IsFresh (revoke link_id, caller, now) = Unit
  IsFresh (list_links model_id, caller, now) = Unit
  IsFresh (elsewhere base, caller, now) = Unit

  AllSpent-insert : (x : ShareLink) → (x.token == token) ≡ false → Keeps AllSpent (insert_link x)
  unfolding Keeps insert_link
  AllSpent-insert x e s h = elim (Bool-cases (link_conflicts x s)) [
    | inl t ↦ rw t h
    | inr t ↦ rw t ((λ y. absurd (ground arith)), h)
  ]

  marked : (k : ℕ) (ls : List ShareLink) → All IsSpent ls → All IsSpent (map (mark k) ls)
  marked k [] h = tt
  marked k (x ∷ xs) h = elim (Bool-cases (x.id == k)) [
    | inl t ↦ rw t ((λ e. refl), marked k xs h.1)
    | inr t ↦ rw t (h.0, marked k xs h.1)
  ]

  AllSpent-revoke : (link_id user_id : ℕ) → Keeps AllSpent (revoke_share_link link_id user_id)
  unfolding revoke_share_link Keeps or_raise
  AllSpent-revoke link_id user_id s h =
      elim (Result-cases (scalar_one_or_none (select (λ y. y.id == link_id) s.links))) [
        | inl (e, f) ↦ rw f h
        | inr (none, f) ↦ rw f h
        | inr (some x, f) ↦ elim (Bool-cases (x.created_by == user_id)) [
          | inr t ↦ rw (f, t) h
          | inl t ↦ rw (f, t) (marked x.id s.links h)
        ]
      ]

  AllSpent-elsewhere : (base : Store) → Keeps AllSpent (update (cascaded base))
  unfolding Keeps
  AllSpent-elsewhere base s h = All-select IsSpent _ s.links h

  AllSpent-step :
      (is_local : Bool) (cdn_base : String) (caller : User) (now : ℕ) (step : Step)
      → IsFresh (step, caller, now)
      → Keeps AllSpent (serve is_local cdn_base caller now step)
  unfolding serve
  AllSpent-step is_local cdn_base caller now (create link_id other model_id expires_at) h =
      Keeps-create AllSpent caller now link_id other model_id expires_at
        (λ x e f. AllSpent-insert x (rw e h))
  AllSpent-step is_local cdn_base caller now (resolve other) h =
      Keeps-bind AllSpent _ _ (Keeps-resolve AllSpent is_local cdn_base other now)
        (λ x. Keeps-pure AllSpent _)
  AllSpent-step is_local cdn_base caller now (revoke link_id) h =
      Keeps-bind AllSpent _ _ (AllSpent-revoke link_id caller.id) (λ x. Keeps-pure AllSpent _)
  AllSpent-step is_local cdn_base caller now (list_links model_id) h =
      Keeps-list AllSpent caller model_id
  AllSpent-step is_local cdn_base caller now (elsewhere base) h =
      Keeps-bind AllSpent _ _ (AllSpent-elsewhere base) (λ x. Keeps-pure AllSpent no_content)

  AllSpent-run :
      (is_local : Bool) (cdn_base : String) (steps : List (Step × User × ℕ)) (s : Shares)
      → All IsFresh steps
      → AllSpent s
      → AllSpent (run is_local cdn_base steps s)
  unfolding run Keeps
  AllSpent-run is_local cdn_base [] s h k = k
  AllSpent-run is_local cdn_base ((step, caller, now) ∷ rest) s h k =
      AllSpent-run is_local cdn_base rest (serve is_local cdn_base caller now step s).1 h.1
        (AllSpent-step is_local cdn_base caller now step h.0 s k)

  resolve-spent :
      (is_local : Bool) (cdn_base : String) (now : ℕ) (s : Shares)
      → AllSpent s
      → (e : Exception) × (get_share_link is_local cdn_base token now s ≡ (raised e, s))
  unfolding get_share_link
  resolve-spent is_local cdn_base now s h =
      elim (Result-cases (scalar_one_or_none (select (λ l. l.token == token) s.links))) [
        | inl (e, f) ↦ (e, rw f refl)
        | inr (none, f) ↦ (not_found "Share link not found or has been revoked", rw f refl)
        | inr (some x, f) ↦
            let (t, spent) =
              select-head IsSpent (λ l. l.token == token) s.links h (scalar-some _ x f) in
            (not_found "Share link not found or has been revoked", rw (f, spent t) refl)
      ]

module _ (l : ShareLink) where
  -- What the revocation of the only link with its token leaves.
  All-IsSpent :
      (k : ℕ) (ls : List ShareLink)
      → (l.id == k) ≡ true
      → All (λ x. (x.token == l.token) ≡ true → x ≡ l) ls
      → All (IsSpent l.token) (map (mark k) ls)
  All-IsSpent k [] e h = tt
  All-IsSpent k (x ∷ xs) e h = elim (Bool-cases (x.id == k)) [
    | inl t ↦ rw t ((λ g. refl), All-IsSpent k xs e h.1)
    | inr t ↦ rw t ((λ g. let same = h.0 g in absurd (ground arith)), All-IsSpent k xs e h.1)
  ]

  revoke-AllSpent :
      (user_id : ℕ) (s : Shares)
      → select (λ x. x.token == l.token) s.links ≡ l ∷ []
      → (revoke_share_link l.id user_id s).0 ≡ ok tt
      → AllSpent l.token (revoke_share_link l.id user_id s).1
  unfolding revoke_share_link or_raise
  revoke-AllSpent user_id s only done =
      elim (Result-cases (scalar_one_or_none (select (λ y. y.id == l.id) s.links))) [
        | inl (e, f) ↦ absurd (raised≢ok (rw f at done))
        | inr (none, f) ↦ absurd (raised≢ok (rw f at done))
        | inr (some x, f) ↦ elim (Bool-cases (x.created_by == user_id)) [
          | inr t ↦ absurd (raised≢ok (rw (f, t) at done))
          | inl t ↦
              let all : All (λ y. (y.id == l.id) ≡ true) (select (λ y. y.id == l.id) s.links) =
                select-passes (λ (y : ShareLink). y.id == l.id) s.links in
              let found : (x.id == l.id) ≡ true = (rw (scalar-some _ x f) at all).0 in
              rw (f, t)
                (All-IsSpent x.id s.links (ground arith)
                  (select-one (λ y. y.token == l.token) s.links only))
        ]
      ]

-- Once a link was revoked, nobody can resolve its token: whatever requests come, it is refused and nothing
-- changes, as long as no link with the same token is created.
pub run-refuses :
    (is_local : Bool) (cdn_base : String) (l : ShareLink) (user_id : ℕ) (s : Shares)
    (steps : List (Step × User × ℕ)) (now : ℕ)
    → select (λ x. x.token == l.token) s.links ≡ l ∷ []
    → (revoke_share_link l.id user_id s).0 ≡ ok tt
    → All (IsFresh l.token) steps
    → (e : Exception) × (get_share_link is_local cdn_base l.token now
          (run is_local cdn_base steps (revoke_share_link l.id user_id s).1)
        ≡ (raised e, run is_local cdn_base steps (revoke_share_link l.id user_id s).1))
run-refuses is_local cdn_base l user_id s steps now only done fresh =
    resolve-spent l.token is_local cdn_base now _
      (AllSpent-run l.token is_local cdn_base steps _ fresh (revoke-AllSpent l user_id s only done))
