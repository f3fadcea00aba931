-- ===== src/Session/Rotation.antt =====
-- What becomes of a refresh token after its use.
use open_format_3d_viewer.Prelude.{
  ℕ, ◌≤◌, ◌≡◌, refl, String, false, not, Option, none, some, List, [], ◌∷◌, select, ◌==◌, string_eq,
  Bool-cases, inl, inr, arith,
}
use open_format_3d_viewer.Core.Exceptions.{Exception}
use open_format_3d_viewer.Core.Rows.{User}
use open_format_3d_viewer.Core.Session.{Result, ok, raised}
use open_format_3d_viewer.Gate.{Claims, named, or_empty}
use open_format_3d_viewer.Session.{
  Tokens, State, TokenResponse, lookup, delete_refresh_token, consume_refresh_token, issue_tokens,
  with_user, consumed, decoded, is_refresh, user_by_id, refresh_access_token, Op, login, refresh,
  logout, step, run,
}

some-ne-none : {v : String} → some v ≡ none → ⊥
some-ne-none e = cc

raised-ne-ok : {A : Type 0} {e : Exception} {a : A} → raised e ≡ ok a → ⊥
raised-ne-ok e = cc

module _ (lib : Tokens) (token : String) where
  -- The token is not in Redis, and no token that is created from now on is equal to it.
  abbrev pub IsSpent : State → Type 0
  IsSpent s =
      (lookup token s.refresh_keys ≡ none)
      × ((user_id : String) (n : ℕ)
          → s.issued ≤ n
          → (lib.create_refresh_token user_id n == token) ≡ false)

  lookup-deleted :
      (t : String) (keys : List (String × String))
      → lookup token keys ≡ none
      → lookup token (select (λ k. not (k.0 == t)) keys) ≡ none
  unfolding lookup
  lookup-deleted t [] h = refl
  lookup-deleted t ((u, v) ∷ keys) h = elim (Bool-cases (u == token)) [
    | inl b ↦ absurd (some-ne-none (rw b at h))
    | inr b ↦ elim (Bool-cases (u == t)) [
      | inl c ↦ rw c (lookup-deleted t keys (rw b at h))
      | inr c ↦ rw (c, b) (lookup-deleted t keys (rw b at h))
    ]
  ]

  lookup_self :
      (keys : List (String × String)) → lookup token (select (λ k. not (k.0 == token)) keys) ≡ none
  unfolding lookup
  lookup_self [] = refl
  lookup_self ((u, v) ∷ keys) = elim (Bool-cases (u == token)) [
    | inl b ↦ rw b (lookup_self keys)
    | inr b ↦ rw (b, b) (lookup_self keys)
  ]

  IsSpent-issued :
      (user_id : String) (s : State) → IsSpent s → IsSpent (issue_tokens lib user_id s).1
  unfolding lookup
  IsSpent-issued user_id s h = (
    rw (h.1 user_id s.issued (omega arith))
        (lookup-deleted (lib.create_refresh_token user_id s.issued) s.refresh_keys h.0),
    λ u n l. h.1 u n (omega (arith, l)),
  )

  IsSpent-with_user :
      (r : TokenResponse × State) (u : Result User) → IsSpent r.1 → IsSpent (with_user lib r u).1
  IsSpent-with_user (t, s) (raised e) h = h
  IsSpent-with_user (t, s) (ok u) h = h

  IsSpent-consumed :
      (user_id : String) (r : Option String × State)
      → IsSpent r.1
      → IsSpent (consumed lib user_id r).1
  IsSpent-consumed user_id (none, s) h = h
  IsSpent-consumed user_id (some stored, s) h = elim (Bool-cases (stored == user_id)) [
    | inl b ↦ rw b (
        IsSpent-with_user (issue_tokens lib user_id s) (user_by_id lib (lib.uuid user_id) s)
          (IsSpent-issued user_id s h))
    | inr b ↦ rw b h
  ]

  IsSpent-deleted : (t : String) (s : State) → IsSpent s → IsSpent (delete_refresh_token t s)
  IsSpent-deleted t s h = (lookup-deleted t s.refresh_keys h.0, h.1)

  IsSpent-decoded :
      (t : String) (o : Option Claims) (s : State) → IsSpent s → IsSpent (decoded lib t o s).1
  IsSpent-decoded t none s h = h
  IsSpent-decoded t (some p) s h = elim (Bool-cases (is_refresh p.token_type)) [
    | inr b ↦ rw b h
    | inl b ↦ elim (Bool-cases (named p.sub)) [
      | inr n ↦ rw (b, n) h
      | inl n ↦
          rw (b, n)
            (IsSpent-consumed (or_empty p.sub) (consume_refresh_token t s) (IsSpent-deleted t s h))
    ]
  ]

  IsSpent-step : (op : Op) (s : State) → IsSpent s → IsSpent (step lib op s)
  unfolding refresh_access_token
  IsSpent-step (login user_id) s h = IsSpent-issued user_id s h
  IsSpent-step (refresh t) s h = IsSpent-decoded t (lib.decode_token t) s h
  IsSpent-step (logout t) s h = IsSpent-deleted t s h

  IsSpent-run : (ops : List (Op)) (s : State) → IsSpent s → IsSpent (run lib ops s)
  unfolding run
  IsSpent-run [] s h = h
  IsSpent-run (op ∷ ops) s h = IsSpent-run ops (step lib op s) (IsSpent-step op s h)

  abbrev pub Raises : Result (TokenResponse × User) × State → Type 0
  Raises r = (e : Exception) × (r.0 ≡ raised e)

  Raises-decoded : (o : Option Claims) (s : State) → IsSpent s → Raises (decoded lib token o s)
  Raises-decoded none s h = (_, refl)
  Raises-decoded (some p) s h = elim (Bool-cases (is_refresh p.token_type)) [
    | inr b ↦ rw b (_, refl)
    | inl b ↦ elim (Bool-cases (named p.sub)) [
      | inr n ↦ rw (b, n) (_, refl)
      | inl n ↦ rw (b, n, h.0) (_, refl)
    ]
  ]

  -- No token that is created from this state on is equal to the token.
  abbrev pub IsOld : State → Type 0
  IsOld s =
      (user_id : String) (n : ℕ)
      → s.issued ≤ n
      → (lib.create_refresh_token user_id n == token) ≡ false

  IsSpent-accepted :
      (o : Option Claims) (s : State) (r : TokenResponse × User)
      → IsOld s
      → (decoded lib token o s).0 ≡ ok r
      → IsSpent (decoded lib token o s).1
  IsSpent-accepted none s r f e = absurd (raised-ne-ok e)
  IsSpent-accepted (some p) s r f e = elim (Bool-cases (is_refresh p.token_type)) [
    | inr b ↦ absurd (raised-ne-ok (rw b at e))
    | inl b ↦ elim (Bool-cases (named p.sub)) [
      | inr n ↦ absurd (raised-ne-ok (rw (b, n) at e))
      | inl n ↦
          rw (b, n)
            (IsSpent-consumed (or_empty p.sub) (consume_refresh_token token s)
              (lookup_self s.refresh_keys, f))
    ]
  ]

  -- A refresh token that was accepted once is refused from then on, whatever logins, refreshes and
  -- logouts come in between, as long as no token created later is equal to it.
  pub refresh-once :
      (s : State) (r : TokenResponse × User) (ops : List (Op))
      → IsOld s
      → (refresh_access_token lib token s).0 ≡ ok r
      → Raises (refresh_access_token lib token (run lib ops (refresh_access_token lib token s).1))
  unfolding refresh_access_token
  refresh-once s r ops f e =
      Raises-decoded (lib.decode_token token) _
        (IsSpent-run ops _ (IsSpent-accepted (lib.decode_token token) s r f e))

  -- After a logout its refresh token is refused, whatever logins, refreshes and logouts come in
  -- between, as long as no token created later is equal to it.
  pub logout-final :
      (s : State) (ops : List (Op))
      → IsOld s
      → Raises (refresh_access_token lib token (run lib ops (delete_refresh_token token s)))
  unfolding refresh_access_token
  logout-final s ops f =
      Raises-decoded (lib.decode_token token) (run lib ops (delete_refresh_token token s))
        (IsSpent-run ops (delete_refresh_token token s) (lookup_self s.refresh_keys, f))
