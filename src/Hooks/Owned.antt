-- ===== src/Hooks/Owned.antt =====
-- Whose webhooks a request changes.
use open_format_3d_viewer.Prelude.{
  ℕ, String, Bool, true, false, ◌≡◌, refl, inl, inr, not, Option, none, some, List, [], ◌∷◌, map,
  select, select-passes, ◌∙◌, All, ◌==◌, nat_eq, string_eq, if◌then◌else◌, Bool-cases, arith,
}
use open_format_3d_viewer.Core.Session.{
  Result-cases, Keeps, Keeps-bind, Keeps-query, Keeps-pure, Keeps-checked, scalar_one_or_none,
  scalar-some, or_raise, update,
}
use open_format_3d_viewer.Core.Rows.{User}
use open_format_3d_viewer.Ssrf.{Net}
use open_format_3d_viewer.Hooks.{
  Webhook, Hooks, WebhookUpdate, valid_create, valid_update, webhook_conflicts, insert_webhook,
  create_webhook, is_own, changed, update_webhook, delete_webhook, list_webhooks, Step, create,
  list_all, update_one, delete_one, event, serve, Request, run, Task, no_content, webhooks_of,
  append_tasks,
}
use open_format_3d_viewer.Core.Members.{Distinct, Distinct-select, Distinct-map, only_row}
use open_format_3d_viewer.Hooks.Registered.{Keeps-dispatch}

-- The primary keys differ.
abbrev pub IsKeyed : Hooks → Type 0
IsKeyed s = Distinct (λ (y : Webhook) (x : Webhook). x.id == y.id) s.webhooks

module _ (u : ℕ) (rows : List Webhook) where
  abbrev owned : Webhook → Bool
  owned w = w.user_id == u

  -- The user's webhooks are these rows.
  abbrev Owns : Hooks → Type 0
  Owns s = IsKeyed s × (select owned s.webhooks ≡ rows)

  Owns-insert : (w : Webhook) → owned w ≡ false → Keeps Owns (insert_webhook w)
  unfolding Keeps insert_webhook
  Owns-insert w e s (d, h) = elim (Bool-cases (webhook_conflicts w s)) [
    | inl t ↦ rw t (d, h)
    | inr t ↦ rw t ((ground arith, d), rw e h)
  ]

  -- A change and a deletion of another user's row.
  select-put :
      (new old : Webhook) (ws : List Webhook)
      → owned new ≡ false
      → owned old ≡ false
      → All (λ x. (x.id == new.id) ≡ true → x ≡ old) ws
      → select owned (map (λ x. if x.id == new.id then new else x) ws) ≡ select owned ws
  select-put new old [] e f h = refl
  select-put new old (x ∷ xs) e f h = elim (Bool-cases (x.id == new.id)) [
    | inl t ↦ rw (t, e, h.0 t, f) (select-put new old xs e f h.1)
    | inr t ↦ rw (t, select-put new old xs e f h.1) refl
  ]

  select-drop :
      (k : ℕ) (old : Webhook) (ws : List Webhook)
      → owned old ≡ false
      → All (λ x. (x.id == k) ≡ true → x ≡ old) ws
      → select owned (select (λ x. not (x.id == k)) ws) ≡ select owned ws
  select-drop k old [] f h = refl
  select-drop k old (x ∷ xs) f h = elim (Bool-cases (x.id == k)) [
    | inl t ↦ rw (t, h.0 t, f) (select-drop k old xs f h.1)
    | inr t ↦ rw (t, select-drop k old xs f h.1) refl
  ]

  Owns-tasks :
      (ts : List Task) → Keeps Owns (update (λ s. record s { tasks = append_tasks s.tasks ts }))
  unfolding Keeps
  Owns-tasks ts s h = h

  module _ (user : User) (other : (user.id == u) ≡ false) where
    not_owned :
        (webhook_id : ℕ) (s : Hooks) (w : Webhook)
        → select (is_own webhook_id user) s.webhooks ≡ w ∷ []
        → owned w ≡ false
    not_owned webhook_id s w e =
        let all : All (λ x. is_own webhook_id user x ≡ true)
            (select (is_own webhook_id user) s.webhooks) =
          select-passes (is_own webhook_id user) s.webhooks in
        let found : is_own webhook_id user w ≡ true = (rw e at all).0 in ground arith

    Owns-update :
        (webhook_id now : ℕ) (url : Option String) (given : WebhookUpdate)
        → Keeps Owns (update_webhook webhook_id now url given user)
    unfolding Keeps update_webhook or_raise
    Owns-update webhook_id now url given s (d, h) =
        elim (Result-cases (scalar_one_or_none (select (is_own webhook_id user) s.webhooks))) [
          | inl (e, f) ↦ rw f (d, h)
          | inr (none, f) ↦ rw f (d, h)
          | inr (some w, f) ↦
              let only = scalar-some _ w f in
              let away = not_owned webhook_id s w only in
              rw f (
                Distinct-map (λ x. x.id) _ (λ x. ground arith) s.webhooks d,
                select-put (changed now url given w) w s.webhooks away away
                      (only_row (λ x. x.id) (is_own webhook_id user) s.webhooks d only)
                    ∙ h,
              )
        ]

    Owns-delete : (webhook_id : ℕ) → Keeps Owns (delete_webhook webhook_id user)
    unfolding Keeps delete_webhook or_raise
    Owns-delete webhook_id s (d, h) =
        elim (Result-cases (scalar_one_or_none (select (is_own webhook_id user) s.webhooks))) [
          | inl (e, f) ↦ rw f (d, h)
          | inr (none, f) ↦ rw f (d, h)
          | inr (some w, f) ↦
              let only = scalar-some _ w f in
              rw f (
                Distinct-select _ _ s.webhooks d,
                select-drop w.id w s.webhooks (not_owned webhook_id s w only)
                      (only_row (λ x. x.id) (is_own webhook_id user) s.webhooks d only)
                    ∙ h,
              )
        ]

    Owns-serve : (net : Net) (now : ℕ) (step : Step) → Keeps Owns (serve net user now step)
    unfolding serve create_webhook list_webhooks
    Owns-serve net now (create id secret given) =
        Keeps-checked Owns (valid_create net given) _ (λ url v.
          Keeps-bind Owns _ _ (Keeps-bind Owns _ _ (Owns-insert _ other) (λ x. Keeps-pure Owns _))
            (λ w. Keeps-pure Owns _))
    Owns-serve net now list_all =
        Keeps-bind Owns (list_webhooks user) _ (Keeps-query Owns _)
          (λ ws. Keeps-pure Owns (webhooks_of ws))
    Owns-serve net now (update_one id given) =
        Keeps-checked Owns (valid_update net given) _
          (λ url v. Keeps-bind Owns _ _ (Owns-update id now url given) (λ w. Keeps-pure Owns _))
    Owns-serve net now (delete_one id) =
        Keeps-bind Owns _ _ (Owns-delete id) (λ x. Keeps-pure Owns no_content)
    Owns-serve net now (event broker_up name payload) =
        Keeps-bind Owns _ _ (Keeps-dispatch Owns broker_up name payload user.id Owns-tasks)
          (λ x. Keeps-pure Owns no_content)

abbrev pub IsFromOther : ℕ → Request → Type 0
IsFromOther u r = (r.caller.id == u) ≡ false

Owns-run :
    (u : ℕ) (rows : List Webhook) (rs : List Request) (s : Hooks)
    → All (IsFromOther u) rs
    → Owns u rows s
    → Owns u rows (run rs s)
unfolding run Keeps
Owns-run u rows [] s h k = k
Owns-run u rows (r ∷ rest) s h k =
    Owns-run u rows rest (serve r.net r.caller r.now r.step s).1 h.1
      (Owns-serve u rows r.caller h.0 r.net r.now r.step s k)

-- Requests of other users leave a user's webhooks as they are: nobody updates or deletes another's, or
-- creates one for another user, if the primary keys differ.
pub run-others :
    (u : ℕ) (rs : List Request) (s : Hooks)
    → All (IsFromOther u) rs
    → IsKeyed s
    → select (λ w. w.user_id == u) (run rs s).webhooks ≡ select (λ w. w.user_id == u) s.webhooks
run-others u rs s h d = (Owns-run u (select (λ w. w.user_id == u) s.webhooks) rs s h (d, refl)).1
