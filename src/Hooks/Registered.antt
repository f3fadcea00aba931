-- ===== src/Hooks/Registered.antt =====
-- What the table of webhooks holds.
use text.Mathlib.Text.{starts_with}
use open_format_3d_viewer.Prelude.{
  ℕ, String, Bool, true, false, ◌≡◌, inl, inr, ◌&&◌, Option, none, some, List, [], ◌∷◌, map, select,
  select-head, All, All-select, ◌==◌, nat_eq, string_eq, if◌then◌else◌, Bool-cases, arith,
}
use open_format_3d_viewer.Core.Session.{
  ok, Result-cases, Keeps, Keeps-bind, Keeps-query, Keeps-pure, Keeps-raise, Keeps-checked,
  scalar_one_or_none, scalar-some, or_raise, query, update,
}
use open_format_3d_viewer.Core.Rows.{User}
use open_format_3d_viewer.Ssrf.{Net, validate_webhook_url}
use open_format_3d_viewer.Hooks.{
  Webhook, Hooks, WebhookCreate, WebhookUpdate, all_allowed, valid_events, valid_create, valid_url,
  valid_update, webhook_conflicts, insert_webhook, create_webhook, is_own, changed, update_webhook,
  delete_webhook, list_webhooks, dispatch_event, Step, create, list_all, update_one, delete_one,
  event, serve, Request, run, or_old, or_old_events, send_all, tasks_for, Task, no_content,
  webhooks_of, append_tasks,
}

-- An address with https, and only events of the list.
abbrev pub IsRegistered : Webhook → Type 0
IsRegistered w = (starts_with w.url "https://" ≡ true) × (valid_events w.events ≡ true)

abbrev pub AllRegistered : Hooks → Type 0
AllRegistered s = All IsRegistered s.webhooks

validated-https :
    (net : Net) (url v : String)
    → validate_webhook_url net url ≡ some v
    → starts_with v "https://" ≡ true
unfolding validate_webhook_url
validated-https net url v h = ground arith

valid_create-ok :
    (net : Net) (given : WebhookCreate) (url : String)
    → valid_create net given ≡ ok url
    → (starts_with url "https://" ≡ true) × (all_allowed given.events ≡ true)
unfolding validate_webhook_url
valid_create-ok net given url h = ground arith

valid_url-ok :
    (net : Net) (given url : Option String) (old : String)
    → valid_url net given ≡ ok url
    → starts_with old "https://" ≡ true
    → starts_with (or_old url old) "https://" ≡ true
unfolding validate_webhook_url
valid_url-ok net none none old h a = a
valid_url-ok net none (some v) old h a = absurd (ground arith)
valid_url-ok net (some g) none old h a = absurd (ground arith)
valid_url-ok net (some g) (some v) old h a = ground arith

valid_events-ok :
    (given old : Option (List String))
    → valid_events given ≡ true
    → valid_events old ≡ true
    → valid_events (or_old_events given old) ≡ true
valid_events-ok none old h a = a
valid_events-ok (some events) old h a = h

valid_update-ok :
    (net : Net) (given : WebhookUpdate) (url : Option String)
    → valid_update net given ≡ ok url
    → (valid_url net given.url ≡ ok url) × (valid_events given.events ≡ true)
valid_update-ok net given url h = ground arith

IsRegistered-changed :
    (net : Net) (given : WebhookUpdate) (url : Option String) (w : Webhook) (now : ℕ)
    → valid_update net given ≡ ok url
    → IsRegistered w
    → IsRegistered (changed now url given w)
IsRegistered-changed net given url w now h (a, b) =
    let (u, e) = valid_update-ok net given url h in
    (valid_url-ok net given.url url w.url u a, valid_events-ok given.events w.events e b)

AllRegistered-insert : (w : Webhook) → IsRegistered w → Keeps AllRegistered (insert_webhook w)
unfolding Keeps insert_webhook
AllRegistered-insert w r s h = elim (Bool-cases (webhook_conflicts w s)) [
  | inl t ↦ rw t h
  | inr t ↦ rw t (r, h)
]

put :
    (w : Webhook)
    → IsRegistered w
    → (ws : List Webhook) → All IsRegistered ws
    → All IsRegistered (map (λ x. if x.id == w.id then w else x) ws)
put w r [] h = tt
put w r (x ∷ xs) h = elim (Bool-cases (x.id == w.id)) [
  | inl t ↦ rw t (r, put w r xs h.1)
  | inr t ↦ rw t (h.0, put w r xs h.1)
]

AllRegistered-update :
    (net : Net) (webhook_id now : ℕ) (given : WebhookUpdate) (url : Option String) (user : User)
    → valid_update net given ≡ ok url
    → Keeps AllRegistered (update_webhook webhook_id now url given user)
unfolding Keeps update_webhook or_raise
AllRegistered-update net webhook_id now given url user v s h =
    elim (Result-cases (scalar_one_or_none (select (is_own webhook_id user) s.webhooks))) [
      | inl (e, f) ↦ rw f h
      | inr (none, f) ↦ rw f h
      | inr (some w, f) ↦
          let found =
            select-head IsRegistered (is_own webhook_id user) s.webhooks h (scalar-some _ w f) in
          rw f (
            put (changed now url given w) (IsRegistered-changed net given url w now v found.1)
              s.webhooks h)
    ]

AllRegistered-delete :
    (webhook_id : ℕ) (user : User) → Keeps AllRegistered (delete_webhook webhook_id user)
unfolding Keeps delete_webhook or_raise
AllRegistered-delete webhook_id user s h =
    elim (Result-cases (scalar_one_or_none (select (is_own webhook_id user) s.webhooks))) [
      | inl (e, f) ↦ rw f h
      | inr (none, f) ↦ rw f h
      | inr (some w, f) ↦ rw f (All-select IsRegistered _ s.webhooks h)
    ]

pub Keeps-dispatch :
    (P : Hooks → Type 0) (broker_up : Bool) (name payload : String) (user_id : ℕ)
    → ((ts : List Task) → Keeps P (update (λ s. record s { tasks = append_tasks s.tasks ts })))
    → Keeps P (dispatch_event broker_up name payload user_id)
unfolding dispatch_event
Keeps-dispatch P broker_up name payload user_id adds =
    Keeps-bind P (query (λ s. ok (select (λ w. w.user_id == user_id && w.is_active) s.webhooks))) _
      (Keeps-query P _) (λ webhooks. sends broker_up (tasks_for name payload webhooks))
  where
    sends : (up : Bool) (ts : List Task) → Keeps P (send_all up ts)
    sends up [] = Keeps-pure P _
    sends true (t ∷ ts) = adds (t ∷ ts)
    sends false (t ∷ ts) = Keeps-raise P _ _

AllRegistered-tasks :
    (ts : List Task)
    → Keeps AllRegistered (update (λ s. record s { tasks = append_tasks s.tasks ts }))
unfolding Keeps
AllRegistered-tasks ts s h = h

AllRegistered-serve :
    (net : Net) (caller : User) (now : ℕ) (step : Step)
    → Keeps AllRegistered (serve net caller now step)
unfolding serve create_webhook list_webhooks
AllRegistered-serve net caller now (create webhook_id secret given) =
    Keeps-checked AllRegistered (valid_create net given) _ (λ url v.
      Keeps-bind AllRegistered _ _
        (Keeps-bind AllRegistered _ _ (AllRegistered-insert _ (valid_create-ok net given url v))
          (λ x. Keeps-pure AllRegistered _))
        (λ w. Keeps-pure AllRegistered _))
AllRegistered-serve net caller now list_all =
    Keeps-bind AllRegistered (list_webhooks caller) _ (Keeps-query AllRegistered _)
      (λ ws. Keeps-pure AllRegistered (webhooks_of ws))
AllRegistered-serve net caller now (update_one webhook_id given) =
    Keeps-checked AllRegistered (valid_update net given) _ (λ url v.
      Keeps-bind AllRegistered _ _ (AllRegistered-update net webhook_id now given url caller v)
        (λ w. Keeps-pure AllRegistered _))
AllRegistered-serve net caller now (delete_one webhook_id) =
    Keeps-bind AllRegistered _ _ (AllRegistered-delete webhook_id caller)
      (λ x. Keeps-pure AllRegistered no_content)
AllRegistered-serve net caller now (event broker_up name payload) =
    Keeps-bind AllRegistered _ _
      (Keeps-dispatch AllRegistered broker_up name payload caller.id AllRegistered-tasks)
      (λ x. Keeps-pure AllRegistered no_content)

-- Whatever requests come, and whatever name resolution answers them, every webhook of the table has an
-- address that begins with "https://" and subscribes to allowed events only, if it was so before.
pub run-IsRegistered :
    (rs : List Request) (s : Hooks)
    → All IsRegistered s.webhooks
    → All IsRegistered (run rs s).webhooks
unfolding run Keeps
run-IsRegistered [] s h = h
run-IsRegistered (r ∷ rest) s h =
    run-IsRegistered rest (serve r.net r.caller r.now r.step s).1
      (AllRegistered-serve r.net r.caller r.now r.step s h)
