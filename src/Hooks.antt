-- ===== src/Hooks.antt =====
-- The registration of webhooks: services/webhooks.py, routers/webhooks.py, schemas/webhooks.py and
-- models/webhook.py of apps/api/app; the deliveries' list is Paging's. A fresh UUID and a fresh secret are
-- arguments, and so is what name resolution answers at the time of the request.
pub mod Owned
pub mod Registered
pub mod Tests
use open_format_3d_viewer.Prelude.{
  ℕ, String, Bool, true, false, ◌&&◌, ◌||◌, not, Option, none, some, List, [], ◌∷◌, map, select,
  any, ◌==◌, nat_eq, string_eq, if◌then◌else◌,
}
use open_format_3d_viewer.Core.Exceptions.{
  validation, not_found, integrity_error, stale_data, internal,
}
use open_format_3d_viewer.Core.Session.{
  Result, ok, raised, Action, pure, raise, query, update, ◌>>=◌, ◌>>◌, scalar_one_or_none, or_raise,
}
use open_format_3d_viewer.Core.Rows.{User}
use open_format_3d_viewer.Ssrf.{Net, validate_webhook_url}

-- models/webhook.py
pub record Webhook : Type 0 where
  pub id : ℕ
  pub user_id : ℕ
  pub url : String
  pub secret : String
  pub events : Option (List String)
  pub is_active : Bool
  pub created_at : ℕ
  pub updated_at : ℕ

-- A task for the worker's dispatch_webhook.
pub record Task : Type 0 where
  pub webhook_id : ℕ
  pub event : String
  pub payload : String

pub record Hooks : Type 0 where
  pub users : List User
  pub webhooks : List Webhook
  pub tasks : List Task

-- schemas/webhooks.py, before validation
pub record WebhookCreate : Type 0 where
  pub url : String
  pub events : List String

pub record WebhookUpdate : Type 0 where
  pub url : Option String
  pub events : Option (List String)
  pub is_active : Option Bool

abbrev pub allowed_events : List String
allowed_events =
    "model.ready" ∷ "model.failed" ∷ "annotation.created" ∷ "annotation.resolved"
    ∷ "comment.created" ∷ []

abbrev pub in_events : String → List String → Bool
in_events event events = any (λ e. e == event) events

-- No event outside of the allowed ones.
abbrev pub all_allowed : List String → Bool
all_allowed [] = true
all_allowed (e ∷ events) = in_events e allowed_events && all_allowed events

-- A ValueError of a validator, as core/error_handlers.py answers it.
abbrev pub unprocessable : {A : Type 0} → Result A
unprocessable = raised (validation "Request validation failed")

abbrev pub or_unprocessable : {A : Type 0} → Option A → Result A
or_unprocessable none = unprocessable
or_unprocessable (some a) = ok a

abbrev pub some_or_unprocessable : Option String → Result (Option String)
some_or_unprocessable none = unprocessable
some_or_unprocessable (some a) = ok (some a)

abbrev pub is_empty : List String → Bool
is_empty [] = true
is_empty (e ∷ events) = false

abbrev pub valid_events : Option (List String) → Bool
valid_events none = true
valid_events (some events) = all_allowed events

module _ (net : Net) where
  -- The fields of the request; their bounds on lengths in characters are left out.
  abbrev pub valid_create : WebhookCreate → Result String
  valid_create given =
      if is_empty given.events || not (all_allowed given.events)
      then unprocessable
      else or_unprocessable (validate_webhook_url net given.url)

  abbrev pub valid_url : Option String → Result (Option String)
  valid_url none = ok none
  valid_url (some url) = some_or_unprocessable (validate_webhook_url net url)

  abbrev pub valid_update : WebhookUpdate → Result (Option String)
  valid_update given = if valid_events given.events then valid_url given.url else unprocessable

abbrev pub webhook_conflicts : Webhook → Hooks → Bool
webhook_conflicts w s =
    any (λ x. x.id == w.id) s.webhooks || not (any (λ u. u.id == w.user_id) s.users)

unfoldable pub insert_webhook : Webhook → Action Hooks Unit
insert_webhook w s =
    if webhook_conflicts w s
    then (raised integrity_error, s)
    else (ok tt, record s { webhooks = w ∷ s.webhooks })

unfoldable pub create_webhook :
    (webhook_id : ℕ) (secret : String) (now : ℕ) (url : String) (events : List String)
    → User
    → Action Hooks Webhook
create_webhook webhook_id secret now url events user = do
  let webhook : Webhook = record {
    id = webhook_id;
    user_id = user.id;
    url = url;
    secret = secret;
    events = some events;
    is_active = true;
    created_at = now;
    updated_at = now;
  }
  insert_webhook webhook
  pure webhook

-- The row that is found with its owner.
abbrev pub is_own : (webhook_id : ℕ) → User → Webhook → Bool
is_own webhook_id user w = w.id == webhook_id && w.user_id == user.id

abbrev pub own_webhook : (webhook_id : ℕ) → User → Action Hooks Webhook
own_webhook webhook_id user = do
  found ← query (λ s. scalar_one_or_none (select (is_own webhook_id user) s.webhooks))
  query (λ s. or_raise (not_found "Webhook not found") found)

unfoldable pub list_webhooks : User → Action Hooks (List Webhook)
list_webhooks user = query (λ s. ok (select (λ w. w.user_id == user.id) s.webhooks))

abbrev pub or_old : {A : Type 0} → Option A → A → A
or_old none old = old
or_old (some new) old = new

abbrev pub or_old_events : Option (List String) → Option (List String) → Option (List String)
or_old_events none old = old
or_old_events (some events) old = some events

abbrev pub changed : (now : ℕ) → (url : Option String) → WebhookUpdate → Webhook → Webhook
changed now url given w = record w {
  url = or_old url w.url;
  events = or_old_events given.events w.events;
  is_active = or_old given.is_active w.is_active;
  updated_at = now;
}

-- `UPDATE … WHERE id = …` and `DELETE … WHERE id = …`
abbrev pub put_row : Webhook → Hooks → Hooks
put_row w s = record s { webhooks = map (λ x. if x.id == w.id then w else x) s.webhooks }

abbrev pub drop_row : ℕ → Hooks → Hooks
drop_row k s = record s { webhooks = select (λ x. not (x.id == k)) s.webhooks }

unfoldable pub update_webhook :
    (webhook_id now : ℕ) (url : Option String) → WebhookUpdate → User → Action Hooks Webhook
update_webhook webhook_id now url given user = do
  w ← own_webhook webhook_id user
  update (put_row (changed now url given w))
  pure (changed now url given w)

unfoldable pub delete_webhook : (webhook_id : ℕ) → User → Action Hooks Unit
delete_webhook webhook_id user = do w ← own_webhook webhook_id user; update (drop_row w.id)

-- `webhook.events and event in webhook.events`
abbrev pub subscribes : (event : String) → Option (List String) → Bool
subscribes event none = false
subscribes event (some events) = in_events event events

abbrev pub tasks_for : (event payload : String) → List Webhook → List Task
tasks_for event payload [] = []
tasks_for event payload (w ∷ ws) =
    let rest = tasks_for event payload ws in
    if subscribes event w.events
    then record { webhook_id = w.id; event = event; payload = payload } ∷ rest
    else rest

abbrev pub append_tasks : List Task → List Task → List Task
append_tasks [] ts = ts
append_tasks (x ∷ xs) ts = x ∷ append_tasks xs ts

-- If the broker is down, the first task raises.
abbrev pub send_all : (broker_up : Bool) → List Task → Action Hooks Unit
send_all broker_up [] = pure tt
send_all true (t ∷ ts) = update (λ s. record s { tasks = append_tasks s.tasks (t ∷ ts) })
send_all false (t ∷ ts) = raise (internal "OperationalError")

unfoldable pub dispatch_event :
    (broker_up : Bool) (event payload : String) (user_id : ℕ) → Action Hooks Unit
dispatch_event broker_up event payload user_id = do
  webhooks ← query (λ s. ok (select (λ w. w.user_id == user_id && w.is_active) s.webhooks))
  send_all broker_up (tasks_for event payload webhooks)

-- The requests of routers/webhooks.py, and the events of the other services.
pub data Step : Type 0 where
  create : (webhook_id : ℕ) → (secret : String) → WebhookCreate → Step
  list_all : Step
  update_one : (webhook_id : ℕ) → WebhookUpdate → Step
  delete_one : (webhook_id : ℕ) → Step
  event : (broker_up : Bool) → (name payload : String) → Step

pub data Reply : Type 0 where
  webhook : Webhook → Reply
  webhooks_of : List Webhook → Reply
  no_content : Reply

module _ (net : Net) (caller : User) (now : ℕ) where
  unfoldable pub serve : Step → Action Hooks Reply
  serve (create webhook_id secret given) = do
    url ← query (λ s. valid_create net given)
    w ← create_webhook webhook_id secret now url given.events caller
    pure (webhook w)
  serve list_all = list_webhooks caller >>= λ ws. pure (webhooks_of ws)
  serve (update_one webhook_id given) = do
    url ← query (λ s. valid_update net given)
    w ← update_webhook webhook_id now url given caller
    pure (webhook w)
  serve (delete_one webhook_id) = delete_webhook webhook_id caller >> pure no_content
  serve (event broker_up name payload) =
      dispatch_event broker_up name payload caller.id >> pure no_content

pub record Request : Type 1 where
  pub net : Net
  pub caller : User
  pub now : ℕ
  pub step : Step

unfoldable pub run : List Request → Hooks → Hooks
unfolding serve
run [] s = s
run (r ∷ rest) s = run rest (serve r.net r.caller r.now r.step s).1
