-- ===== src/Worker/Webhook.antt =====
-- tasks/webhook.py: one run of `dispatch_webhook`, and its redeliveries by Celery. The HMAC, the JSON
-- encoding and the receiver's answer are fields of `Attempt`, which differ from run to run.
pub mod Attempts
pub mod Posts
mod Tests
use Prim.Native.Nat.{min}
use Prim.Native.String.{◌++◌}
use open_format_3d_viewer.Prelude.{
  clip, ℕ, zero, suc, ◌+◌, ◌-◌, ◌≡◌, ◌<◌, String, Bool, true, false, ◌&&◌, not, Option, none, some,
  List, [], ◌∷◌, length, ltb, leb, if◌then◌else◌,
}
use open_format_3d_viewer.Ssrf.{Net, UrlError, webhook_url_error}
use open_format_3d_viewer.Worker.Common.{WebhookRow}

-- The receiver answers, or `requests` raises `Timeout` or another `RequestException`, or something
-- else is raised before the request is sent.
pub data Answer : Type 0 where
  status : ℕ → Answer
  timeout request_error : (message : String) → Answer
  unsent : (message : String) → Answer

-- A row of webhook_delivery_logs.
pub record DeliveryLog : Type 0 where
  pub webhook_id : String
  pub delivery_id : String
  pub event : String
  pub status_code : Option ℕ
  pub success : Bool
  pub error : String

-- A request that was sent: its address and the headers that the code computes.
pub record Post : Type 0 where
  pub url : String
  pub signature : String
  pub delivery : String
  pub event : String
  pub body : String

-- What a run of the task finds.
pub record Attempt : Type 0 where
  pub webhook : Option WebhookRow
  pub net : Net
  pub delivery_id : String
  pub json : (delivery_id event : String) → String
  pub hmac_hex : (secret body : String) → String
  pub answer : Answer
  pub log_fails : Bool
  pub error_text : UrlError → String

pub data Outcome : Type 0 where
  not_found inactive blocked error delivered failed : Outcome
  retry : (countdown : ℕ) → Outcome

-- The result of a run, the rows that it logs and the requests that it sends.
pub record Ran : Type 0 where
  pub outcome : Outcome
  pub logs : List DeliveryLog
  pub posts : List Post

abbrev pub retry_delays : List ℕ
retry_delays = 30 ∷ 60 ∷ 120 ∷ 300 ∷ []

-- `xs[i]`, for an index in range
abbrev at : ℕ → List ℕ → ℕ
at i [] = 0
at zero (x ∷ xs) = x
at (suc i) (x ∷ xs) = at i xs

abbrev pub retry_delay : (retries : ℕ) → ℕ
retry_delay retries = at (min retries (length retry_delays - 1)) retry_delays

abbrev build_signature : Attempt → (body secret : String) → String
build_signature a body secret = "sha256=" ++ a.hmac_hex secret body

abbrev pub request : Attempt → WebhookRow → (event : String) → Post
request a webhook event =
    let body = a.json a.delivery_id event in
    record {
      url = webhook.url;
      signature = build_signature a body webhook.secret;
      delivery = a.delivery_id;
      event = event;
      body = body;
    }

abbrev pub log_delivery :
    Attempt → (webhook_id event : String) → Option ℕ → Bool → Option String → List DeliveryLog
log_delivery a webhook_id event status_code success message =
    if a.log_fails
    then []
    else record {
      webhook_id = webhook_id;
      delivery_id = a.delivery_id;
      event = event;
      status_code = status_code;
      success = success;
      error = elim message [ none ↦ "" | some e ↦ clip 1000 e ];
    }
      ∷ []

abbrev pub is_success : ℕ → Bool
is_success code = leb 200 code && ltb code 300

abbrev pub is_client_error : ℕ → Bool
is_client_error code = leb 400 code && ltb code 500

abbrev pub after_status : (retries code : ℕ) → Outcome
after_status retries code =
    if is_success code
    then delivered
    else if is_client_error code
    then failed
    else retry (retry_delay retries)

-- The `try` around `_deliver`, its handlers, and what follows it.
abbrev pub answered :
    Attempt → (retries : ℕ) → (webhook_id event : String) → WebhookRow → Answer → Ran
answered a retries webhook_id event webhook (status code) = record {
  outcome = after_status retries code;
  logs = log_delivery a webhook_id event (some code) (is_success code) none;
  posts = request a webhook event ∷ [];
}
answered a retries webhook_id event webhook (timeout message) = record {
  outcome = retry (retry_delay retries);
  logs = log_delivery a webhook_id event none false (some ("Timeout: " ++ message));
  posts = request a webhook event ∷ [];
}
answered a retries webhook_id event webhook (request_error message) = record {
  outcome = retry (retry_delay retries);
  logs = log_delivery a webhook_id event none false (some (clip 500 message));
  posts = request a webhook event ∷ [];
}
answered a retries webhook_id event webhook (unsent message) = record {
  outcome = error;
  logs = log_delivery a webhook_id event none false (some (clip 500 message));
  posts = [];
}

abbrev skipped : Outcome → Ran
skipped outcome = record { outcome = outcome; logs = []; posts = [] }

abbrev pub validated :
    Attempt → (retries : ℕ) → (webhook_id event : String) → WebhookRow → Option UrlError → Ran
validated a retries webhook_id event webhook none =
    answered a retries webhook_id event webhook a.answer
validated a retries webhook_id event webhook (some e) = record {
  outcome = blocked;
  logs =
      log_delivery a webhook_id event none false
        (some ("Webhook URL blocked by SSRF protection: " ++ a.error_text e));
  posts = [];
}

abbrev pub active : Attempt → (retries : ℕ) → (webhook_id event : String) → WebhookRow → Bool → Ran
active a retries webhook_id event webhook false = skipped inactive
active a retries webhook_id event webhook true =
    validated a retries webhook_id event webhook (webhook_url_error a.net webhook.url)

abbrev pub found : Attempt → (retries : ℕ) → (webhook_id event : String) → Option WebhookRow → Ran
found a retries webhook_id event none = skipped not_found
found a retries webhook_id event (some webhook) =
    active a retries webhook_id event webhook webhook.is_active

-- `retries` is Celery's `self.request.retries`.
unfoldable pub dispatch_webhook : Attempt → (retries : ℕ) → (webhook_id event : String) → Ran
unfolding webhook_url_error
dispatch_webhook a retries webhook_id event = found a retries webhook_id event a.webhook
