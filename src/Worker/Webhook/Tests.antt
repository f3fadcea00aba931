-- ===== src/Worker/Webhook/Tests.antt =====
-- Runs of webhook deliveries: the receiver is overloaded first, then it accepts.
use open_format_3d_viewer.Prelude.{
  ℕ, ◌≡◌, ◌≤◌, refl, true, false, some, List, [], ◌∷◌, length, take, arith, if◌then◌else◌, ◌==◌,
  nat_eq,
}
use open_format_3d_viewer.Ssrf.{webhook_url_error}
use open_format_3d_viewer.Ssrf.Tests.{one_host, hook_url}
use open_format_3d_viewer.Worker.Common.{WebhookRow}
use open_format_3d_viewer.Worker.Webhook.{Attempt, status, delivered, is_success, dispatch_webhook}
use open_format_3d_viewer.Worker.Webhook.Posts.{Sends, dispatch_webhook-Sends}
use open_format_3d_viewer.Worker.Webhook.Attempts.{Runs, ended, again, runs_lem}

abbrev hook : WebhookRow
hook = record {
  id = "h";
  user_id = "u";
  url = hook_url;
  secret = "secret";
  events = some ("model.ready" ∷ []);
  is_active = true;
}

abbrev served : ℕ → Attempt
served n = record {
  webhook = some hook;
  net = one_host;
  delivery_id = "d";
  json = λ d e. "{}";
  hmac_hex = λ s b. "00";
  answer = status (if n == 0 then 503 else 204);
  log_fails = false;
  error_text = λ e. "";
}

abbrev delays : List ℕ
delays = 30 ∷ []

served_runs : Runs served "h" "model.ready" 0 delays delivered
unfolding dispatch_webhook webhook_url_error
served_runs = again 0 30 [] delivered refl (omega arith) (ended 1 (λ d e. cc))

runs_lem_example :
    (delays ≡ take (length delays) (30 ∷ 60 ∷ 120 ∷ 300 ∷ []))
    × ((length delays ≤ 4)
        × (delivered ≡ delivered
            → (code : ℕ) × ((served (length delays)).answer ≡ status code)
              × (is_success code ≡ true)))
runs_lem_example = runs_lem served "h" "model.ready" delays delivered served_runs

dispatch_webhook-Sends_example :
    Sends
      (served 0)
      0
      "h"
      "model.ready"
      (some hook)
      (dispatch_webhook (served 0) 0 "h" "model.ready").posts
dispatch_webhook-Sends_example = dispatch_webhook-Sends (served 0) 0 "h" "model.ready"
