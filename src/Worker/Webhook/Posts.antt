-- ===== src/Worker/Webhook/Posts.antt =====
-- Where the requests of webhook deliveries go.
use open_format_3d_viewer.Prelude.{
  ℕ, String, ◌≡◌, refl, Bool, true, false, Option, none, some, List, [], ◌∷◌, inl, inr, ◌⊎◌,
}
use open_format_3d_viewer.Ssrf.{UrlError, webhook_url_error}
use open_format_3d_viewer.Worker.Common.{WebhookRow}
use open_format_3d_viewer.Worker.Webhook.{
  status, timeout, request_error, unsent, Attempt, request, answered, validated, active, found,
  dispatch_webhook, Post,
}

module _ (a : Attempt) (retries : ℕ) (webhook_id event : String) where
  -- Nothing was sent, or one signed request to the address of the row, which is active, and whose
  -- address has passed the guard in this run.
  abbrev pub Sends : Option WebhookRow → List Post → Type 0
  Sends row posts =
      (posts ≡ [])
      ⊎ ((webhook : WebhookRow) × (row ≡ some webhook)
          × ((webhook.is_active ≡ true)
              × (webhook_url_error a.net webhook.url ≡ none)
              × (posts ≡ request a webhook event ∷ [])))

  Sends-validated :
      (webhook : WebhookRow) (e : Option UrlError)
      → webhook.is_active ≡ true
      → webhook_url_error a.net webhook.url ≡ e
      → Sends (some webhook) (validated a retries webhook_id event webhook e).posts
  Sends-validated webhook (some e) t u = inl refl
  Sends-validated webhook none t u =
      elim a.answer
        as (λ r. Sends (some webhook) (answered a retries webhook_id event webhook r).posts) [
          | status code ↦ inr (webhook, refl, (t, u, refl))
          | timeout m ↦ inr (webhook, refl, (t, u, refl))
          | request_error m ↦ inr (webhook, refl, (t, u, refl))
          | unsent m ↦ inl refl
        ]

  Sends-active :
      (webhook : WebhookRow) (b : Bool)
      → webhook.is_active ≡ b
      → Sends (some webhook) (active a retries webhook_id event webhook b).posts
  Sends-active webhook false t = inl refl
  Sends-active webhook true t = Sends-validated webhook _ t refl

  Sends-found : (row : Option WebhookRow) → Sends row (found a retries webhook_id event row).posts
  Sends-found none = inl refl
  Sends-found (some webhook) = Sends-active webhook webhook.is_active refl

  -- A run sends nothing, or one signed request to the address of the webhook's row, and then the
  -- webhook is active and its address has passed the guard against internal addresses in that run.
  pub dispatch_webhook-Sends : Sends a.webhook (dispatch_webhook a retries webhook_id event).posts
  unfolding dispatch_webhook
  dispatch_webhook-Sends = Sends-found a.webhook
