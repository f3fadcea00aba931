-- ===== src/Worker/Webhook/Attempts.antt =====
-- The runs of one webhook delivery, with Celery's redeliveries.
use Prim.Native.Nat.{◌<◌, ◌≤◌}
use open_format_3d_viewer.Prelude.{
  ℕ, suc, ◌+◌, ◌≡◌, refl, ap, String, Bool, true, false, Option, none, some, List, [], ◌∷◌, length,
  take, drop, arith, if◌then◌else◌, subst, sym, zero,
}
use open_format_3d_viewer.Ssrf.{webhook_url_error, UrlError}
use open_format_3d_viewer.Worker.Common.{WebhookRow}
use open_format_3d_viewer.Worker.Webhook.{
  Attempt, Outcome, retry, delivered, failed, Answer, status, timeout, request_error, unsent, Ran,
  retry_delays, retry_delay, dispatch_webhook, found, active, validated, answered, is_success,
  is_client_error,
}

abbrev pub max_retries : ℕ
max_retries = 4

-- What an outcome says of the run: a retry has the countdown for its count, and only an answer with
-- a status from 200 to 299 is delivered.
abbrev Says : Attempt → ℕ → Outcome → Type 0
Says a n (retry d) = d ≡ retry_delay n
Says a n delivered = (code : ℕ) × (a.answer ≡ status code) × (is_success code ≡ true)
Says a n o = Unit

Says-after_status :
    (a : Attempt) (n code : ℕ) (s c : Bool)
    → a.answer ≡ status code
    → is_success code ≡ s
    → Says a n (if s then delivered else if c then failed else retry (retry_delay n))
Says-after_status a n code true c e t = (code, e, t)
Says-after_status a n code false true e t = tt
Says-after_status a n code false false e t = refl

module _ (a : Attempt) (n : ℕ) (webhook_id event : String) where
  Says-answered :
      (webhook : WebhookRow) (r : Answer)
      → a.answer ≡ r
      → Says a n (answered a n webhook_id event webhook r).outcome
  Says-answered webhook (status code) e =
      Says-after_status a n code (is_success code) (is_client_error code) e refl
  Says-answered webhook (timeout m) e = refl
  Says-answered webhook (request_error m) e = refl
  Says-answered webhook (unsent m) e = tt

  Says-validated :
      (webhook : WebhookRow) (e : Option UrlError)
      → Says a n (validated a n webhook_id event webhook e).outcome
  Says-validated webhook none = Says-answered webhook a.answer refl
  Says-validated webhook (some e) = tt

  Says-active :
      (webhook : WebhookRow) (b : Bool) → Says a n (active a n webhook_id event webhook b).outcome
  Says-active webhook true = Says-validated webhook (webhook_url_error a.net webhook.url)
  Says-active webhook false = tt

  Says-found : (row : Option WebhookRow) → Says a n (found a n webhook_id event row).outcome
  Says-found none = tt
  Says-found (some webhook) = Says-active webhook webhook.is_active

  Says-dispatch_webhook : Says a n (dispatch_webhook a n webhook_id event).outcome
  unfolding dispatch_webhook
  Says-dispatch_webhook = Says-found a.webhook

module _ (attempts : ℕ → Attempt) (webhook_id event : String) where
  abbrev ran : ℕ → Ran
  ran n = dispatch_webhook (attempts n) n webhook_id event

  -- The runs from one with a count of retries on, with the countdowns of the retries that were
  -- served: as Celery documents it, `self.retry` serves a retry, with the next count, while the
  -- count is below `max_retries`, and raises once it is not.
  pub data Runs : ℕ → List ℕ → Outcome → Type 0 where
    ended : (n : ℕ) → ((d : ℕ) → (ran n).outcome ≡ retry d → ⊥) → Runs n [] (ran n).outcome
    exhausted : (n d : ℕ) → (ran n).outcome ≡ retry d → max_retries ≤ n → Runs n [] (retry d)
    again :
        (n d : ℕ) (ds : List ℕ) (o : Outcome)
        → (ran n).outcome ≡ retry d
        → n < max_retries
        → Runs (suc n) ds o
        → Runs n (d ∷ ds) o

  run-Says : (n : ℕ) → Says (attempts n) n (ran n).outcome
  run-Says n = Says-dispatch_webhook (attempts n) n webhook_id event

  outcome-Says : (n : ℕ) (o : Outcome) → (ran n).outcome ≡ o → Says (attempts n) n o
  outcome-Says n o e = subst (Says (attempts n) n) e (run-Says n)

  -- The retries left give the countdowns left.
  next_delay :
      (n : ℕ) (ds : List ℕ)
      → n < max_retries
      → ds ≡ take (length ds) (drop (suc n) retry_delays)
      → retry_delay n ∷ ds ≡ take (suc (length ds)) (drop n retry_delays)
  next_delay zero ds h e = ap (λ r. 30 ∷ r) e
  next_delay (suc zero) ds h e = ap (λ r. 60 ∷ r) e
  next_delay (suc (suc zero)) ds h e = ap (λ r. 120 ∷ r) e
  next_delay (suc (suc (suc zero))) ds h e = ap (λ r. 300 ∷ r) e
  next_delay (suc (suc (suc (suc n)))) ds h e = absurd (omega (arith, h))

  runs_from :
      (n : ℕ) (ds : List ℕ) (o : Outcome)
      → Runs n ds o
      → n ≤ max_retries
      → (ds ≡ take (length ds) (drop n retry_delays))
        × ((n + length ds ≤ max_retries) × Says (attempts (n + length ds)) (n + length ds) o)
  runs_from n ds o (ended m stop) h =
      let e : n + 0 ≡ n = omega arith in
      (refl, (rw e h, subst (λ k. Says (attempts k) k (ran n).outcome) (sym e) (run-Says n)))
  runs_from n ds o (exhausted m d r full) h =
      let e : n + 0 ≡ n = omega arith in
      (
        refl,
        (rw e h, subst (λ k. Says (attempts k) k (retry d)) (sym e) (outcome-Says n (retry d) r)),
      )
  runs_from n ds o (again m d rest p r below next) h =
      let (delays, (bound, last)) = runs_from (suc n) rest o next (omega arith) in
      let e : n + suc (length rest) ≡ suc n + length rest = omega arith in
      (
        subst (λ k. k ∷ rest ≡ take (suc (length rest)) (drop n retry_delays))
            (sym (outcome-Says n (retry d) r)) (next_delay n rest below delays),
        (rw e bound, subst (λ k. Says (attempts k) k o) (sym e) last),
      )

  -- Whatever the receiver answers in each run, a webhook delivery takes five runs at most. The
  -- retries wait 30, 60, 120 and 300 seconds, in this order. If the delivery ends as delivered, then
  -- its last run was answered with a status from 200 to 299.
  pub runs_lem :
      (ds : List ℕ) (o : Outcome)
      → Runs 0 ds o
      → (ds ≡ take (length ds) (30 ∷ 60 ∷ 120 ∷ 300 ∷ []))
        × ((length ds ≤ 4)
            × (o ≡ delivered
                → (code : ℕ) × ((attempts (length ds)).answer ≡ status code)
                  × (is_success code ≡ true)))
  runs_lem ds o r =
      let (delays, (bound, last)) = runs_from 0 ds o r (omega arith) in
      let z : 0 + length ds ≡ length ds = omega arith in
      (
        delays,
        (
          subst (λ k. k ≤ max_retries) z bound,
          λ e.
              subst (Says (attempts (length ds)) (length ds)) e
                (subst (λ k. Says (attempts k) k o) z last),
        ),
      )
