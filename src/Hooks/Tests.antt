-- ===== src/Hooks/Tests.antt =====
-- The theorems on webhooks at a concrete table.
use open_format_3d_viewer.Prelude.{
  ◌≡◌, refl, true, false, none, some, List, [], ◌∷◌, select, ◌==◌, nat_eq, All,
}
use open_format_3d_viewer.Projects.Tests.{account}
use open_format_3d_viewer.Ssrf.Tests.{one_host, hook_url}
use open_format_3d_viewer.Hooks.{Webhook, Hooks, Request, create, update_one, delete_one, run}
use open_format_3d_viewer.Hooks.Registered.{IsRegistered, run-IsRegistered}
use open_format_3d_viewer.Hooks.Owned.{run-others}

abbrev first_hook : Webhook
first_hook = record {
  id = 1;
  user_id = 1;
  url = hook_url;
  secret = "s";
  events = some ("model.ready" ∷ []);
  is_active = true;
  created_at = 0;
  updated_at = 0;
}

abbrev pub one_hook : Hooks
one_hook = record { users = account 1 ∷ account 2 ∷ []; webhooks = first_hook ∷ []; tasks = [] }

-- Another user registers a webhook, and tries to change and to delete the first one.
abbrev intrusions : List Request
intrusions =
    record {
      net = one_host;
      caller = account 2;
      now = 5;
      step = create 2 "t" (record { url = hook_url; events = "model.failed" ∷ [] });
    }
    ∷ record {
      net = one_host;
      caller = account 2;
      now = 6;
      step = update_one 1 (record { url = some hook_url; events = none; is_active = some false });
    }
    ∷ record { net = one_host; caller = account 2; now = 7; step = delete_one 1 }
    ∷ []

run-IsRegistered_example : All IsRegistered (run intrusions one_hook).webhooks
run-IsRegistered_example = run-IsRegistered intrusions one_hook ((refl, refl), tt)

run-others_example :
    select (λ w. w.user_id == 1) (run intrusions one_hook).webhooks
    ≡ select (λ w. w.user_id == 1) one_hook.webhooks
run-others_example = run-others 1 intrusions one_hook (refl, (refl, (refl, tt))) (refl, tt)
