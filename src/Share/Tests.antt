-- ===== src/Share/Tests.antt =====
-- The theorems on share links at a concrete table.
use open_format_3d_viewer.Prelude.{ℕ, ◌≡◌, refl, true, false, none, some, List, [], ◌∷◌}
use open_format_3d_viewer.Core.Exceptions.{Exception}
use open_format_3d_viewer.Core.Session.{ok, raised, scalar_one_or_none, or_raise}
use open_format_3d_viewer.Core.Rows.{User}
use open_format_3d_viewer.Projects.Tests.{account}
use open_format_3d_viewer.Uploads.Tests.{shelf}
use open_format_3d_viewer.Share.{
  ShareLink, Shares, PublicModelResponse, Step, create, resolve, revoke, elsewhere, get_share_link,
  revoke_share_link, run,
}
use open_format_3d_viewer.Share.Live.{run-resolves}
use open_format_3d_viewer.Share.Revoked.{run-refuses}

abbrev first_link : ShareLink
first_link = record {
  id = 1;
  model_id = 7;
  created_by = 1;
  token = "abc";
  expires_at = some 50;
  revoked = false;
  created_at = 0;
}

abbrev shared : Shares
shared = record { base = shelf; links = first_link ∷ [] }

-- Another admin asks for the revocation and for a link with the same token.
abbrev others : List (Step × User × ℕ)
others =
    (revoke 1, account 2, 5)
    ∷ (create 2 "abc" 7 none, account 2, 6)
    ∷ (resolve "abc", account 3, 7)
    ∷ (elsewhere shelf, account 2, 8)
    ∷ []

run-resolves_example :
    (m : PublicModelResponse) × (get_share_link true "" "abc" 20 (run true "" others shared)
      ≡ (ok (first_link, m), run true "" others shared))
unfolding scalar_one_or_none
run-resolves_example =
    run-resolves first_link true "" others 20 shared refl refl (refl, refl, (_, none, refl, refl))
      (refl, (tt, (tt, ((_, none, refl, refl), tt))))

abbrev after_revocation : List (Step × User × ℕ)
after_revocation = (create 3 "xyz" 7 none, account 1, 6) ∷ (resolve "abc", account 3, 7) ∷ []

revoked_by_creator : (revoke_share_link 1 1 shared).0 ≡ ok tt
unfolding revoke_share_link scalar_one_or_none or_raise
revoked_by_creator = refl

run-refuses_example :
    (e : Exception) × (get_share_link true "" "abc" 20
        (run true "" after_revocation (revoke_share_link 1 1 shared).1)
      ≡ (raised e, run true "" after_revocation (revoke_share_link 1 1 shared).1))
run-refuses_example =
    run-refuses true "" first_link 1 shared after_revocation 20 refl revoked_by_creator
      (refl, (tt, tt))
