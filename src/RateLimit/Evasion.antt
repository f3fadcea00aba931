-- ===== src/RateLimit/Evasion.antt =====
-- Requests that carry API keys that nobody has issued.
use Prim.Native.String.{◌++◌}
use text.Mathlib.Text.{starts_with}
use open_format_3d_viewer.Prelude.{
  ◌≡◌, String, Bool, not, ◌&&◌, List, [], ◌∷◌, string_eq, nat_eq, clip,
}
use open_format_3d_viewer.Core.Rows.{User}
use open_format_3d_viewer.Gate.{Library, or_empty, from_char}
use open_format_3d_viewer.RateLimit.{
  Redis, Settings, Arrival, Outcome, is_brute_force_path, is_exempt, dispatch,
}
use open_format_3d_viewer.RateLimit.Refinement.{Call, times}

-- The text after "Bearer ".
abbrev pub bearer_token : Arrival → String
bearer_token a = from_char 7 (or_empty a.request.authorization)

-- The token begins with "ofv_", on a path that is neither exempt nor for logins.
abbrev pub carries_key : Arrival → Bool
carries_key a =
    not (is_exempt a.request.path)
    && (not (is_brute_force_path a.request.path)
        && (starts_with (or_empty a.request.authorization) "Bearer "
            && starts_with (bearer_token a) "ofv_"))

module _ (R : Redis) (cfg : Settings) (lib : Library) (users : List User) where
  abbrev pub key_id : Arrival → String
  key_id a = "apikey:" ++ clip 16 (lib.hash_key (bearer_token a))

  -- No request has a token with the hash of an earlier one.
  abbrev pub AllNew : (past : List String) → List Arrival → Type 0
  AllNew past [] = Unit
  AllNew past (a ∷ rest) = (times (key_id a) past ≡ 0) × AllNew (key_id a ∷ past) rest

  -- The answers to requests that come one after the other.
  abbrev pub dispatch_all : List Arrival → R.Keys → List Outcome
  dispatch_all [] s = []
  dispatch_all (a ∷ rest) s =
      let (outcome, t) = dispatch R cfg lib users a s in outcome ∷ dispatch_all rest t

  abbrev call : Arrival → Call
  call a = record { now = a.now; identifier = key_id a; limit = cfg.free_per_hour }
