-- ===== src/Backend/Tokens.antt =====
-- backend/user.go: GetStoredToken.
pub mod Lookup
use cube_apiserver.Prelude.{
  ℕ, Str, str, Bool, true, false, ◌||◌, Option, none, some, List, [], ◌∷◌, ◌==◌, if◌then◌else◌, not,
}
use cube_apiserver.Base.Errors.{Err, other, is_not_found, Result, ok, err}
use cube_apiserver.Types.Auth.{Token}
use cube_apiserver.Util.{split_token_parts}
use cube_apiserver.Util.Clock.{Clock, is_expired}
use cube_apiserver.Backend.Calls.{Event, get_token, Env}
use cube_apiserver.Backend.Caches.{check_token_cache}

-- The token, or the HTTP status and the error.
pub data Stored : Type 0 where
  found : Token → Stored
  rejected : ℕ → Str → Stored

module _ (env : Env) (clock : Clock) where
  -- The tests on a token that was read.
  verify : Str → Str → Token → Stored
  verify name key t =
      if not (t.token == key) || not (t.name == name)
      then rejected 401 (str "RancherCUBE: stored token not match request token")
      else if is_expired clock t
      then rejected 410 (str "RancherCUBE: stored token is expired")
      else found t

  verify_gotten : Str → Str → Result Token → Stored
  unfolding verify
  verify_gotten name key (ok t) = verify name key t
  verify_gotten name key (err e) = rejected 404 (str "RancherCUBE: couldn't found stored token")

  -- Where the cache answers "not found", the API is asked.
  verify_cached : Str → Str → (Token × Option Err) × List Event → Stored × List Event
  unfolding verify_gotten
  verify_cached name key ((t, none), h) = (verify name key t, h)
  verify_cached name key ((t, some e), h) =
      if is_not_found e
      then (
        verify_gotten name key (env.token_gotten (get_token [] name ∷ h)),
        get_token [] name ∷ h,
      )
      else (rejected 404 (str "RancherCUBE: couldn't found stored token"), h)

  lookup_parts : Str × Str → List Event → Stored × List Event
  unfolding verify_cached
  lookup_parts (name, key) h =
      if name == [] || key == []
      then (rejected 404 (str "RancherCUBE: faild to split token"), h)
      else verify_cached name key (check_token_cache env key h)

  -- GetStoredToken
  unfoldable pub get_stored_token : Str → List Event → Stored × List Event
  unfolding lookup_parts
  get_stored_token value h = lookup_parts (split_token_parts value) h
