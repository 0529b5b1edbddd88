-- ===== src/Api/Session/Roundtrip.antt =====
-- What a login hands out lets the next request in, and lets the session end.
use cube_apiserver.Prelude.{Str, str, Bool, false, List, [], ◌∷◌, ◌++◌, ◌≡◌, refl, ◌==◌, eq_refl}
use cube_apiserver.Base.Errors.{ok, error_of}
use cube_apiserver.Base.Text.{Free}
use cube_apiserver.Types.Auth.{Token}
use cube_apiserver.Util.Clock.{Clock, is_expired}
use cube_apiserver.Util.Request.{Request, Texts, get_token_auth_from_request}
use cube_apiserver.Backend.Calls.{Event, tokens_by_key, delete_token, Env}
use cube_apiserver.Backend.Tokens.{found, get_stored_token}
use cube_apiserver.Backend.Tokens.Lookup.{get_stored_token-cached}
use cube_apiserver.Backend.Local.{delete_stored}
use cube_apiserver.Backend.Login.{delete_provider_token}
use cube_apiserver.Api.Gate.{passed, bearer, admit, token_obtain}
use cube_apiserver.Api.Session.{
  Cookie, set_cookie, handled, token_value, token_cookie, cleared_cookie, after_delete, end_session,
  logout,
}

-- A token that a request can carry and the cache shows: its name and key are not empty and have no
-- colon, it is alone under its key, and it has not expired.
pub record IsLive (env : Env) (clock : Clock) (t : Token) (h : List Event) : Type 0 where
  pub free_name : Free b':' t.name
  pub free_key : Free b':' t.token
  pub has_name : (t.name == []) ≡ false
  pub has_key : (t.token == []) ≡ false
  pub cached : env.tokens_found (tokens_by_key t.token ∷ h) ≡ ok (t ∷ [])
  pub current : is_expired clock t ≡ false

-- A request without an Authorization header that sends back the cookie.
abbrev pub with_cookie : Cookie → Request
with_cookie c = record { authorization = []; session_cookie = ok c.value }

value-nonempty : (name key : Str) → (name == []) ≡ false → ((name ++ b':' ∷ key) == []) ≡ false
unfolding ◌==◌
value-nonempty [] key h = refl
value-nonempty (c ∷ name) key h = refl

stored_by_cookie :
    (env : Env) (clock : Clock) (t : Token) (h : List Event)
    → IsLive env clock t h
    → get_stored_token env clock (token_value t) h ≡ (found t, tokens_by_key t.token ∷ h)
stored_by_cookie env clock t h live =
    get_stored_token-cached env clock t h live.free_name live.free_key live.has_name live.has_key
      live.cached live.current

-- The cookie of a login lets the next request in as the user of its token, with one look into the
-- cache, where the token is live.
pub token_obtain-token_cookie :
    (env : Env) (clock : Clock) (texts : Texts) (https : Bool) (t : Token) (h : List Event)
    → texts.trim_space [] ≡ []
    → IsLive env clock t h
    → token_obtain env clock texts (with_cookie (token_cookie https t)) h
      ≡ (passed (bearer ++ t.token) t.user_id, tokens_by_key t.token ∷ h)
unfolding token_obtain get_token_auth_from_request admit
token_obtain-token_cookie env clock texts https t h trim live = rw (
  trim,
  eq_refl [],
  value-nonempty t.name t.token live.has_name,
  stored_by_cookie env clock t h live,
)

-- A logout with that cookie clears it and deletes the token itself, by one call, and hands on the
-- error of that call, where the token is live and of the local provider.
pub logout-token_cookie :
    (env : Env) (clock : Clock) (texts : Texts) (https : Bool) (t : Token) (h : List Event)
    → texts.trim_space [] ≡ []
    → IsLive env clock t h
    → t.auth_provider ≡ str "local"
    → logout env clock texts https (with_cookie (token_cookie https t)) h ≡ (
      handled (set_cookie (cleared_cookie https) ∷ []) (
          error_of
            (env.token_deleted (delete_token t.namespace t.name ∷ tokens_by_key t.token ∷ h))),
      delete_token t.namespace t.name ∷ tokens_by_key t.token ∷ h,
    )
unfolding logout get_token_auth_from_request end_session after_delete delete_provider_token
    delete_stored
logout-token_cookie env clock texts https t h trim live own = rw (
  trim,
  eq_refl [],
  value-nonempty t.name t.token live.has_name,
  stored_by_cookie env clock t h live,
  own,
  eq_refl (str "local"),
)
