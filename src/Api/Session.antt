-- ===== src/Api/Session.antt =====
-- api/insecure.go: the handlers of /login and /logout.
pub mod Roundtrip
use cube_apiserver.Prelude.{
  ℕ, Str, str, Bool, true, false, Option, none, some, List, [], ◌∷◌, ◌++◌, ◌==◌, nat_eq,
  if◌then◌else◌,
}
use cube_apiserver.Base.Errors.{Err, other, Result, ok, err, error_of, Wrapping}
use cube_apiserver.Base.Int.{ℤ, pos, negsuc}
use cube_apiserver.Types.Auth.{Token}
use cube_apiserver.Util.Clock.{Clock}
use cube_apiserver.Util.Request.{Request, Texts, get_token_auth_from_request}
use cube_apiserver.Backend.Calls.{Event, Env}
use cube_apiserver.Backend.Tokens.{Stored, found, rejected, get_stored_token}
use cube_apiserver.Backend.Login.{
  LoginResult, replied, crashed, Codecs, create_login_token, delete_provider_token,
}

pub record Cookie : Type 0 where
  pub name : Str
  pub value : Str
  pub secure : Bool
  pub path : Str
  pub http_only : Bool
  pub max_age : ℤ
  -- a time long ago, or none
  pub expires : Bool

-- What a handler writes to the response.
pub data Written : Type 0 where
  json_error : Err → ℕ → Written
  json_token : Token → ℕ → Written
  set_cookie : Cookie → Written

-- A handler writes and returns an error or nil; or it panics.
pub data Handled : Type 0 where
  handled : List Written → Option Err → Handled
  panicking : List Written → Handled

abbrev pub cookie_name : Str
cookie_name = str "RC_SESS"

-- The value by which a token is presented.
abbrev pub token_value : Token → Str
token_value t = t.metadata.name ++ b':' ∷ t.token

abbrev pub token_cookie : Bool → Token → Cookie
token_cookie https t = record {
  name = cookie_name;
  value = token_value t;
  secure = https;
  path = str "/";
  http_only = true;
  max_age = pos 0;
  expires = false;
}

abbrev pub cleared_cookie : Bool → Cookie
cleared_cookie https = record {
  name = cookie_name;
  value = [];
  secure = https;
  path = str "/";
  http_only = true;
  max_age = negsuc 0;
  expires = true;
}

pub answer_login : Bool → LoginResult → Handled
answer_login https crashed = panicking []
answer_login https (replied t response (some e)) = handled (json_error e 401 ∷ []) (some e)
answer_login https (replied t response none) =
    if response == str "cookie"
    then handled (set_cookie (token_cookie https t) ∷ []) none
    else handled (json_token (record t { token = token_value t }) 201 ∷ []) none

module _ (env : Env) (clock : Clock) where
  module _ (wrapping : Wrapping) (codecs : Codecs) where
    -- Login
    unfoldable pub login : Bool → Result Str → List Event → Handled × List Event
    unfolding answer_login
    login https body h =
        let r = create_login_token env clock wrapping codecs body h in (answer_login https r.0, r.1)

  after_delete : Cookie → Option (Result (Unit {0})) → Handled
  after_delete cookie none = panicking (set_cookie cookie ∷ [])
  after_delete cookie (some r) = handled (set_cookie cookie ∷ []) (error_of r)

  -- A token that is not found is no error.
  pub end_session : Cookie → Stored × List Event → Handled × List Event
  unfolding after_delete
  end_session cookie (rejected status message, h) =
      if nat_eq status 404
      then (handled (set_cookie cookie ∷ []) none, h)
      else (handled (set_cookie cookie ∷ []) (some (other message)), h)
  end_session cookie (found t, h) =
      let r = delete_provider_token env t h in (after_delete cookie r.0, r.1)

  -- Logout
  unfoldable pub logout : Texts → Bool → Request → List Event → Handled × List Event
  unfolding end_session
  logout texts https req h =
      let value = get_token_auth_from_request texts req in
      let no_value = other (str "RancherCUBE: no valid token cookie or auth header") in
      if value == []
      then (handled (json_error no_value 401 ∷ []) (some no_value), h)
      else end_session (cleared_cookie https) (get_stored_token env clock value h)
