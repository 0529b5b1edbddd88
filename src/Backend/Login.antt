-- ===== src/Backend/Login.antt =====
-- backend/insecure/insecure.go, with the functions of backend/provider/common/provider.go that it
-- calls. A call of a provider that is not in the map is a call of a nil interface.
pub mod Tokens
pub mod Safety
use cube_apiserver.Prelude.{
  Str, str, Bool, true, false, Option, none, some, List, [], ◌∷◌, ◌==◌, if◌then◌else◌,
}
use cube_apiserver.Base.Errors.{Err, other, Result, ok, err, tolerate, Wrapping}
use cube_apiserver.Base.Int.{ℤ}
use cube_apiserver.Types.Meta.{zero_type_meta, zero_meta}
use cube_apiserver.Types.Auth.{User, Principal, Token, zero_token}
use cube_apiserver.Util.{get_auth_provider_name}
use cube_apiserver.Util.Clock.{Clock, set_token_expires_at}
use cube_apiserver.Backend.Calls.{Event, sign_token, update_token, Env}
use cube_apiserver.Backend.Ensure.{ensure_user}
use cube_apiserver.Backend.Local.{Login, authenticate_user, generate_token, delete_stored}

pub record GenericLogin : Type 0 where
  pub ttl_millis : ℤ
  pub provider_type : Str
  pub description : Str
  pub response_type : Str

pub record BasicLogin : Type 0 where
  pub username : Str
  pub password : Str

-- A request for a token as it ends: an answer, which may have an error beside its token, or a
-- panic.
pub data Made : Type 0 where
  answered : Token → Option Err → Made
  panicked : Made

-- The same with the type of the response.
pub data LoginResult : Type 0 where
  replied : Token → Str → Option Err → LoginResult
  crashed : LoginResult

pub replied_with : Str → Made → LoginResult
replied_with response (answered t e) = replied t response e
replied_with response panicked = crashed

-- `providers` after Configure: the local provider, and nothing else.
abbrev pub is_local : Str → Bool
is_local provider_name = provider_name == str "local"

-- UserIDLabel
abbrev pub user_id_label : Str
user_id_label = str "auth.user.cube.rancher.io/token-user-id"

-- ioutil.ReadAll gives the body; json.Unmarshal reads it twice; bcrypt compares a hash with a
-- password; base32 encodes a name.
pub record Codecs : Type 0 where
  pub parse_generic : Str → Result GenericLogin
  pub parse_basic : Str → Result BasicLogin
  pub compare_hash : Str → Str → Option Err
  pub encode_base32 : Str → Str

abbrev pub server_error : Str
server_error = str "RancherCUBE: server error while authenticating"

module _ (env : Env) (clock : Clock) where
  -- The token as CreateOrUpdateToken sends it.
  abbrev pub keyed : Str → Token → Token
  keyed key t = record t {
    token = key;
    metadata = record zero_meta {
      generate_name = str "token-";
      labels = (user_id_label, t.user_id) ∷ [];
    };
  }

  pub stored : Result Token → Made
  stored (ok t) = answered t none
  stored (err e) = answered zero_token (some e)

  -- The update with the time of expiry.
  pub expire : Str → Result Token × List Event → Made × List Event
  unfolding stored
  expire namespace (err e, h) = (answered zero_token (some e), h)
  expire namespace (ok t, h) =
      let e = update_token namespace (set_token_expires_at clock t) in
      (stored (env.token_updated (e ∷ h)), e ∷ h)

  -- common.GenerateToken, by whether the provider is in the map, and what follows it.
  pub provided : Bool → Token → List Event → Made × List Event
  unfolding expire
  provided true t h =
      let g = generate_token env t h in
      expire t.user_principal.namespace (tolerate zero_token g.0, g.1)
  provided false t h = (panicked, h)

  pub signed : Token → Result Str → List Event → Made × List Event
  unfolding provided
  signed t (err e) h =
      (answered zero_token (some (other (str "RancherCUBE: failed to generate token key"))), h)
  signed t (ok key) h = provided (is_local t.auth_provider) (keyed key t) h

  -- CreateOrUpdateToken
  unfoldable pub create_or_update_token : Token → List Event → Made × List Event
  unfolding signed
  create_or_update_token t h =
      let e = sign_token t.ttl_millis in signed t (env.token_signed (e ∷ h)) (e ∷ h)

  -- The token that NewLoginToken asks for.
  abbrev pub login_token : Str → Principal → List (Str × Str) → ℤ → Str → Token
  login_token user_id p info ttl description = record zero_token {
    type_meta = record { api_version = str "cube.rancher.io/v1alpha1"; kind = str "Token" };
    user_principal = p;
    is_derived = true;
    ttl_millis = ttl;
    user_id = user_id;
    auth_provider = get_auth_provider_name p.name;
    provider_info = info;
    description = description;
  }

  -- NewLoginToken
  unfoldable pub new_login_token :
      Str → Principal → List (Str × Str) → ℤ → Str → List Event → Made × List Event
  unfolding create_or_update_token
  new_login_token user_id p info ttl description h =
      create_or_update_token (login_token user_id p info ttl description) h

  module _ (wrapping : Wrapping) (codecs : Codecs) where
    open codecs use {parse_generic, parse_basic, compare_hash, encode_base32}

    -- From the user that EnsureUser answers on.
    pub ensured :
        GenericLogin
        → Principal
        → List (Str × Str)
        → Result User × List Event
        → LoginResult × List Event
    unfolding replied_with
    ensured g p info (err e, h) = (replied zero_token g.response_type (some e), h)
    ensured g p info (ok user, h) =
        let made = new_login_token user.name p info g.ttl_millis g.description h in
        (replied_with g.response_type made.0, made.1)

    -- From the result of AuthenticateUser on.
    pub authenticated : GenericLogin → Login × List Event → LoginResult × List Event
    unfolding ensured
    authenticated g ((_, some e), h) = (replied zero_token g.response_type (some e), h)
    authenticated g (((p, info), none), h) = ensured g p info (
        ensure_user env encode_base32 p.name
          (if p.display_name == [] then p.login_name else p.display_name) h)

    pub basic : GenericLogin → Result BasicLogin → List Event → LoginResult × List Event
    unfolding authenticated
    basic g (err e) h =
        (replied zero_token g.response_type (wrapping.wrap (some e) server_error), h)
    basic g (ok b) h =
        authenticated g (authenticate_user env wrapping compare_hash b.username b.password h)

    pub generic : Str → Result GenericLogin → List Event → LoginResult × List Event
    unfolding basic
    generic bytes (err e) h = (replied zero_token [] (wrapping.wrap (some e) server_error), h)
    generic bytes (ok g) h = if is_local g.provider_type then basic g (parse_basic bytes) h else (
      replied zero_token g.response_type
          (wrapping.wrap none (str "RancherCUBE: unknown authentication provider")),
      h,
    )

    -- CreateLoginToken, with the body of the request as it was read.
    unfoldable pub create_login_token : Result Str → List Event → LoginResult × List Event
    unfolding generic
    create_login_token (err e) h =
        (replied zero_token (str "cookie") (wrapping.wrap (some e) server_error), h)
    create_login_token (ok bytes) h = generic bytes (parse_generic bytes) h

module _ (env : Env) where
  -- common.DeleteToken; `none` is a panic.
  unfoldable pub delete_provider_token :
      Token → List Event → Option (Result (Unit {0})) × List Event
  delete_provider_token t h =
      if is_local t.auth_provider
      then (let r = delete_stored env t h in (some r.0, r.1))
      else (none, h)
