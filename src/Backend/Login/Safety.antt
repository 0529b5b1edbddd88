-- ===== src/Backend/Login/Safety.antt =====
-- No login without a password.
use cube_apiserver.Prelude.{
  Str, true, none, some, List, [], ◌∷◌, ◌≡◌, ◌≢◌, refl, sym, ap, ◌∙◌, arith, ◌==◌,
}
use cube_apiserver.Base.Errors.{Result, ok, err, Wrapping}
use cube_apiserver.Base.Text.{split}
use cube_apiserver.Types.Auth.{User, Principal, Token, zero_principal}
use cube_apiserver.Util.{get_auth_provider_name}
use cube_apiserver.Util.Clock.{Clock}
use cube_apiserver.Backend.Calls.{Event, users_by_username, users_by_principal, sign_token, Env}
use cube_apiserver.Backend.Caches.{check_user_cache}
use cube_apiserver.Backend.Ensure.Lookup.{ensure_user-check_user_cache}
use cube_apiserver.Backend.Local.{Login, authenticate_user}
use cube_apiserver.Backend.Local.Access.{
  LoggedIn, unknown, known, authenticate_user-LoggedIn, authenticate_user-unknown,
}
use cube_apiserver.Backend.Login.{
  GenericLogin, BasicLogin, Made, answered, panicked, LoginResult, replied, crashed, is_local,
  Codecs, login_token, signed, provided, create_or_update_token, new_login_token, replied_with,
  ensured, authenticated, basic, generic, create_login_token,
}

replied_with-none :
    (response r : Str) (m : Made) (t : Token)
    → replied_with response m ≡ replied t r none
    → m ≡ answered t none
unfolding replied_with
replied_with-none response r (answered s e) t p = cc
replied_with-none response r panicked t p = absurd (cc)

module _ (env : Env) (clock : Clock) where
  -- A token for the empty principal has no provider, and none is made.
  signed-zero_principal :
      (user_id : Str) (info : List (Str × Str)) (g : GenericLogin) (r : Result Str) (t : Token)
      (h : List Event)
      → (signed env clock
          (login_token env clock user_id zero_principal info g.ttl_millis g.description)
          r
          h).0
        ≢ answered t none
  unfolding signed provided get_auth_provider_name split ◌==◌
  signed-zero_principal user_id info g (ok key) t h e = cc
  signed-zero_principal user_id info g (err x) t h e = cc

  module _ (wrapping : Wrapping) (codecs : Codecs) where
    ensured-zero_principal :
        (g : GenericLogin) (info : List (Str × Str)) (u : Result User × List Event) (r : Str)
        (t : Token)
        → (ensured env clock wrapping codecs g zero_principal info u).0 ≢ replied t r none
    unfolding ensured new_login_token create_or_update_token
    ensured-zero_principal g info (ok user, h) r t e =
        signed-zero_principal user.name info g _ t _ (replied_with-none _ r _ t e)
    ensured-zero_principal g info (err x, h) r t e = ground arith

    module _ (username password : Str) (h : List Event) where
      -- One user has the name, and the password fits the hash.
      abbrev Proven : Type 0
      Proven =
          (user : User) × (env.users_found (users_by_username username ∷ h) ≡ ok (user ∷ []))
          × (codecs.compare_hash user.password password ≡ none)

      ensured-Proven :
          (g : GenericLogin) (p : Principal) (info : List (Str × Str))
          (u : Result User × List Event) (r : Str) (t : Token)
          → LoggedIn env codecs.compare_hash username password h p
          → (ensured env clock wrapping codecs g p info u).0 ≡ replied t r none
          → Proven
      ensured-Proven g _ info u r t (unknown found) e =
          absurd (ensured-zero_principal g info u r t e)
      ensured-Proven g _ info u r t (known user found same) e = (user, found, same)

      authenticated-Proven :
          (g : GenericLogin) (x : Login × List Event) (r : Str) (t : Token)
          → (x.0.1 ≡ none → LoggedIn env codecs.compare_hash username password h x.0.0.0)
          → (authenticated env clock wrapping codecs g x).0 ≡ replied t r none
          → Proven
      unfolding authenticated
      authenticated-Proven g (((p, info), none), h') r t k e =
          ensured-Proven g p info _ r t (k refl) e
      authenticated-Proven g ((_, some x), h') r t k e = absurd (cc)

reached :
    (env : Env) (clock : Clock) (wrapping : Wrapping) (codecs : Codecs) (body : Str)
    (g : GenericLogin) (b : BasicLogin) (h : List Event)
    → codecs.parse_generic body ≡ ok g
    → is_local g.provider_type ≡ true
    → codecs.parse_basic body ≡ ok b
    → create_login_token env clock wrapping codecs (ok body) h
      ≡ authenticated env clock wrapping codecs g
          (authenticate_user env wrapping codecs.compare_hash b.username b.password h)
unfolding create_login_token generic basic
reached env clock wrapping codecs body g b h pg local pb = rw (pg, local, pb)

-- A login over the local provider that ends with a token and no error was for the name of exactly
-- one user, whose stored hash fits the password.
pub create_login_token-Proven :
    (env : Env) (clock : Clock) (wrapping : Wrapping) (codecs : Codecs) (body : Str)
    (g : GenericLogin) (b : BasicLogin) (h : List Event) (t : Token) (r : Str)
    → codecs.parse_generic body ≡ ok g
    → is_local g.provider_type ≡ true
    → codecs.parse_basic body ≡ ok b
    → (create_login_token env clock wrapping codecs (ok body) h).0 ≡ replied t r none
    → (user : User) × (env.users_found (users_by_username b.username ∷ h) ≡ ok (user ∷ []))
      × (codecs.compare_hash user.password b.password ≡ none)
create_login_token-Proven env clock wrapping codecs body g b h t r pg local pb e =
    authenticated-Proven env clock wrapping codecs b.username b.password h g
      (authenticate_user env wrapping codecs.compare_hash b.username b.password h) r t
      (authenticate_user-LoggedIn env wrapping codecs.compare_hash b.username b.password h)
      (sym (
          ap (λ (x : LoginResult × List Event). x.0)
            (reached env clock wrapping codecs body g b h pg local pb))
        ∙ e)

-- A login under a name that no user has, with any password, crashes where the index has no user
-- for the empty identifier either and the key for the token can be signed.
pub create_login_token-unknown :
    (env : Env) (clock : Clock) (wrapping : Wrapping) (codecs : Codecs) (body key : Str)
    (g : GenericLogin) (b : BasicLogin) (h : List Event)
    → codecs.parse_generic body ≡ ok g
    → is_local g.provider_type ≡ true
    → codecs.parse_basic body ≡ ok b
    → env.users_found (users_by_username b.username ∷ h) ≡ ok []
    → env.users_found (users_by_principal [] ∷ users_by_username b.username ∷ h) ≡ ok []
    → env.token_signed
        (sign_token g.ttl_millis ∷ users_by_principal [] ∷ users_by_username b.username ∷ h)
      ≡ ok key
    → create_login_token env clock wrapping codecs (ok body) h ≡ (
      crashed,
      sign_token g.ttl_millis ∷ users_by_principal [] ∷ users_by_username b.username ∷ h,
    )
unfolding authenticated ensured new_login_token create_or_update_token signed provided replied_with
    check_user_cache get_auth_provider_name split ◌==◌
create_login_token-unknown env clock wrapping codecs body key g b h pg local pb found index sign =
    rw (
      reached env clock wrapping codecs body g b h pg local pb,
      authenticate_user-unknown env wrapping codecs.compare_hash b.username b.password h found,
      ensure_user-check_user_cache env codecs.encode_base32 [] []
          (users_by_username b.username ∷ h),
      index,
      sign,
    )
