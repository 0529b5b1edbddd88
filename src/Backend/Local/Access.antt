-- ===== src/Backend/Local/Access.antt =====
-- Who is let in by AuthenticateUser and CheckAccess.
use cube_apiserver.Prelude.{
  Str, Bool, true, false, Option, none, some, List, [], ◌∷◌, ◌≡◌, refl, eq_refl,
}
use cube_apiserver.Base.Effect.{◌>>=◌}
use cube_apiserver.Base.Errors.{Err, Result, ok, err, Wrapping}
use cube_apiserver.Types.Auth.{User, Principal, zero_principal}
use cube_apiserver.Backend.Calls.{
  Event, users_by_username, users_by_principal, principals_by_id, Env,
}
use cube_apiserver.Backend.Caches.{check_user_cache, check_principal_cache}
use cube_apiserver.Backend.Local.{
  nobody, logged_in, authentication_failed, check_access, admitted, compared, take_login,
  authenticate_user,
}

-- What a login without an error has gone through: no user has the name, and the principal is
-- empty; or one user has it, whose stored hash fits the password.
pub data LoggedIn (env : Env) (compare_hash : Str → Str → Option Err) (username password : Str)
    (h : List Event) : Principal → Type 0 where
  unknown :
      env.users_found (users_by_username username ∷ h) ≡ ok []
      → LoggedIn env compare_hash username password h zero_principal
  known :
      (user : User)
      → env.users_found (users_by_username username ∷ h) ≡ ok (user ∷ [])
      → compare_hash user.password password ≡ none
      → LoggedIn env compare_hash username password h (logged_in user)

-- A principal that neither cache has is allowed.
pub check_access-absent :
    (env : Env) (p : Principal) (h : List Event)
    → env.users_found (users_by_principal p.name ∷ h) ≡ ok []
    → env.principals_found (principals_by_id p.name ∷ users_by_principal p.name ∷ h) ≡ ok []
    → (check_access env p h).0 ≡ (true, none)
unfolding check_access check_user_cache check_principal_cache ◌>>=◌
check_access-absent env p h users principals = rw (users, principals, eq_refl [])

module _ (env : Env) (wrapping : Wrapping) (compare_hash : Str → Str → Option Err) (username : Str)
    (password : Str) (h : List Event) where
  module _ (user : User)
      (found : env.users_found (users_by_username username ∷ h) ≡ ok (user ∷ [])) where
    admitted-LoggedIn :
        compare_hash user.password password ≡ none
        → (b : Bool) → (admitted env wrapping compare_hash user b).1 ≡ none
        → LoggedIn env compare_hash username password h
            (admitted env wrapping compare_hash user b).0.0
    unfolding admitted
    admitted-LoggedIn same true e = known user found same
    admitted-LoggedIn same false e = absurd (cc)

    compared-LoggedIn :
        (c : Option Err) (h' : List Event)
        → compare_hash user.password password ≡ c
        → (compared env wrapping compare_hash user c h').0.1 ≡ none
        → LoggedIn env compare_hash username password h
            (compared env wrapping compare_hash user c h').0.0.0
    unfolding compared
    compared-LoggedIn none h' same e =
        admitted-LoggedIn same (check_access env (logged_in user) h').0.0 e
    compared-LoggedIn (some x) h' differs e =
        let (d, k) = wrapping.wrap_error x authentication_failed in absurd (cc)

  take_login-LoggedIn :
      (r : Result (List User)) (h' : List Event)
      → env.users_found (users_by_username username ∷ h) ≡ r
      → (take_login env wrapping compare_hash password r h').0.1 ≡ none
      → LoggedIn env compare_hash username password h
          (take_login env wrapping compare_hash password r h').0.0.0
  unfolding take_login
  take_login-LoggedIn (err x) h' found e = absurd (cc)
  take_login-LoggedIn (ok []) h' found e = unknown found
  take_login-LoggedIn (ok (user ∷ [])) h' found e =
      compared-LoggedIn user found (compare_hash user.password password) h' refl e
  take_login-LoggedIn (ok (_ ∷ _ ∷ _)) h' found e = absurd (cc)

-- A login that ends without an error is that of the one user with the name, whose stored hash fits
-- the password, or no user has the name, and then the principal is empty.
pub authenticate_user-LoggedIn :
    (env : Env) (wrapping : Wrapping) (compare_hash : Str → Str → Option Err)
    (username password : Str) (h : List Event)
    → (authenticate_user env wrapping compare_hash username password h).0.1 ≡ none
    → LoggedIn env compare_hash username password h
        (authenticate_user env wrapping compare_hash username password h).0.0.0
unfolding authenticate_user
authenticate_user-LoggedIn env wrapping compare_hash username password h e =
    take_login-LoggedIn env wrapping compare_hash username password h
      (env.users_found (users_by_username username ∷ h)) (users_by_username username ∷ h) refl e

-- A user name that the index does not have is authenticated with every password, as the empty
-- principal and without an error.
pub authenticate_user-unknown :
    (env : Env) (wrapping : Wrapping) (compare_hash : Str → Str → Option Err)
    (username password : Str) (h : List Event)
    → env.users_found (users_by_username username ∷ h) ≡ ok []
    → authenticate_user env wrapping compare_hash username password h
      ≡ (nobody none, users_by_username username ∷ h)
unfolding authenticate_user take_login
authenticate_user-unknown env wrapping compare_hash username password h found =
    rw (found, wrapping.wrap_nil authentication_failed)
