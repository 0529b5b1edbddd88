-- ===== src/Backend/Local.antt =====
-- backend/provider/local/local_provider.go. The tests on the dynamic type of a login's input and of
-- a cached object always succeed, since the callers and the informers give them that type.
pub mod Search
pub mod Access
use cube_apiserver.Prelude.{
  Str, str, Bool, true, false, ◌||◌, Option, none, some, List, [], ◌∷◌, ◌==◌, if◌then◌else◌, not,
  length, ltb,
}
use cube_apiserver.Base.Effect.{call, Flow, pure, give_back, ask, ◌>>=◌, ◌>>◌, run}
use cube_apiserver.Base.Errors.{Err, other, Result, ok, err, Wrapping, tolerate, is_already_exists}
use cube_apiserver.Base.Text.{has_prefix}
use cube_apiserver.Types.Auth.{User, Principal, Token, zero_principal, zero_token}
use cube_apiserver.Controller.Common.{
  search_index_default_len, get_local_principal_id, local_prefix, to_principal,
}
use cube_apiserver.Backend.Calls.{
  Event, users_by_username, users_by_search, list_cached_users, get_user, create_token,
  delete_token, Env, check, need,
}
use cube_apiserver.Backend.Caches.{check_user_cache, check_principal_cache}

-- The loop of getLocalPrincipalID, with the identifier that it has so far.
unfoldable pub last_own : List Str → Str → Str
last_own [] id = id
last_own (p ∷ ids) id = last_own ids (if has_prefix p local_prefix then p else id)

-- getLocalPrincipalID of this package: unlike the controller's, it has no default.
unfoldable pub own_principal_id : User → Str
unfolding last_own
own_principal_id user = last_own user.principal_ids []

abbrev pub Login : Type 0
Login = (Principal × List (Str × Str)) × Option Err

abbrev pub nobody : Option Err → Login
nobody e = ((zero_principal, []), e)

-- The principal of a user who has logged in.
abbrev pub logged_in : User → Principal
logged_in user =
    record (to_principal (str "user") user.display_name user.username user.namespace
      (own_principal_id user) none) { me = true }

abbrev pub authentication_failed : Str
authentication_failed = str "RancherCUBE: authentication failed"

module _ (env : Env) where
  -- CheckAccess
  unfoldable pub check_access : Principal → List Event → (Bool × Option Err) × List Event
  check_access p h =
      run
        (do
          user ← call (check_user_cache env p.name)
          check user.1 (λ e. (false, some e))
          principal ← call (check_principal_cache env p.name)
          check principal.1 (λ e. (false, some e))
          pure (
              if user.0.username == principal.0.login_name
              then (true, none)
              else (false, some (other (str "RancherCUBE: no allowed principalIDs")))))
        h

  module _ (wrapping : Wrapping) (compare_hash : Str → Str → Option Err) where
    pub admitted : User → Bool → Login
    admitted user true = ((logged_in user, []), none)
    admitted user false = nobody (some (other (str "RancherCUBE: unauthorized")))

    -- After the comparison of the password with the stored hash.
    pub compared : User → Option Err → List Event → Login × List Event
    unfolding admitted
    compared user (some e) h = (nobody (wrapping.wrap (some e) authentication_failed), h)
    compared user none h = let a = check_access (logged_in user) h in (admitted user a.0.0, a.1)

    -- By the users that the index finds.
    pub take_login : Str → Result (List User) → List Event → Login × List Event
    unfolding compared
    take_login password (err e) h = (nobody (some e), h)
    take_login password (ok []) h = (nobody (wrapping.wrap none authentication_failed), h)
    take_login password (ok (user ∷ [])) h = compared user (compare_hash user.password password) h
    take_login password (ok (_ ∷ _ ∷ _)) h =
        (nobody (some (other (str "RancherCUBE: found more than one users with username %v"))), h)

    -- AuthenticateUser
    unfoldable pub authenticate_user : Str → Str → List Event → Login × List Event
    unfolding take_login
    authenticate_user username password h =
        let e = users_by_username username in take_login password (env.users_found (e ∷ h)) (e ∷ h)

  -- GenerateToken: where the token exists already, the client's zero object.
  unfoldable pub generate_token : Token → List Event → Result Token × List Event
  generate_token token h =
      let e = create_token token.user_principal.namespace token in
      (tolerate zero_token (env.token_created (e ∷ h)), e ∷ h)

  -- DeleteToken
  unfoldable pub delete_stored : Token → List Event → Result (Unit {0}) × List Event
  delete_stored token h =
      let e = delete_token token.namespace token.name in (env.token_deleted (e ∷ h), e ∷ h)

-- The loop of listAllUsers.
unfoldable pub with_prefix : Str → List User → List User
with_prefix key [] = []
with_prefix key (u ∷ users) =
    let rest = with_prefix key users in
    if not (has_prefix u.name key || (has_prefix u.username key || has_prefix u.display_name key))
    then rest
    else u ∷ rest

-- `fromOtherProviders[p]`, for the names of a list of principals.
abbrev pub from_others : List Principal → Str → Bool
from_others [] id = false
from_others (p ∷ ps) id = p.name == id || from_others ps id

abbrev pub any_from_others : List Principal → List Str → Bool
any_from_others others [] = false
any_from_others others (id ∷ ids) = from_others others id || any_from_others others ids

-- The loop of SearchPrincipalsDedupe over the users.
unfoldable pub not_from_others : Token → List Principal → List User → List Principal
not_from_others token others [] = []
not_from_others token others (u ∷ users) =
    let rest = not_from_others token others users in
    if any_from_others others u.principal_ids
    then rest
    else to_principal (str "user") u.display_name u.username u.namespace (get_local_principal_id u)
        (some token)
      ∷ rest

module _ (env : Env) where
  -- listAllUsers
  list_all_users : Str → List Event → Result (List User) × List Event
  unfolding with_prefix
  list_all_users key h =
      run
        (do
          all ← ask list_cached_users env.cached_users
          users ← need all (λ e. err e)
          pure (ok (with_prefix key users)))
        h

  -- listUsersByIndex
  list_users_by_index : Str → List Event → Result (List User) × List Event
  list_users_by_index key h = (env.users_found (users_by_search key ∷ h), users_by_search key ∷ h)

  abbrev search_users : Str → List Event → Result (List User) × List Event
  search_users key =
      if ltb search_index_default_len (length key)
      then list_all_users key
      else list_users_by_index key

  -- SearchPrincipalsDedupe
  unfoldable pub search_principals_dedupe :
      Str → Str → Token → List Principal → List Event → Result (List Principal) × List Event
  unfolding list_all_users list_users_by_index not_from_others
  search_principals_dedupe key principal_type token others h =
      run
        (do
          found ← call (search_users key)
          users ← need found (λ e. err e)
          pure (
              if principal_type == [] || principal_type == str "user"
              then ok (not_from_others token others users)
              else ok []))
        h

  -- SearchPrincipals
  pub search_principals : Str → Str → Token → List Event → Result (List Principal) × List Event
  unfolding search_principals_dedupe
  search_principals key principal_type token = search_principals_dedupe key principal_type token []

  -- GetPrincipal: the name that is looked up is never set.
  pub get_principal : Str → Token → List Event → Result Principal × List Event
  get_principal principal_id token h =
      run
        (do
          found ← ask (get_user [] []) env.user_gotten
          user ← need found (λ e. err e)
          pure (
              ok (
                to_principal (str "user") user.display_name user.username user.namespace
                  (get_local_principal_id user) (some token))))
        h
