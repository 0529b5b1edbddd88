-- ===== src/Backend/Examples.antt =====
-- One user and one token in a cluster that answers every call alike; the theorems at this input.
use cube_apiserver.Prelude.{◌∷◌, ◌++◌, str, some, none, true, ◌≡◌, refl, arith, ◌==◌, []}
use cube_apiserver.Base.Errors.{not_found, other, ok}
use cube_apiserver.Base.Int.{pos, wrap64, scale}
use cube_apiserver.Types.Auth.{User, zero_user}
use cube_apiserver.Base.Text.{split, has_prefix}
use cube_apiserver.Base.Effect.{◌>>=◌}
use cube_apiserver.Util.{split_token_parts, contains_string, get_auth_provider_name}
use cube_apiserver.Controller.Common.{to_principal}
use cube_apiserver.Util.Clock.{is_expired, ttl_duration}
use cube_apiserver.Util.Examples.{five_seconds}
use cube_apiserver.Backend.Calls.{
  users_by_username, users_by_principal, tokens_by_key, list_tokens, get_user, create_user,
  sign_token,
}
use cube_apiserver.Backend.Caches.{check_user_cache, check_principal_cache, check_token_cache}
use cube_apiserver.Backend.Tokens.{found, get_stored_token}
use cube_apiserver.Backend.Tokens.Lookup.{
  Accepts, get_stored_token-Accepts, get_stored_token-cached,
}
use cube_apiserver.Backend.Ensure.{
  check_labels, ensure_user, kube_system, ended, cube_admin, init_cube_admin,
}
use cube_apiserver.Backend.Ensure.Lookup.{
  ensure_user-check_user_cache, check_labels-last_item, init_cube_admin-swallows,
}
use cube_apiserver.Backend.Local.{
  nobody, logged_in, own_principal_id, last_own, generate_token, check_access, authenticate_user,
  with_prefix, not_from_others, search_principals_dedupe,
}
use cube_apiserver.Backend.Local.Access.{
  LoggedIn, check_access-absent, authenticate_user-LoggedIn, authenticate_user-unknown,
}
use cube_apiserver.Backend.Local.Search.{
  search_principals_dedupe-with_prefix, search_principals_dedupe-short,
}
use cube_apiserver.Backend.Login.{
  crashed, create_or_update_token, create_login_token, new_login_token,
}
use cube_apiserver.Backend.Login.Tokens.{MadeFor, create_or_update_token-MadeFor}
use cube_apiserver.Backend.Login.Safety.{create_login_token-Proven, create_login_token-unknown}
use cube_apiserver.Backend.Crds.{user_crd_deploy}
use cube_apiserver.Backend.Crds.Install.{Installed, user_crd_deploy-Installed}
use cube_apiserver.Backend.Purge.{purge, expired_tokens, deleting, purge-deleting}
use cube_apiserver.Backend.Examples.Cluster.{
  ann, bob, session, old, ann_env, empty_env, wrapping, any_password, form, codecs, as_is,
  search_env, short_env, installed_env,
}
pub mod Cluster

get_stored_token-Accepts_example : Accepts five_seconds (str "token-1") (str "key") session
unfolding get_stored_token ◌==◌ split_token_parts split check_token_cache is_expired ttl_duration
    wrap64 scale
get_stored_token-Accepts_example =
    get_stored_token-Accepts ann_env five_seconds (str "token-1:key") [] session refl

get_stored_token-cached_test :
    get_stored_token ann_env five_seconds (str "token-1" ++ b':' ∷ str "key") []
    ≡ (found session, tokens_by_key (str "key") ∷ [])
unfolding ◌==◌ is_expired ttl_duration scale wrap64
get_stored_token-cached_test =
    get_stored_token-cached ann_env five_seconds session []
      (refl, (refl, (refl, (refl, (refl, (refl, (refl, tt))))))) (refl, (refl, (refl, tt))) refl
      refl refl refl

ensure_user-check_user_cache_example :
    ensure_user empty_env as_is (str "local.ns.eve") (str "Eve") []
    ≡ (ok zero_user, users_by_principal (str "local.ns.eve") ∷ [])
unfolding check_user_cache
ensure_user-check_user_cache_example =
    ensure_user-check_user_cache empty_env as_is (str "local.ns.eve") (str "Eve") []

check_labels-last_item_test : (check_labels ann_env as_is (str "local.ns.ann") []).0 ≡ ok (some bob)
unfolding contains_string ◌==◌
check_labels-last_item_test =
    check_labels-last_item ann_env as_is (str "local.ns.ann") [] ann (bob ∷ []) [] refl tt refl
      (refl, tt)

init_cube_admin-swallows_test : init_cube_admin ann_env as_is (ok (str "hash")) [] ≡ (
  ended none,
  create_user kube_system (cube_admin as_is (str "hash"))
      ∷ get_user kube_system (str "cube-admin")
      ∷ [],
)
init_cube_admin-swallows_test =
    init_cube_admin-swallows ann_env as_is (str "hash") [] not_found (other []) refl refl refl refl

check_access-absent_example : (check_access empty_env (logged_in ann) []).0 ≡ (true, none)
check_access-absent_example = check_access-absent empty_env (logged_in ann) [] refl refl

authenticate_user-LoggedIn_test :
    LoggedIn ann_env any_password (str "ann") (str "pw") [] (logged_in ann)
unfolding authenticate_user check_access check_user_cache check_principal_cache ◌>>=◌ ◌==◌
authenticate_user-LoggedIn_test =
    authenticate_user-LoggedIn ann_env wrapping any_password (str "ann") (str "pw") [] refl

authenticate_user-unknown_example :
    authenticate_user empty_env wrapping any_password (str "eve") (str "pw") []
    ≡ (nobody none, users_by_username (str "eve") ∷ [])
authenticate_user-unknown_example =
    authenticate_user-unknown empty_env wrapping any_password (str "eve") (str "pw") [] refl

search_principals_dedupe-with_prefix_example :
    (search_principals_dedupe search_env (str "an") (str "user") session [] []).0
    ≡ ok (not_from_others session [] (with_prefix (str "an") (ann ∷ bob ∷ [])))
search_principals_dedupe-with_prefix_example =
    search_principals_dedupe-with_prefix search_env (str "an") session [] (ann ∷ bob ∷ []) []
      (omega arith) refl refl

search_principals_dedupe-short_test :
    (search_principals_dedupe short_env (str "a") (str "user") session [] []).0 ≡ ok []
search_principals_dedupe-short_test =
    search_principals_dedupe-short short_env (str "a") (str "user") session [] (ann ∷ bob ∷ []) []
      (omega arith) refl

create_or_update_token-MadeFor_example :
    MadeFor ann_env five_seconds session session []
      (create_or_update_token ann_env five_seconds session []).1
unfolding create_or_update_token generate_token ◌==◌
create_or_update_token-MadeFor_example =
    create_or_update_token-MadeFor ann_env five_seconds session session [] refl

create_login_token-Proven_example :
    (user : User) × (ann_env.users_found (users_by_username (str "ann") ∷ []) ≡ ok (user ∷ []))
    × (any_password user.password (str "pw") ≡ none)
unfolding create_login_token authenticate_user check_access check_user_cache check_principal_cache
    ensure_user new_login_token create_or_update_token generate_token get_auth_provider_name split
    own_principal_id last_own has_prefix to_principal ◌>>=◌ ◌==◌
create_login_token-Proven_example =
    create_login_token-Proven ann_env five_seconds wrapping codecs [] form
      (record { username = str "ann"; password = str "pw" }) [] session (str "cookie") refl refl
      refl refl

create_login_token-unknown_example :
    create_login_token empty_env five_seconds wrapping codecs (ok []) []
    ≡ (crashed, sign_token (pos 6000) ∷ users_by_principal [] ∷ users_by_username (str "ann") ∷ [])
unfolding ◌==◌
create_login_token-unknown_example =
    create_login_token-unknown empty_env five_seconds wrapping codecs [] (str "key") form
      (record { username = str "ann"; password = str "pw" }) [] refl refl refl refl refl refl

purge-deleting_example :
    (purge ann_env five_seconds []).1
    ≡ deleting (expired_tokens five_seconds (session ∷ old ∷ [])) (list_tokens ∷ [])
purge-deleting_example = purge-deleting ann_env five_seconds (session ∷ old ∷ []) [] refl

user_crd_deploy-Installed_example :
    Installed installed_env as_is
      (ok (str "hash"))
      []
      (user_crd_deploy installed_env as_is (ok (str "hash")) []).1
unfolding user_crd_deploy init_cube_admin ◌>>=◌
user_crd_deploy-Installed_example =
    user_crd_deploy-Installed installed_env as_is (ok (str "hash")) [] refl
