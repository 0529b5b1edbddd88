-- ===== src/Backend/Caches.antt =====
-- backend/user.go: CheckUserCache, CheckPrincipalCache and CheckTokenCache. A result is a pointer
-- that is never nil, beside an error.
use cube_apiserver.Prelude.{Str, str, Option, none, some, List, [], ◌∷◌}
use cube_apiserver.Base.Errors.{Err, other, Result, ok, err}
use cube_apiserver.Types.Auth.{User, Principal, Token, zero_user, zero_principal, zero_token}
use cube_apiserver.Backend.Calls.{Event, users_by_principal, principals_by_id, tokens_by_key, Env}

abbrev pub no_unique_user : Str
no_unique_user = str "RancherCUBE: can't find unique user for principal %v"

abbrev pub no_unique_principal : Str
no_unique_principal = str "RancherCUBE: can't find unique principal %v"

abbrev pub no_unique_token : Str
no_unique_token = str "RancherCUBE: can't find unique token key"

-- The one object that an index returns, or the zero object.
abbrev pub unique {ℓ} : {A : Type ℓ} → A → Str → Result (List A) → A × Option Err
unique zero message (err e) = (zero, some e)
unique zero message (ok []) = (zero, none)
unique zero message (ok (a ∷ [])) = (a, none)
unique zero message (ok (_ ∷ _ ∷ _)) = (zero, some (other message))

module _ (env : Env) where
  -- CheckUserCache
  unfoldable pub check_user_cache : Str → List Event → (User × Option Err) × List Event
  check_user_cache name h = (
    unique zero_user no_unique_user (env.users_found (users_by_principal name ∷ h)),
    users_by_principal name ∷ h,
  )

  -- CheckPrincipalCache
  unfoldable pub check_principal_cache : Str → List Event → (Principal × Option Err) × List Event
  check_principal_cache name h = (
    unique zero_principal no_unique_principal (env.principals_found (principals_by_id name ∷ h)),
    principals_by_id name ∷ h,
  )

  -- CheckTokenCache
  unfoldable pub check_token_cache : Str → List Event → (Token × Option Err) × List Event
  check_token_cache key h = (
    unique zero_token no_unique_token (env.tokens_found (tokens_by_key key ∷ h)),
    tokens_by_key key ∷ h,
  )
