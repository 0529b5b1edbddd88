-- ===== src/Backend/Calls.antt =====
-- The calls that the backend makes for logins and tokens, and where their answers come from.
use cube_apiserver.Prelude.{Str, Option, none, some, List}
use cube_apiserver.Base.Effect.{Flow, pure, give_back}
use cube_apiserver.Base.Errors.{Err, Result, ok, err}
use cube_apiserver.Base.Int.{ℤ}
use cube_apiserver.Types.Auth.{User, Principal, Token}

pub data Scope : Type 0 where
  namespace_scoped cluster_scoped : Scope

pub record Crd : Type 0 where
  pub name : Str
  pub labels : List (Str × Str)
  pub group : Str
  pub version : Str
  pub scope : Scope
  pub plural : Str
  pub kind : Str
  pub list_kind : Str
  pub singular : Str
  pub short_names : List Str

pub data Event : Type 0 where
  create_crd : Crd → Event
  -- ByIndex of the informers' caches
  users_by_username users_by_principal users_by_search principals_by_id tokens_by_key : Str → Event
  -- the listers, and the API
  list_cached_users list_tokens : Event
  list_users : Str → Event
  get_user get_token : Str → Str → Event
  create_user update_user : Str → User → Event
  create_token update_token : Str → Token → Event
  delete_token : Str → Str → Event
  sign_token : ℤ → Event

-- The answers, each to the newest call of the history.
pub record Env : Type 0 where
  pub users_found : List Event → Result (List User)
  pub principals_found : List Event → Result (List Principal)
  pub tokens_found : List Event → Result (List Token)
  pub cached_users : List Event → Result (List User)
  pub tokens_listed : List Event → Result (List Token)
  pub users_listed : List Event → Result (List User)
  pub user_gotten : List Event → Result User
  pub token_gotten : List Event → Result Token
  pub user_created : List Event → Result User
  pub user_updated : List Event → Result User
  pub token_created : List Event → Result Token
  pub token_updated : List Event → Result Token
  pub token_deleted : List Event → Result (Unit {0})
  -- util.GenerateToken: a JWT that is signed by the server's key
  pub token_signed : List Event → Result Str
  pub crd_created : List Event → Result Crd

-- `if err != nil { return ... }`
abbrev pub check {ℓ} : {R : Type ℓ} → Option Err → (Err → R) → Flow Event R (Unit {0})
check none f = pure tt
check (some e) f = give_back (f e)

-- The same for a pair of a value and an error.
abbrev pub need {ℓ κ} : {R : Type ℓ} {A : Type κ} → Result A → (Err → R) → Flow Event R A
need (ok a) f = pure a
need (err e) f = give_back (f e)
