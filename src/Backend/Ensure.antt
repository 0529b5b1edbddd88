-- ===== src/Backend/Ensure.antt =====
-- backend/user.go: EnsureUser, checkLabels and InitCubeAdmin.
pub mod Lookup
use cube_apiserver.Prelude.{
  Str, str, Bool, true, false, Option, none, some, List, [], ◌∷◌, ◌++◌, if◌then◌else◌, take,
}
use cube_apiserver.Base.Effect.{call, Flow, pure, give_back, ask, ◌>>=◌, ◌>>◌, run}
use cube_apiserver.Base.Errors.{Err, other, is_already_exists, Result, ok, err, error_of}
use cube_apiserver.Types.Meta.{zero_meta}
use cube_apiserver.Types.Auth.{User, zero_user}
use cube_apiserver.Util.{contains_string}
use cube_apiserver.Backend.Calls.{
  Event, list_users, get_user, create_user, update_user, Env, check, need,
}
use cube_apiserver.Backend.Caches.{check_user_cache, no_unique_user}

-- The loop of checkLabels: whether `match` has been set.
pub match_loop : Str → List User → Bool → Result Bool
match_loop name [] matched = ok matched
match_loop name (u ∷ users) matched =
    let after_match = match_loop name users true in
    let after_other = match_loop name users matched in
    if contains_string u.principal_ids name
    then if matched then err (other no_unique_user) else after_match
    else after_other

abbrev pub last_item : User → List User → User
last_item u [] = u
last_item u (v ∷ users) = last_item v users

-- `match = &u` takes the address of the loop's variable, of which there is one for all rounds (Go
-- before 1.22): after the loop it holds the last item.
pub pointed_at : List User → Bool → Option User
pointed_at [] matched = none
pointed_at (u ∷ users) matched = if matched then some (last_item u users) else none

-- A label is at most 63 bytes long.
abbrev pub label_of : (Str → Str) → Str → Str
label_of encode_base32 name = take 63 (encode_base32 name)

abbrev pub hashed_name : Str
hashed_name = str "hashed-principal-name"

abbrev pub kube_system : Str
kube_system = str "kube-system"

pub matched_in : List User → Result Bool → Result (Option User)
unfolding pointed_at
matched_in users (ok matched) = ok (pointed_at users matched)
matched_in users (err e) = err e

-- What InitCubeAdmin comes to: an end of the process, or an error.
pub data AdminOutcome : Type 0 where
  fatal : Err → AdminOutcome
  ended : Option Err → AdminOutcome

module _ (encode_base32 : Str → Str) where
  -- The user that EnsureUser creates.
  abbrev pub new_user : Str → Str → User
  new_user name display = record zero_user {
    metadata = record zero_meta {
      generate_name = str "cube-";
      labels = (label_of encode_base32 name, hashed_name) ∷ [];
    };
    display_name = display;
    principal_ids = name ∷ [];
  }

  -- The user that InitCubeAdmin stores.
  abbrev pub cube_admin : Str → User
  cube_admin hash = record zero_user {
    metadata = record zero_meta {
      generate_name = str "cube-";
      name = str "cube-admin";
      namespace = kube_system;
      labels = (label_of encode_base32 (str "cube-admin"), hashed_name) ∷ [];
    };
    display_name = str "admin";
    description = str "CUBE admin user, has the highest authority";
    username = str "admin";
    password = hash;
    principal_ids = str "local.kube-system.cube-admin" ∷ [];
  }

-- base32.HexEncoding without padding, and the hash of a password (bcrypt), are not read here.
module _ (env : Env) (encode_base32 : Str → Str) where
  -- checkLabels
  unfoldable pub check_labels : Str → List Event → Result (Option User) × List Event
  unfolding matched_in match_loop
  check_labels name h =
      run
        (do
          users ←
              ask (list_users (label_of encode_base32 name ++ (str "=" ++ hashed_name)))
                env.users_listed
          items ← need users (λ e. err e)
          pure (matched_in items (match_loop name items false)))
        h

  -- A pointer that is not nil is the answer.
  pub unless_found : Option User → Flow Event (Result User) (Unit {0})
  unless_found none = pure tt
  unless_found (some u) = give_back (ok u)

  -- EnsureUser
  unfoldable pub ensure_user : Str → Str → List Event → Result User × List Event
  unfolding unless_found
  ensure_user name display h =
      run
        (do
          cached ← call (check_user_cache env name)
          check cached.1 (λ e. err e)
          unless_found (some cached.0)
          labelled ← call (check_labels name)
          found ← need labelled (λ e. err e)
          unless_found found
          ask (create_user kube_system (new_user encode_base32 name display)) env.user_created)
        h

  -- Only "already exists" is handed on.
  pub reported : Result User → Option Err
  reported (ok u) = none
  reported (err e) = if is_already_exists e then some e else none

  pub store_admin : User → Result User → Flow Event AdminOutcome AdminOutcome
  unfolding reported
  store_admin admin (ok u) = pure (ended none)
  store_admin admin (err e) =
      if is_already_exists e
      then (do r ← ask (update_user kube_system admin) env.user_updated; pure (ended (reported r)))
      else (do r ← ask (create_user kube_system admin) env.user_created; pure (ended (reported r)))

  -- InitCubeAdmin, with the result of util.HashPasswordString("admin").
  unfoldable pub init_cube_admin : Result Str → List Event → AdminOutcome × List Event
  unfolding store_admin
  init_cube_admin hashed h =
      run
        (do
          hash ← need hashed fatal
          found ← ask (get_user kube_system (str "cube-admin")) env.user_gotten
          store_admin (cube_admin encode_base32 hash) found)
        h
