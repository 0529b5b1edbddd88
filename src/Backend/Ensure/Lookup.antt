-- ===== src/Backend/Ensure/Lookup.antt =====
-- What EnsureUser, checkLabels and InitCubeAdmin come to.
use cube_apiserver.Prelude.{
  Str, str, Bool, true, false, Option, none, some, List, [], ◌∷◌, ◌++◌, ◌≡◌, refl, arith, All,
}
use cube_apiserver.Base.Effect.{◌>>=◌}
use cube_apiserver.Base.Errors.{Err, is_already_exists, Result, ok, err}
use cube_apiserver.Types.Auth.{User}
use cube_apiserver.Util.{contains_string}
use cube_apiserver.Backend.Calls.{Event, users_by_principal, list_users, get_user, create_user, Env}
use cube_apiserver.Backend.Caches.{check_user_cache}
use cube_apiserver.Backend.Ensure.{
  match_loop, pointed_at, matched_in, last_item, label_of, hashed_name, kube_system, check_labels,
  ensure_user, unless_found, ended, cube_admin, reported, store_admin, init_cube_admin,
}

abbrev pub result_of : User × Option Err → Result User
result_of (u, none) = ok u
result_of (u, some e) = err e

-- EnsureUser is the lookup in the cache: it never asks the API and never creates a user, and where
-- the cache has no user it answers the zero user without an error.
pub ensure_user-check_user_cache :
    (env : Env) (encode_base32 : Str → Str) (name display : Str) (h : List Event)
    → ensure_user env encode_base32 name display h
      ≡ (result_of (check_user_cache env name h).0, users_by_principal name ∷ h)
unfolding ensure_user check_user_cache ◌>>=◌ unless_found
ensure_user-check_user_cache env encode_base32 name display h = ground arith

-- No item of the list has the identifier.
abbrev pub Without : Str → List User → Type 0
Without name = All λ u. contains_string u.principal_ids name ≡ false

match_loop-Without :
    (name : Str) (users : List User) (matched : Bool)
    → Without name users
    → match_loop name users matched ≡ ok matched
unfolding match_loop
match_loop-Without name [] matched w = refl
match_loop-Without name (u ∷ users) matched w =
    ground (arith, match_loop-Without name users matched w.1)

match_loop-one :
    (name : Str) (before : List User) (u : User) (after : List User)
    → Without name before
    → contains_string u.principal_ids name ≡ true
    → Without name after
    → match_loop name (before ++ u ∷ after) false ≡ ok true
unfolding match_loop
match_loop-one name [] u after wb hu wa = ground (arith, match_loop-Without name after true wa)
match_loop-one name (v ∷ before) u after wb hu wa =
    ground (arith, match_loop-one name before u after wb.1 hu wa)

pointed_at-append :
    (before : List User) (u : User) (after : List User)
    → pointed_at (before ++ u ∷ after) true ≡ some (last_item u after)
unfolding pointed_at
pointed_at-append [] u after = refl
pointed_at-append (v ∷ []) u after = refl
pointed_at-append (v ∷ w ∷ before) u after = pointed_at-append (w ∷ before) u after

-- Where exactly one listed user has the identifier, the answer is the last user of the list,
-- whether or not that is the one.
pub check_labels-last_item :
    (env : Env) (encode_base32 : Str → Str) (name : Str) (before : List User) (u : User)
    (after : List User) (h : List Event)
    → env.users_listed (list_users (label_of encode_base32 name ++ (str "=" ++ hashed_name)) ∷ h)
      ≡ ok (before ++ u ∷ after)
    → Without name before
    → contains_string u.principal_ids name ≡ true
    → Without name after
    → (check_labels env encode_base32 name h).0 ≡ ok (some (last_item u after))
unfolding check_labels matched_in ◌>>=◌
check_labels-last_item env encode_base32 name before u after h listed wb hu wa =
    rw (listed, match_loop-one name before u after wb hu wa, pointed_at-append before u after)

-- Where the administrator cannot be read and its creation fails, whatever the two errors but
-- "already exists", the answer is that there was no error, after one attempt to create it.
pub init_cube_admin-swallows :
    (env : Env) (encode_base32 : Str → Str) (hash : Str) (h : List Event) (e d : Err)
    → env.user_gotten (get_user kube_system (str "cube-admin") ∷ h) ≡ err e
    → is_already_exists e ≡ false
    → env.user_created (
        create_user kube_system (cube_admin encode_base32 hash)
        ∷ get_user kube_system (str "cube-admin")
        ∷ h)
      ≡ err d
    → is_already_exists d ≡ false
    → init_cube_admin env encode_base32 (ok hash) h ≡ (
      ended none,
      create_user kube_system (cube_admin encode_base32 hash)
          ∷ get_user kube_system (str "cube-admin")
          ∷ h,
    )
unfolding init_cube_admin store_admin reported ◌>>=◌
init_cube_admin-swallows env encode_base32 hash h e d gotten he created hd =
    rw (gotten, he, created, hd)
