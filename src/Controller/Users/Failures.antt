-- ===== src/Controller/Users/Failures.antt =====
-- How a synchronisation fails when the caches are behind the cluster.
use cube_apiserver.Prelude.{Str, str, true, false, List, [], ◌∷◌, ◌≡◌, refl, ◌↔◌, arith}
use cube_apiserver.Base.Errors.{
  Err, already_exists, other, is_already_exists, Result, ok, err, value_or, tolerate,
}
use cube_apiserver.Base.Effect.{◌>>=◌, run, next, leave}
use cube_apiserver.Types.Meta.{Owners, zero_meta}
use cube_apiserver.Types.Auth.{User, Principal}
use cube_apiserver.Controller.Common.{match_principal_id}
use cube_apiserver.Controller.Queue.{try, present, failed, panicked}
use cube_apiserver.Types.Rbac.{Role}
use cube_apiserver.Controller.Users.Calls.{
  Event, principals_by_id, roles_by_name, get_role, create_role, create_namespace, create_principal,
  warn_exists, Env,
}
use cube_apiserver.Controller.Users.{
  user_message_resource_exists, find_role, take_role, generate_cluster_role, create_missing_role,
  sync_user,
}
use cube_apiserver.Controller.Users.Objects.{
  user_namespace, wanted_principal, owned_principal, role_of,
}

made_role-panics :
    (owners : Owners) (env : Env) (role : Str) (user : User) (x : Result Role) (h : List Event)
    → ((create_missing_role owners env role user x >>= λ r. try r >>= λ made. present made) h).0
      ≡ leave panicked
    → (r : Role) × (x ≡ ok r)
unfolding create_missing_role ◌>>=◌
made_role-panics owners env role user (ok r) h p = (r, refl)
made_role-panics owners env role user (err e) h p = ground arith

take_role-panics :
    (owners : Owners) (env : Env) (user : User) (rs : List Role) (h : List Event)
    → ((take_role owners env user rs h).0 ≡ leave panicked)
      ↔ ((rs ≡ []) × ((r : Role) × (env.role_gotten (get_role user.name ∷ h) ≡ ok r)))
unfolding take_role ◌>>=◌
take_role-panics owners env user [] h =
    (λ p. (refl, made_role-panics owners env (str "admin") user _ _ p), λ p. rw p.1.1)
take_role-panics owners env user (r ∷ []) h = (λ p. cc, λ p. cc p.0)
take_role-panics owners env user (_ ∷ _ ∷ _) h = (λ p. cc, λ p. cc p.0)

-- The search for the role panics exactly where the cache shows no role of the user's name and the
-- API has one: the result is then a nil role without an error, and its owner is read.
pub find_role-panics :
    (owners : Owners) (env : Env) (user : User) (h : List Event)
    → ((find_role owners env user h).0 ≡ leave panicked) ↔ (
        (value_or [] (env.roles_found (roles_by_name user.name ∷ h)) ≡ [])
        × ((r : Role) × (env.role_gotten (get_role user.name ∷ roles_by_name user.name ∷ h)
              ≡ ok r)))
unfolding find_role ◌>>=◌
find_role-panics owners env user h = take_role-panics owners env user _ _

-- A user whose principal is there and named, whose role the cache does not show yet and the API
-- has: the synchronisation crashes.
pub sync_user-stale_role :
    (owners : Owners) (env : Env) (user : User) (p : Principal) (r : Role) (h : List Event)
    → env.principals_found (principals_by_id (wanted_principal user).name ∷ h) ≡ ok (p ∷ [])
    → owners.is_controlled_by p.metadata user.metadata ≡ true
    → match_principal_id user.principal_ids p.name ≡ true
    → env.roles_found (roles_by_name user.name ∷ principals_by_id (wanted_principal user).name ∷ h)
      ≡ ok []
    → env.role_gotten (
        get_role user.name
        ∷ roles_by_name user.name
        ∷ principals_by_id (wanted_principal user).name
        ∷ h)
      ≡ ok r
    → (run (sync_user owners env user) h).0 ≡ panicked
unfolding sync_user ◌>>=◌
sync_user-stale_role owners env user p r h found owned named missing there =
    rw (found, owned, named, missing, there)

-- A principal that the cache does not show and that exists already, whoever its owner is: the
-- synchronisation reports a resource that the user does not manage, and ends with that error. What
-- it tests is the zero object that the client returns beside AlreadyExists.
pub sync_user-existing_principal :
    (owners : Owners) (env : Env) (user : User) (h : List Event)
    → let asked =
        create_namespace user_namespace ∷ principals_by_id (wanted_principal user).name ∷ h in
      let made =
        create_principal user.namespace (owned_principal owners user (wanted_principal user))
        ∷ asked in
      value_or [] (env.principals_found (principals_by_id (wanted_principal user).name ∷ h)) ≡ []
      → tolerate tt (env.namespace_created asked) ≡ ok tt
      → env.principal_created made ≡ err already_exists
      → run (sync_user owners env user) h
        ≡ (failed (other user_message_resource_exists), warn_exists user.name ∷ made)
unfolding sync_user ◌>>=◌
sync_user-existing_principal owners env user h missing ns exists =
    rw (missing, ns, exists, owners.uncontrolled zero_meta user.metadata refl)

-- The error of a failed Create of the role is lost: what is returned is the error of the Get.
pub generate_cluster_role-masks :
    (owners : Owners) (env : Env) (role : Str) (user : User) (h : List Event) (got made : Err)
    → env.role_gotten (get_role user.name ∷ h) ≡ err got
    → env.role_created (create_role (role_of owners role user) ∷ get_role user.name ∷ h) ≡ err made
    → is_already_exists got ≡ false
    → is_already_exists made ≡ false
    → (generate_cluster_role owners env role user h).0 ≡ next (err got)
unfolding generate_cluster_role ◌>>=◌
generate_cluster_role-masks owners env role user h got made eg em ng nm = rw (eg, ng, em, nm)
