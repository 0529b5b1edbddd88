-- ===== src/Controller/Users.antt =====
-- controller/user_controller.go: the reconciler of users.
pub mod Calls
pub mod Objects
pub mod Writes
pub mod Found
pub mod Sync
pub mod Steady
pub mod Failures
pub mod Worker
pub mod Notices
mod Examples
use cube_apiserver.Prelude.{
  ℕ, Str, str, Bool, true, false, ◌&&◌, ◌||◌, Option, none, some, List, [], ◌∷◌, ◌++◌, ◌==◌,
  if◌then◌else◌, not,
}
use cube_apiserver.Base.Errors.{
  Err, other, is_not_found, is_already_exists, Result, ok, err, value_or, tolerate,
}
use cube_apiserver.Base.Effect.{Flow, pure, give_back, ask, emit, ◌>>=◌, ◌>>◌, unless, run}
use cube_apiserver.Types.Meta.{ObjectMeta, OwnerReference, GroupVersionKind, Owners, zero_meta}
use cube_apiserver.Types.Auth.{User, Principal, zero_principal}
use cube_apiserver.Controller.Common.{to_principal, get_local_principal_id, match_principal_id}
use cube_apiserver.Controller.Queue.{try, present, Outcome, done, failed, panicked}
use Objects.{
  user_namespace, user_gvk, impersonate, base_rules, admin_rule, role_rules, holds_id, updated_user,
  wanted_principal, owned_by, owned_principal, moved_principal, role_of, binding_of,
}
use cube_apiserver.Types.Rbac.{Role, Binding, PolicyRule, Subject, RoleRef, zero_role, zero_binding}
use Calls.{
  Event, get_user, principals_by_id, roles_by_name, bindings_by_name, create_namespace,
  create_principal, update_principal, update_user, get_role, create_role, get_binding,
  create_binding, warn_exists, note_synced, report, Env,
}

-- The texts of the errors that the handler makes; their arguments are not kept.
abbrev pub user_message_resource_exists : Str
user_message_resource_exists = str "Resource %q already exists and is not managed by User"

abbrev pub no_unique_principal : Str
no_unique_principal = str "can't find unique principal for user %v"

abbrev pub no_unique_role : Str
no_unique_role = str "can't find unique clusterRoles for user %v"

abbrev pub no_unique_binding : Str
no_unique_binding = str "can't find unique clusterRoleBindings for user %v"

-- The result of generateClusterRole and generateClusterRoleBinding after the Create: the error of a
-- failed one is dropped for that of the Get before.
abbrev pub made_or {ℓ} : {A : Type ℓ} → Err → Result A → Result (Option A)
made_or e (ok a) = ok (some a)
made_or e (err _) = err e

module _ (owners : Owners) where
  open owners use {is_controlled_by}

  -- An object of another owner is reported, and ends the handler.
  pub check_owner : User → ObjectMeta → Flow Event Outcome (Unit {0})
  check_owner user object =
      if is_controlled_by object user.metadata
      then pure tt
      else do emit (warn_exists user.name); give_back (failed (other user_message_resource_exists))

module _ (owners : Owners) (env : Env) where
  abbrev pub Sync : Type 0 → Type 0
  Sync A = Flow Event Outcome A

  -- ensureNamespaceExists
  ensure_namespace_exists : Sync (Result (Unit {0}))
  ensure_namespace_exists = ask (create_namespace user_namespace) env.namespace_created

  create_in_namespace : User → Principal → Result (Unit {0}) → Sync (Result Principal)
  create_in_namespace user logic (err e) = pure (err e)
  create_in_namespace user logic (ok _) = do
    r ←
        ask (create_principal user.namespace (owned_principal owners user logic))
          env.principal_created
    pure (tolerate zero_principal r)

  -- createPrincipal
  pub create_principal_of : User → Principal → Sync (Result Principal)
  unfolding ensure_namespace_exists create_in_namespace
  create_principal_of user logic = do
    ns ← ensure_namespace_exists
    create_in_namespace user logic (tolerate tt ns)

  -- updatePrincipal
  pub update_principal_of : User → Principal → Sync (Result Principal)
  update_principal_of user logic = do
    r ←
        ask (update_principal user.namespace (moved_principal owners user logic))
          env.principal_updated
    pure (tolerate zero_principal r)

  -- Where the Get finds the role, the result is a nil role and no error.
  create_missing_role : Str → User → Result Role → Sync (Result (Option Role))
  create_missing_role role user (ok _) = pure (ok none)
  create_missing_role role user (err e) = if is_already_exists e then pure (err e) else do
    created ← ask (create_role (role_of owners role user)) env.role_created
    pure (made_or e (tolerate zero_role created))

  -- generateClusterRole
  pub generate_cluster_role : Str → User → Sync (Result (Option Role))
  unfolding create_missing_role role_rules
  generate_cluster_role role user = do
    found ← ask (get_role user.name) env.role_gotten
    create_missing_role role user found

  create_missing_binding : User → Result Binding → Sync (Result (Option Binding))
  create_missing_binding user (ok _) = pure (ok none)
  create_missing_binding user (err e) = if is_already_exists e then pure (err e) else do
    created ← ask (create_binding (binding_of owners user)) env.binding_created
    pure (made_or e (tolerate zero_binding created))

  -- generateClusterRoleBinding
  pub generate_cluster_role_binding : User → Sync (Result (Option Binding))
  unfolding create_missing_binding
  generate_cluster_role_binding user = do
    found ← ask (get_binding user.name) env.binding_gotten
    create_missing_binding user found

  -- By the number of principals that the index finds.
  take_principal : User → List Principal → Sync Principal
  unfolding create_principal_of
  take_principal user [] = do r ← create_principal_of user (wanted_principal user); try r
  take_principal user (p ∷ []) = pure p
  take_principal user (_ ∷ _ ∷ _) = give_back (failed (other no_unique_principal))

  pub find_principal : User → Sync Principal
  unfolding take_principal
  find_principal user = do
    found ← ask (principals_by_id (wanted_principal user).name) env.principals_found
    take_principal user (value_or [] found)

  -- The principal written again where the user does not name it.
  pub refresh_principal : User → Principal → Sync Principal
  unfolding update_principal_of
  refresh_principal user p =
      if match_principal_id user.principal_ids p.name
      then pure p
      else do r ← update_principal_of user p; try r

  take_role : User → List Role → Sync Role
  unfolding generate_cluster_role
  take_role user [] = do r ← generate_cluster_role (str "admin") user; made ← try r; present made
  take_role user (r ∷ []) = pure r
  take_role user (_ ∷ _ ∷ _) = give_back (failed (other no_unique_role))

  pub find_role : User → Sync Role
  unfolding take_role
  find_role user = do
    found ← ask (roles_by_name user.name) env.roles_found
    take_role user (value_or [] found)

  take_binding : User → List Binding → Sync Binding
  unfolding generate_cluster_role_binding
  take_binding user [] = do r ← generate_cluster_role_binding user; made ← try r; present made
  take_binding user (b ∷ []) = pure b
  take_binding user (_ ∷ _ ∷ _) = give_back (failed (other no_unique_binding))

  pub find_binding : User → Sync Binding
  unfolding take_binding
  find_binding user = do
    found ← ask (bindings_by_name user.name) env.bindings_found
    take_binding user (value_or [] found)

  -- updateUser, and the event of a success.
  pub finish : User → Principal → Sync Outcome
  unfolding updated_user
  finish user p = do
    r ← ask (update_user user.namespace (updated_user user p.name)) env.user_updated
    sent ← try r
    emit (note_synced user.name)
    pure done

  -- syncHandler from the user on.
  pub sync_user : User → Sync Outcome
  unfolding find_principal check_owner refresh_principal find_role find_binding finish
  sync_user user = do
    p ← find_principal user
    check_owner owners user p.metadata
    q ← refresh_principal user p
    role ← find_role user
    check_owner owners user role.metadata
    binding ← find_binding user
    check_owner owners user binding.metadata
    finish user q

  sync_found : Result User → Sync Outcome
  unfolding sync_user
  sync_found (err e) = if is_not_found e then (do emit report; pure done) else pure (failed e)
  sync_found (ok user) = if user.name == [] then (do emit report; pure done) else sync_user user

  sync_key : Result (Str × Str) → Sync Outcome
  unfolding sync_found
  sync_key (err _) = do emit report; pure done
  sync_key (ok (namespace, name)) = do
    found ← ask (get_user namespace name) env.user_gotten
    sync_found found

  -- syncHandler
  pub sync_handler : Str → List Event → Outcome × List Event
  unfolding sync_key
  sync_handler key h = run (sync_key (env.split_key key)) h
