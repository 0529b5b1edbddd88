-- ===== src/Controller/Users/Writes.antt =====
-- What a synchronisation of one user may write to the cluster.
pub mod Quiet
use cube_apiserver.Prelude.{
  Str, false, none, List, [], ◌∷◌, ◌++◌, map, ◌≡◌, refl, ◌⊎◌, inl, inr, Bool-cases,
}
use cube_apiserver.Base.Errors.{Result, ok, err}
use cube_apiserver.Base.Effect.{Flow, ◌>>=◌}
use cube_apiserver.Base.Trace.{Since, here, more, Since-trans, Adds, Adds-pure, adds_rules}
use cube_apiserver.Types.Meta.{ObjectMeta, Owners}
use cube_apiserver.Types.Auth.{User, Principal}
use cube_apiserver.Controller.Common.{get_local_principal_id, match_principal_id}
use cube_apiserver.Controller.Common.Principals.{to_principal_fields}
use cube_apiserver.Controller.Queue.Steps.{handler_rules}
use cube_apiserver.Controller.Queue.{Outcome}
use cube_apiserver.Types.Rbac.{Role, Binding, Subject}
use cube_apiserver.Controller.Users.Calls.{
  Event, get_user, create_namespace, create_principal, update_principal, update_user, create_role,
  create_binding, queue_get, queue_forget, queue_done, queue_add, Env,
}
use cube_apiserver.Controller.Users.{
  ensure_namespace_exists, create_in_namespace, create_principal_of, update_principal_of,
  create_missing_role, generate_cluster_role, create_missing_binding, generate_cluster_role_binding,
  check_owner, take_principal, find_principal, refresh_principal, take_role, find_role,
  take_binding, find_binding, finish, sync_user, sync_found, sync_key, sync_handler,
}
use cube_apiserver.Controller.Users.Objects.{
  user_namespace, owned_by, owned_principal, moved_principal, holds_id, updated_user,
  wanted_principal,
}

-- What the code may do for `user`. It may create the namespace of the principals, which belongs to
-- no user. The principal, the role and the binding that it creates have the user as their one owner;
-- the role and the binding have the user's name, and the binding grants that role to that user
-- alone. A principal that it updates gets the user as its one owner and the user's namespace, and is
-- none that the user names. The user is written back as it is, or with one more identifier. The
-- queue is left alone.
abbrev pub Permitted : Owners → User → Event → Type 0
Permitted _ user (create_namespace ns) = ns ≡ user_namespace
Permitted owners user (create_principal ns p) =
    (ns ≡ user.namespace)
    × (p.namespace ≡ user.namespace)
    × (p.name ≡ get_local_principal_id user)
    × (p.metadata.owner_references ≡ owned_by owners user)
Permitted owners user (update_principal ns p) =
    (ns ≡ user.namespace)
    × (p.namespace ≡ user.namespace)
    × (match_principal_id user.principal_ids p.name ≡ false)
    × (p.metadata.owner_references ≡ owned_by owners user)
Permitted owners user (create_role r) =
    (r.metadata.name ≡ user.name) × (r.metadata.owner_references ≡ owned_by owners user)
Permitted owners user (create_binding b) =
    (b.metadata.name ≡ user.name)
    × (b.metadata.owner_references ≡ owned_by owners user)
    × (b.role_ref.name ≡ user.name)
    × (map (λ (s : Subject). s.name) b.subjects ≡ user.name ∷ [])
Permitted _ user (update_user ns u) =
    (ns ≡ user.namespace)
    × ((u ≡ user)
        ⊎ ((id : Str) × (u ≡ record user { principal_ids = user.principal_ids ++ id ∷ [] })))
Permitted _ user queue_get = ⊥
Permitted _ user (queue_forget i) = ⊥
Permitted _ user (queue_done i) = ⊥
Permitted _ user (queue_add k) = ⊥
Permitted _ user _ = Unit

updated_user_cases :
    (user : User) (name : Str)
    → (updated_user user name ≡ user)
      ⊎ ((id : Str) × (updated_user user name
            ≡ record user { principal_ids = user.principal_ids ++ id ∷ [] }))
unfolding updated_user
updated_user_cases user name = elim (Bool-cases (holds_id user.principal_ids name)) [
  | inl e ↦ inl (rw e)
  | inr e ↦ inr (name, rw e)
]

wanted_principal-name : (user : User) → (wanted_principal user).name ≡ get_local_principal_id user
unfolding wanted_principal
wanted_principal-name user = (to_principal_fields _ _ _ _ _ none).0

wanted_principal-namespace : (user : User) → (wanted_principal user).namespace ≡ user.namespace
unfolding wanted_principal
wanted_principal-namespace user = (to_principal_fields _ _ _ _ _ none).1

module _ (owners : Owners) (env : Env) (user : User) where
  abbrev Fits {ℓ} : {A : Type ℓ} → Flow Event Outcome A → Type 0
  Fits m = Adds (Permitted owners user) m

  check_owner-Fits : (m : ObjectMeta) → Fits (check_owner owners user m)
  unfolding check_owner
  check_owner-Fits m = search handler_rules

  sent_principal-Permitted :
      Permitted owners user
        (create_principal user.namespace (owned_principal owners user (wanted_principal user)))
  sent_principal-Permitted =
      (refl, wanted_principal-namespace user, wanted_principal-name user, refl)

  sent_update-Permitted :
      (p : Principal)
      → match_principal_id user.principal_ids p.name ≡ false
      → Permitted owners user (update_principal user.namespace (moved_principal owners user p))
  sent_update-Permitted p missing = (refl, refl, missing, refl)

  create_in_namespace-Fits :
      (r : Result (Unit {0})) → Fits (create_in_namespace owners env user (wanted_principal user) r)
  unfolding create_in_namespace
  create_in_namespace-Fits (err e) = Adds-pure _
  create_in_namespace-Fits (ok u) = search (adds_rules, sent_principal-Permitted)

  create_principal_of-Fits : Fits (create_principal_of owners env user (wanted_principal user))
  unfolding create_principal_of ensure_namespace_exists
  create_principal_of-Fits = search (adds_rules, create_in_namespace-Fits)

  update_principal_of-Fits :
      (p : Principal)
      → match_principal_id user.principal_ids p.name ≡ false
      → Fits (update_principal_of owners env user p)
  unfolding update_principal_of
  update_principal_of-Fits p missing = search (adds_rules, sent_update-Permitted)

  create_missing_role-Fits :
      (role : Str) (r : Result Role) → Fits (create_missing_role owners env role user r)
  unfolding create_missing_role
  create_missing_role-Fits role (ok r) = Adds-pure _
  create_missing_role-Fits role (err e) = search adds_rules

  create_missing_binding-Fits :
      (r : Result Binding) → Fits (create_missing_binding owners env user r)
  unfolding create_missing_binding
  create_missing_binding-Fits (ok r) = Adds-pure _
  create_missing_binding-Fits (err e) = search adds_rules

  ruleset fits_rules = (
    handler_rules, check_owner-Fits, create_principal_of-Fits, update_principal_of-Fits,
    create_missing_role-Fits, create_missing_binding-Fits,
  )

  take_principal-Fits : (ps : List Principal) → Fits (take_principal owners env user ps)
  unfolding take_principal
  take_principal-Fits [] = search fits_rules
  take_principal-Fits (p ∷ []) = search fits_rules
  take_principal-Fits (_ ∷ _ ∷ _) = search fits_rules

  refresh_principal-Fits : (p : Principal) → Fits (refresh_principal owners env user p)
  unfolding refresh_principal
  refresh_principal-Fits p = search fits_rules

  take_role-Fits : (rs : List Role) → Fits (take_role owners env user rs)
  unfolding take_role generate_cluster_role
  take_role-Fits [] = search fits_rules depth 8
  take_role-Fits (r ∷ []) = search fits_rules
  take_role-Fits (_ ∷ _ ∷ _) = search fits_rules

  take_binding-Fits : (bs : List Binding) → Fits (take_binding owners env user bs)
  unfolding take_binding generate_cluster_role_binding
  take_binding-Fits [] = search fits_rules depth 8
  take_binding-Fits (b ∷ []) = search fits_rules
  take_binding-Fits (_ ∷ _ ∷ _) = search fits_rules

  sent_user-Permitted :
      (name : Str) → Permitted owners user (update_user user.namespace (updated_user user name))
  sent_user-Permitted name = (refl, updated_user_cases user name)

  finish-Fits : (p : Principal) → Fits (finish owners env user p)
  unfolding finish
  finish-Fits p = search (fits_rules, sent_user-Permitted)

  find_principal-Fits : Fits (find_principal owners env user)
  unfolding find_principal
  find_principal-Fits = search (fits_rules, take_principal-Fits)

  find_role-Fits : Fits (find_role owners env user)
  unfolding find_role
  find_role-Fits = search (fits_rules, take_role-Fits)

  find_binding-Fits : Fits (find_binding owners env user)
  unfolding find_binding
  find_binding-Fits = search (fits_rules, take_binding-Fits)

  ruleset stage_rules = (
    fits_rules, find_principal-Fits, refresh_principal-Fits, find_role-Fits, find_binding-Fits,
    finish-Fits,
  )

  -- Every call of the synchronisation of a user is permitted for that user.
  sync_user-Fits : Fits (sync_user owners env user)
  unfolding sync_user
  sync_user-Fits = search stage_rules depth 9

  sync_found-Fits : Fits (sync_found owners env (ok user))
  unfolding sync_found
  sync_found-Fits = search (stage_rules, sync_user-Fits)

-- The calls that a synchronisation of the user that the lister returns makes are permitted for that
-- user, on every path, failing ones included. Of the writes to the cluster these are: the creation
-- of the namespace kube-system; of a principal in the user's namespace under the local identifier,
-- and of a role and a binding under the user's name, each with the user as its one owner, the
-- binding for that role and that user alone; the update of a principal that the user does not name,
-- in the user's namespace, whose one owner is then the user; and the update of the user as it is or
-- with one more identifier. It makes no call of the work queue.
pub sync_handler-Permitted :
    (owners : Owners) (env : Env) (key namespace name : Str) (user : User) (h : List Event)
    → env.split_key key ≡ ok (namespace, name)
    → env.user_gotten (get_user namespace name ∷ h) ≡ ok user
    → Since (Permitted owners user) h (sync_handler owners env key h).1
unfolding sync_handler sync_key ◌>>=◌
sync_handler-Permitted owners env key namespace name user h split found =
    rw (split, found)
      (Since-trans (more tt here)
        ((sync_found-Fits owners env user).at (get_user namespace name ∷ h)))
