-- ===== src/Controller/Users/Steady.antt =====
-- The fixed point of the reconciler: a user whose objects are all there.
use cube_apiserver.Prelude.{Str, true, List, [], ◌∷◌, ◌≡◌, refl, arith}
use cube_apiserver.Base.Errors.{ok}
use cube_apiserver.Base.Effect.{◌>>=◌, run}
use cube_apiserver.Types.Meta.{Owners}
use cube_apiserver.Types.Auth.{User, Principal}
use cube_apiserver.Controller.Common.{match_principal_id}
use cube_apiserver.Controller.Queue.{done}
use cube_apiserver.Types.Rbac.{Role, Binding}
use cube_apiserver.Controller.Users.Calls.{
  Event, principals_by_id, roles_by_name, bindings_by_name, update_user, note_synced, Env,
}
use cube_apiserver.Controller.Users.{sync_user}
use cube_apiserver.Controller.Users.Objects.{wanted_principal, holds_id}

-- The loop of updateUser and matchPrincipalID answer alike.
pub holds_id-match : (ids : List Str) (name : Str) → holds_id ids name ≡ match_principal_id ids name
unfolding holds_id match_principal_id
holds_id-match [] name = refl
holds_id-match (id ∷ ids) name = ground (arith, holds_id-match ids name)

-- The caches show one principal, one role and one binding of the user, all of them the user's own,
-- and the user names the principal; the update of the user succeeds.
pub record IsSettled (owners : Owners) (env : Env) (user : User) (h : List Event) : Type 0 where
  pub principal : Principal
  pub role : Role
  pub binding : Binding
  pub sent : User
  pub principal_found :
      env.principals_found (principals_by_id (wanted_principal user).name ∷ h) ≡ ok (principal ∷ [])
  pub role_found :
      env.roles_found (roles_by_name user.name ∷ principals_by_id (wanted_principal user).name ∷ h)
      ≡ ok (role ∷ [])
  pub binding_found :
      env.bindings_found (
        bindings_by_name user.name
        ∷ roles_by_name user.name
        ∷ principals_by_id (wanted_principal user).name
        ∷ h)
      ≡ ok (binding ∷ [])
  pub owns_principal : owners.is_controlled_by principal.metadata user.metadata ≡ true
  pub owns_role : owners.is_controlled_by role.metadata user.metadata ≡ true
  pub owns_binding : owners.is_controlled_by binding.metadata user.metadata ≡ true
  pub named : match_principal_id user.principal_ids principal.name ≡ true
  pub written :
      env.user_updated (
        update_user user.namespace user
        ∷ bindings_by_name user.name
        ∷ roles_by_name user.name
        ∷ principals_by_id (wanted_principal user).name
        ∷ h)
      ≡ ok sent

-- In that state a synchronisation succeeds, creates nothing, and writes the user back unchanged.
pub sync_user-settled :
    (owners : Owners) (env : Env) (user : User) (h : List Event)
    → IsSettled owners env user h
    → run (sync_user owners env user) h ≡ (
      done,
      note_synced user.name
          ∷ update_user user.namespace user
          ∷ bindings_by_name user.name
          ∷ roles_by_name user.name
          ∷ principals_by_id (wanted_principal user).name
          ∷ h,
    )
unfolding sync_user ◌>>=◌
sync_user-settled owners env user h s = rw (
  s.principal_found, s.owns_principal, s.named, s.role_found, s.owns_role, s.binding_found,
  s.owns_binding, holds_id-match, s.named, s.written,
)
