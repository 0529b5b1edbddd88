-- ===== src/Backend/Crds.antt =====
-- The custom resource definitions that the backend installs: backend/user.go (UserCRDDeploy and
-- those it calls), backend/infra.go, backend/longhorn.go and backend/ranchervm.go, and the part of
-- app/apiserver.go that calls them.
pub mod Install
use cube_apiserver.Prelude.{
  Str, str, Bool, true, false, Option, none, some, List, [], ◌∷◌, ◌++◌, if◌then◌else◌,
}
use cube_apiserver.Base.Errors.{Err, is_already_exists, Result, ok, err}
use cube_apiserver.Backend.Calls.{
  Event, create_crd, Scope, namespace_scoped, cluster_scoped, Crd, Env,
}
use cube_apiserver.Backend.Ensure.{AdminOutcome, ended, init_cube_admin}

-- The definitions of the program's own resources have neither labels nor singular names.
abbrev pub cube_crd : Str → Str → Crd
cube_crd plural kind = record {
  name = plural ++ str ".cube.rancher.io";
  labels = [];
  group = str "cube.rancher.io";
  version = str "v1alpha1";
  scope = namespace_scoped;
  plural = plural;
  kind = kind;
  list_kind = [];
  singular = [];
  short_names = [];
}

abbrev pub longhorn_crd : Str → Str → Str → Crd
longhorn_crd plural kind singular = record {
  name = plural ++ str ".longhorn.rancher.io";
  labels = (str "longhorn-manager", kind) ∷ [];
  group = str "longhorn.rancher.io";
  version = str "v1alpha1";
  scope = namespace_scoped;
  plural = plural;
  kind = kind;
  list_kind = kind ++ str "List";
  singular = singular;
  short_names = [];
}

abbrev pub ranchervm_crd : Str → Str → Str → List Str → Crd
ranchervm_crd plural kind singular short_names = record {
  name = plural ++ str ".vm.rancher.com";
  labels = (str "ranchervm-system", kind) ∷ [];
  group = str "vm.rancher.com";
  version = str "v1alpha1";
  scope = cluster_scoped;
  plural = plural;
  kind = kind;
  list_kind = kind ++ str "List";
  singular = singular;
  short_names = short_names;
}

-- A definition that exists already is no error.
abbrev pub unless_exists : Result Crd → Option Err
unless_exists (ok c) = none
unless_exists (err e) = if is_already_exists e then none else some e

module _ (env : Env) where
  -- The creation that all the deployments below make.
  unfoldable pub deploy : Crd → List Event → Option Err × List Event
  deploy crd h = (unless_exists (env.crd_created (create_crd crd ∷ h)), create_crd crd ∷ h)

  abbrev pub Deployment : Type 0
  Deployment = List Event → Option Err × List Event

  -- PrincipalCRDDeploy
  unfoldable pub principal_crd_deploy : Deployment
  unfolding deploy
  principal_crd_deploy = deploy (cube_crd (str "principals") (str "Principal"))

  -- TokenCRDDeploy
  unfoldable pub token_crd_deploy : Deployment
  unfolding deploy
  token_crd_deploy = deploy (cube_crd (str "tokens") (str "Token"))

  -- InfrastructureCRDDeploy
  unfoldable pub infrastructure_crd_deploy : Deployment
  unfolding deploy
  infrastructure_crd_deploy = deploy (cube_crd (str "infrastructures") (str "Infrastructure"))

  -- LonghornEngineCRDDeploy
  unfoldable pub longhorn_engine_crd_deploy : Deployment
  unfolding deploy
  longhorn_engine_crd_deploy = deploy (longhorn_crd (str "engines") (str "Engine") (str "engine"))

  -- LonghornReplicaCRDDeploy
  unfoldable pub longhorn_replica_crd_deploy : Deployment
  unfolding deploy
  longhorn_replica_crd_deploy =
      deploy (longhorn_crd (str "replicas") (str "Replica") (str "replica"))

  -- LonghornSettingCRDDeploy
  unfoldable pub longhorn_setting_crd_deploy : Deployment
  unfolding deploy
  longhorn_setting_crd_deploy =
      deploy (longhorn_crd (str "settings") (str "Setting") (str "setting"))

  -- LonghornVolumeCRDDeploy
  unfoldable pub longhorn_volume_crd_deploy : Deployment
  unfolding deploy
  longhorn_volume_crd_deploy = deploy (longhorn_crd (str "volumes") (str "Volume") (str "volume"))

  -- LonghornEngineImageCRDDeploy
  unfoldable pub longhorn_engine_image_crd_deploy : Deployment
  unfolding deploy
  longhorn_engine_image_crd_deploy =
      deploy (longhorn_crd (str "engineimages") (str "EngineImage") (str "engineimage"))

  -- CredentialCRDDeploy
  unfoldable pub credential_crd_deploy : Deployment
  unfolding deploy
  credential_crd_deploy = deploy (
      ranchervm_crd (str "credentials") (str "Credential") (str "credential")
        (str "cred" ∷ str "creds" ∷ []))

  -- ArptableCRDDeploy
  unfoldable pub arptable_crd_deploy : Deployment
  unfolding deploy
  arptable_crd_deploy = deploy (
      ranchervm_crd (str "arptables") (str "ARPTable") (str "arptable")
        (str "arp" ∷ str "arps" ∷ []))

  -- VirtualMachineCRDDeploy
  unfoldable pub virtual_machine_crd_deploy : Deployment
  unfolding deploy
  virtual_machine_crd_deploy = deploy (
      ranchervm_crd (str "virtualmachines") (str "VirtualMachine") (str "virtualmachine")
        (str "vm" ∷ str "vms" ∷ []))

  module _ (encode_base32 : Str → Str) (hashed : Result Str) where
    -- The error of InitCubeAdmin as UserCRDDeploy returns it; `none` in front is the end of the
    -- process.
    pub admin_error : AdminOutcome → Option (Option Err)
    admin_error (ended e) = some e
    admin_error _ = none

    -- After each definition, an error ends the deployment.
    then_admin : Option Err × List Event → Option (Option Err) × List Event
    unfolding admin_error
    then_admin (some e, h) = (some (some e), h)
    then_admin (none, h) =
        let r = init_cube_admin env encode_base32 hashed h in (admin_error r.0, r.1)

    then_tokens : Option Err × List Event → Option (Option Err) × List Event
    unfolding then_admin token_crd_deploy
    then_tokens (some e, h) = (some (some e), h)
    then_tokens (none, h) = then_admin (token_crd_deploy h)

    then_principals : Option Err × List Event → Option (Option Err) × List Event
    unfolding then_tokens principal_crd_deploy
    then_principals (some e, h) = (some (some e), h)
    then_principals (none, h) = then_tokens (principal_crd_deploy h)

    -- UserCRDDeploy
    unfoldable pub user_crd_deploy : List Event → Option (Option Err) × List Event
    unfolding then_principals deploy
    user_crd_deploy h = then_principals (deploy (cube_crd (str "users") (str "User")) h)
