-- ===== src/App/Start.antt =====
-- app/apiserver.go: the definitions that startAPIServer deploys, of which it drops the errors.
use cube_apiserver.Prelude.{Str, str, Option, none, some, List, [], ◌∷◌, ◌≡◌}
use cube_apiserver.Base.Errors.{Err, Result}
use cube_apiserver.Backend.Calls.{Event, create_crd, Env}
use cube_apiserver.Backend.Crds.{
  cube_crd, longhorn_crd, ranchervm_crd, deploy, infrastructure_crd_deploy,
  longhorn_engine_crd_deploy, longhorn_replica_crd_deploy, longhorn_setting_crd_deploy,
  longhorn_volume_crd_deploy, longhorn_engine_image_crd_deploy, credential_crd_deploy,
  arptable_crd_deploy, virtual_machine_crd_deploy, user_crd_deploy,
}

-- The definitions that follow that of the users, newest first, on a history.
abbrev pub definitions_sent : List Event → List Event
definitions_sent h =
    create_crd (
      ranchervm_crd (str "virtualmachines") (str "VirtualMachine") (str "virtualmachine")
        (str "vm" ∷ str "vms" ∷ []))
    ∷ create_crd (
        ranchervm_crd (str "arptables") (str "ARPTable") (str "arptable")
          (str "arp" ∷ str "arps" ∷ []))
    ∷ create_crd (
        ranchervm_crd (str "credentials") (str "Credential") (str "credential")
          (str "cred" ∷ str "creds" ∷ []))
    ∷ create_crd (longhorn_crd (str "engineimages") (str "EngineImage") (str "engineimage"))
    ∷ create_crd (longhorn_crd (str "volumes") (str "Volume") (str "volume"))
    ∷ create_crd (longhorn_crd (str "settings") (str "Setting") (str "setting"))
    ∷ create_crd (longhorn_crd (str "replicas") (str "Replica") (str "replica"))
    ∷ create_crd (longhorn_crd (str "engines") (str "Engine") (str "engine"))
    ∷ create_crd (cube_crd (str "infrastructures") (str "Infrastructure"))
    ∷ h

module _ (env : Env) where
  -- The deployments after that of the users.
  unfoldable pub deploy_rest : List Event → List Event
  deploy_rest h0 =
      let h1 = (infrastructure_crd_deploy env h0).1 in
      let h2 = (longhorn_engine_crd_deploy env h1).1 in
      let h3 = (longhorn_replica_crd_deploy env h2).1 in
      let h4 = (longhorn_setting_crd_deploy env h3).1 in
      let h5 = (longhorn_volume_crd_deploy env h4).1 in
      let h6 = (longhorn_engine_image_crd_deploy env h5).1 in
      let h7 = (credential_crd_deploy env h6).1 in
      let h8 = (arptable_crd_deploy env h7).1 in (virtual_machine_crd_deploy env h8).1

  module _ (encode_base32 : Str → Str) (hashed : Result Str) where
    goes_on : Option (Option Err) × List Event → Option (List Event)
    goes_on (none, h) = none
    goes_on (some e, h) = some (deploy_rest h)

    -- All the deployments of startAPIServer; `none` where UserCRDDeploy ends the process.
    unfoldable pub deploy_definitions : List Event → Option (List Event)
    unfolding goes_on
    deploy_definitions h = goes_on (user_crd_deploy env encode_base32 hashed h)

    goes_on-all :
        (r : Option (Option Err) × List Event) (after : List Event)
        → goes_on r ≡ some after
        → after ≡ definitions_sent r.1
    unfolding goes_on deploy_rest deploy infrastructure_crd_deploy longhorn_engine_crd_deploy
        longhorn_replica_crd_deploy longhorn_setting_crd_deploy longhorn_volume_crd_deploy
        longhorn_engine_image_crd_deploy credential_crd_deploy arptable_crd_deploy
        virtual_machine_crd_deploy
    goes_on-all (none, h) after e = cc
    goes_on-all (some x, h) after e = cc

    -- Whatever errors there are, also of the users' definition, a start that goes on has asked for
    -- each of the nine definitions that follow, once and in this order.
    pub deploy_definitions-all :
        (h after : List Event)
        → deploy_definitions h ≡ some after
        → after ≡ definitions_sent (user_crd_deploy env encode_base32 hashed h).1
    unfolding deploy_definitions
    deploy_definitions-all h after e =
        goes_on-all (user_crd_deploy env encode_base32 hashed h) after e
