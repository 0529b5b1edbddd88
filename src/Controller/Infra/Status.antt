-- ===== src/Controller/Infra/Status.antt =====
-- The status that updateInfra writes.
use cube_apiserver.Prelude.{
  Str, str, Bool, true, false, ◌&&◌, Option, none, some, List, ◌∷◌, ◌==◌, ◌≡◌, refl, arith,
}
use cube_apiserver.Base.Errors.{Err, ok, error_of}
use cube_apiserver.Base.Int.{ℤ}
use cube_apiserver.Types.Infra.{InfraStatus, Infrastructure}
use cube_apiserver.Controller.Infra.Calls.{Event, get_service, update_infrastructure, Env}
use cube_apiserver.Controller.Infra.{
  service_of, is_positive, detect_service, status_after, with_status, update_infra,
}

abbrev is_none : Option Err → Bool
is_none none = true
is_none (some e) = false

state_after :
    (env : Env) (status : InfraStatus) (available : ℤ) (e : Option Err)
    → ((status_after env status available e).state == str "Healthy")
      ≡ (is_none e && is_positive available)
unfolding status_after ◌==◌
state_after env status available none = ground arith
state_after env status available (some e) = ground arith

available_after :
    (env : Env) (status : InfraStatus) (available : ℤ) (e : Option Err)
    → (status_after env status available e).available_replicas ≡ available
unfolding status_after
available_after env status available none = ground arith
available_after env status available (some e) = refl

-- For an infrastructure of one of the three kinds, the reconciler ends by looking up the service of
-- the kind and writing the infrastructure back with no change but to its status: the available
-- replicas are those of the deployment, and the state is "Healthy" exactly if the service was found
-- and a replica is available.
pub update_infra-status :
    (env : Env) (infra : Infrastructure) (available : ℤ) (h : List Event) (namespace name : Str)
    → service_of infra.spec.infra_kind ≡ some (namespace, name)
    → (s : InfraStatus) × ((update_infra env infra available h).1
        ≡ update_infrastructure infra.metadata.namespace (with_status infra s)
          ∷ get_service namespace name
          ∷ h)
      × (s.available_replicas ≡ available)
      × ((s.state == str "Healthy") ≡ (
          is_none (error_of (env.service_gotten (get_service namespace name ∷ h)))
          && is_positive available))
unfolding update_infra detect_service
update_infra-status env infra available h namespace name kind =
    let e = error_of (env.service_gotten (get_service namespace name ∷ h)) in
    (
      status_after env infra.status available e,
      rw kind,
      available_after env infra.status available e,
      state_after env infra.status available e,
    )

-- The message of an earlier failure stays when the infrastructure has become healthy.
pub update_infra-message :
    (env : Env) (infra : Infrastructure) (available : ℤ) (h : List Event) (namespace name : Str)
    → service_of infra.spec.infra_kind ≡ some (namespace, name)
    → env.service_gotten (get_service namespace name ∷ h) ≡ ok tt
    → is_positive available ≡ true
    → (update_infra env infra available h).1
      ≡ update_infrastructure infra.metadata.namespace (
          with_status infra (record {
            state = str "Healthy";
            available_replicas = available;
            message = infra.status.message;
          }))
        ∷ get_service namespace name
        ∷ h
unfolding update_infra detect_service status_after
update_infra-message env infra available h namespace name kind found positive =
    rw (kind, found, positive)
