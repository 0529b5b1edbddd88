-- ===== src/Controller/Infra.antt =====
-- controller/infra_controller.go: the reconciler of infrastructures.
pub mod Calls
pub mod Bundles
pub mod Dashboard
pub mod Longhorn
pub mod RancherVm
pub mod Status
pub mod Plan
pub mod Installed
pub mod Owned
pub mod Found
pub mod Sync
pub mod Stuck
pub mod Fresh
pub mod Worker
pub mod Notices
mod Examples
use cube_apiserver.Prelude.{
  Str, str, Bool, true, false, ◌&&◌, Option, none, some, List, [], ◌∷◌, ◌==◌, if◌then◌else◌,
}
use cube_apiserver.Base.Errors.{Err, other, is_not_found, Result, ok, err, error_of}
use cube_apiserver.Base.Effect.{Flow, pure, give_back, ask, emit, call, ◌>>=◌, ◌>>◌, run}
use cube_apiserver.Base.Int.{ℤ, pos, leb_ℤ, eq_ℤ}
use cube_apiserver.Types.Meta.{Owners}
use cube_apiserver.Types.Infra.{InfraStatus, Infrastructure}
use cube_apiserver.Types.Workloads.{Deployment}
use cube_apiserver.Controller.Queue.{try, present, Outcome, done, failed, panicked}
use Calls.{
  Event, get_infrastructure, get_deployment, get_service, update_infrastructure, warn_exists,
  note_synced, report, Env,
}
use Dashboard.{create_dashboard, update_dashboard}
use Longhorn.{create_longhorn, update_longhorn}
use RancherVm.{create_rancher_vm, update_rancher_vm}

-- The namespace and the name of the service of a kind.
unfoldable pub service_of : Str → Option (Str × Str)
service_of kind =
    if kind == str "Dashboard"
    then some (str "kube-system", str "kubernetes-dashboard")
    else if kind == str "Longhorn"
    then some (str "longhorn-system", str "longhorn-frontend")
    else if kind == str "RancherVM"
    then some (str "ranchervm-system", str "ranchervm-frontend")
    else none

-- `AvailableReplicas > 0`
abbrev pub is_positive : ℤ → Bool
is_positive n = leb_ℤ (pos 1) n

abbrev pub with_status : Infrastructure → InfraStatus → Infrastructure
with_status infra s = record infra { status = s }

module _ (env : Env) where
  detected : Option (Str × Str) → List Event → Option Err × List Event
  detected none h =
      (some (other (str "error detect service: infrastructure type %s is invalid")), h)
  detected (some (namespace, name)) h =
      let e = get_service namespace name in (error_of (env.service_gotten (e ∷ h)), e ∷ h)

  -- detectService: healthy exactly if there is no error.
  unfoldable pub detect_service : Infrastructure → List Event → Option Err × List Event
  unfolding detected
  detect_service infra h = detected (service_of infra.spec.infra_kind) h

  -- The message is written on an error only.
  unfoldable pub status_after : InfraStatus → ℤ → Option Err → InfraStatus
  status_after status available none =
      if is_positive available
      then record status { available_replicas = available; state = str "Healthy" }
      else record status { available_replicas = available; state = str "UnHealthy" }
  status_after status available (some e) = record status {
    available_replicas = available;
    state = str "UnHealthy";
    message = env.error_text e;
  }

  -- updateInfra, with the available replicas of the deployment.
  unfoldable pub update_infra : Infrastructure → ℤ → List Event → Option Err × List Event
  update_infra infra available h =
      let d = detect_service infra h in
      let e =
        update_infrastructure infra.metadata.namespace
          (with_status infra (status_after infra.status available d.0)) in
      (error_of (env.infrastructure_updated (e ∷ d.1)), e ∷ d.1)

abbrev pub infra_message_resource_exists : Str
infra_message_resource_exists =
    str "Resource %q already exists and is not managed by Infrastructure"

module _ (owners : Owners) (env : Env) where
  abbrev pub Sync : Type 0 → Type 0
  Sync A = Flow Event Outcome A

  -- bundleCreate
  unfoldable pub bundle_create : Infrastructure → List Event → Result Deployment × List Event
  bundle_create infra h =
      if infra.spec.infra_kind == str "Dashboard"
      then create_dashboard owners env infra h
      else if infra.spec.infra_kind == str "Longhorn"
      then create_longhorn owners env infra h
      else if infra.spec.infra_kind == str "RancherVM"
      then create_rancher_vm owners env infra h
      else (err (other (str "error bundle create: infrastructure type %s is invalid")), h)

  -- bundleUpdate
  unfoldable pub bundle_update : Infrastructure → List Event → Result Deployment × List Event
  bundle_update infra h =
      if infra.spec.infra_kind == str "Dashboard"
      then update_dashboard owners env infra h
      else if infra.spec.infra_kind == str "Longhorn"
      then update_longhorn owners env infra h
      else if infra.spec.infra_kind == str "RancherVM"
      then update_rancher_vm owners env infra h
      else (err (other (str "error bundle update: infrastructure type %s is invalid")), h)

  -- What the lister answers, or the deployment of a new bundle.
  take_deployment : Infrastructure → Result Deployment → Sync Deployment
  take_deployment infra (ok d) = pure d
  take_deployment infra (err e) =
      if is_not_found e then (do r ← call (bundle_create infra); try r) else give_back (failed e)

  pub find_deployment : Infrastructure → Sync Deployment
  unfolding take_deployment
  find_deployment infra = do
    found ← ask (get_deployment infra.namespace infra.name) env.deployment_gotten
    take_deployment infra found

  -- A deployment of another owner is reported, and ends the handler.
  pub check_deployment : Infrastructure → Deployment → Sync (Unit {0})
  check_deployment infra d =
      if owners.is_controlled_by d.metadata infra.metadata then pure tt else do
        emit (warn_exists infra.name)
        give_back (failed (other infra_message_resource_exists))

  -- By the replicas that are wanted and those of the deployment, a pointer that is dereferenced.
  rescale : Infrastructure → Deployment → Option ℤ → Option ℤ → Sync Deployment
  rescale infra d none actual = pure d
  rescale infra d (some n) none = give_back panicked
  rescale infra d (some n) (some m) =
      if eq_ℤ n m then pure d else do r ← call (bundle_update infra); try r

  pub scale_deployment : Infrastructure → Deployment → Sync Deployment
  unfolding rescale
  scale_deployment infra d = rescale infra d infra.spec.replicas d.spec.replicas

  end_sync : Infrastructure → Option Err → Sync Outcome
  end_sync infra (some e) = pure (failed e)
  end_sync infra none = do emit (note_synced infra.name); pure done

  -- updateInfra, and the event of a success.
  pub finish_infra : Infrastructure → Deployment → Sync Outcome
  unfolding end_sync
  finish_infra infra d = do e ← call (update_infra env infra d.available_replicas); end_sync infra e

  -- syncHandler from the infrastructure on.
  pub sync_infra : Infrastructure → Sync Outcome
  unfolding find_deployment check_deployment scale_deployment finish_infra
  sync_infra infra = do
    d ← find_deployment infra
    check_deployment infra d
    scaled ← scale_deployment infra d
    finish_infra infra scaled

  infra_sync_found : Result Infrastructure → Sync Outcome
  unfolding sync_infra
  infra_sync_found (err e) = if is_not_found e then (do emit report; pure done) else pure (failed e)
  infra_sync_found (ok infra) =
      if infra.name == [] then (do emit report; pure done) else sync_infra infra

  infra_sync_key : Result (Str × Str) → Sync Outcome
  unfolding infra_sync_found
  infra_sync_key (err _) = do emit report; pure done
  infra_sync_key (ok (namespace, name)) = do
    found ← ask (get_infrastructure namespace name) env.infrastructure_gotten
    infra_sync_found found

  -- syncHandler
  pub infra_sync_handler : Str → List Event → Outcome × List Event
  unfolding infra_sync_key
  infra_sync_handler key h = run (infra_sync_key (env.split_key key)) h
