-- ===== src/Infras/Reconciled.antt =====
-- The infrastructures that the API deploys (backend/infra.go) against the reconciler of
-- controller/infra_controller.go.
use cube_apiserver.Prelude.{
  Str, true, some, List, [], ◌∷◌, ◌++◌, take, ◌≡◌, refl, subst, inl, inr, ◌==◌,
}
use cube_apiserver.Base.Int.{pos}
use cube_apiserver.Types.Meta.{Owners}
use cube_apiserver.Types.Infra.{Infrastructure, InfraImages}
use cube_apiserver.Types.Workloads.{Service}
use cube_apiserver.Controller.Infra.Calls.{Event, create_part, create_deployment, service}
use cube_apiserver.Controller.Infra.Dashboard.{dashboard_service}
use cube_apiserver.Controller.Infra.Longhorn.{longhorn_ui_service, longhorn_driver}
use cube_apiserver.Controller.Infra.RancherVm.{
  ranchervm_frontend_service, ranchervm_controller, ranchervm_backend,
}
use cube_apiserver.Controller.Infra.{service_of}
use cube_apiserver.Controller.Infra.Bundles.{infra_gvk, longhorn_namespace, ranchervm_namespace}
use cube_apiserver.Controller.Infra.Plan.{
  Plan, dashboard_plan, longhorn_plan, ranchervm_plan, plan_of,
}
use cube_apiserver.Infras.ConfigMap.{Keys, dashboard, longhorn, ranchervm, find, initial_data}
use cube_apiserver.Infras.Operations.{get_infra, new_infrastructure}
use cube_apiserver.Infras.Operations.Known.{keys_cases}

-- The plan of an infrastructure whose main deployment and whose service are looked for where the
-- plan puts them. `before` and `after` are what the plan creates before and after the service.
pub record IsReconciled (owners : Owners) (infra : Infrastructure) : Type 0 where
  pub plan : Plan
  pub planned : plan_of owners infra ≡ some plan
  pub same_name : plan.main.metadata.name ≡ infra.name
  pub same_namespace : plan.main.metadata.namespace ≡ infra.namespace
  pub same_home : plan.home ≡ infra.namespace
  pub same_replicas : plan.main.spec.replicas ≡ some (pos 1)
  pub owned : owners.is_controlled_by plan.main.metadata infra.metadata ≡ true
  pub looked_for : service_of infra.spec.infra_kind ≡ some (infra.namespace, infra.name)
  pub exposed : Service
  pub before : List Event
  pub after : List Event
  pub created : plan.creations ≡ before ++ create_part infra.namespace (service exposed) ∷ after
  pub service_name : exposed.metadata.name ≡ infra.name
  pub service_namespace : exposed.metadata.namespace ≡ infra.namespace
  pub service_owned : owners.is_controlled_by exposed.metadata infra.metadata ≡ true

module _ (owners : Owners) (images : InfraImages) where
  abbrev deployed_as : Keys → Infrastructure
  deployed_as keys = new_infrastructure images keys initial_data

  dashboard-IsReconciled : IsReconciled owners (deployed_as dashboard)
  unfolding find ◌==◌ plan_of service_of
  dashboard-IsReconciled = record {
    plan = dashboard_plan owners (deployed_as dashboard);
    planned = refl;
    same_name = refl;
    same_namespace = refl;
    same_home = refl;
    same_replicas = refl;
    looked_for = refl;
    owned = owners.controlled_by_new _ _ infra_gvk refl;
    exposed = dashboard_service owners (deployed_as dashboard);
    before = take 6 (dashboard_plan owners (deployed_as dashboard)).creations;
    after = [];
    created = refl;
    service_name = refl;
    service_namespace = refl;
    service_owned = owners.controlled_by_new _ _ infra_gvk refl;
  }

  longhorn-IsReconciled : IsReconciled owners (deployed_as longhorn)
  unfolding find ◌==◌ plan_of service_of
  longhorn-IsReconciled = record {
    plan = longhorn_plan owners (deployed_as longhorn);
    planned = refl;
    same_name = refl;
    same_namespace = refl;
    same_home = refl;
    same_replicas = refl;
    looked_for = refl;
    owned = owners.controlled_by_new _ _ infra_gvk refl;
    exposed = longhorn_ui_service owners (deployed_as longhorn);
    before = take 6 (longhorn_plan owners (deployed_as longhorn)).creations;
    after =
        create_deployment longhorn_namespace (longhorn_driver owners (deployed_as longhorn)) ∷ [];
    created = refl;
    service_name = refl;
    service_namespace = refl;
    service_owned = owners.controlled_by_new _ _ infra_gvk refl;
  }

  ranchervm-IsReconciled : IsReconciled owners (deployed_as ranchervm)
  unfolding find ◌==◌ plan_of service_of
  ranchervm-IsReconciled = record {
    plan = ranchervm_plan owners (deployed_as ranchervm);
    planned = refl;
    same_name = refl;
    same_namespace = refl;
    same_home = refl;
    same_replicas = refl;
    looked_for = refl;
    owned = owners.controlled_by_new _ _ infra_gvk refl;
    exposed = ranchervm_frontend_service owners (deployed_as ranchervm);
    before = take 6 (ranchervm_plan owners (deployed_as ranchervm)).creations;
    after =
        create_deployment ranchervm_namespace (ranchervm_controller owners (deployed_as ranchervm))
        ∷ create_deployment ranchervm_namespace (ranchervm_backend owners (deployed_as ranchervm))
        ∷ [];
    created = refl;
    service_name = refl;
    service_namespace = refl;
    service_owned = owners.controlled_by_new _ _ infra_gvk refl;
  }

-- An infrastructure that InfrastructureDeploy creates from the config map that ConfigMapDeploy
-- writes, for any kind that the API accepts, has a plan. The plan's main deployment has the name and
-- the namespace of the infrastructure, one replica and the infrastructure as its controller. The
-- reconciler looks for the service under the same name and namespace, and the plan creates a service
-- there, of which the infrastructure is the controller.
pub new_infrastructure-IsReconciled :
    (owners : Owners) (images : InfraImages) (kind : Str) (keys : Keys)
    → get_infra kind ≡ some keys
    → IsReconciled owners (new_infrastructure images keys initial_data)
new_infrastructure-IsReconciled owners images kind keys e =
    let as_keys = λ (k : Keys). IsReconciled owners (new_infrastructure images k initial_data) in
    elim (keys_cases kind keys e) [
      | inl (_, q) ↦ subst as_keys q (dashboard-IsReconciled owners images)
      | inr (inl (_, q)) ↦ subst as_keys q (longhorn-IsReconciled owners images)
      | inr (inr (_, q)) ↦ subst as_keys q (ranchervm-IsReconciled owners images)
    ]
