-- ===== src/Controller/Infra/Plan.antt =====
-- What the bundles of controller/infra_controller.go promise: an infrastructure has a plan, the
-- objects of its kind in their order, and to create a bundle is to install the plan.
use cube_apiserver.Prelude.{Str, str, Option, none, some, List, [], ◌∷◌, ◌==◌, if◌then◌else◌}
use cube_apiserver.Base.Errors.{Err, other, is_already_exists, Result, ok, err, tolerate}
use cube_apiserver.Types.Meta.{Owners}
use cube_apiserver.Types.Infra.{Infrastructure}
use cube_apiserver.Types.Workloads.{Deployment, zero_deployment}
use cube_apiserver.Controller.Infra.Calls.{
  Event, create_namespace, create_part, create_deployment, secret, service_account, role,
  role_binding, cluster_role, cluster_role_binding, daemon_set, service, Env,
}
use cube_apiserver.Controller.Infra.Bundles.{
  kube_system, longhorn_namespace, ranchervm_namespace, owned_meta,
}
use cube_apiserver.Controller.Infra.Dashboard.{
  dashboard_app, dashboard_labels, dashboard_secret, dashboard_role, dashboard_binding,
  dashboard_admin, dashboard_service, dashboard_deployment,
}
use cube_apiserver.Controller.Infra.Longhorn.{
  longhorn_role, longhorn_binding, longhorn_daemons, longhorn_backend_service, longhorn_ui_service,
  longhorn_driver, longhorn_ui,
}
use cube_apiserver.Controller.Infra.Longhorn.Pods.{longhorn_account}
use cube_apiserver.Controller.Infra.RancherVm.{
  ranchervm_account, ranchervm_role, ranchervm_binding, ip_controller, ranchervm_backend_service,
  ranchervm_frontend_service, ranchervm_controller, ranchervm_backend, ranchervm_frontend,
}

-- The namespace of a bundle, the creations before its main deployment, and that deployment.
pub record Plan : Type 0 where
  pub home : Str
  pub creations : List Event
  pub main : Deployment

module _ (owners : Owners) (infra : Infrastructure) where
  abbrev pub dashboard_plan : Plan
  dashboard_plan = record {
    home = kube_system;
    creations =
        create_namespace kube_system
        ∷ create_part kube_system (secret (dashboard_secret owners infra))
        ∷ create_part kube_system
            (service_account (owned_meta owners infra kube_system dashboard_app dashboard_labels))
        ∷ create_part kube_system (role (dashboard_role owners infra))
        ∷ create_part kube_system (role_binding (dashboard_binding owners infra))
        ∷ create_part [] (cluster_role_binding (dashboard_admin owners infra))
        ∷ create_part kube_system (service (dashboard_service owners infra))
        ∷ [];
    main = dashboard_deployment owners infra;
  }

  abbrev pub longhorn_plan : Plan
  longhorn_plan = record {
    home = longhorn_namespace;
    creations =
        create_namespace longhorn_namespace
        ∷ create_part longhorn_namespace
            (service_account (owned_meta owners infra longhorn_namespace longhorn_account []))
        ∷ create_part [] (cluster_role (longhorn_role owners infra))
        ∷ create_part [] (cluster_role_binding (longhorn_binding owners infra))
        ∷ create_part longhorn_namespace (daemon_set (longhorn_daemons owners infra))
        ∷ create_part longhorn_namespace (service (longhorn_backend_service owners infra))
        ∷ create_part longhorn_namespace (service (longhorn_ui_service owners infra))
        ∷ create_deployment longhorn_namespace (longhorn_driver owners infra)
        ∷ [];
    main = longhorn_ui owners infra;
  }

  abbrev pub ranchervm_plan : Plan
  ranchervm_plan = record {
    home = ranchervm_namespace;
    creations =
        create_namespace ranchervm_namespace
        ∷ create_part ranchervm_namespace
            (service_account (owned_meta owners infra ranchervm_namespace ranchervm_account []))
        ∷ create_part [] (cluster_role (ranchervm_role owners infra))
        ∷ create_part [] (cluster_role_binding (ranchervm_binding owners infra))
        ∷ create_part ranchervm_namespace (daemon_set (ip_controller owners infra))
        ∷ create_part ranchervm_namespace (service (ranchervm_backend_service owners infra))
        ∷ create_part ranchervm_namespace (service (ranchervm_frontend_service owners infra))
        ∷ create_deployment ranchervm_namespace (ranchervm_controller owners infra)
        ∷ create_deployment ranchervm_namespace (ranchervm_backend owners infra)
        ∷ [];
    main = ranchervm_frontend owners infra;
  }

  -- The plan of a kind; none for a kind that is none of the three.
  unfoldable pub plan_of : Option Plan
  plan_of =
      if infra.spec.infra_kind == str "Dashboard"
      then some dashboard_plan
      else if infra.spec.infra_kind == str "Longhorn"
      then some longhorn_plan
      else if infra.spec.infra_kind == str "RancherVM"
      then some ranchervm_plan
      else none

-- The error that stops an installation: an object that exists already is none.
abbrev pub refusal {ℓ} : {A : Type ℓ} → Result A → Option Err
refusal (ok a) = none
refusal (err e) = if is_already_exists e then none else some e

-- Stop with the error, or have the rest.
abbrev pub proceed :
    Option Err → List Event → Result Deployment × List Event → Result Deployment × List Event
proceed none h rest = rest
proceed (some e) h rest = (err e, h)

module _ (env : Env) where
  -- The error of a creation, after a history that ends with it.
  abbrev pub refused : Event → List Event → Option Err
  refused (create_namespace ns) h = refusal (env.namespace_created h)
  refused (create_part ns part) h = refusal (env.part_created h)
  refused (create_deployment ns d) h = refusal (env.deployment_created h)
  refused _ h = none

  -- Ask for the objects in their order, up to the first that is refused.
  unfoldable pub install_from :
      List Event → Str → Deployment → List Event → Result Deployment × List Event
  install_from [] home main h =
      let after = create_deployment home main ∷ h in
      (tolerate zero_deployment (env.deployment_created after), after)
  install_from (e ∷ es) home main h =
      proceed (refused e (e ∷ h)) (e ∷ h) (install_from es home main (e ∷ h))

  abbrev pub install : Plan → List Event → Result Deployment × List Event
  install p h = install_from p.creations p.home p.main h

  -- What becomes of the bundle of a kind.
  abbrev pub planned : Option Plan → List Event → Result Deployment × List Event
  planned (some p) h = install p h
  planned none h = (err (other (str "error bundle create: infrastructure type %s is invalid")), h)
