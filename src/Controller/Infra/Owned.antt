-- ===== src/Controller/Infra/Owned.antt =====
-- What a synchronisation of one infrastructure may write to the cluster.
pub mod Bundles
pub mod Sync
use cube_apiserver.Prelude.{
  Str, str, Bool, true, false, Option, none, some, List, [], ◌∷◌, ◌≡◌, refl, ◌==◌,
}
use cube_apiserver.Base.Errors.{Err, Result, ok, err}
use cube_apiserver.Base.Effect.{Flow, ◌>>=◌, run}
use cube_apiserver.Base.Int.{ℤ}
use cube_apiserver.Base.Trace.{
  Since, here, more, Since-trans, Since-mono, Adds, Adds-bind, adds_rules,
}
use cube_apiserver.Types.Meta.{ObjectMeta, Owners}
use cube_apiserver.Types.Infra.{InfraStatus, Infrastructure}
use cube_apiserver.Types.Workloads.{Deployment}
use cube_apiserver.Controller.Queue.{Outcome}
use cube_apiserver.Controller.Queue.Steps.{handler_rules}
use cube_apiserver.Controller.Infra.Calls.{
  Part, secret, service_account, role, cluster_role, role_binding, cluster_role_binding, daemon_set,
  service, Event, get_infrastructure, create_namespace, create_part, create_deployment,
  update_deployment, update_infrastructure, queue_get, queue_forget, queue_done, queue_add, Env,
}
use cube_apiserver.Controller.Infra.Bundles.{
  Bundle, infra_gvk, unless_failed, in_namespace, make, make_deployment, make_main, update_main,
}
use cube_apiserver.Controller.Infra.Dashboard.{create_dashboard, update_dashboard}
use cube_apiserver.Controller.Infra.Longhorn.{create_longhorn, update_longhorn}
use cube_apiserver.Controller.Infra.RancherVm.{create_rancher_vm, update_rancher_vm}
use cube_apiserver.Controller.Infra.{
  service_of, with_status, detected, detect_service, update_infra, bundle_create, bundle_update,
  take_deployment, find_deployment, check_deployment, rescale, scale_deployment, end_sync,
  finish_infra, sync_infra, infra_sync_found, infra_sync_key, infra_sync_handler,
}

abbrev pub part_meta : Part → ObjectMeta
part_meta (secret s) = s.metadata
part_meta (service_account m) = m
part_meta (role r) = r.metadata
part_meta (cluster_role r) = r.metadata
part_meta (role_binding b) = b.metadata
part_meta (cluster_role_binding b) = b.metadata
part_meta (daemon_set d) = d.metadata
part_meta (service s) = s.metadata

-- The namespace of a part, of a bundle whose namespace is `home`.
abbrev pub place_of : Part → Str → Str
place_of (cluster_role r) home = []
place_of (cluster_role_binding b) home = []
place_of _ home = home

-- The namespace in which the code looks for the service of the infrastructure's kind.
abbrev pub IsHome : Infrastructure → Str → Type 0
IsHome infra ns = (name : Str) × (service_of infra.spec.infra_kind ≡ some (ns, name))

-- An object in a namespace, of which the infrastructure is the one owner.
abbrev pub IsOwn : Owners → Infrastructure → Str → ObjectMeta → Type 0
IsOwn owners infra ns m =
    (m.namespace ≡ ns)
    × (m.owner_references ≡ owners.new_controller_ref infra.metadata infra_gvk ∷ [])

abbrev pub IsOwnDeployment : Owners → Infrastructure → Str → Deployment → Type 0
IsOwnDeployment owners infra ns d =
    IsHome infra ns × IsOwn owners infra ns d.metadata × (d.spec.replicas ≡ infra.spec.replicas)

-- What the code may do for `infra`. It may create the namespace of the kind, to which it gives no
-- owner. Every other object that it creates or updates, but for the infrastructure, has the
-- infrastructure as its one owner and stands in the namespace of the kind, but for roles and
-- bindings of the cluster; a deployment has the replicas that the infrastructure asks for. The
-- infrastructure is written back with no change but to its status. The queue is left alone.
abbrev pub Allowed : Owners → Infrastructure → Event → Type 0
Allowed _ infra (create_namespace ns) = IsHome infra ns
Allowed owners infra (create_part ns part) =
    (home : Str) × IsHome infra home
    × (ns ≡ place_of part home)
    × IsOwn owners infra ns (part_meta part)
Allowed owners infra (create_deployment ns d) = IsOwnDeployment owners infra ns d
Allowed owners infra (update_deployment ns d) = IsOwnDeployment owners infra ns d
Allowed _ infra (update_infrastructure ns i) =
    (ns ≡ infra.namespace) × ((s : InfraStatus) × (i ≡ with_status infra s))
Allowed _ infra queue_get = ⊥
Allowed _ infra (queue_forget i) = ⊥
Allowed _ infra (queue_done i) = ⊥
Allowed _ infra (queue_add k) = ⊥
Allowed _ infra _ = Unit
