-- ===== src/Controller/Infra/Examples/Clusters.antt =====
-- An infrastructure of Longhorn, and clusters that answer every call alike.
use cube_apiserver.Prelude.{str, Option, none, some, List, [], ◌∷◌, refl}
use cube_apiserver.Base.Errors.{not_found, already_exists, Result, ok, err}
use cube_apiserver.Base.Int.{pos}
use cube_apiserver.Types.Meta.{zero_type_meta, zero_meta}
use cube_apiserver.Types.Infra.{Infrastructure}
use cube_apiserver.Types.Workloads.{Deployment, zero_deployment}
use cube_apiserver.Controller.Queue.{Item, key}
use cube_apiserver.Controller.ByUid.{by_uid}
use cube_apiserver.Controller.Infra.Calls.{
  Event, get_deployment, get_service, create_deployment, queue_get, Env,
}
use cube_apiserver.Controller.Infra.Longhorn.{longhorn_ui}
use cube_apiserver.Controller.Infra.Fresh.{IsOpen}
use cube_apiserver.Controller.Infra.Stuck.{IsTaken}

abbrev pub storage : Infrastructure
storage = record {
  type_meta = zero_type_meta;
  metadata = record zero_meta { name = str "storage"; namespace = str "ns" };
  spec = record {
    display_name = [];
    description = [];
    icon = [];
    replicas = none;
    infra_kind = str "Longhorn";
    images = record {
      dashboard = [];
      longhorn_manager = [];
      longhorn_engine = [];
      longhorn_flexvolume_driver = [];
      longhorn_ui = [];
      ranchervm = [];
      ranchervm_frontend = [];
    };
  };
  status = record { state = str "UnHealthy"; available_replicas = pos 0; message = str "gone" };
}

abbrev pub served : Env
served = record {
  split_key = λ k. ok (str "ns", k);
  key_of = λ m. ok m.name;
  infrastructure_gotten = λ h. ok storage;
  deployment_gotten = λ h. ok zero_deployment;
  namespace_created = λ h. ok tt;
  part_created = λ h. ok tt;
  deployment_created = λ h. ok zero_deployment;
  deployment_updated = λ h. ok zero_deployment;
  item_gotten = λ h. none;
  service_gotten = λ h. ok tt;
  infrastructure_updated = λ h. ok storage;
  error_text = λ e. [];
}

-- The answer to a creation is the object that was sent.
abbrev echoed : List Event → Result Deployment
echoed (create_deployment ns d ∷ h) = ok d
echoed _ = err not_found

-- Nothing is there yet, and everything is accepted.
abbrev pub open_env : Env
open_env = record served { deployment_gotten = λ h. err not_found; deployment_created = echoed }

pub open_env-IsOpen : IsOpen open_env
open_env-IsOpen = record { namespaces = λ h. refl; parts = λ h. refl; deployments = λ ns d h. refl }

-- Everything is there already, the deployment too, with the replicas that are wanted.
abbrev pub scaled_storage : Infrastructure
scaled_storage = record storage { spec = record storage.spec { replicas = some (pos 1) } }

abbrev pub storage_deployment : Deployment
storage_deployment = longhorn_ui by_uid scaled_storage

-- One item, then the shutdown.
abbrev one_storage : List Event → Option Item
one_storage (queue_get ∷ []) = some (key (str "storage"))
one_storage _ = none

abbrev pub taken_env : Env
taken_env = record served {
  infrastructure_gotten = λ h. ok scaled_storage;
  deployment_gotten = λ h. ok storage_deployment;
  namespace_created = λ h. err already_exists;
  part_created = λ h. err already_exists;
  deployment_created = λ h. err already_exists;
  item_gotten = one_storage;
}

pub taken_env-IsTaken : IsTaken taken_env
taken_env-IsTaken = record { namespaces = λ h. refl; parts = λ h. refl; deployments = λ h. refl }

abbrev pub storage_looked : List Event
storage_looked =
    get_service (str "longhorn-system") (str "longhorn-frontend")
    ∷ get_deployment (str "ns") (str "storage")
    ∷ []

-- The lister is behind the cluster.
abbrev pub stale_env : Env
stale_env = record taken_env { deployment_gotten = λ h. err not_found }

pub stale_env-IsTaken : IsTaken stale_env
stale_env-IsTaken = record { namespaces = λ h. refl; parts = λ h. refl; deployments = λ h. refl }

-- Three replicas are wanted of a deployment that has one.
abbrev pub grown_storage : Infrastructure
grown_storage = record storage { spec = record storage.spec { replicas = some (pos 3) } }
