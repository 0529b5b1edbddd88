-- ===== src/Controller/Infra/Calls.antt =====
-- The calls that the infrastructure controller makes, and where their answers come from.
use cube_apiserver.Prelude.{Str, Option, List}
use cube_apiserver.Base.Errors.{Err, Result}
use cube_apiserver.Types.Meta.{ObjectMeta}
use cube_apiserver.Types.Infra.{Infrastructure}
use cube_apiserver.Types.Rbac.{Role, Binding}
use cube_apiserver.Controller.Queue.{Item, WorkQueue}
use cube_apiserver.Types.Workloads.{Secret, Service, DaemonSet, Deployment}

-- What a bundle creates beside deployments.
pub data Part : Type 0 where
  secret : Secret → Part
  service_account : ObjectMeta → Part
  role cluster_role : Role → Part
  role_binding cluster_role_binding : Binding → Part
  daemon_set : DaemonSet → Part
  service : Service → Part

pub data Event : Type 0 where
  -- the listers
  get_infrastructure get_deployment get_service : Str → Str → Event
  -- the API; a part of the cluster has an empty namespace
  create_namespace : Str → Event
  create_part : Str → Part → Event
  create_deployment update_deployment : Str → Deployment → Event
  update_infrastructure : Str → Infrastructure → Event
  -- the event recorder, by reason, and runtime.HandleError
  warn_exists note_synced : Str → Event
  report : Event
  -- the work queue
  queue_get : Event
  queue_forget queue_done : Item → Event
  queue_add : Str → Event

-- The answers, each to the newest call of the history. `split_key` is SplitMetaNamespaceKey and
-- `key_of` MetaNamespaceKeyFunc of k8s.io/client-go/tools/cache; `error_text` is the text of an
-- error.
pub record Env : Type 0 where
  pub split_key : Str → Result (Str × Str)
  pub key_of : ObjectMeta → Result Str
  pub error_text : Err → Str
  pub infrastructure_gotten : List Event → Result Infrastructure
  pub deployment_gotten : List Event → Result Deployment
  pub service_gotten : List Event → Result (Unit {0})
  pub namespace_created : List Event → Result (Unit {0})
  pub part_created : List Event → Result (Unit {0})
  pub deployment_created : List Event → Result Deployment
  pub deployment_updated : List Event → Result Deployment
  pub infrastructure_updated : List Event → Result Infrastructure
  -- Get of the queue: no item at shutdown
  pub item_gotten : List Event → Option Item

abbrev pub infra_queue : Env → WorkQueue Event
infra_queue env = record {
  get = queue_get;
  forget = queue_forget;
  mark_done = queue_done;
  handle_error = report;
  gotten = env.item_gotten;
}
