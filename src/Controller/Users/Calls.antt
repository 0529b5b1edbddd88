-- ===== src/Controller/Users/Calls.antt =====
-- The calls that the user controller makes, and where their answers come from.
use cube_apiserver.Prelude.{Str, Option, List}
use cube_apiserver.Base.Errors.{Result}
use cube_apiserver.Types.Meta.{ObjectMeta}
use cube_apiserver.Types.Auth.{User, Principal}
use cube_apiserver.Types.Rbac.{Role, Binding}
use cube_apiserver.Controller.Queue.{Item, WorkQueue}

pub data Event : Type 0 where
  -- the informers' caches
  get_user : Str → Str → Event
  principals_by_id roles_by_name bindings_by_name : Str → Event
  -- the API
  create_namespace : Str → Event
  create_principal update_principal : Str → Principal → Event
  update_user : Str → User → Event
  get_role get_binding : Str → Event
  create_role : Role → Event
  create_binding : Binding → Event
  -- the event recorder, by reason, and runtime.HandleError
  warn_exists note_synced : Str → Event
  report : Event
  -- the work queue
  queue_get : Event
  queue_forget queue_done : Item → Event
  queue_add : Str → Event

-- The answers, each to the newest call of the history. `split_key` is SplitMetaNamespaceKey and
-- `key_of` MetaNamespaceKeyFunc of k8s.io/client-go/tools/cache.
pub record Env : Type 0 where
  pub split_key : Str → Result (Str × Str)
  pub key_of : ObjectMeta → Result Str
  pub user_gotten : List Event → Result User
  pub principals_found : List Event → Result (List Principal)
  pub roles_found : List Event → Result (List Role)
  pub bindings_found : List Event → Result (List Binding)
  pub namespace_created : List Event → Result (Unit {0})
  pub principal_created : List Event → Result Principal
  pub principal_updated : List Event → Result Principal
  pub user_updated : List Event → Result User
  pub role_gotten : List Event → Result Role
  pub role_created : List Event → Result Role
  pub binding_gotten : List Event → Result Binding
  pub binding_created : List Event → Result Binding
  pub item_gotten : List Event → Option Item

abbrev pub user_queue : Env → WorkQueue Event
user_queue env = record {
  get = queue_get;
  forget = queue_forget;
  mark_done = queue_done;
  handle_error = report;
  gotten = env.item_gotten;
}
