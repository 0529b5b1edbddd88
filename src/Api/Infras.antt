-- ===== src/Api/Infras.antt =====
-- api/infra.go: the handlers of the infrastructures, over backend/infra.go and backend/service.go.
pub mod Hosts
mod Examples
use cube_apiserver.Prelude.{ℕ, Str, str, false, Option, none, some, List, [], ◌∷◌}
use cube_apiserver.Base.Errors.{Err, Result, ok, err, Wrapping}
use cube_apiserver.Types.Infra.{InfraImages, Infrastructure}
use cube_apiserver.Infras.Calls.{Env, World}
use cube_apiserver.Infras.Operations.{
  Reply, answer, nil_deref, infrastructure_get, infrastructure_deploy, infrastructure_delete,
}
use cube_apiserver.Infras.Service.{
  sync_service, NodeAddress, NodeIp, ip_is, unread, index_panic, node_ip_get,
}
use cube_apiserver.Api.Resources.{
  InfraResource, Message, Collection, NodePorts, Made, made, crashed, to_infrastructure_resource,
  to_infrastructure_collection, to_delete_resource,
}

-- How a handler ends: with what it writes, which may be a nil pointer; with its error, which
-- errors.Wrap makes; or with a panic. A search for the service may need more rounds.
pub data Response (A : Type 0) : Type 0 where
  wrote : Option A → Response A
  refused : Option Err → Response A
  panics : Response A
  searching : Response A

-- The state of the API's process: that of the backend, and the variable `Service` that all requests
-- share.
pub record Shared : Type 0 where
  pub world : World
  pub service : Option NodePorts

-- What the outside answers in one request: the lister of services, by the rounds of the search, and
-- ClusterNodes.
pub record Outside : Type 0 where
  pub lister : ℕ → Option NodePorts
  pub nodes : Result (List (List NodeAddress))

module _ (wrapping : Wrapping) (env : Env) (outside : Outside) (rounds : ℕ) where
  pub written : Made InfraResource → Response InfraResource
  written (made o) = wrote o
  written crashed = panics

  -- NodeIPGet, and the write of the resource.
  with_ip : Infrastructure → Option NodePorts → NodeIp → Response InfraResource
  unfolding written
  with_ip infra service (ip_is ip) = written (to_infrastructure_resource infra service ip)
  with_ip infra service (unread none) = written (to_infrastructure_resource infra service [])
  with_ip infra service (unread (some e)) =
      refused (wrapping.wrap (some e) (str "failed to get node ip"))
  with_ip infra service index_panic = panics

  -- After the search for the service, which goes into the shared variable.
  with_service :
      Infrastructure
      → World
      → Option NodePorts
      → Option (Option NodePorts)
      → Response InfraResource × Shared
  unfolding with_ip
  with_service infra w old none = (searching, record { world = w; service = old })
  with_service infra w old (some service) = (
    with_ip infra service (node_ip_get wrapping outside.nodes),
    record { world = w; service = service },
  )

  -- The backend searches for the service exactly if it answers an infrastructure.
  answered : Str → Option NodePorts → Reply Infrastructure × World → Response InfraResource × Shared
  unfolding with_service
  answered message old (nil_deref, w) = (panics, record { world = w; service = old })
  answered message old (answer (err e), w) =
      (refused (wrapping.wrap (some e) message), record { world = w; service = old })
  answered message old (answer (ok infra), w) =
      with_service infra w old (sync_service outside.lister rounds old)

  -- Server.InfrastructureGet
  unfoldable pub handle_infrastructure_get : Str → Shared → Response InfraResource × Shared
  unfolding answered
  handle_infrastructure_get kind s =
      answered (str "failed to read infrastructure") s.service
        (infrastructure_get env kind false s.world)

  -- Server.InfrastructureCreate, of a request with this kind.
  unfoldable pub handle_infrastructure_create :
      InfraImages → Str → Shared → Response InfraResource × Shared
  unfolding answered
  handle_infrastructure_create images kind s =
      answered (str "failed to create infrastructure") s.service
        (infrastructure_deploy env images kind s.world)

  deleted : Reply (Unit {0}) → Response Message
  deleted nil_deref = panics
  deleted (answer (ok u)) = wrote (some to_delete_resource)
  deleted (answer (err e)) =
      refused (wrapping.wrap (some e) (str "failed to delete infrastructure %s"))

  -- Server.InfrastructureDelete
  unfoldable pub handle_infrastructure_delete : Str → World → Response Message × World
  unfolding deleted
  handle_infrastructure_delete kind w =
      let r = infrastructure_delete env kind w in (deleted r.0, r.1)

  -- Server.InfrastructureList, from the answer of the client.
  unfoldable pub handle_infrastructure_list :
      Result (List Infrastructure) → Response (Collection InfraResource)
  handle_infrastructure_list (ok items) = wrote (some (to_infrastructure_collection items))
  handle_infrastructure_list (err e) =
      refused (wrapping.wrap (some e) (str "failed to read infrastructures"))
