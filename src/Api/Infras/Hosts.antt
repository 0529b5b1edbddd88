-- ===== src/Api/Infras/Hosts.antt =====
-- The host under which an infrastructure is answered.
use cube_apiserver.Prelude.{
  ℕ, ◌≤◌, ◌<◌, Str, str, true, false, Option, none, some, List, [], ◌∷◌, ◌++◌, ◌≡◌, refl, ◌==◌,
}
use cube_apiserver.Base.Errors.{ok, Wrapping}
use cube_apiserver.Base.Int.{ℤ}
use cube_apiserver.Types.Infra.{Infrastructure}
use cube_apiserver.Util.Decimal.{int32_to_string}
use cube_apiserver.Infras.Calls.{Data, Event, wait_for_services, Env}
use cube_apiserver.Infras.ConfigMap.{Keys}
use cube_apiserver.Infras.Operations.{get_infra}
use cube_apiserver.Infras.Operations.Known.{reading, after_read, infrastructure_get-served}
use cube_apiserver.Infras.Service.{NodeAddress, address_loop, node_ip_get, kept}
use cube_apiserver.Infras.Service.Search.{Found, in_round, nowhere, sync_service-Found}
use cube_apiserver.Api.Resources.{NodePorts, infra_resource, to_infrastructure_resource}
use cube_apiserver.Api.Resources.Entries.{to_infrastructure_resource_port}
use cube_apiserver.Api.Infras.{
  wrote, Shared, Outside, written, with_ip, with_service, answered, handle_infrastructure_get,
}

module _ (wrapping : Wrapping) (env : Env) (outside : Outside) (rounds : ℕ) (kind : Str)
    (keys : Keys) (info : Data) (infra : Infrastructure) (addresses : List NodeAddress)
    (nodes : List (List NodeAddress)) (old : Option NodePorts) (h : List Event)
    (known : get_infra kind ≡ some keys)
    (read : env.infrastructure_gotten (reading keys info ∷ h) ≡ ok infra)
    (synced : env.services_synced (wait_for_services ∷ reading keys info ∷ h) ≡ true)
    (has_nodes : outside.nodes ≡ ok (addresses ∷ nodes)) (enough : 6000000000 < rounds) where
  abbrev before : Shared
  before = record { world = record { config_map = some info; history = h }; service = old }

  -- A request for an infrastructure that can be read, where the cache of services is filled and
  -- there is a node, is answered after at most 6000000001 looks for its service. The host has the
  -- address of the first node and, where there is a service, its first port: the service that the
  -- search found, or else the one that an earlier request had found. It is kept for the next.
  pub handle_infrastructure_get-answered :
      (o : Option NodePorts) × Found outside.lister 0 o
      × (handle_infrastructure_get wrapping env outside rounds kind before ≡ (
        written wrapping env outside rounds
            (to_infrastructure_resource infra (kept old o) (address_loop [] addresses)),
        record { world = after_read keys info h; service = kept old o },
      ))
  unfolding handle_infrastructure_get answered with_service with_ip node_ip_get
  handle_infrastructure_get-answered =
      let (o, ends, found) = sync_service-Found outside.lister rounds old enough in
      (
        o,
        found,
        rw (
          infrastructure_get-served env kind keys info infra h known read synced,
          ends,
          has_nodes,
        ),
      )

  Found-none :
      (o : Option NodePorts)
      → ((i : ℕ) → i ≤ 6000000000 → outside.lister i ≡ none)
      → Found outside.lister 0 o
      → o ≡ none
  Found-none o missing (in_round k low high hit missed) =
      let miss : outside.lister k ≡ none = missing k high in cc
  Found-none o missing (nowhere missed) = refl

  -- Where the lister never shows the infrastructure's service, the answer has the port of the
  -- service that an earlier request found, whatever infrastructure that was of.
  pub handle_infrastructure_get-stale_service :
      (port : ℤ) (ports : NodePorts) (text : Str)
      → ((i : ℕ) → i ≤ 6000000000 → outside.lister i ≡ none)
      → old ≡ some (port ∷ ports)
      → int32_to_string port ≡ some text
      → (infra.name == []) ≡ false
      → (handle_infrastructure_get wrapping env outside rounds kind before).0
        ≡ wrote (some (infra_resource infra (address_loop [] addresses ++ (str ":" ++ text))))
  unfolding written
  handle_infrastructure_get-stale_service port ports text missing earlier decimal named =
      let (o, found, result) = handle_infrastructure_get-answered in
      rw (
        result,
        Found-none o missing found,
        earlier,
        to_infrastructure_resource_port infra port ports text (address_loop [] addresses) decimal
            named,
      )
