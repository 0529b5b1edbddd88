-- ===== src/Api/Resources/Entries.antt =====
-- The entries of the collections and resources of api/model.go.
use cube_apiserver.Prelude.{
  Str, str, false, none, some, List, [], ◌∷◌, ◌++◌, map, ◌≡◌, refl, ◌==◌, arith, ap,
}
use cube_apiserver.Base.Int.{ℤ}
use cube_apiserver.Types.Infra.{Infrastructure}
use cube_apiserver.Util.Decimal.{int32_to_string}
use cube_apiserver.Api.Resources.{
  NodePorts, made, with_port, host_of, named_infra, infra_resource, listed_infra,
  to_infrastructure_resource, to_node_resource, last_node, node_resources, all_node_resources,
  to_node_collection,
}

-- With a service, the host is the address and the service's first port.
pub to_infrastructure_resource_port :
    (infra : Infrastructure) (port : ℤ) (ports : NodePorts) (text ip : Str)
    → int32_to_string port ≡ some text
    → (infra.name == []) ≡ false
    → to_infrastructure_resource infra (some (port ∷ ports)) ip
      ≡ made (some (infra_resource infra (ip ++ (str ":" ++ text))))
unfolding to_infrastructure_resource with_port host_of named_infra
to_infrastructure_resource_port infra port ports text ip decimal named = rw (decimal, named)

-- An entry of the collection is the resource of its item, without a service and an address.
to_infrastructure_resource-listed_infra :
    (infra : Infrastructure) → to_infrastructure_resource infra none [] ≡ made (listed_infra infra)
unfolding to_infrastructure_resource host_of named_infra
to_infrastructure_resource-listed_infra infra = ground arith

module _ {N : Type 0} (name_of : N → Str) where
  node_resources-last :
      (last : N) (nodes : List N)
      → node_resources name_of last nodes ≡ map (λ n. to_node_resource (name_of n) last) nodes
  unfolding node_resources
  node_resources-last last [] = refl
  node_resources-last last (n ∷ nodes) =
      ap (λ rest. to_node_resource (name_of n) last ∷ rest) (node_resources-last last nodes)

  -- Each entry of a collection of nodes has the name of its own node, and the data of the last node
  -- of the list.
  pub to_node_collection-last_node :
      (n : N) (nodes : List N)
      → (to_node_collection name_of (n ∷ nodes)).data_of
        ≡ map (λ m. to_node_resource (name_of m) (last_node n nodes)) (n ∷ nodes)
  unfolding to_node_collection all_node_resources
  to_node_collection-last_node n nodes = node_resources-last (last_node n nodes) (n ∷ nodes)
