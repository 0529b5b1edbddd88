-- ===== src/Api/Resources.antt =====
-- api/model.go: the resources that the handlers write.
pub mod Entries
use cube_apiserver.Prelude.{
  Str, str, Bool, true, false, Option, none, some, List, [], ◌∷◌, ◌++◌, map, ◌==◌, if◌then◌else◌,
}
use cube_apiserver.Base.Int.{ℤ}
use cube_apiserver.Types.Infra.{Infrastructure}
use cube_apiserver.Util.Decimal.{int32_to_string}

-- What the code sets of client.Resource; the actions are an empty map.
pub record Resource : Type 0 where
  pub id : Str
  pub resource_type : Str

-- The resource of an infrastructure; its kind is never set.
pub record InfraResource : Type 0 where
  pub resource : Resource
  pub host : Str
  pub kind : Str
  pub infra : Infrastructure

pub record NodeResource (N : Type 0) : Type 0 where
  pub resource : Resource
  pub node : N

pub record BaseInfoResource (B : Type 0) : Type 0 where
  pub resource : Resource
  pub base_info : B

pub record Message : Type 0 where
  pub resource : Resource
  pub message : Str

pub record ClusterView (R C : Type 0) : Type 0 where
  pub resource : Resource
  pub name : Str
  pub resources : R
  pub component_statuses : C

-- client.GenericCollection; an element may be a nil pointer.
pub record Collection (A : Type 0) : Type 0 where
  pub data_of : List (Option A)
  pub resource_type : Str

-- GetSchemaType
abbrev pub base_info_type : Str
base_info_type = str "baseinfo"

abbrev pub infrastructure_type : Str
infrastructure_type = str "infrastructure"

abbrev pub infra_resource : Infrastructure → Str → InfraResource
infra_resource infra host = record {
  resource = record { id = infra.name; resource_type = infrastructure_type };
  host = host;
  kind = [];
  infra = infra;
}

-- A service by the node ports of its ports.
abbrev pub NodePorts : Type 0
NodePorts = List ℤ

-- A resource, possibly a nil pointer; or a panic.
pub data Made (A : Type 0) : Type 0 where
  made : Option A → Made A
  crashed : Made A

-- The host with the first port of the service; `none` is a panic.
with_port : Str → Option Str → Option Str
with_port ip none = none
with_port ip (some port) = some (ip ++ (str ":" ++ port))

pub host_of : Str → Option NodePorts → Option Str
unfolding with_port
host_of ip none = some ip
host_of ip (some []) = none
host_of ip (some (port ∷ ports)) = with_port ip (int32_to_string port)

named_infra : Infrastructure → Option Str → Made InfraResource
named_infra infra none = crashed
named_infra infra (some host) =
    if infra.name == [] then made none else made (some (infra_resource infra host))

-- toInfrastructureResource
unfoldable pub to_infrastructure_resource :
    Infrastructure → Option NodePorts → Str → Made InfraResource
unfolding host_of named_infra
to_infrastructure_resource infra service ip = named_infra infra (host_of ip service)

-- Without a service: what toInfrastructureCollection makes of an item, of which it copies the
-- object.
abbrev pub listed_infra : Infrastructure → Option InfraResource
listed_infra infra = if infra.name == [] then none else some (infra_resource infra [])

-- toInfrastructureCollection
unfoldable pub to_infrastructure_collection : List Infrastructure → Collection InfraResource
to_infrastructure_collection items = record {
  data_of = map listed_infra items;
  resource_type = infrastructure_type;
}

-- toDeleteResource
abbrev pub to_delete_resource : Message
to_delete_resource = record {
  resource = record { id = str "delete success"; resource_type = infrastructure_type };
  message = str "delete success";
}

-- toBaseInfo: a nil list gives a nil pointer.
abbrev pub to_base_info : {B : Type 0} → Option B → Option (BaseInfoResource B)
to_base_info none = none
to_base_info (some info) = some (record {
  resource = record { id = str "baseInfo"; resource_type = base_info_type };
  base_info = info;
})

-- toClusterResource
abbrev pub to_cluster_resource : {R C : Type 0} → R → C → ClusterView R C
to_cluster_resource resources statuses = record {
  resource = record { id = str "cube"; resource_type = str "cluster" };
  name = str "cube";
  resources = resources;
  component_statuses = statuses;
}

-- toClusterCollection
abbrev pub to_cluster_collection : {R C : Type 0} → R → C → Collection (ClusterView R C)
to_cluster_collection resources statuses = record {
  data_of = some (to_cluster_resource resources statuses) ∷ [];
  resource_type = str "cluster";
}

-- toNodeResource, of a node under its name and of the pointer that is kept.
abbrev pub to_node_resource : {N : Type 0} → Str → N → Option (NodeResource N)
to_node_resource name kept =
    if name == []
    then none
    else some (record { resource = record { id = name; resource_type = str "node" }; node = kept })

abbrev pub last_node : {N : Type 0} → N → List N → N
last_node n [] = n
last_node n (m ∷ nodes) = last_node m nodes

module _ {N : Type 0} (name_of : N → Str) where
  -- The loop of toNodeCollection. Each resource keeps the address of the loop's variable, of which
  -- there is one for all rounds (Go before 1.22): when the collection is written it holds `last`.
  node_resources : N → List N → List (Option (NodeResource N))
  node_resources last [] = []
  node_resources last (n ∷ nodes) = to_node_resource (name_of n) last ∷ node_resources last nodes

  all_node_resources : List N → List (Option (NodeResource N))
  unfolding node_resources
  all_node_resources [] = []
  all_node_resources (n ∷ nodes) = node_resources (last_node n nodes) (n ∷ nodes)

  -- toNodeCollection
  unfoldable pub to_node_collection : List N → Collection (NodeResource N)
  unfolding all_node_resources
  to_node_collection nodes = record {
    data_of = all_node_resources nodes;
    resource_type = str "node";
  }
