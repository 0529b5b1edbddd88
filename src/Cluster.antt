-- ===== src/Cluster.antt =====
-- backend/cluster.go: the resources of the cluster.
pub mod Sums
mod Examples
use cube_apiserver.Prelude.{
  ℕ, Str, str, Bool, true, false, ◌||◌, Option, none, some, List, [], ◌∷◌, ◌++◌, ◌==◌, length,
  if◌then◌else◌,
}
use cube_apiserver.Base.Errors.{Err, Result, ok, err}

-- resource.Quantity of k8s.io/apimachinery: the zero value, Add, `Cmp(…) > 0` and NewQuantity.
pub record Quantities : Type 1 where
  pub Q : Type 0
  pub zero : Q
  pub add : Q → Q → Q
  pub greater : Q → Q → Bool
  pub new_quantity : ℕ → Q

-- A map from names of resources to quantities. A loop over such a map that reads and writes other
-- maps at its own key only is a function of each key.
abbrev pub ResourceList : Type 0 → Type 0
ResourceList Q = Str → Option Q

pub record Container (Q : Type 0) : Type 0 where
  pub requests : ResourceList Q
  pub limits : ResourceList Q

pub record Pod (Q : Type 0) : Type 0 where
  pub name : Str
  pub namespace : Str
  pub node_name : Str
  -- whether the deletion timestamp is set
  pub deleting : Bool
  pub phase : Str
  pub containers : List (Container Q)
  pub init_containers : List (Container Q)

-- A nil map is none.
pub record Node (Q : Type 0) : Type 0 where
  pub name : Str
  pub capacity : Option (ResourceList Q)
  pub allocatable : Option (ResourceList Q)

pub record ClusterResource (Q : Type 0) : Type 0 where
  pub capacity : Option (ResourceList Q)
  pub allocatable : Option (ResourceList Q)
  pub requested : Option (ResourceList Q)
  pub limits : Option (ResourceList Q)

pub data Event : Type 0 where
  list_nodes : Event
  -- by a field selector
  list_pods : Str → Event

-- The answers, each to the newest call, and fields.ParseSelector with the text of its result.
pub record Env (Q : Type 0) : Type 0 where
  pub nodes_listed : List Event → Result (List (Node Q))
  pub pods_listed : List Event → Result (List (Pod Q))
  pub parse_selector : Str → Result Str

abbrev pub empty_list {ℓ} : {Q : Type ℓ} → Str → Option Q
empty_list name = none

module _ (quantities : Quantities) where
  open quantities use {Q, zero, add, greater, new_quantity}

  -- One key of addMap: the value that the second map has after it.
  unfoldable pub added : Option Q → Option Q → Option Q
  added none value = value
  added (some q) none = some q
  added (some q) (some v) = some (add v q)

  -- One key of addMapForInit.
  unfoldable pub raised : Option Q → Option Q → Option Q
  raised none value = value
  raised (some q) none = some q
  raised (some q) (some v) = if greater q v then some q else some v

  -- addMap and addMapForInit: the second map after the loop.
  abbrev pub add_map : ResourceList Q → ResourceList Q → ResourceList Q
  add_map data1 data2 name = added (data1 name) (data2 name)

  abbrev pub add_map_for_init : ResourceList Q → ResourceList Q → ResourceList Q
  add_map_for_init data1 data2 name = raised (data1 name) (data2 name)

  abbrev pub Amounts : Type 0
  Amounts = ResourceList Q × ResourceList Q

  -- The loops of getPodData.
  unfoldable pub add_containers : List (Container Q) → Amounts → Amounts
  add_containers [] amounts = amounts
  add_containers (c ∷ containers) (requests, limits) =
      add_containers containers (add_map c.requests requests, add_map c.limits limits)

  unfoldable pub add_init_containers : List (Container Q) → Amounts → Amounts
  add_init_containers [] amounts = amounts
  add_init_containers (c ∷ containers) (requests, limits) =
      add_init_containers containers
        (add_map_for_init c.requests requests, add_map_for_init c.limits limits)

  -- getPodData
  unfoldable pub get_pod_data : Pod Q → Amounts
  unfolding add_containers add_init_containers
  get_pod_data pod =
      add_init_containers pod.init_containers
        (add_containers pod.containers (empty_list, empty_list))

  -- `podsData[name] = …`: a name that is there is overwritten.
  unfoldable pub put : Str → Amounts → List (Str × Amounts) → List (Str × Amounts)
  put name a [] = (name, a) ∷ []
  put name a ((n, b) ∷ rest) =
      let tail = put name a rest in if n == name then (n, a) ∷ rest else (n, b) ∷ tail

  -- The first loop of aggregateRequestAndLimitsForNode.
  unfoldable pub pods_data : List (Pod Q) → List (Str × Amounts) → List (Str × Amounts)
  unfolding put get_pod_data
  pods_data [] collected = collected
  pods_data (pod ∷ pods) collected = pods_data pods (put pod.name (get_pod_data pod) collected)

  -- The second loop; Go visits the pods in any order, this in that of their first entry.
  unfoldable pub add_all : List (Str × Amounts) → Amounts → Amounts
  add_all [] amounts = amounts
  add_all ((_, (r, l)) ∷ rest) (requests, limits) =
      add_all rest (add_map r requests, add_map l limits)

  -- `requests["pods"]`
  abbrev pub pod_count : List (Pod Q) → ResourceList Q
  pod_count pods name = if name == str "pods" then some (new_quantity (length pods)) else none

  -- aggregateRequestAndLimitsForNode
  unfoldable pub aggregate : List (Pod Q) → Amounts
  unfolding pods_data add_all
  aggregate pods = add_all (pods_data pods []) (pod_count pods, empty_list)

  abbrev pub has_ended : Str → Bool
  has_ended phase = phase == str "Succeeded" || phase == str "Failed"

  -- The loop of getNodePods.
  unfoldable pub match_pods : List (Pod Q) → List (Pod Q)
  match_pods [] = []
  match_pods (pod ∷ pods) =
      let rest = match_pods pods in
      if pod.node_name == [] || pod.deleting
      then rest
      else if has_ended pod.phase
      then rest
      else pod ∷ rest

  -- The quantity of a list under a name; zero where there is none.
  abbrev pub quantity_of : ResourceList Q → Str → Q
  quantity_of resources name = elim (resources name) [ none ↦ zero | some q ↦ q ]

  -- One of the sums over the nodes.
  unfoldable pub sum_of :
      (ClusterResource Q → Option (ResourceList Q)) → Str → List (ClusterResource Q) → Q → Q
  sum_of part name [] total = total
  sum_of part name (c ∷ rest) total = elim (part c) [
    | none ↦ sum_of part name rest total
    | some resources ↦ sum_of part name rest (add total (quantity_of resources name))
  ]

  abbrev pub summed :
      (ClusterResource Q → Option (ResourceList Q)) → List (ClusterResource Q) → Str → Option Q
  summed part all name =
      if name == str "pods" || (name == str "memory" || name == str "cpu")
      then some (sum_of part name all zero)
      else none

  -- The answer of ClusterResources.
  unfoldable pub totals : List (ClusterResource Q) → ClusterResource Q
  unfolding sum_of
  totals all = record {
    capacity = some (summed (λ c. c.capacity) all);
    allocatable = some (summed (λ c. c.allocatable) all);
    requested = some (summed (λ c. c.requested) all);
    limits = some (summed (λ c. c.limits) all);
  }

  abbrev pub node_resource : Node Q → Amounts → ClusterResource Q
  node_resource node (requests, limits) = record {
    capacity = node.capacity;
    allocatable = node.allocatable;
    requested = some requests;
    limits = some limits;
  }

  -- `make([]ClusterResource, n)`: n entries of nil maps.
  abbrev pub nil_resource : ClusterResource Q
  nil_resource = record { capacity = none; allocatable = none; requested = none; limits = none }

  unfoldable pub made : {A : Type 0} → List A → List (ClusterResource Q)
  made [] = []
  made (_ ∷ nodes) = nil_resource ∷ made nodes

  module _ (env : Env Q) where
    abbrev pub node_selector : Str → Str
    node_selector name =
        str "spec.nodeName=" ++ (name ++ str ",status.phase!=Succeeded,status.phase!=Failed")

    matched : Result (List (Pod Q)) → Result (List (Pod Q))
    unfolding match_pods
    matched (ok pods) = ok (match_pods pods)
    matched (err e) = err e

    selected : Result Str → List Event → Result (List (Pod Q)) × List Event
    unfolding matched
    selected (err e) h = (err e, h)
    selected (ok selector) h =
        (matched (env.pods_listed (list_pods selector ∷ h)), list_pods selector ∷ h)

    -- getNodePods
    pub get_node_pods : Str → List Event → Result (List (Pod Q)) × List Event
    unfolding selected
    get_node_pods name h = selected (env.parse_selector (node_selector name)) h

    -- A node whose pods cannot be listed is passed over.
    pub node_entry : Node Q → Result (List (Pod Q)) → List (ClusterResource Q)
    unfolding aggregate
    node_entry node (err e) = []
    node_entry node (ok pods) = node_resource node (aggregate pods) ∷ []

    -- The loop over the nodes: what it appends.
    unfoldable pub visit_nodes : List (Node Q) → List Event → List (ClusterResource Q) × List Event
    unfolding get_node_pods node_entry
    visit_nodes [] h = ([], h)
    visit_nodes (node ∷ nodes) h =
        let pods = get_node_pods node.name h in
        let rest = visit_nodes nodes pods.1 in (node_entry node pods.0 ++ rest.0, rest.1)

    resources_of : Result (List (Node Q)) → List Event → Result (ClusterResource Q) × List Event
    unfolding visit_nodes made totals
    resources_of (err e) h = (err e, h)
    resources_of (ok nodes) h =
        let visited = visit_nodes nodes h in (ok (totals (made nodes ++ visited.0)), visited.1)

    -- ClusterResources
    unfoldable pub cluster_resources : List Event → Result (ClusterResource Q) × List Event
    unfolding resources_of
    cluster_resources h = resources_of (env.nodes_listed (list_nodes ∷ h)) (list_nodes ∷ h)
