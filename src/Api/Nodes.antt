-- ===== src/Api/Nodes.antt =====
-- api/node.go, and the first answer of api/cluster.go and api/baseinfo.go, by the results of the
-- backend. The streams that follow the first answer are wiring of informers.
use cube_apiserver.Prelude.{Str, str, some, List}
use cube_apiserver.Base.Errors.{Result, ok, err, Wrapping}
use cube_apiserver.Api.Resources.{
  Collection, NodeResource, BaseInfoResource, ClusterView, to_node_resource, to_node_collection,
  to_base_info, to_cluster_collection,
}
use cube_apiserver.Api.Infras.{Response, wrote, refused}

module _ (wrapping : Wrapping) where
  module _ {N : Type 0} (name_of : N → Str) where
    -- Server.NodeList
    unfoldable pub handle_node_list : Result (List N) → Response (Collection (NodeResource N))
    handle_node_list (ok nodes) = wrote (some (to_node_collection name_of nodes))
    handle_node_list (err e) =
        refused (wrapping.wrap (some e) (str "RancherCUBE: fail to read nodes"))

    -- Server.NodeGet
    unfoldable pub handle_node_get : Result N → Response (NodeResource N)
    handle_node_get (ok node) = wrote (to_node_resource (name_of node) node)
    handle_node_get (err e) =
        refused (wrapping.wrap (some e) (str "RancherCUBE: fail to read node"))

  with_statuses : {R C : Type 0} → R → Result C → Response (Collection (ClusterView R C))
  with_statuses resources (ok statuses) = wrote (some (to_cluster_collection resources statuses))
  with_statuses resources (err e) =
      refused (wrapping.wrap (some e) (str "RancherCUBE: fail to read clusters component statuses"))

  -- Server.ClusterList, up to its first answer.
  unfoldable pub first_cluster_list :
      {R C : Type 0} → Result R → Result C → Response (Collection (ClusterView R C))
  unfolding with_statuses
  first_cluster_list (ok resources) statuses = with_statuses resources statuses
  first_cluster_list (err e) statuses =
      refused (wrapping.wrap (some e) (str "RancherCUBE: fail to read clusters resources"))

-- Server.BaseInfoGet, up to its first answer.
unfoldable pub first_base_info : {B : Type 0} → Result B → Response (BaseInfoResource B)
first_base_info (ok info) = wrote (to_base_info (some info))
first_base_info (err e) = refused (some e)
