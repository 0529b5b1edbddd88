-- ===== src/Controller/Infra/RancherVm.antt =====
-- controller/infra_controller.go: createRancherVM and updateRancherVM, with the objects they send.
use cube_apiserver.Prelude.{Str, str, true, none, List, [], ◌∷◌}
use cube_apiserver.Base.Errors.{Result}
use cube_apiserver.Base.Effect.{◌>>◌, run}
use cube_apiserver.Base.Int.{pos}
use cube_apiserver.Types.Meta.{Owners}
use cube_apiserver.Types.Infra.{InfraImages, Infrastructure}
use cube_apiserver.Types.Rbac.{PolicyRule, Role, Binding}
use cube_apiserver.Types.Workloads.{
  Container, zero_container, AffinityTerm, PodSpec, zero_pod_spec, Deployment, DaemonSet, Service,
}
use cube_apiserver.Controller.Infra.Calls.{
  Event, service_account, cluster_role, cluster_role_binding, daemon_set, service, Env,
}
use cube_apiserver.Controller.Infra.Bundles.{
  ranchervm_namespace, owned_meta, ref_to_role, account_subject, app_label, any_verb, from_field,
  set_to, in_namespace, make, make_deployment, make_main,
}

abbrev pub ranchervm_account : Str
ranchervm_account = str "ranchervm-service-account"

abbrev pub ranchervm_controller_name : Str
ranchervm_controller_name = str "ranchervm-controller"

abbrev pub ranchervm_backend_name : Str
ranchervm_backend_name = str "ranchervm-backend"

abbrev pub ranchervm_frontend_name : Str
ranchervm_frontend_name = str "ranchervm-frontend"

abbrev pub ip_controller_name : Str
ip_controller_name = str "ip-controller"

abbrev pub ranchervm_rules : List PolicyRule
ranchervm_rules =
    any_verb (str "apiextensions.k8s.io" ∷ []) (str "customresourcedefinitions" ∷ [])
    ∷ any_verb ([] ∷ str "batch" ∷ [])
        (str "pods" ∷ str "nodes" ∷ str "services" ∷ str "jobs" ∷ str "endpoints" ∷ [])
    ∷ any_verb (str "vm.rancher.com" ∷ []) (str "virtualmachines" ∷ [])
    ∷ any_verb (str "vm.rancher.com" ∷ []) (str "arptables" ∷ [])
    ∷ any_verb (str "vm.rancher.com" ∷ []) (str "credentials" ∷ [])
    ∷ []

abbrev pub arp_script : Str
arp_script =
    str
      "while true; do iface=br0; inet_addr=$(ifconfig $iface | grep \"inet \" | awk '{print $2}' | cut -d':' -f2);inet_mask=$(ifconfig $iface | grep \"inet \" | awk '{print $4}' | cut -d':' -f2);ips=\"$(arp-scan -interface=$iface $inet_addr:$inet_mask | awk -F'\\t' '$2 ~ /[0-9a-f][0-9a-f]:/ {print $1}')\";for ip in $ips; do ping -c 1 -t 1 $ip &>/dev/null & done; sleep 5; done"

-- The containers of the daemon set have the image of RancherVM and are pulled always.
abbrev pub ip_pods : InfraImages → PodSpec
ip_pods images = record zero_pod_spec {
  host_network = true;
  containers =
      record zero_container {
        name = ip_controller_name;
        image = images.ranchervm;
        image_pull_policy = str "Always";
        command = str "sh" ∷ str "-c" ∷ [];
        args = str "exec /ranchervm -ip -nodename ${MY_NODE_NAME} -v 3" ∷ [];
        env = from_field (str "MY_NODE_NAME") (str "spec.nodeName") ∷ [];
      }
      ∷ record zero_container {
        name = str "arp-scanner";
        image = images.ranchervm;
        image_pull_policy = str "Always";
        command = str "bash" ∷ str "-c" ∷ [];
        args = arp_script ∷ [];
      }
      ∷ [];
  service_account_name = ranchervm_account;
}

-- Pods with the name as their `app` are kept apart by host.
abbrev pub apart : Str → AffinityTerm
apart name = record {
  match_expressions = record { key = str "app"; operator = str "In"; values = name ∷ [] } ∷ [];
  topology_key = str "kubernetes.io/hostname";
}

abbrev pub ranchervm_pods : Container → Str → PodSpec
ranchervm_pods container account = record zero_pod_spec {
  anti_affinity = apart container.name ∷ [];
  containers = container ∷ [];
  service_account_name = account;
}

abbrev pub controller_container : InfraImages → Container
controller_container images = record zero_container {
  name = ranchervm_controller_name;
  image = images.ranchervm;
  image_pull_policy = str "Always";
  args = str "--vm" ∷ str "--bridge-iface=eth0" ∷ str "--v=3" ∷ [];
}

abbrev pub backend_container : InfraImages → Container
backend_container images = record zero_container {
  name = ranchervm_backend_name;
  image = images.ranchervm;
  image_pull_policy = str "Always";
  args = str "--backend" ∷ [];
}

abbrev pub frontend_container : InfraImages → Container
frontend_container images = record zero_container {
  name = ranchervm_frontend_name;
  image = images.ranchervm_frontend;
  image_pull_policy = str "Always";
  env = set_to (str "LONGHORN_MANAGER_IP") (str "http://ranchervm-backend:9500") ∷ [];
}

module _ (owners : Owners) (infra : Infrastructure) where
  abbrev pub ranchervm_role : Role
  ranchervm_role = record {
    metadata = owned_meta owners infra [] (str "ranchervm-role") [];
    rules = ranchervm_rules;
  }

  abbrev pub ranchervm_binding : Binding
  ranchervm_binding = record {
    metadata = owned_meta owners infra [] (str "ranchervm-bind") [];
    role_ref = ref_to_role (str "ClusterRole") (str "ranchervm-role");
    subjects = account_subject ranchervm_namespace ranchervm_account ∷ [];
  }

  abbrev pub ip_controller : DaemonSet
  ip_controller = record {
    metadata = owned_meta owners infra ranchervm_namespace ip_controller_name [];
    selector = app_label ip_controller_name;
    template_labels = app_label ip_controller_name;
    template = ip_pods infra.spec.images;
  }

  abbrev pub ranchervm_backend_service : Service
  ranchervm_backend_service = record {
    metadata = owned_meta owners infra ranchervm_namespace ranchervm_backend_name [];
    ports = record { name = str "api"; port = 9500; target_port = 0 } ∷ [];
    selector = app_label ranchervm_backend_name;
    service_type = str "ClusterIP";
  }

  abbrev pub ranchervm_frontend_service : Service
  ranchervm_frontend_service = record {
    metadata = owned_meta owners infra ranchervm_namespace ranchervm_frontend_name [];
    ports = record { name = str "ui"; port = 8000; target_port = 0 } ∷ [];
    selector = app_label ranchervm_frontend_name;
    service_type = str "NodePort";
  }

  -- A deployment of one container, which has the deployment's name.
  abbrev pub ranchervm_deployment : Container → Str → Deployment
  ranchervm_deployment container account = record {
    metadata = owned_meta owners infra ranchervm_namespace container.name [];
    spec = record {
      replicas = infra.spec.replicas;
      revision_history_limit = none;
      selector = app_label container.name;
      template_labels = app_label container.name;
      template = ranchervm_pods container account;
    };
    available_replicas = pos 0;
  }

  abbrev pub ranchervm_controller : Deployment
  ranchervm_controller =
      ranchervm_deployment (controller_container infra.spec.images) ranchervm_account

  abbrev pub ranchervm_backend : Deployment
  ranchervm_backend = ranchervm_deployment (backend_container infra.spec.images) ranchervm_account

  abbrev pub ranchervm_frontend : Deployment
  ranchervm_frontend = ranchervm_deployment (frontend_container infra.spec.images) []

module _ (owners : Owners) (env : Env) (infra : Infrastructure) where
  -- createRancherVM
  unfoldable pub create_rancher_vm : List Event → Result Deployment × List Event
  create_rancher_vm h =
      run
        (do
          in_namespace env ranchervm_namespace
          make env ranchervm_namespace
              (service_account (owned_meta owners infra ranchervm_namespace ranchervm_account []))
          make env [] (cluster_role (ranchervm_role owners infra))
          make env [] (cluster_role_binding (ranchervm_binding owners infra))
          make env ranchervm_namespace (daemon_set (ip_controller owners infra))
          make env ranchervm_namespace (service (ranchervm_backend_service owners infra))
          make env ranchervm_namespace (service (ranchervm_frontend_service owners infra))
          make_deployment env ranchervm_namespace (ranchervm_controller owners infra)
          make_deployment env ranchervm_namespace (ranchervm_backend owners infra)
          make_main env ranchervm_namespace (ranchervm_frontend owners infra))
        h

  -- updateRancherVM, which creates the deployments again
  unfoldable pub update_rancher_vm : List Event → Result Deployment × List Event
  update_rancher_vm h =
      run
        (do
          in_namespace env ranchervm_namespace
          make_deployment env ranchervm_namespace (ranchervm_controller owners infra)
          make_deployment env ranchervm_namespace (ranchervm_backend owners infra)
          make_main env ranchervm_namespace (ranchervm_frontend owners infra))
        h
