-- ===== src/Controller/Infra/Dashboard.antt =====
-- controller/infra_controller.go: createDashboard and updateDashboard, with the objects they send.
use cube_apiserver.Prelude.{Str, str, some, List, [], ◌∷◌}
use cube_apiserver.Base.Errors.{Result}
use cube_apiserver.Base.Effect.{◌>>◌, run}
use cube_apiserver.Base.Int.{pos}
use cube_apiserver.Types.Meta.{Owners}
use cube_apiserver.Types.Infra.{Infrastructure}
use cube_apiserver.Types.Rbac.{PolicyRule, Role, Binding}
use cube_apiserver.Types.Workloads.{
  Container, zero_container, secret_volume, empty_dir, PodSpec, zero_pod_spec, Deployment, Service,
  Secret,
}
use cube_apiserver.Controller.Infra.Calls.{
  Event, secret, service_account, role, role_binding, cluster_role_binding, service, Env,
}
use cube_apiserver.Controller.Infra.Bundles.{
  kube_system, owned_meta, ref_to_role, account_subject, in_namespace, make, make_main, update_main,
}

abbrev pub dashboard_app : Str
dashboard_app = str "kubernetes-dashboard"

abbrev pub dashboard_labels : List (Str × Str)
dashboard_labels = (str "k8s-app", dashboard_app) ∷ []

abbrev pub certs : Str
certs = str "kubernetes-dashboard-certs"

abbrev pub minimal : Str
minimal = str "kubernetes-dashboard-minimal"

-- A rule on some objects of a resource of the core group.
abbrev pub core_rule : Str → List Str → List Str → PolicyRule
core_rule resource names verbs = record {
  api_groups = [] ∷ [];
  resources = resource ∷ [];
  resource_names = names;
  verbs = verbs;
}

abbrev pub dashboard_rules : List PolicyRule
dashboard_rules =
    core_rule (str "secrets") [] (str "create" ∷ [])
    ∷ core_rule (str "configmaps") [] (str "create" ∷ [])
    ∷ core_rule (str "secrets") (str "kubernetes-dashboard-key-holder" ∷ certs ∷ [])
        (str "get" ∷ str "update" ∷ str "delete" ∷ [])
    ∷ core_rule (str "configmaps") (str "kubernetes-dashboard-settings" ∷ [])
        (str "get" ∷ str "update" ∷ [])
    ∷ core_rule (str "services") (str "heapster" ∷ []) (str "proxy" ∷ [])
    ∷ core_rule (str "services/proxy")
        (str "heapster" ∷ str "http:heapster:" ∷ str "https:heapster:" ∷ []) (str "get" ∷ [])
    ∷ []

abbrev pub dashboard_container : Str → Container
dashboard_container image = record zero_container {
  name = dashboard_app;
  image = image;
  ports = record { container_port = 9090; protocol = str "TCP" } ∷ [];
  args =
      str "--enable-insecure-login=true"
      ∷ str "--insecure-bind-address=0.0.0.0"
      ∷ str "--insecure-port=9090"
      ∷ [];
  volume_mounts =
      record { name = certs; mount_path = str "/certs" }
      ∷ record { name = str "tmp-volume"; mount_path = str "/tmp" }
      ∷ [];
  liveness_probe = some (record {
    scheme = str "HTTP";
    path = str "/";
    port = 9090;
    initial_delay_seconds = 30;
    timeout_seconds = 30;
  });
}

abbrev pub dashboard_pods : Str → PodSpec
dashboard_pods image = record zero_pod_spec {
  containers = dashboard_container image ∷ [];
  volumes =
      record { name = certs; source = secret_volume certs }
      ∷ record { name = str "tmp-volume"; source = empty_dir }
      ∷ [];
  service_account_name = dashboard_app;
  tolerations =
      record { key = str "node-role.kubernetes.io/master"; effect = str "NoSchedule" } ∷ [];
}

module _ (owners : Owners) (infra : Infrastructure) where
  abbrev pub dashboard_secret : Secret
  dashboard_secret = record {
    metadata = owned_meta owners infra kube_system certs dashboard_labels;
    secret_type = str "Opaque";
  }

  abbrev pub dashboard_role : Role
  dashboard_role = record {
    metadata = owned_meta owners infra kube_system minimal [];
    rules = dashboard_rules;
  }

  abbrev pub dashboard_binding : Binding
  dashboard_binding = record {
    metadata = owned_meta owners infra kube_system minimal [];
    role_ref = ref_to_role (str "Role") minimal;
    subjects = account_subject kube_system dashboard_app ∷ [];
  }

  abbrev pub dashboard_admin : Binding
  dashboard_admin = record {
    metadata = owned_meta owners infra [] (str "dashboard-admin") [];
    role_ref = ref_to_role (str "ClusterRole") (str "cluster-admin");
    subjects = account_subject kube_system dashboard_app ∷ [];
  }

  abbrev pub dashboard_service : Service
  dashboard_service = record {
    metadata = owned_meta owners infra kube_system dashboard_app dashboard_labels;
    ports = record { name = []; port = 9090; target_port = 9090 } ∷ [];
    selector = dashboard_labels;
    service_type = str "NodePort";
  }

  abbrev pub dashboard_deployment : Deployment
  dashboard_deployment = record {
    metadata = owned_meta owners infra kube_system dashboard_app dashboard_labels;
    spec = record {
      replicas = infra.spec.replicas;
      revision_history_limit = some (pos 1);
      selector = dashboard_labels;
      template_labels = dashboard_labels;
      template = dashboard_pods infra.spec.images.dashboard;
    };
    available_replicas = pos 0;
  }

module _ (owners : Owners) (env : Env) (infra : Infrastructure) where
  -- createDashboard
  unfoldable pub create_dashboard : List Event → Result Deployment × List Event
  create_dashboard h =
      run
        (do
          in_namespace env kube_system
          make env kube_system (secret (dashboard_secret owners infra))
          make env kube_system
              (service_account (owned_meta owners infra kube_system dashboard_app dashboard_labels))
          make env kube_system (role (dashboard_role owners infra))
          make env kube_system (role_binding (dashboard_binding owners infra))
          make env [] (cluster_role_binding (dashboard_admin owners infra))
          make env kube_system (service (dashboard_service owners infra))
          make_main env kube_system (dashboard_deployment owners infra))
        h

  -- updateDashboard
  unfoldable pub update_dashboard : List Event → Result Deployment × List Event
  update_dashboard h =
      run
        (do
          in_namespace env kube_system
          update_main env kube_system (dashboard_deployment owners infra))
        h
