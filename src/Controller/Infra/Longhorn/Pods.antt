-- ===== src/Controller/Infra/Longhorn/Pods.antt =====
-- The rules and the pods that createLonghorn of controller/infra_controller.go sends.
use cube_apiserver.Prelude.{Str, str, true, some, List, [], ◌∷◌}
use cube_apiserver.Types.Infra.{InfraImages}
use cube_apiserver.Types.Rbac.{PolicyRule}
use cube_apiserver.Types.Workloads.{
  VolumeMount, Container, zero_container, host_path, Volume, PodSpec, zero_pod_spec,
}
use cube_apiserver.Controller.Infra.Bundles.{any_verb, from_field, set_to}

abbrev pub longhorn_account : Str
longhorn_account = str "longhorn-service-account"

abbrev pub longhorn_frontend : Str
longhorn_frontend = str "longhorn-frontend"

abbrev pub longhorn_manager : Str
longhorn_manager = str "longhorn-manager"

abbrev pub longhorn_deployer : Str
longhorn_deployer = str "longhorn-flexvolume-driver-deployer"

abbrev pub longhorn_rules : List PolicyRule
longhorn_rules =
    any_verb (str "apiextensions.k8s.io" ∷ []) (str "customresourcedefinitions" ∷ [])
    ∷ any_verb ([] ∷ []) (
        str "pods"
        ∷ str "events"
        ∷ str "persistentvolumes"
        ∷ str "persistentvolumeclaims"
        ∷ str "nodes"
        ∷ str "proxy/nodes"
        ∷ str "pods/log"
        ∷ str "secrets"
        ∷ [])
    ∷ any_verb (str "apps" ∷ []) (str "daemonsets" ∷ [])
    ∷ any_verb (str "batch" ∷ []) (str "jobs" ∷ str "cronjobs" ∷ [])
    ∷ any_verb (str "storage.k8s.io" ∷ []) (str "storageclasses" ∷ [])
    ∷ any_verb (str "longhorn.rancher.io" ∷ [])
        (str "volumes" ∷ str "engines" ∷ str "replicas" ∷ str "settings" ∷ str "engineimages" ∷ [])
    ∷ []

abbrev pub mounted : Str → Str → VolumeMount
mounted name path = record { name = name; mount_path = path }

abbrev pub host_volume : Str → Str → Volume
host_volume name path = record { name = name; source = host_path path }

abbrev pub manager_container : InfraImages → Container
manager_container images = record zero_container {
  name = longhorn_manager;
  image = images.longhorn_manager;
  image_pull_policy = str "Always";
  privileged = some true;
  command =
      longhorn_manager
      ∷ str "-d"
      ∷ str "daemon"
      ∷ str "--engine-image"
      ∷ images.longhorn_engine
      ∷ str "--manager-image"
      ∷ images.longhorn_manager
      ∷ str "--service-account"
      ∷ longhorn_account
      ∷ [];
  ports = record { container_port = 9500; protocol = [] } ∷ [];
  volume_mounts =
      mounted (str "dev") (str "/host/dev/")
      ∷ mounted (str "proc") (str "/host/proc/")
      ∷ mounted (str "varrun") (str "/var/run/")
      ∷ mounted (str "longhorn") (str "/var/lib/rancher/longhorn/")
      ∷ [];
  env =
      from_field (str "POD_NAMESPACE") (str "metadata.namespace")
      ∷ from_field (str "POD_IP") (str "status.podIP")
      ∷ from_field (str "NODE_NAME") (str "spec.nodeName")
      ∷ [];
}

abbrev pub manager_pods : InfraImages → PodSpec
manager_pods images = record zero_pod_spec {
  containers = manager_container images ∷ [];
  volumes =
      host_volume (str "dev") (str "/dev/")
      ∷ host_volume (str "proc") (str "/proc/")
      ∷ host_volume (str "varrun") (str "/var/run/")
      ∷ host_volume (str "longhorn") (str "/var/lib/rancher/longhorn/")
      ∷ [];
  service_account_name = longhorn_account;
}

abbrev pub deployer_pods : InfraImages → PodSpec
deployer_pods images = record zero_pod_spec {
  containers =
      record zero_container {
        name = longhorn_deployer;
        image = images.longhorn_flexvolume_driver;
        image_pull_policy = str "Always";
        command =
            longhorn_manager
            ∷ str "-d"
            ∷ str "deploy-flexvolume-driver"
            ∷ str "--manager-image"
            ∷ images.longhorn_flexvolume_driver
            ∷ [];
        env =
            from_field (str "POD_NAMESPACE") (str "metadata.namespace")
            ∷ from_field (str "NODE_NAME") (str "spec.nodeName")
            ∷ set_to (str "FLEXVOLUME_DIR") []
            ∷ [];
      }
      ∷ [];
  service_account_name = longhorn_account;
}

abbrev pub longhorn_ui_pods : InfraImages → PodSpec
longhorn_ui_pods images = record zero_pod_spec {
  containers =
      record zero_container {
        name = longhorn_frontend;
        image = images.longhorn_ui;
        ports = record { container_port = 8000; protocol = [] } ∷ [];
        env = set_to (str "LONGHORN_MANAGER_IP") (str "http://longhorn-backend:9500") ∷ [];
      }
      ∷ [];
}
