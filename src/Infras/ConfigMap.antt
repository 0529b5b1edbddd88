-- ===== src/Infras/ConfigMap.antt =====
-- backend/configmap.go and getConfigMapInfo of backend/common.go.
pub mod Stale
use cube_apiserver.Prelude.{
  Str, str, Bool, true, false, Option, none, some, List, [], ◌∷◌, ◌++◌, ◌==◌, if◌then◌else◌,
}
use cube_apiserver.Base.Errors.{Err, is_not_found, is_already_exists, Result, ok, err, value_or}
use cube_apiserver.Infras.Calls.{Data, Event, get_config_map, create_config_map, Env, World}

-- The keys under which the config map describes an infrastructure.
pub record Keys : Type 0 where
  pub name : Str
  pub namespace : Str
  pub icon : Str
  pub desc : Str
  pub kind : Str

-- initInfrastructures
abbrev pub dashboard : Keys
dashboard = record {
  name = str "dashboardName";
  namespace = str "dashboardNamespace";
  icon = str "dashboardIcon";
  desc = str "dashboardDesc";
  kind = str "dashboardKind";
}

abbrev pub longhorn : Keys
longhorn = record {
  name = str "longhornName";
  namespace = str "longhornNamespace";
  icon = str "longhornIcon";
  desc = str "longhornDesc";
  kind = str "longhornKind";
}

abbrev pub ranchervm : Keys
ranchervm = record {
  name = str "rancherVMName";
  namespace = str "rancherVMNamespace";
  icon = str "rancherVMIcon";
  desc = str "rancherVMDesc";
  kind = str "rancherVMKind";
}

-- A key that a map does not have reads as the empty string.
unfoldable pub find : Str → Data → Str
find key [] = []
find key ((k, v) ∷ items) = let rest = find key items in if k == key then v else rest

abbrev pub entries : Keys → Str → Str → Str → Str → Str → Data
entries keys name namespace icon desc kind =
    (keys.name, name)
    ∷ (keys.namespace, namespace)
    ∷ (keys.icon, str "images/" ++ icon)
    ∷ (keys.desc, desc)
    ∷ (keys.kind, kind)
    ∷ []

-- controller/common.go: the constants of the infrastructures.
abbrev pub dashboard_name : Str
dashboard_name = str "kubernetes-dashboard"

abbrev pub longhorn_name : Str
longhorn_name = str "longhorn-frontend"

abbrev pub ranchervm_name : Str
ranchervm_name = str "ranchervm-frontend"

abbrev pub dashboard_desc : Str
dashboard_desc =
    str
      "Kubernetes Dashboard is a general purpose, web-based UI for Kubernetes clusters. It allows users to manage applications running in the cluster and troubleshoot them, as well as manage the cluster itself."

-- The data that ConfigMapDeploy sends.
abbrev pub initial_data : Data
initial_data =
    entries dashboard dashboard_name (str "kube-system") (str "logo_dashboard.png") dashboard_desc
      (str "Dashboard")
    ++ (entries longhorn longhorn_name (str "longhorn-system") (str "logo_longhorn.svg")
          (str
            "Longhorn is a distributed block storage system for Kubernetes powered by Rancher Labs.")
          (str "Longhorn")
        ++ entries ranchervm ranchervm_name (str "ranchervm-system") (str "logo_ranchervm.jpg")
            (str "Package and run KVM images as Kubernetes pods, run at scale.") (str "RancherVM"))

module _ (env : Env) where
  -- ConfigMapGet
  config_map_get : List Event → Result Data × List Event
  config_map_get h = (env.config_map_gotten (get_config_map ∷ h), get_config_map ∷ h)

  created_or_gotten : Result Data → List Event → Result Data × List Event
  unfolding config_map_get
  created_or_gotten (ok d) h = (ok d, h)
  created_or_gotten (err e) h = if is_already_exists e then config_map_get h else (err e, h)

  -- ConfigMapDeploy
  unfoldable pub config_map_deploy : List Event → Result Data × List Event
  unfolding created_or_gotten
  config_map_deploy h =
      let e = create_config_map initial_data in
      created_or_gotten (env.config_map_created (e ∷ h)) (e ∷ h)

  -- The shared variable takes what the client returns, the zero object beside an error too.
  read : Result Data × List Event → Result Data × World
  read (ok d, h) = (ok d, record { config_map = some d; history = h })
  read (err e, h) =
      let deployed = config_map_deploy h in
      if is_not_found e
      then (deployed.0, record { config_map = some []; history = deployed.1 })
      else (err e, record { config_map = some []; history = h })

  cached_or_read : Option Data → List Event → Result Data × World
  unfolding config_map_get read
  cached_or_read (some d) h = (ok d, record { config_map = some d; history = h })
  cached_or_read none h = read (config_map_get h)

  -- getConfigMapInfo
  unfoldable pub get_config_map_info : World → Result Data × World
  unfolding cached_or_read
  get_config_map_info w = cached_or_read w.config_map w.history
