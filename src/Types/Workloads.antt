-- ===== src/Types/Workloads.antt =====
-- What the code writes of k8s.io/api/core/v1, apps/v1 and extensions/v1beta1, with Go's zero values.
use cube_apiserver.Prelude.{ℕ, Str, Bool, false, Option, none, List, []}
use cube_apiserver.Base.Int.{ℤ, pos}
use cube_apiserver.Types.Meta.{ObjectMeta, zero_meta}

-- The value of a variable, or the path of the field that it is read from.
pub record EnvVar : Type 0 where
  pub name : Str
  pub value : Str
  pub field_path : Option Str

pub record ContainerPort : Type 0 where
  pub container_port : ℕ
  pub protocol : Str

pub record VolumeMount : Type 0 where
  pub name : Str
  pub mount_path : Str

-- A probe by an HTTP GET.
pub record Probe : Type 0 where
  pub scheme : Str
  pub path : Str
  pub port : ℕ
  pub initial_delay_seconds : ℕ
  pub timeout_seconds : ℕ

pub record Container : Type 0 where
  pub name : Str
  pub image : Str
  pub image_pull_policy : Str
  -- of the security context, if there is one
  pub privileged : Option Bool
  pub command : List Str
  pub args : List Str
  pub ports : List ContainerPort
  pub env : List EnvVar
  pub volume_mounts : List VolumeMount
  pub liveness_probe : Option Probe

abbrev pub zero_container : Container
zero_container = record {
  name = [];
  image = [];
  image_pull_policy = [];
  privileged = none;
  command = [];
  args = [];
  ports = [];
  env = [];
  volume_mounts = [];
  liveness_probe = none;
}

pub data VolumeSource : Type 0 where
  secret_volume host_path : Str → VolumeSource
  empty_dir : VolumeSource

pub record Volume : Type 0 where
  pub name : Str
  pub source : VolumeSource

pub record Toleration : Type 0 where
  pub key : Str
  pub effect : Str

pub record MatchExpression : Type 0 where
  pub key : Str
  pub operator : Str
  pub values : List Str

-- A term of `PodAntiAffinity.RequiredDuringSchedulingIgnoredDuringExecution`.
pub record AffinityTerm : Type 0 where
  pub match_expressions : List MatchExpression
  pub topology_key : Str

pub record PodSpec : Type 0 where
  pub host_network : Bool
  pub anti_affinity : List AffinityTerm
  pub containers : List Container
  pub volumes : List Volume
  pub service_account_name : Str
  pub tolerations : List Toleration

abbrev pub zero_pod_spec : PodSpec
zero_pod_spec = record {
  host_network = false;
  anti_affinity = [];
  containers = [];
  volumes = [];
  service_account_name = [];
  tolerations = [];
}

pub record DeploymentSpec : Type 0 where
  pub replicas : Option ℤ
  pub revision_history_limit : Option ℤ
  -- `Selector.MatchLabels`, and the labels of the template's pods
  pub selector : List (Str × Str)
  pub template_labels : List (Str × Str)
  pub template : PodSpec

pub record Deployment : Type 0 where
  pub metadata : ObjectMeta
  pub spec : DeploymentSpec
  -- of the status
  pub available_replicas : ℤ

abbrev pub zero_deployment : Deployment
zero_deployment = record {
  metadata = zero_meta;
  spec = record {
    replicas = none;
    revision_history_limit = none;
    selector = [];
    template_labels = [];
    template = zero_pod_spec;
  };
  available_replicas = pos 0;
}

pub record DaemonSet : Type 0 where
  pub metadata : ObjectMeta
  pub selector : List (Str × Str)
  pub template_labels : List (Str × Str)
  pub template : PodSpec

-- A port without a name, or without a target, has the zero value there.
pub record ServicePort : Type 0 where
  pub name : Str
  pub port : ℕ
  pub target_port : ℕ

pub record Service : Type 0 where
  pub metadata : ObjectMeta
  pub ports : List ServicePort
  pub selector : List (Str × Str)
  pub service_type : Str

pub record Secret : Type 0 where
  pub metadata : ObjectMeta
  pub secret_type : Str
