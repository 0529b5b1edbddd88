-- ===== src/App/Config.antt =====
-- app/apiserver.go: the configuration of the server, from the default file and a file of the user.
use cube_apiserver.Prelude.{Str, str, [], ◌≡◌, refl, ◌==◌, if◌then◌else◌, arith}
use cube_apiserver.Base.Errors.{other, Result, ok, err}
use cube_apiserver.Types.Infra.{InfraImages}

-- CubeConfig of api/model.go.
pub record CubeConfig : Type 0 where
  pub kube_config : Str
  pub images : InfraImages

-- filepath.Abs, os.Open, ioutil.ReadAll and yaml.Unmarshal.
pub record Files : Type 0 where
  pub abs : Str → Result Str
  pub open_file : Str → Result (Unit {0})
  pub read_all : Str → Result Str
  pub unmarshal : Str → Result CubeConfig

-- A field of the user's file counts where it is not empty.
abbrev pub override : Str → Str → Str
override current custom = if custom == [] then current else custom

-- buildConfig; the loop by reflection takes the fields of the images one by one.
unfoldable pub build_config : CubeConfig → CubeConfig → CubeConfig
build_config config custom = record {
  kube_config = override config.kube_config custom.kube_config;
  images = record {
    dashboard = override config.images.dashboard custom.images.dashboard;
    longhorn_manager = override config.images.longhorn_manager custom.images.longhorn_manager;
    longhorn_engine = override config.images.longhorn_engine custom.images.longhorn_engine;
    longhorn_flexvolume_driver =
        override config.images.longhorn_flexvolume_driver custom.images.longhorn_flexvolume_driver;
    longhorn_ui = override config.images.longhorn_ui custom.images.longhorn_ui;
    ranchervm = override config.images.ranchervm custom.images.ranchervm;
    ranchervm_frontend = override config.images.ranchervm_frontend custom.images.ranchervm_frontend;
  };
}

abbrev pub config_file : Str
config_file = str "config.yml"

abbrev and_then {ℓ κ} : {A : Type ℓ} {B : Type κ} → Result A → (A → Result B) → Result B
and_then (ok a) f = f a
and_then (err e) f = err e

module _ (files : Files) where
  -- resolveClusterFile
  unfoldable pub resolve_cluster_file : Str → Result Str
  resolve_cluster_file name =
      and_then (files.abs name) λ path. and_then (files.open_file path) λ _. files.read_all path

  -- resolveClusterFile and ParseConfig
  unfoldable pub read_config : Str → Result CubeConfig
  unfolding resolve_cluster_file
  read_config name = and_then (resolve_cluster_file name) files.unmarshal

  customized : Str → CubeConfig → Result CubeConfig
  unfolding read_config
  customized path config =
      if path == config_file
      then ok config
      else and_then (read_config path) λ custom. ok (build_config config custom)

  checked : Str → CubeConfig → Result CubeConfig
  checked listen config =
      if [] == listen
      then err (other (str "RancherCUBE: require listen-addr"))
      else if [] == config.kube_config
      then err (other (str "RancherCUBE: require kube-config"))
      else ok config

  -- startAPIServer up to the clients: by the path of the user's file and the address.
  unfoldable pub start_config : Str → Str → Result CubeConfig
  unfolding customized checked
  start_config path listen =
      and_then (read_config config_file)
        λ config. and_then (customized path config) (checked listen)

override-override : (a b c : Str) → override a (override b c) ≡ override (override a b) c
override-override a b c = ground arith

-- Three layers of configuration give the same, whichever two are combined first.
pub build_config_assoc :
    (a b c : CubeConfig) → build_config a (build_config b c) ≡ build_config (build_config a b) c
unfolding build_config
build_config_assoc a b c = simp override-override

-- An empty file changes nothing.
build_config-empty :
    (a : CubeConfig)
    → build_config a (record {
      kube_config = [];
      images = record {
        dashboard = [];
        longhorn_manager = [];
        longhorn_engine = [];
        longhorn_flexvolume_driver = [];
        longhorn_ui = [];
        ranchervm = [];
        ranchervm_frontend = [];
      };
    })
      ≡ a
unfolding build_config ◌==◌
build_config-empty a = refl
