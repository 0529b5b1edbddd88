-- ===== src/App/Examples.antt =====
-- A user's file that names one image.
use cube_apiserver.Prelude.{str, [], ◌==◌, ◌≡◌, refl}
use cube_apiserver.App.Config.{CubeConfig, build_config}

abbrev images_of_dashboard : CubeConfig
images_of_dashboard = record {
  kube_config = [];
  images = record {
    dashboard = str "mine";
    longhorn_manager = [];
    longhorn_engine = [];
    longhorn_flexvolume_driver = [];
    longhorn_ui = [];
    ranchervm = [];
    ranchervm_frontend = [];
  };
}

abbrev default_config : CubeConfig
default_config = record {
  kube_config = str "kube";
  images = record images_of_dashboard.images { dashboard = str "theirs"; longhorn_ui = str "ui" };
}

one_image : build_config default_config images_of_dashboard ≡ record {
  kube_config = str "kube";
  images = record images_of_dashboard.images { longhorn_ui = str "ui" };
}
unfolding build_config ◌==◌
one_image = refl
