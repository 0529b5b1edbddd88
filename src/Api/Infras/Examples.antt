-- ===== src/Api/Infras/Examples.antt =====
-- A request for Longhorn, whose service does not show up, after one for another infrastructure.
use cube_apiserver.Prelude.{str, true, none, some, [], ◌∷◌, ◌==◌, ◌≡◌, refl, arith}
use cube_apiserver.Base.Errors.{ok, Wrapping}
use cube_apiserver.Base.Int.{pos}
use cube_apiserver.Types.Infra.{InfraImages, Infrastructure}
use cube_apiserver.Util.Decimal.{int32_to_string}
use cube_apiserver.Infras.Calls.{Env}
use cube_apiserver.Infras.ConfigMap.{longhorn, longhorn_name, initial_data}
use cube_apiserver.Infras.Operations.{get_infra, new_infrastructure}
use cube_apiserver.Infras.Service.{address_loop}
use cube_apiserver.Api.Resources.{infra_resource}
use cube_apiserver.Api.Infras.{wrote, Outside, Shared, handle_infrastructure_get}
use cube_apiserver.Api.Infras.Hosts.{handle_infrastructure_get-stale_service}

abbrev unwrapped : Wrapping
unwrapped = record { wrap = λ e m. e; wrap_nil = λ m. refl; wrap_error = λ e m. (e, refl) }

abbrev no_images : InfraImages
no_images = record {
  dashboard = [];
  longhorn_manager = [];
  longhorn_engine = [];
  longhorn_flexvolume_driver = [];
  longhorn_ui = [];
  ranchervm = [];
  ranchervm_frontend = [];
}

abbrev shown : Infrastructure
shown = record (new_infrastructure no_images longhorn initial_data) {
  metadata = record (new_infrastructure no_images longhorn initial_data).metadata {
    name = longhorn_name;
  };
}

abbrev serving_env : Env
serving_env = record {
  config_map_gotten = λ h. ok initial_data;
  config_map_created = λ h. ok initial_data;
  namespace_created = λ h. ok tt;
  infrastructure_gotten = λ h. ok shown;
  infrastructure_created = λ h. ok shown;
  infrastructure_deleted = λ h. ok tt;
  services_synced = λ h. true;
}

abbrev no_service : Outside
no_service = record {
  lister = λ k. none;
  nodes = ok ((record { address_type = str "ExternalIP"; address = str "1.2.3.4" } ∷ []) ∷ []);
}

abbrev other_service : Shared
other_service = record {
  world = record { config_map = some initial_data; history = [] };
  service = some (pos 80 ∷ []);
}

handle_infrastructure_get-stale_service_example :
    (handle_infrastructure_get unwrapped serving_env no_service 6000000001 longhorn_name
      other_service).0
    ≡ wrote (some (infra_resource shown (str "1.2.3.4:80")))
unfolding get_infra ◌==◌ address_loop int32_to_string
handle_infrastructure_get-stale_service_example =
    handle_infrastructure_get-stale_service unwrapped serving_env no_service 6000000001
      longhorn_name longhorn initial_data shown
      (record { address_type = str "ExternalIP"; address = str "1.2.3.4" } ∷ []) []
      (some (pos 80 ∷ [])) [] refl refl refl refl (omega arith) (pos 80) [] (str "80") (λ i l. refl)
      refl refl refl
