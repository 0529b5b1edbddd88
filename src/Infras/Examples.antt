-- ===== src/Infras/Examples.antt =====
-- An API that cannot read its config map once, and one that has it.
use cube_apiserver.Prelude.{
  ℕ, Option, ltb, if◌then◌else◌, arith, ◌∷◌, str, true, false, none, some, [], ◌==◌, ◌≡◌, refl,
}
use cube_apiserver.Base.Errors.{not_found, other, ok, err}
use cube_apiserver.Types.Infra.{InfraImages}
use cube_apiserver.Infras.Calls.{Env, World}
use cube_apiserver.Infras.ConfigMap.{
  dashboard, ranchervm, longhorn, find, longhorn_name, initial_data, get_config_map_info,
}
use cube_apiserver.Infras.ConfigMap.Stale.{get_config_map_info-stale}
use cube_apiserver.Infras.Operations.{
  answer, nil_deref, get_infra, infrastructure_get, infrastructure_deploy, infrastructure_delete,
}
use cube_apiserver.Controller.ByUid.{by_uid}
use cube_apiserver.Infras.Reconciled.{IsReconciled, new_infrastructure-IsReconciled}
use cube_apiserver.Infras.Service.{search_loop, kept, sync_service, address_loop}
use cube_apiserver.Infras.Service.Search.{Found, sync_service-Found}
use cube_apiserver.Infras.Operations.{new_infrastructure}
use cube_apiserver.Infras.BaseInfo.{base_info_get}
use cube_apiserver.Infras.BaseInfo.Rows.{described, base_info_get-described}
use cube_apiserver.Infras.Operations.Known.{reading, get_infra-unknown, get_infra-initial_data}

abbrev unreadable : Env
unreadable = record {
  config_map_gotten = λ h. err (other []);
  config_map_created = λ h. err (other []);
  namespace_created = λ h. ok tt;
  infrastructure_gotten = λ h. err not_found;
  infrastructure_created = λ h. err (other []);
  infrastructure_deleted = λ h. ok tt;
  services_synced = λ h. true;
}

abbrev repaired : Env
repaired = record unreadable { config_map_gotten = λ h. ok initial_data }

abbrev started : World
started = record { config_map = none; history = [] }

get_config_map_info-stale_example :
    get_config_map_info repaired (get_config_map_info unreadable started).1
    ≡ (ok [], (get_config_map_info unreadable started).1)
get_config_map_info-stale_example =
    get_config_map_info-stale unreadable repaired started (other []) refl refl

abbrev no_images : InfraImages
no_images = record {
  dashboard = [];
  longhorn_manager = [];
  longhorn_engine = [];
  longhorn_flexvolume_driver = [];
  longhorn_ui = [];
  ranchervm = [];
  ranchervm_frontend = [];
}

abbrev serving : World
serving = record { config_map = some initial_data; history = [] }

get_infra-unknown_test :
    ((infrastructure_get repaired (str "x") false serving).0 ≡ nil_deref)
    × ((infrastructure_deploy repaired no_images (str "x") serving).0 ≡ nil_deref)
    × ((infrastructure_delete repaired (str "x") serving).0 ≡ nil_deref)
unfolding ◌==◌
get_infra-unknown_test =
    get_infra-unknown repaired no_images (str "x") false initial_data [] refl refl refl

get_infra-initial_data_test : find longhorn.name initial_data ≡ longhorn_name
unfolding get_infra ◌==◌
get_infra-initial_data_test = get_infra-initial_data longhorn_name longhorn refl

base_info_get-described_example : base_info_get repaired serving ≡ (
  answer (
      ok (
        described (err not_found) (str "Dashboard") dashboard
        ∷ described (err not_found) (str "Longhorn") longhorn
        ∷ described (err not_found) (str "RancherVM") ranchervm
        ∷ [])),
  record {
    config_map = some initial_data;
    history =
        reading ranchervm initial_data
        ∷ reading longhorn initial_data
        ∷ reading dashboard initial_data
        ∷ [];
  },
)
base_info_get-described_example = base_info_get-described repaired []

new_infrastructure-IsReconciled_example :
    IsReconciled by_uid (new_infrastructure no_images longhorn initial_data)
unfolding get_infra ◌==◌
new_infrastructure-IsReconciled_example =
    new_infrastructure-IsReconciled by_uid no_images longhorn_name longhorn refl

-- A service that shows up in the fourth round.
abbrev late : ℕ → Option ℕ
late k = if ltb k 3 then none else some 7

sync_service-Found_example :
    (o : Option ℕ) × (sync_service late 6000000001 none ≡ some (kept none o)) × Found late 0 o
sync_service-Found_example = sync_service-Found late 6000000001 none (omega arith)

late_found : sync_service late 5 none ≡ some (some 7)
unfolding sync_service search_loop
late_found = refl

internal_last :
    address_loop [] (
      record { address_type = str "InternalIP"; address = str "10.0.0.1" }
      ∷ record { address_type = str "Hostname"; address = str "n" }
      ∷ [])
    ≡ str "10.0.0.1"
unfolding address_loop ◌==◌
internal_last = refl
