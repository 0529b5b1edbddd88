-- ===== src/Infras/BaseInfo/Rows.antt =====
-- The rows that BaseInfoGet answers.
use cube_apiserver.Prelude.{Str, str, some, List, [], ◌∷◌, ◌==◌, ◌≡◌, refl}
use cube_apiserver.Base.Errors.{Result, ok, err}
use cube_apiserver.Types.Infra.{Infrastructure}
use cube_apiserver.Infras.Calls.{Event, Env}
use cube_apiserver.Infras.ConfigMap.{
  Keys, dashboard, longhorn, ranchervm, find, dashboard_name, longhorn_name, ranchervm_name,
  initial_data,
}
use cube_apiserver.Infras.ConfigMap.Stale.{get_config_map_info-kept}
use cube_apiserver.Infras.Operations.{answer, get_infra}
use cube_apiserver.Infras.Operations.Known.{reading, infrastructure_get-reading}
use cube_apiserver.Infras.BaseInfo.{Row, noted, row, rows, status_get, rows_with, base_info_get}

-- What a row shows of the answer to the read of its infrastructure.
abbrev pub shown : Result Infrastructure → Str × Str
shown (ok item) = (str "True", item.status.state)
shown (err e) = (str "False", [])

abbrev pub described : Result Infrastructure → Str → Keys → Row
described r title keys = record {
  name = title;
  kind = find keys.name initial_data;
  icon = find keys.icon initial_data;
  desc = find keys.desc initial_data;
  status = (shown r).0;
  state = (shown r).1;
  url = str "/infrastructures";
}

rows-shown :
    (d l v : Result Infrastructure)
    → rows initial_data (
        noted ranchervm_name
          (answer v)
          (noted longhorn_name (answer l) (noted dashboard_name (answer d) (some ([], [])))))
      ≡ answer (
          ok (
            described d (str "Dashboard") dashboard
            ∷ described l (str "Longhorn") longhorn
            ∷ described v (str "RancherVM") ranchervm
            ∷ []))
unfolding rows row noted find ◌==◌
rows-shown (ok d) (ok l) (ok v) = refl
rows-shown (ok d) (ok l) (err v) = refl
rows-shown (ok d) (err l) (ok v) = refl
rows-shown (ok d) (err l) (err v) = refl
rows-shown (err d) (ok l) (ok v) = refl
rows-shown (err d) (ok l) (err v) = refl
rows-shown (err d) (err l) (ok v) = refl
rows-shown (err d) (err l) (err v) = refl

dashboard-known : get_infra dashboard_name ≡ some dashboard
unfolding get_infra ◌==◌
dashboard-known = refl

longhorn-known : get_infra longhorn_name ≡ some longhorn
unfolding get_infra ◌==◌
longhorn-known = refl

ranchervm-known : get_infra ranchervm_name ≡ some ranchervm
unfolding get_infra ◌==◌
ranchervm-known = refl

abbrev dashboard_read : List Event → List Event
dashboard_read h = reading dashboard initial_data ∷ h

abbrev longhorn_read : List Event → List Event
longhorn_read h = reading longhorn initial_data ∷ dashboard_read h

abbrev ranchervm_read : List Event → List Event
ranchervm_read h = reading ranchervm initial_data ∷ longhorn_read h

-- With the config map that ConfigMapDeploy writes, the basic information has a row for each of the
-- three infrastructures, which shows the status "True" and the state of the infrastructure where
-- its read succeeded, and "False" where it failed; the reads are the only calls.
pub base_info_get-described :
    (env : Env) (h : List Event)
    → base_info_get env (record { config_map = some initial_data; history = h }) ≡ (
      answer (
          ok (
            described (env.infrastructure_gotten (dashboard_read h)) (str "Dashboard") dashboard
            ∷ described (env.infrastructure_gotten (longhorn_read h)) (str "Longhorn") longhorn
            ∷ described (env.infrastructure_gotten (ranchervm_read h)) (str "RancherVM") ranchervm
            ∷ [])),
      record { config_map = some initial_data; history = ranchervm_read h },
    )
unfolding base_info_get rows_with status_get
base_info_get-described env h = rw (
  get_config_map_info-kept env initial_data h,
  infrastructure_get-reading env dashboard_name dashboard initial_data h dashboard-known,
  infrastructure_get-reading env longhorn_name longhorn initial_data (dashboard_read h)
      longhorn-known,
  infrastructure_get-reading env ranchervm_name ranchervm initial_data (longhorn_read h)
      ranchervm-known,
  rows-shown (env.infrastructure_gotten (dashboard_read h))
      (env.infrastructure_gotten (longhorn_read h)) (env.infrastructure_gotten (ranchervm_read h)),
)
