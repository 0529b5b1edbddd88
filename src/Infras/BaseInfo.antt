-- ===== src/Infras/BaseInfo.antt =====
-- backend/infra.go: BaseInfoGet, statusGet and checkStatus. The variables `status` and `state` are
-- made anew by every call, and are the maps that it reads.
pub mod Rows
use cube_apiserver.Prelude.{
  Str, str, Bool, true, false, Option, none, some, List, [], ◌∷◌, ◌==◌, if◌then◌else◌,
}
use cube_apiserver.Base.Errors.{Err, Result, ok, err}
use cube_apiserver.Types.Infra.{InfraStatus, Infrastructure}
use cube_apiserver.Infras.Calls.{Data, Event, Env, World}
use cube_apiserver.Infras.ConfigMap.{
  Keys, dashboard, longhorn, ranchervm, find, dashboard_name, longhorn_name, ranchervm_name,
  get_config_map_info,
}
use cube_apiserver.Infras.Operations.{Reply, answer, nil_deref, infrastructure_get}

-- One of the maps of the answer.
pub record Row : Type 0 where
  pub name : Str
  pub kind : Str
  pub icon : Str
  pub desc : Str
  pub status : Str
  pub state : Str
  pub url : Str

-- The maps `status` and `state`.
abbrev pub Maps : Type 0
Maps = Data × Data

-- checkStatus
abbrev pub check_status : Option Infrastructure → Str → Maps → Maps
check_status none name (status, state) = ((name, str "False") ∷ status, (name, []) ∷ state)
check_status (some item) name (status, state) =
    ((name, str "True") ∷ status, (name, item.status.state) ∷ state)

-- An error counts as no infrastructure; a nil pointer in the call goes on as such.
unfoldable pub noted : Str → Reply Infrastructure → Option Maps → Option Maps
noted name nil_deref maps = none
noted name (answer r) none = none
noted name (answer (ok item)) (some maps) = some (check_status (some item) name maps)
noted name (answer (err e)) (some maps) = some (check_status none name maps)

unfoldable pub row : Data → Maps → Str → Keys → Row
row info (status, state) title keys = record {
  name = title;
  kind = find keys.name info;
  icon = find keys.icon info;
  desc = find keys.desc info;
  status = find (find keys.name info) status;
  state = find (find keys.name info) state;
  url = str "/infrastructures";
}

unfoldable pub rows : Data → Option Maps → Reply (List Row)
unfolding row
rows info none = nil_deref
rows info (some maps) = answer (
    ok (
      row info maps (str "Dashboard") dashboard
      ∷ row info maps (str "Longhorn") longhorn
      ∷ row info maps (str "RancherVM") ranchervm
      ∷ []))

module _ (env : Env) where
  -- statusGet
  unfoldable pub status_get : World → Option Maps × World
  unfolding noted
  status_get w =
      let d = infrastructure_get env dashboard_name true w in
      let l = infrastructure_get env longhorn_name true d.1 in
      let v = infrastructure_get env ranchervm_name true l.1 in
      (
        noted ranchervm_name v.0
            (noted longhorn_name l.0 (noted dashboard_name d.0 (some ([], [])))),
        v.1,
      )

  rows_with : Result Data × World → Reply (List Row) × World
  unfolding rows status_get
  rows_with (err e, w) = (answer (err e), w)
  rows_with (ok info, w) = let s = status_get w in (rows info s.0, s.1)

  -- BaseInfoGet
  unfoldable pub base_info_get : World → Reply (List Row) × World
  unfolding rows_with
  base_info_get w = rows_with (get_config_map_info env w)
