-- ===== src/Infras/Calls.antt =====
-- The calls on infrastructures, and the variable that keeps the config map between requests.
use cube_apiserver.Prelude.{Str, Bool, Option, List}
use cube_apiserver.Base.Errors.{Result}
use cube_apiserver.Types.Infra.{Infrastructure}

-- The data of a config map.
abbrev pub Data : Type 0
Data = List (Str × Str)

pub data Event : Type 0 where
  get_config_map delete_daemon_sets wait_for_services : Event
  create_config_map : Data → Event
  create_namespace : Str → Event
  get_infrastructure delete_infrastructure : Str → Str → Event
  create_infrastructure : Str → Infrastructure → Event

-- The answers, each to the newest call of the history; the last one is whether the cache of
-- services has been filled.
pub record Env : Type 0 where
  pub config_map_gotten : List Event → Result Data
  pub config_map_created : List Event → Result Data
  pub namespace_created : List Event → Result (Unit {0})
  pub infrastructure_gotten : List Event → Result Infrastructure
  pub infrastructure_created : List Event → Result Infrastructure
  pub infrastructure_deleted : List Event → Result (Unit {0})
  pub services_synced : List Event → Bool

-- The shared variable `configMap`, nil at first, and the history.
pub record World : Type 0 where
  pub config_map : Option Data
  pub history : List Event
