-- ===== src/Infras/ConfigMap/Stale.antt =====
-- What the shared variable makes of a failed read.
use cube_apiserver.Prelude.{Option, none, some, List, [], ◌∷◌, ◌≡◌, refl, arith}
use cube_apiserver.Base.Errors.{Err, ok, err}
use cube_apiserver.Infras.Calls.{Data, Event, get_config_map, Env, World}
use cube_apiserver.Infras.ConfigMap.{config_map_get, read, cached_or_read, get_config_map_info}

read-error : (env : Env) (e : Err) (h : List Event) → (read env (err e, h)).1.config_map ≡ some []
unfolding read
read-error env e h = ground arith

cached_or_read-some :
    (later : Env) (c : Option Data) (h : List Event) (d : Data)
    → c ≡ some d
    → cached_or_read later c h ≡ (ok d, record { config_map = c; history = h })
unfolding cached_or_read
cached_or_read-some later c h d e = rw e

cached_or_read-error :
    (env : Env) (c : Option Data) (h : List Event) (e : Err)
    → c ≡ none
    → env.config_map_gotten (get_config_map ∷ h) ≡ err e
    → (cached_or_read env c h).1.config_map ≡ some []
unfolding cached_or_read config_map_get
cached_or_read-error env c h e nil failed = rw (nil, failed) (read-error env e (get_config_map ∷ h))

-- A config map that was read is kept.
pub get_config_map_info-kept :
    (env : Env) (d : Data) (h : List Event)
    → get_config_map_info env (record { config_map = some d; history = h })
      ≡ (ok d, record { config_map = some d; history = h })
unfolding get_config_map_info cached_or_read
get_config_map_info-kept env d h = refl

-- Once the first read of the config map has failed, with any error, every later request gets an
-- empty config map, without an error and without a call, whatever the cluster has by then.
pub get_config_map_info-stale :
    (env later : Env) (w : World) (e : Err)
    → w.config_map ≡ none
    → env.config_map_gotten (get_config_map ∷ w.history) ≡ err e
    → let w' = (get_config_map_info env w).1 in get_config_map_info later w' ≡ (ok [], w')
unfolding get_config_map_info
get_config_map_info-stale env later w e nil failed =
    cached_or_read-some later _ _ [] (cached_or_read-error env w.config_map w.history e nil failed)
