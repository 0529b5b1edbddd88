-- ===== src/Infras/Operations/Known.antt =====
-- What is asked for a kind of infrastructure.
use cube_apiserver.Prelude.{
  ◌∷◌, true, Str, Bool, false, some, List, ◌==◌, ◌≡◌, refl, sym, ap, ◌∙◌, ◌⊎◌, inl, inr, arith,
  eq_iff,
}
use cube_apiserver.Base.Errors.{Result, ok, err}
use cube_apiserver.Types.Infra.{Infrastructure, InfraImages}
use cube_apiserver.Infras.Calls.{Data, Event, get_infrastructure, wait_for_services, Env, World}
use cube_apiserver.Infras.ConfigMap.{
  Keys, dashboard, longhorn, ranchervm, find, dashboard_name, longhorn_name, ranchervm_name,
  initial_data,
}
use cube_apiserver.Infras.ConfigMap.Stale.{get_config_map_info-kept}
use cube_apiserver.Infras.Operations.{
  answer, nil_deref, get_infra, service_get, gotten, get_with, infrastructure_get, deploy_with,
  infrastructure_deploy, delete_with, infrastructure_delete,
}

-- A request for a kind that is none of the three, as a path of the API may name it, dereferences
-- nil once the config map has been read: whether it reads, deploys or deletes.
pub get_infra-unknown :
    (env : Env) (images : InfraImages) (kind : Str) (is_base_info : Bool) (info : Data)
    (h : List Event)
    → (kind == dashboard_name) ≡ false
    → (kind == longhorn_name) ≡ false
    → (kind == ranchervm_name) ≡ false
    → let w : World = record { config_map = some info; history = h } in
      ((infrastructure_get env kind is_base_info w).0 ≡ nil_deref)
      × ((infrastructure_deploy env images kind w).0 ≡ nil_deref)
      × ((infrastructure_delete env kind w).0 ≡ nil_deref)
unfolding get_infra infrastructure_get infrastructure_deploy infrastructure_delete get_with
    deploy_with delete_with
get_infra-unknown env images kind is_base_info info h d l v =
    let kept = get_config_map_info-kept env info h in
    (rw (kept, d, l, v), rw (kept, d, l, v), rw (kept, d, l, v))

pub keys_cases :
    (kind : Str) (keys : Keys)
    → get_infra kind ≡ some keys
    → ((kind ≡ dashboard_name) × (dashboard ≡ keys))
      ⊎ (((kind ≡ longhorn_name) × (longhorn ≡ keys))
          ⊎ ((kind ≡ ranchervm_name) × (ranchervm ≡ keys)))
unfolding get_infra
keys_cases kind keys e =
    ground
      (arith, eq_iff kind dashboard_name, eq_iff kind longhorn_name, eq_iff kind ranchervm_name)

dashboard-initial : find dashboard.name initial_data ≡ dashboard_name
unfolding find ◌==◌
dashboard-initial = refl

longhorn-initial : find longhorn.name initial_data ≡ longhorn_name
unfolding find ◌==◌
longhorn-initial = refl

ranchervm-initial : find ranchervm.name initial_data ≡ ranchervm_name
unfolding find ◌==◌
ranchervm-initial = refl

abbrev name_in : Keys → Str
name_in keys = find keys.name initial_data

-- In the config map that ConfigMapDeploy writes, every kind that the API accepts is the name of
-- its infrastructure.
pub get_infra-initial_data :
    (kind : Str) (keys : Keys) → get_infra kind ≡ some keys → find keys.name initial_data ≡ kind
get_infra-initial_data kind keys e = elim (keys_cases kind keys e) [
  | inl (k, p) ↦ sym (ap name_in p) ∙ (dashboard-initial ∙ sym k)
  | inr (inl (k, p)) ↦ sym (ap name_in p) ∙ (longhorn-initial ∙ sym k)
  | inr (inr (k, p)) ↦ sym (ap name_in p) ∙ (ranchervm-initial ∙ sym k)
]

-- The call by which an infrastructure is read.
abbrev pub reading : Keys → Data → Event
reading keys info = get_infrastructure (find keys.namespace info) (find keys.name info)

gotten-true :
    (env : Env) (r : Result Infrastructure) (w : World) → gotten env true r w ≡ (answer r, w)
unfolding gotten
gotten-true env (ok infra) w = refl
gotten-true env (err e) w = refl

-- A read of a known kind, without its service, is one call under the name and the namespace that
-- the config map has for the kind.
pub infrastructure_get-reading :
    (env : Env) (kind : Str) (keys : Keys) (info : Data) (h : List Event)
    → get_infra kind ≡ some keys
    → infrastructure_get env kind true (record { config_map = some info; history = h }) ≡ (
      answer (env.infrastructure_gotten (reading keys info ∷ h)),
      record { config_map = some info; history = reading keys info ∷ h },
    )
unfolding infrastructure_get get_with
infrastructure_get-reading env kind keys info h k =
    rw (get_config_map_info-kept env info h, k) (gotten-true env _ _)

-- The state after an infrastructure has been read: its read, and the wait for the services.
abbrev pub after_read : Keys → Data → List Event → World
after_read keys info h = record {
  config_map = some info;
  history = wait_for_services ∷ reading keys info ∷ h;
}

-- A read of a known kind that is answered, with the wait for the services.
pub infrastructure_get-served :
    (env : Env) (kind : Str) (keys : Keys) (info : Data) (infra : Infrastructure) (h : List Event)
    → get_infra kind ≡ some keys
    → env.infrastructure_gotten (reading keys info ∷ h) ≡ ok infra
    → env.services_synced (wait_for_services ∷ reading keys info ∷ h) ≡ true
    → infrastructure_get env kind false (record { config_map = some info; history = h })
      ≡ (answer (ok infra), after_read keys info h)
unfolding infrastructure_get get_with gotten service_get
infrastructure_get-served env kind keys info infra h k read synced =
    rw (get_config_map_info-kept env info h, k, read, synced)
