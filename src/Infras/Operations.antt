-- ===== src/Infras/Operations.antt =====
-- backend/infra.go: InfrastructureGet, InfrastructureDeploy, InfrastructureDelete and the status of
-- the infrastructures. ServiceGet is its wait for the cache of services; the search that follows is
-- in Infras/Service, and its service goes into a variable that only the handlers of the API read.
pub mod Known
use cube_apiserver.Prelude.{
  Str, str, Bool, true, false, Option, none, some, List, [], ◌∷◌, ◌==◌, if◌then◌else◌,
}
use cube_apiserver.Base.Errors.{Err, other, is_already_exists, Result, ok, err, Wrapping}
use cube_apiserver.Base.Int.{pos}
use cube_apiserver.Types.Meta.{zero_type_meta, zero_meta}
use cube_apiserver.Types.Infra.{InfraImages, InfraSpec, InfraStatus, Infrastructure}
use cube_apiserver.Infras.Calls.{
  Data, Event, delete_daemon_sets, wait_for_services, create_namespace, get_infrastructure,
  delete_infrastructure, create_infrastructure, Env, World,
}
use cube_apiserver.Infras.ConfigMap.{
  Keys, dashboard, longhorn, ranchervm, find, dashboard_name, longhorn_name, ranchervm_name,
  get_config_map_info,
}

-- A result, or a nil pointer that is dereferenced.
pub data Reply {ℓ} (A : Type ℓ) : Type ℓ where
  answer : Result A → Reply A
  nil_deref : Reply A

-- getInfra
unfoldable pub get_infra : Str → Option Keys
get_infra kind =
    if kind == dashboard_name
    then some dashboard
    else if kind == longhorn_name
    then some longhorn
    else if kind == ranchervm_name
    then some ranchervm
    else none

abbrev pub add_call : Event → World → World
add_call e w = record w { history = e ∷ w.history }

-- The infrastructure that InfrastructureDeploy creates; `replicas` is 1.
abbrev pub new_infrastructure : InfraImages → Keys → Data → Infrastructure
new_infrastructure images keys info = record {
  type_meta = zero_type_meta;
  metadata = record zero_meta { name = find keys.name info; namespace = find keys.namespace info };
  spec = record {
    display_name = find keys.name info;
    description = find keys.desc info;
    icon = find keys.icon info;
    replicas = some (pos 1);
    infra_kind = find keys.kind info;
    images = images;
  };
  status = record { state = []; available_replicas = pos 0; message = [] };
}

module _ (env : Env) where
  -- ServiceGet: nil, or the error that the cache has not been filled.
  service_get : World → Option Err × World
  service_get w =
      let v = add_call wait_for_services w in
      (
        if env.services_synced v.history
            then none
            else some (other (str "failed to wait for caches to sync service")),
        v,
      )

  -- errors.Wrapf of an error is an error again, whose text is not read.
  abbrev after_service : Infrastructure → Option Err × World → Reply Infrastructure × World
  after_service infra (none, w) = (answer (ok infra), w)
  after_service infra (some e, w) =
      (answer (err (other (str "failed to get infrastructure service:%s"))), w)

  gotten : Bool → Result Infrastructure → World → Reply Infrastructure × World
  unfolding service_get
  gotten is_base_info (err e) w = (answer (err e), w)
  gotten true (ok infra) w = (answer (ok infra), w)
  gotten false (ok infra) w = after_service infra (service_get w)

  -- With the config map; the description of the kind is dereferenced here.
  get_with : Bool → Option Keys → Result Data × World → Reply Infrastructure × World
  unfolding gotten
  get_with is_base_info keys (err e, w) = (answer (err e), w)
  get_with is_base_info none (ok info, w) = (nil_deref, w)
  get_with is_base_info (some keys) (ok info, w) =
      let v = add_call (get_infrastructure (find keys.namespace info) (find keys.name info)) w in
      gotten is_base_info (env.infrastructure_gotten v.history) v

  -- InfrastructureGet
  unfoldable pub infrastructure_get : Str → Bool → World → Reply Infrastructure × World
  unfolding get_with
  infrastructure_get kind is_base_info w =
      get_with is_base_info (get_infra kind) (get_config_map_info env w)

  deployed : Result Infrastructure → World → Reply Infrastructure × World
  unfolding service_get
  deployed (err e) w = (answer (err e), w)
  deployed (ok infra) w = after_service infra (service_get w)

  create_it : InfraImages → Keys → Data → World → Reply Infrastructure × World
  unfolding deployed
  create_it images keys info w =
      let e =
        create_infrastructure (find keys.namespace info) (new_infrastructure images keys info) in
      let v = add_call e w in deployed (env.infrastructure_created v.history) v

  -- After ensureNamespaceExists.
  in_namespace :
      InfraImages → Keys → Data → Result (Unit {0}) → World → Reply Infrastructure × World
  unfolding create_it
  in_namespace images keys info (ok u) w = create_it images keys info w
  in_namespace images keys info (err e) w =
      let created = create_it images keys info w in
      if is_already_exists e then created else (answer (err e), w)

  deploy_with : InfraImages → Option Keys → Result Data × World → Reply Infrastructure × World
  unfolding in_namespace
  deploy_with images keys (err e, w) = (answer (err e), w)
  deploy_with images none (ok info, w) = (nil_deref, w)
  deploy_with images (some keys) (ok info, w) =
      let v = add_call (create_namespace (find keys.namespace info)) w in
      in_namespace images keys info (env.namespace_created v.history) v

  -- InfrastructureDeploy
  unfoldable pub infrastructure_deploy : InfraImages → Str → World → Reply Infrastructure × World
  unfolding deploy_with
  infrastructure_deploy images kind w =
      deploy_with images (get_infra kind) (get_config_map_info env w)

  -- Only Longhorn has daemon sets, and the error of their deletion is dropped.
  abbrev without_daemons : Str → World → World
  without_daemons kind w = if longhorn_name == kind then add_call delete_daemon_sets w else w

  delete_with : Str → Option Keys → Result Data × World → Reply (Unit {0}) × World
  delete_with kind keys (err e, w) = (answer (err e), w)
  delete_with kind none (ok info, w) = (nil_deref, without_daemons kind w)
  delete_with kind (some keys) (ok info, w) =
      let e = delete_infrastructure (find keys.namespace info) (find keys.name info) in
      let v = add_call e (without_daemons kind w) in
      (answer (env.infrastructure_deleted v.history), v)

  -- InfrastructureDelete
  unfoldable pub infrastructure_delete : Str → World → Reply (Unit {0}) × World
  unfolding delete_with
  infrastructure_delete kind w = delete_with kind (get_infra kind) (get_config_map_info env w)
