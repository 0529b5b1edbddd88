-- ===== src/Controller/Infra/Examples.antt =====
-- An infrastructure of Longhorn in clusters that answer every call alike; the theorems at this
-- input, and tests.
use cube_apiserver.Prelude.{◌≤◌, str, true, none, some, List, [], ◌∷◌, ◌==◌, ◌≡◌, refl, ap}
use cube_apiserver.Base.Errors.{other}
use cube_apiserver.Base.Effect.{run, ◌>>=◌}
use cube_apiserver.Base.Int.{pos}
use cube_apiserver.Base.Trace.{Since, count}
use cube_apiserver.Types.Infra.{InfraStatus}
use cube_apiserver.Controller.Queue.{
  Outcome, done, failed, Iteration, run_worker, process_next_work_item,
}
use cube_apiserver.Controller.ByUid.{by_uid}
use cube_apiserver.Controller.Infra.Calls.{
  Event, get_deployment, get_service, create_namespace, create_deployment, update_infrastructure,
  note_synced,
}
use cube_apiserver.Controller.Infra.Longhorn.{longhorn_ui, longhorn_driver}
use cube_apiserver.Controller.Infra.Plan.{longhorn_plan, plan_of, planned}
use cube_apiserver.Controller.Infra.Installed.{bundle_create-planned, logged}
use cube_apiserver.Controller.Infra.Fresh.{sync_infra-fresh}
use cube_apiserver.Controller.Infra.Owned.{Allowed}
use cube_apiserver.Controller.Infra.Owned.Sync.{infra_sync_handler-Allowed}
use cube_apiserver.Controller.Infra.Sync.{
  IsInfraSynced, sync_infra-IsInfraSynced, sync_infra-settled,
}
use cube_apiserver.Controller.Infra.Stuck.{sync_infra-taken, sync_infra-unscaled}
use cube_apiserver.Controller.Infra.Notices.{
  infra_added, on_notice, started, noticed, worked, Reached-is_added,
}
use cube_apiserver.Controller.Infra.Worker.{
  is_added, process_next_infra, run_infra_worker, run_infra_worker-never_adds,
}
use cube_apiserver.Controller.Infra.{
  infra_message_resource_exists, service_of, with_status, status_after, detected, detect_service,
  update_infra, bundle_create, take_deployment, find_deployment, check_deployment, rescale,
  scale_deployment, end_sync, finish_infra, sync_infra, infra_sync_found, infra_sync_key,
  infra_sync_handler,
}
use cube_apiserver.Controller.Infra.Status.{update_infra-status, update_infra-message}
use cube_apiserver.Controller.Infra.Examples.Clusters.{
  storage, served, open_env, open_env-IsOpen, scaled_storage, storage_deployment, taken_env,
  taken_env-IsTaken, storage_looked, stale_env, stale_env-IsTaken, grown_storage,
}
pub mod Clusters

update_infra-status_example :
    (s : InfraStatus) × ((update_infra served storage (pos 1) []).1
      ≡ update_infrastructure (str "ns") (with_status storage s)
        ∷ get_service (str "longhorn-system") (str "longhorn-frontend")
        ∷ [])
    × (s.available_replicas ≡ pos 1)
    × ((s.state == str "Healthy") ≡ true)
unfolding service_of ◌==◌
update_infra-status_example =
    update_infra-status served storage (pos 1) [] (str "longhorn-system") (str "longhorn-frontend")
      refl

update_infra-message_test :
    (update_infra served storage (pos 1) []).1
    ≡ update_infrastructure (str "ns") (
        with_status storage
          (record { state = str "Healthy"; available_replicas = pos 1; message = str "gone" }))
      ∷ get_service (str "longhorn-system") (str "longhorn-frontend")
      ∷ []
unfolding service_of ◌==◌
update_infra-message_test =
    update_infra-message served storage (pos 1) [] (str "longhorn-system") (str "longhorn-frontend")
      refl refl refl

infra_sync_handler-Allowed_example :
    Since (Allowed by_uid storage) [] (infra_sync_handler by_uid open_env (str "storage") []).1
infra_sync_handler-Allowed_example =
    infra_sync_handler-Allowed by_uid open_env (str "storage") (str "ns") (str "storage") storage []
      refl refl

bundle_create-planned_example :
    bundle_create by_uid open_env storage [] ≡ planned open_env (plan_of by_uid storage) []
bundle_create-planned_example = bundle_create-planned by_uid open_env storage []

abbrev installed : List Event
installed =
    create_deployment (str "longhorn-system") (longhorn_ui by_uid storage)
    ∷ logged (longhorn_plan by_uid storage).creations
        (get_deployment (str "ns") (str "storage") ∷ [])

sync_infra-fresh_example :
    run (sync_infra by_uid open_env storage) []
    ≡ (done, note_synced (str "storage") ∷ (update_infra open_env storage (pos 0) installed).1)
unfolding plan_of ◌==◌ update_infra
sync_infra-fresh_example =
    sync_infra-fresh open_env open_env-IsOpen by_uid storage (longhorn_plan by_uid storage) [] refl
      refl refl

sync_infra-settled_example : run (sync_infra by_uid taken_env scaled_storage) [] ≡ (
  done,
  note_synced (str "storage")
      ∷ update_infrastructure
          (str "ns")
          (with_status scaled_storage (status_after taken_env storage.status (pos 0) none))
      ∷ storage_looked,
)
unfolding service_of ◌==◌
sync_infra-settled_example =
    sync_infra-settled by_uid taken_env scaled_storage storage storage_deployment (pos 1)
      (str "longhorn-system") (str "longhorn-frontend") [] refl refl refl refl refl refl

storage_done : (run (sync_infra by_uid taken_env scaled_storage) []).0 ≡ done
unfolding service_of ◌==◌
storage_done =
    ap (λ (x : Outcome × List Event). x.0)
      (sync_infra-settled by_uid taken_env scaled_storage storage storage_deployment (pos 1)
        (str "longhorn-system") (str "longhorn-frontend") [] refl refl refl refl refl refl)

sync_infra-IsInfraSynced_example :
    IsInfraSynced by_uid taken_env scaled_storage []
      (run (sync_infra by_uid taken_env scaled_storage) []).1
sync_infra-IsInfraSynced_example =
    sync_infra-IsInfraSynced by_uid taken_env scaled_storage [] storage_done

sync_infra-taken_example :
    (run (sync_infra by_uid stale_env storage) []).0 ≡ failed (other infra_message_resource_exists)
unfolding plan_of ◌==◌
sync_infra-taken_example =
    ap (λ (x : Outcome × List Event). x.0)
      (sync_infra-taken stale_env stale_env-IsTaken by_uid storage (longhorn_plan by_uid storage) []
        refl refl)

sync_infra-unscaled_example : run (sync_infra by_uid taken_env grown_storage) [] ≡ (
  done,
  note_synced (str "storage")
      ∷ update_infrastructure (str "ns") (
          with_status grown_storage
            (record storage.status { available_replicas = pos 0; state = str "UnHealthy" }))
      ∷ get_service (str "longhorn-system") (str "longhorn-frontend")
      ∷ create_deployment (str "longhorn-system") (longhorn_driver by_uid grown_storage)
      ∷ create_namespace (str "longhorn-system")
      ∷ get_deployment (str "ns") (str "storage")
      ∷ [],
)
unfolding ◌==◌
sync_infra-unscaled_example =
    sync_infra-unscaled taken_env taken_env-IsTaken by_uid grown_storage storage storage_deployment
      (pos 3) (pos 1) [] refl refl refl refl refl refl refl refl

-- The second iteration meets the shutdown.
abbrev ended : Iteration × List Event
ended = process_next_infra by_uid taken_env (process_next_infra by_uid taken_env []).1

one_item : run_infra_worker by_uid taken_env 2 [] ≡ some ended
unfolding run_infra_worker process_next_infra run_worker process_next_work_item infra_sync_handler
    infra_sync_key infra_sync_found sync_infra find_deployment take_deployment check_deployment
    scale_deployment rescale finish_infra end_sync update_infra detect_service detected service_of
    status_after ◌>>=◌ ◌==◌
one_item = refl

run_infra_worker-never_adds_test : count is_added ended.1 ≡ count is_added []
run_infra_worker-never_adds_test = run_infra_worker-never_adds by_uid taken_env 2 [] ended one_item

Reached-is_added_example :
    count is_added
      (process_next_infra by_uid taken_env
        (on_notice by_uid taken_env (infra_added storage.metadata) [])).1
    ≤ 1
Reached-is_added_example =
    Reached-is_added by_uid taken_env _ 1 (worked (noticed (infra_added storage.metadata) started))
