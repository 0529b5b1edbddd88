-- ===== src/Controller/Infra/Notices.antt =====
-- The event handlers that NewInfraController installs, and the runs of the controller: notices of the
-- informers and rounds of a worker, in any order.
use cube_apiserver.Prelude.{ℕ, suc, ◌≤◌, List, [], refl, arith}
use cube_apiserver.Base.Trace.{count}
use cube_apiserver.Types.Meta.{ObjectMeta, Owners}
use cube_apiserver.Controller.Watch.{Watched}
use cube_apiserver.Controller.Watch.Counts.{
  enqueue-OneMore, handle_object-OneMore, on_update-OneMore,
}
use cube_apiserver.Controller.Infra.Calls.{Event, Env}
use cube_apiserver.Controller.Infra.Worker.{
  infra_watcher, enqueue_infra, handle_infra_object, on_infra_update, process_next_infra, is_added,
  process_next_infra-never_adds,
}

-- What the informers tell the controller.
pub data Notice : Type 0 where
  -- an infrastructure, as it is now
  infra_added infra_updated : ObjectMeta → Notice
  deployment_added deployment_deleted : Watched → Notice
  -- the old and the new object
  deployment_updated pod_updated : ObjectMeta → ObjectMeta → Notice

module _ (owners : Owners) (env : Env) where
  -- The handlers of NewInfraController. There is none for a deleted infrastructure, nor for a pod
  -- that is added or deleted.
  unfoldable pub on_notice : Notice → List Event → List Event
  on_notice (infra_added new) h = enqueue_infra owners env new h
  on_notice (infra_updated new) h = enqueue_infra owners env new h
  on_notice (deployment_added x) h = handle_infra_object owners env x h
  on_notice (deployment_deleted x) h = handle_infra_object owners env x h
  on_notice (deployment_updated old new) h = on_infra_update owners env old new h
  on_notice (pod_updated old new) h = on_infra_update owners env old new h

  -- A history that the controller can reach, with the number of notices so far; the rounds of its
  -- worker stand between them.
  pub data Reached : List Event → ℕ → Type 0 where
    started : Reached [] 0
    noticed : {h : List Event} {n : ℕ} (x : Notice) → Reached h n → Reached (on_notice x h) (suc n)
    worked : {h : List Event} {n : ℕ} → Reached h n → Reached (process_next_infra owners env h).1 n

  on_notice-OneMore :
      (x : Notice) (h : List Event) → count is_added (on_notice x h) ≤ suc (count is_added h)
  unfolding on_notice enqueue_infra handle_infra_object on_infra_update
  on_notice-OneMore (infra_added new) h =
      enqueue-OneMore owners (infra_watcher env) is_added (λ ns n. refl) refl new h
  on_notice-OneMore (infra_updated new) h =
      enqueue-OneMore owners (infra_watcher env) is_added (λ ns n. refl) refl new h
  on_notice-OneMore (deployment_added x) h =
      handle_object-OneMore owners (infra_watcher env) is_added (λ ns n. refl) refl x h
  on_notice-OneMore (deployment_deleted x) h =
      handle_object-OneMore owners (infra_watcher env) is_added (λ ns n. refl) refl x h
  on_notice-OneMore (deployment_updated old new) h =
      on_update-OneMore owners (infra_watcher env) is_added (λ ns n. refl) refl old new h
  on_notice-OneMore (pod_updated old new) h =
      on_update-OneMore owners (infra_watcher env) is_added (λ ns n. refl) refl old new h

  none_added : count is_added [] ≤ 0
  unfolding count
  none_added = omega arith

  -- In every history that the controller can reach, the keys that were put on the queue are at most
  -- as many as the notices: nothing but a notice leads to a synchronisation, and none to two.
  pub Reached-is_added : (h : List Event) (n : ℕ) → Reached h n → count is_added h ≤ n
  Reached-is_added _ _ started = none_added
  Reached-is_added _ _ (noticed x r) = omega (arith, on_notice-OneMore x _, Reached-is_added _ _ r)
  Reached-is_added _ _ (worked r) =
      omega (arith, process_next_infra-never_adds owners env _, Reached-is_added _ _ r)
