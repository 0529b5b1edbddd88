-- ===== src/Controller/Infra/Owned/Sync.antt =====
-- The whole of a synchronisation keeps to what is allowed for its infrastructure.
use cube_apiserver.Prelude.{Str, Bool, true, false, Option, none, some, List, ◌∷◌, ◌≡◌, refl}
use cube_apiserver.Base.Errors.{Err, Result, ok, err}
use cube_apiserver.Base.Effect.{◌>>=◌}
use cube_apiserver.Base.Int.{ℤ}
use cube_apiserver.Base.Trace.{Since, here, more, Since-trans, Since-mono, Adds, adds_rules}
use cube_apiserver.Types.Meta.{Owners}
use cube_apiserver.Types.Infra.{Infrastructure}
use cube_apiserver.Types.Workloads.{Deployment}
use cube_apiserver.Controller.Queue.Steps.{handler_rules}
use cube_apiserver.Controller.Infra.Calls.{
  Event, get_infrastructure, queue_get, queue_forget, queue_done, queue_add, Env,
}
use cube_apiserver.Controller.Infra.{
  detected, detect_service, update_infra, take_deployment, find_deployment, check_deployment,
  rescale, scale_deployment, end_sync, finish_infra, sync_infra, infra_sync_found, infra_sync_key,
  infra_sync_handler,
}
use cube_apiserver.Controller.Infra.Owned.{Allowed}
use cube_apiserver.Controller.Infra.Owned.Bundles.{Fits, bundle_create-Since, bundle_update-Since}

module _ (owners : Owners) (env : Env) (infra : Infrastructure) where
  detected-Since :
      (o : Option (Str × Str)) (h : List Event)
      → Since (Allowed owners infra) h (detected env o h).1
  unfolding detected
  detected-Since none h = here
  detected-Since (some (namespace, name)) h = more tt here

  update_infra-Since :
      (available : ℤ) (h : List Event)
      → Since (Allowed owners infra) h (update_infra env infra available h).1
  unfolding update_infra detect_service
  update_infra-Since available h = more (refl, (_, refl)) (detected-Since _ h)

  ruleset sync_rules = (handler_rules, bundle_create-Since, bundle_update-Since, update_infra-Since)

  take_deployment-Fits :
      (r : Result Deployment) → Fits owners env infra (take_deployment owners env infra r)
  unfolding take_deployment
  take_deployment-Fits (ok d) = search sync_rules
  take_deployment-Fits (err e) = search sync_rules

  find_deployment-Fits : Fits owners env infra (find_deployment owners env infra)
  unfolding find_deployment
  find_deployment-Fits = search (sync_rules, take_deployment-Fits)

  check_deployment-Fits :
      (d : Deployment) → Fits owners env infra (check_deployment owners env infra d)
  unfolding check_deployment
  check_deployment-Fits d = search sync_rules

  rescale-Fits :
      (d : Deployment) (wanted actual : Option ℤ)
      → Fits owners env infra (rescale owners env infra d wanted actual)
  unfolding rescale
  rescale-Fits d none actual = search sync_rules
  rescale-Fits d (some n) none = search sync_rules
  rescale-Fits d (some n) (some m) = search sync_rules

  scale_deployment-Fits :
      (d : Deployment) → Fits owners env infra (scale_deployment owners env infra d)
  unfolding scale_deployment
  scale_deployment-Fits d = rescale-Fits d infra.spec.replicas d.spec.replicas

  end_sync-Fits : (e : Option Err) → Fits owners env infra (end_sync owners env infra e)
  unfolding end_sync
  end_sync-Fits none = search sync_rules
  end_sync-Fits (some e) = search sync_rules

  finish_infra-Fits : (d : Deployment) → Fits owners env infra (finish_infra owners env infra d)
  unfolding finish_infra
  finish_infra-Fits d = search (sync_rules, end_sync-Fits)

  sync_infra-Fits : Fits owners env infra (sync_infra owners env infra)
  unfolding sync_infra
  sync_infra-Fits = search (
    sync_rules, find_deployment-Fits, check_deployment-Fits, scale_deployment-Fits,
    finish_infra-Fits,
  )

  infra_sync_found-Fits : Fits owners env infra (infra_sync_found owners env (ok infra))
  unfolding infra_sync_found
  infra_sync_found-Fits = search (sync_rules, sync_infra-Fits)

-- The calls that a synchronisation of the infrastructure that the lister returns makes are allowed
-- for that infrastructure, on every path, failing ones included. Of the writes to the cluster these
-- are: the creation of the namespace of the kind, which gets no owner; the creation and the update of
-- objects whose one owner is the infrastructure, in that namespace or, for roles and bindings of the
-- cluster, in none, where a deployment has the replicas that the infrastructure asks for; and the
-- update of the infrastructure with no change but to its status. It makes no call of the work queue.
pub infra_sync_handler-Allowed :
    (owners : Owners) (env : Env) (key namespace name : Str) (infra : Infrastructure)
    (h : List Event)
    → env.split_key key ≡ ok (namespace, name)
    → env.infrastructure_gotten (get_infrastructure namespace name ∷ h) ≡ ok infra
    → Since (Allowed owners infra) h (infra_sync_handler owners env key h).1
unfolding infra_sync_handler infra_sync_key ◌>>=◌
infra_sync_handler-Allowed owners env key namespace name infra h split found =
    rw (split, found)
      (Since-trans (more tt here)
        ((infra_sync_found-Fits owners env infra).at (get_infrastructure namespace name ∷ h)))

-- A call of the work queue.
abbrev pub is_queue : Event → Bool
is_queue queue_get = true
is_queue (queue_forget i) = true
is_queue (queue_done i) = true
is_queue (queue_add k) = true
is_queue _ = false

Allowed-quiet :
    (owners : Owners) (infra : Infrastructure) (e : Event)
    → Allowed owners infra e
    → is_queue e ≡ false
Allowed-quiet owners infra queue_get p = absurd p
Allowed-quiet owners infra (queue_forget i) p = absurd p
Allowed-quiet owners infra (queue_done i) p = absurd p
Allowed-quiet owners infra (queue_add k) p = absurd p
Allowed-quiet owners infra _ p = refl

abbrev IsQuiet : Event → Type 0
IsQuiet e = is_queue e ≡ false

infra_sync_found-IsQuiet :
    (owners : Owners) (env : Env) (r : Result Infrastructure)
    → Adds IsQuiet (infra_sync_found owners env r)
unfolding infra_sync_found
infra_sync_found-IsQuiet owners env (err e) = search adds_rules
infra_sync_found-IsQuiet owners env (ok infra) = record {
  at = λ h. Since-mono (Allowed-quiet owners infra) ((infra_sync_found-Fits owners env infra).at h);
}

infra_sync_key-IsQuiet :
    (owners : Owners) (env : Env) (r : Result (Str × Str))
    → Adds IsQuiet (infra_sync_key owners env r)
unfolding infra_sync_key
infra_sync_key-IsQuiet owners env (err e) = search adds_rules
infra_sync_key-IsQuiet owners env (ok (namespace, name)) =
    search (adds_rules, infra_sync_found-IsQuiet)

-- The handler leaves the work queue alone.
pub infra_sync_handler-IsQuiet :
    (owners : Owners) (env : Env) (key : Str) (h : List Event)
    → Since (λ e. is_queue e ≡ false) h (infra_sync_handler owners env key h).1
unfolding infra_sync_handler
infra_sync_handler-IsQuiet owners env key h =
    (infra_sync_key-IsQuiet owners env (env.split_key key)).at h
