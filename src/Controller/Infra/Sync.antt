-- ===== src/Controller/Infra/Sync.antt =====
-- What a synchronisation of an infrastructure that succeeds has checked and written, and its fixed
-- point.
use cube_apiserver.Prelude.{Str, true, Option, none, some, List, ◌∷◌, ◌≡◌, refl, sym, ◌∙◌, ap}
use cube_apiserver.Base.Errors.{Err, Result, ok, err, error_of}
use cube_apiserver.Base.Effect.{run, ◌>>=◌}
use cube_apiserver.Base.Int.{ℤ, eq_ℤ-refl}
use cube_apiserver.Base.Trace.{Avoids, bind-result}
use cube_apiserver.Types.Meta.{Owners}
use cube_apiserver.Types.Infra.{Infrastructure}
use cube_apiserver.Types.Workloads.{Deployment}
use cube_apiserver.Controller.Queue.{Outcome, done}
use cube_apiserver.Controller.Queue.Steps.{IsDone, early_rules}
use cube_apiserver.Controller.Infra.Calls.{
  Event, get_deployment, get_service, update_infrastructure, note_synced, Env,
}
use cube_apiserver.Controller.Infra.{
  service_of, with_status, detected, detect_service, status_after, update_infra, take_deployment,
  find_deployment, check_deployment, rescale, scale_deployment, end_sync, finish_infra, sync_infra,
}
use cube_apiserver.Controller.Infra.Found.{
  Located, Scaled, owner_checked, find_deployment-Located, scale_deployment-Scaled,
}

module _ (owners : Owners) (env : Env) (infra : Infrastructure) where
  take_deployment-Avoids :
      (r : Result Deployment) → Avoids IsDone (take_deployment owners env infra r)
  unfolding take_deployment
  take_deployment-Avoids (ok d) = search early_rules
  take_deployment-Avoids (err e) = search early_rules

  find_deployment-Avoids : Avoids IsDone (find_deployment owners env infra)
  unfolding find_deployment
  find_deployment-Avoids = search (early_rules, take_deployment-Avoids)

  rescale-Avoids :
      (d : Deployment) (wanted actual : Option ℤ)
      → Avoids IsDone (rescale owners env infra d wanted actual)
  unfolding rescale
  rescale-Avoids d none actual = search early_rules
  rescale-Avoids d (some n) none = search early_rules
  rescale-Avoids d (some n) (some m) = search early_rules

  scale_deployment-Avoids : (d : Deployment) → Avoids IsDone (scale_deployment owners env infra d)
  unfolding scale_deployment
  scale_deployment-Avoids d = rescale-Avoids d infra.spec.replicas d.spec.replicas

  end_sync-done :
      (e : Option Err) (h : List Event)
      → (run (end_sync owners env infra e) h).0 ≡ done
      → (e ≡ none) × ((run (end_sync owners env infra e) h).1 ≡ note_synced infra.name ∷ h)
  unfolding end_sync ◌>>=◌
  end_sync-done none h d = (refl, refl)
  end_sync-done (some e) h d = cc

  finish_infra-done :
      (d : Deployment) (h : List Event)
      → (run (finish_infra owners env infra d) h).0 ≡ done
      → ((update_infra env infra d.available_replicas h).0 ≡ none)
        × ((run (finish_infra owners env infra d) h).1
            ≡ note_synced infra.name ∷ (update_infra env infra d.available_replicas h).1)
  unfolding finish_infra ◌>>=◌
  finish_infra-done d h e = end_sync-done _ _ e

-- What holds of a synchronisation from the history `h` on that ends with the history `after`.
pub record IsInfraSynced (owners : Owners) (env : Env) (infra : Infrastructure)
    (h after : List Event) : Type 0 where
  pub found : Deployment
  pub scaled : Deployment
  pub checked : List Event
  pub before : List Event
  pub located : Located owners env infra h found checked
  pub owns : owners.is_controlled_by found.metadata infra.metadata ≡ true
  pub rescaled : Scaled owners env infra checked found scaled before
  pub accepted : (update_infra env infra scaled.available_replicas before).0 ≡ none
  pub calls :
      after ≡ note_synced infra.name ∷ (update_infra env infra scaled.available_replicas before).1

-- A synchronisation that succeeds has a deployment that the lister answers or, where that has none,
-- the installation of the plan; the infrastructure controls it. Then come only the calls of
-- bundleUpdate, if a number of replicas is wanted that the deployment does not have, those of
-- updateInfra, which succeeds, with the available replicas of the deployment that the scaling left,
-- and the event of the success.
pub sync_infra-IsInfraSynced :
    (owners : Owners) (env : Env) (infra : Infrastructure) (h : List Event)
    → (run (sync_infra owners env infra) h).0 ≡ done
    → IsInfraSynced owners env infra h (run (sync_infra owners env infra) h).1
unfolding sync_infra
sync_infra-IsInfraSynced owners env infra h d =
    let (dep, f, r1, d1) = bind-result _ _ h (find_deployment-Avoids owners env infra) d in
    let (owns, r2) = owner_checked owners env infra dep _ _ d1 in
    let (sc, g, r3, d3) =
      bind-result _ _ _ (scale_deployment-Avoids owners env infra dep)
        (ap (λ (x : Outcome × List Event). x.0) (sym r2) ∙ d1) in
    let (accepted, ending) = finish_infra-done owners env infra sc _ d3 in
    record {
      found = dep;
      scaled = sc;
      checked = _;
      before = _;
      located = find_deployment-Located owners env infra h dep f;
      owns = owns;
      rescaled = scale_deployment-Scaled owners env infra dep sc _ g;
      accepted = accepted;
      calls = ap (λ (x : Outcome × List Event). x.1) (r1 ∙ r2 ∙ r3) ∙ ending;
    }

-- An infrastructure of one of the three kinds whose deployment is found, is its own and has the
-- replicas that it asks for, is a fixed point: where its update succeeds, the synchronisation only
-- looks up the deployment and the service, writes the infrastructure back with a new status, and
-- notes the success.
pub sync_infra-settled :
    (owners : Owners) (env : Env) (infra sent : Infrastructure) (d : Deployment) (n : ℤ)
    (namespace name : Str) (h : List Event)
    → let looked = get_service namespace name ∷ get_deployment infra.namespace infra.name ∷ h in
      let s =
        status_after env infra.status d.available_replicas (error_of (env.service_gotten looked)) in
      let written = update_infrastructure infra.namespace (with_status infra s) ∷ looked in
      service_of infra.spec.infra_kind ≡ some (namespace, name)
      → env.deployment_gotten (get_deployment infra.namespace infra.name ∷ h) ≡ ok d
      → owners.is_controlled_by d.metadata infra.metadata ≡ true
      → infra.spec.replicas ≡ some n
      → d.spec.replicas ≡ some n
      → env.infrastructure_updated written ≡ ok sent
      → run (sync_infra owners env infra) h ≡ (done, note_synced infra.name ∷ written)
unfolding sync_infra find_deployment take_deployment check_deployment scale_deployment rescale
    finish_infra end_sync update_infra detect_service detected ◌>>=◌
sync_infra-settled owners env infra sent d n namespace name h kind found owned wanted actual sends =
    simp (found, owned, wanted, actual, eq_ℤ-refl n, kind, sends)
