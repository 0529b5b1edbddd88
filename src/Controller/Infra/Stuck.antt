-- ===== src/Controller/Infra/Stuck.antt =====
-- Where a synchronisation of an infrastructure does not do what it is for: the answers to a creation
-- of what exists already.
use cube_apiserver.Prelude.{
  Str, str, true, false, Option, none, some, List, [], ◌∷◌, ◌≡◌, refl, ◌==◌,
}
use cube_apiserver.Base.Errors.{not_found, already_exists, other, ok, err}
use cube_apiserver.Base.Effect.{next, run, ◌>>=◌}
use cube_apiserver.Base.Int.{ℤ, pos, eq_ℤ}
use cube_apiserver.Types.Meta.{Owners, zero_meta}
use cube_apiserver.Types.Infra.{Infrastructure}
use cube_apiserver.Types.Workloads.{Deployment, zero_deployment}
use cube_apiserver.Controller.Queue.{done, failed}
use cube_apiserver.Controller.Infra.Calls.{
  Event, create_namespace, create_part, create_deployment, get_deployment, get_service,
  update_infrastructure, note_synced, warn_exists, Env,
}
use cube_apiserver.Controller.Infra.Bundles.{
  longhorn_namespace, unless_failed, in_namespace, make_main,
}
use cube_apiserver.Controller.Infra.Longhorn.{longhorn_driver, update_longhorn}
use cube_apiserver.Controller.Infra.Plan.{Plan, plan_of, refused, install_from}
use cube_apiserver.Controller.Infra.Installed.{bundle_create-planned, logged}
use cube_apiserver.Controller.Infra.{
  infra_message_resource_exists, service_of, with_status, detected, detect_service, status_after,
  update_infra, bundle_update, take_deployment, find_deployment, check_deployment, rescale,
  scale_deployment, end_sync, finish_infra, sync_infra,
}

-- A cluster that has all the objects of the bundles already.
pub record IsTaken (env : Env) : Type 0 where
  pub namespaces : (h : List Event) → env.namespace_created h ≡ err already_exists
  pub parts : (h : List Event) → env.part_created h ≡ err already_exists
  pub deployments : (h : List Event) → env.deployment_created h ≡ err already_exists

module _ (env : Env) (taken : IsTaken env) where
  refused-IsTaken : (e : Event) (h : List Event) → refused env e h ≡ none
  refused-IsTaken (create_namespace ns) h = rw (taken.namespaces h)
  refused-IsTaken (create_part ns part) h = rw (taken.parts h)
  refused-IsTaken (create_deployment ns d) h = rw (taken.deployments h)
  refused-IsTaken _ h = refl

  install_from-IsTaken :
      (es : List Event) (home : Str) (main : Deployment) (h : List Event)
      → install_from env es home main h
        ≡ (ok zero_deployment, create_deployment home main ∷ logged es h)
  unfolding install_from
  install_from-IsTaken [] home main h = rw (taken.deployments (create_deployment home main ∷ h))
  install_from-IsTaken (e ∷ es) home main h =
      rw (refused-IsTaken e (e ∷ h)) (install_from-IsTaken es home main (e ∷ h))

  -- Where the lister does not show the deployment of an infrastructure and the objects of its plan
  -- exist already, whoever their owner is, the synchronisation asks for all of them again, and ends
  -- with the error that the deployment is not managed by the infrastructure: what it tests is the
  -- zero object that the client returns beside AlreadyExists.
  pub sync_infra-taken :
      (owners : Owners) (infra : Infrastructure) (p : Plan) (h : List Event)
      → plan_of owners infra ≡ some p
      → env.deployment_gotten (get_deployment infra.namespace infra.name ∷ h) ≡ err not_found
      → run (sync_infra owners env infra) h ≡ (
        failed (other infra_message_resource_exists),
        warn_exists infra.name
            ∷ create_deployment p.home p.main
            ∷ logged p.creations (get_deployment infra.namespace infra.name ∷ h),
      )
  unfolding sync_infra find_deployment take_deployment check_deployment ◌>>=◌
  sync_infra-taken owners infra p h plan missing = rw (
    missing,
    bundle_create-planned owners env infra _,
    plan,
    install_from-IsTaken p.creations p.home p.main _,
    owners.uncontrolled zero_meta infra.metadata refl,
  )

  update_longhorn-IsTaken :
      (owners : Owners) (infra : Infrastructure) (h : List Event)
      → infra.spec.infra_kind ≡ str "Longhorn"
      → bundle_update owners env infra h ≡ (
        ok zero_deployment,
        create_deployment longhorn_namespace (longhorn_driver owners infra)
            ∷ create_namespace longhorn_namespace
            ∷ h,
      )
  unfolding bundle_update update_longhorn in_namespace unless_failed make_main ◌>>=◌ ◌==◌
  update_longhorn-IsTaken owners infra h kind =
      rw (kind, taken.namespaces (create_namespace longhorn_namespace ∷ h), taken.deployments)

  longhorn_service :
      (infra : Infrastructure)
      → infra.spec.infra_kind ≡ str "Longhorn"
      → service_of infra.spec.infra_kind ≡ some (longhorn_namespace, str "longhorn-frontend")
  unfolding service_of ◌==◌
  longhorn_service infra kind = rw kind

  rescale-update :
      (owners : Owners) (infra : Infrastructure) (d made : Deployment) (wanted actual : Option ℤ)
      (n m : ℤ) (h h' : List Event)
      → wanted ≡ some n
      → actual ≡ some m
      → eq_ℤ n m ≡ false
      → bundle_update owners env infra h ≡ (ok made, h')
      → rescale owners env infra d wanted actual h ≡ (next made, h')
  unfolding rescale ◌>>=◌
  rescale-update owners infra d made wanted actual n m h h' w a differ updated =
      rw (w, a, differ, updated)

  -- Of an existing deployment the wanted replicas are another number than what it has: for Longhorn
  -- the code then creates the driver, which exists, and goes on with the client's zero object. The
  -- synchronisation succeeds, has updated no deployment, and says that no replica is available and
  -- the infrastructure is not healthy, though the service is found.
  pub sync_infra-unscaled :
      (owners : Owners) (infra sent : Infrastructure) (d : Deployment) (n m : ℤ) (h : List Event)
      → let asked =
          create_deployment longhorn_namespace (longhorn_driver owners infra)
          ∷ create_namespace longhorn_namespace
          ∷ get_deployment infra.namespace infra.name
          ∷ h in
        let looked = get_service longhorn_namespace (str "longhorn-frontend") ∷ asked in
        let written =
          update_infrastructure infra.namespace (
            with_status infra
              (record infra.status { available_replicas = pos 0; state = str "UnHealthy" }))
          ∷ looked in
        infra.spec.infra_kind ≡ str "Longhorn"
        → env.deployment_gotten (get_deployment infra.namespace infra.name ∷ h) ≡ ok d
        → owners.is_controlled_by d.metadata infra.metadata ≡ true
        → infra.spec.replicas ≡ some n
        → d.spec.replicas ≡ some m
        → eq_ℤ n m ≡ false
        → env.service_gotten looked ≡ ok tt
        → env.infrastructure_updated written ≡ ok sent
        → run (sync_infra owners env infra) h ≡ (done, note_synced infra.name ∷ written)
  unfolding sync_infra find_deployment take_deployment check_deployment scale_deployment
      finish_infra end_sync update_infra detect_service detected ◌>>=◌ status_after
  sync_infra-unscaled owners infra sent d n m h kind found owned wanted actual differ serves sends =
      let scaled =
        rescale-update owners infra d zero_deployment _ _ n m
          (get_deployment infra.namespace infra.name ∷ h) _ wanted actual differ
          (update_longhorn-IsTaken owners infra _ kind) in
      rw (found, owned, scaled, longhorn_service infra kind, serves, sends)
