-- ===== src/Controller/Infra/Fresh.antt =====
-- The first synchronisation of an infrastructure.
use cube_apiserver.Prelude.{
  Str, Option, none, some, List, [], ◌∷◌, ◌≡◌, refl, subst, ◌⊎◌, inl, inr, arith,
}
use cube_apiserver.Base.Errors.{not_found, ok, err}
use cube_apiserver.Base.Effect.{next, run, ◌>>=◌}
use cube_apiserver.Base.Int.{ℤ, pos, eq_ℤ-refl}
use cube_apiserver.Types.Meta.{Owners}
use cube_apiserver.Types.Infra.{Infrastructure}
use cube_apiserver.Types.Workloads.{Deployment}
use cube_apiserver.Controller.Queue.{done}
use cube_apiserver.Controller.Infra.Calls.{
  Event, create_namespace, create_part, create_deployment, get_deployment, note_synced, Env,
}
use cube_apiserver.Controller.Infra.Bundles.{infra_gvk}
use cube_apiserver.Controller.Infra.Plan.{
  Plan, dashboard_plan, longhorn_plan, ranchervm_plan, plan_of, refused, install_from,
}
use cube_apiserver.Controller.Infra.Installed.{bundle_create-planned, logged}
use cube_apiserver.Controller.Infra.{
  update_infra, take_deployment, find_deployment, check_deployment, rescale, scale_deployment,
  end_sync, finish_infra, sync_infra,
}

-- A cluster that accepts every object, and answers a deployment as it was sent.
pub record IsOpen (env : Env) : Type 0 where
  pub namespaces : (h : List Event) → env.namespace_created h ≡ ok tt
  pub parts : (h : List Event) → env.part_created h ≡ ok tt
  pub deployments :
      (ns : Str) (d : Deployment) (h : List Event)
      → env.deployment_created (create_deployment ns d ∷ h) ≡ ok d

module _ (owners : Owners) (infra : Infrastructure) where
  -- The plan of an infrastructure is that of one of the three kinds.
  plan_cases :
      (p : Plan)
      → plan_of owners infra ≡ some p
      → (dashboard_plan owners infra ≡ p)
        ⊎ ((longhorn_plan owners infra ≡ p) ⊎ (ranchervm_plan owners infra ≡ p))
  unfolding plan_of
  plan_cases p e = ground arith

  -- The main deployment asks for the replicas of the infrastructure and is its own.
  abbrev IsMain : Plan → Type 0
  IsMain p =
      (p.main.spec.replicas ≡ infra.spec.replicas)
      × (p.main.available_replicas ≡ pos 0)
      × (p.main.metadata.owner_references ≡ owners.new_controller_ref infra.metadata infra_gvk ∷ [])

  plan_of-IsMain : (p : Plan) → plan_of owners infra ≡ some p → IsMain p
  plan_of-IsMain p e = elim (plan_cases p e) [
    | inl q ↦ subst IsMain q (refl, refl, refl)
    | inr (inl q) ↦ subst IsMain q (refl, refl, refl)
    | inr (inr q) ↦ subst IsMain q (refl, refl, refl)
  ]

module _ (env : Env) (accepts : IsOpen env) where
  refused-IsOpen : (e : Event) (h : List Event) → refused env e (e ∷ h) ≡ none
  refused-IsOpen (create_namespace ns) h = rw (accepts.namespaces (create_namespace ns ∷ h))
  refused-IsOpen (create_part ns part) h = rw (accepts.parts (create_part ns part ∷ h))
  refused-IsOpen (create_deployment ns d) h = rw (accepts.deployments ns d h)
  refused-IsOpen _ h = refl

  install_from-IsOpen :
      (es : List Event) (home : Str) (main : Deployment) (h : List Event)
      → install_from env es home main h ≡ (ok main, create_deployment home main ∷ logged es h)
  unfolding install_from
  install_from-IsOpen [] home main h = rw (accepts.deployments home main h)
  install_from-IsOpen (e ∷ es) home main h =
      rw (refused-IsOpen e h) (install_from-IsOpen es home main (e ∷ h))

  rescale-same :
      (owners : Owners) (infra : Infrastructure) (d : Deployment) (wanted actual : Option ℤ)
      (h : List Event)
      → actual ≡ wanted
      → rescale owners env infra d wanted actual h ≡ (next d, h)
  unfolding rescale ◌>>=◌
  rescale-same owners infra d none actual h same = refl
  rescale-same owners infra d (some n) actual h same = rw (same, eq_ℤ-refl n)

  -- The first synchronisation of an infrastructure of one of the three kinds, in a cluster that
  -- accepts every object, creates all the objects of its plan in order and once, then runs
  -- updateInfra, with no available replica, and succeeds, where that update does.
  pub sync_infra-fresh :
      (owners : Owners) (infra : Infrastructure) (p : Plan) (h : List Event)
      → let made =
          create_deployment p.home p.main
          ∷ logged p.creations (get_deployment infra.namespace infra.name ∷ h) in
        plan_of owners infra ≡ some p
        → env.deployment_gotten (get_deployment infra.namespace infra.name ∷ h) ≡ err not_found
        → (update_infra env infra (pos 0) made).0 ≡ none
        → run (sync_infra owners env infra) h
          ≡ (done, note_synced infra.name ∷ (update_infra env infra (pos 0) made).1)
  unfolding sync_infra find_deployment take_deployment check_deployment scale_deployment
      finish_infra end_sync ◌>>=◌
  sync_infra-fresh owners infra p h plan missing written =
      let (same, available, own) = plan_of-IsMain owners infra p plan in
      simp (
        missing,
        bundle_create-planned owners env infra _,
        plan,
        install_from-IsOpen p.creations p.home p.main _,
        owners.controlled_by_new p.main.metadata infra.metadata infra_gvk own,
        rescale-same owners infra p.main infra.spec.replicas p.main.spec.replicas _ same,
        available,
        written,
      )
