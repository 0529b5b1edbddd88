-- ===== src/Controller/Infra/Found.antt =====
-- Where the deployment comes from that a synchronisation of an infrastructure goes on with.
use cube_apiserver.Prelude.{
  true, Option, none, some, List, ◌∷◌, ◌≡◌, ◌≢◌, ◌⊎◌, inl, inr, Bool-cases, refl, sym, ◌∙◌, ap,
}
use cube_apiserver.Base.Errors.{not_found, already_exists, conflict, other, Result, ok, err}
use cube_apiserver.Base.Effect.{Flow, next, run, ◌>>=◌}
use cube_apiserver.Base.Int.{ℤ, eq_ℤ, eq_ℤ-eq, ne-eq_ℤ}
use cube_apiserver.Types.Meta.{Owners}
use cube_apiserver.Types.Infra.{Infrastructure}
use cube_apiserver.Types.Workloads.{Deployment}
use cube_apiserver.Controller.Queue.{Outcome, done, failed}
use cube_apiserver.Controller.Queue.Steps.{try-next}
use cube_apiserver.Controller.Infra.Calls.{Event, get_deployment, Env}
use cube_apiserver.Controller.Infra.Plan.{plan_of, planned}
use cube_apiserver.Controller.Infra.Installed.{bundle_create-planned}
use cube_apiserver.Controller.Infra.{
  infra_message_resource_exists, bundle_update, take_deployment, find_deployment, check_deployment,
  rescale, scale_deployment,
}

-- A deployment that the lister has, or that the installation of the plan answers where the lister
-- has none; with the history from then on.
pub data Located (owners : Owners) (env : Env) (infra : Infrastructure) (h : List Event)
    (d : Deployment) (h' : List Event) : Type 0 where
  listed :
      env.deployment_gotten (get_deployment infra.namespace infra.name ∷ h) ≡ ok d
      → h' ≡ get_deployment infra.namespace infra.name ∷ h
      → Located owners env infra h d h'
  installed :
      env.deployment_gotten (get_deployment infra.namespace infra.name ∷ h) ≡ err not_found
      → planned env (plan_of owners infra) (get_deployment infra.namespace infra.name ∷ h)
        ≡ (ok d, h')
      → Located owners env infra h d h'

-- The deployment after the scaling, with the history from then on: the same where no number of
-- replicas is wanted or the wanted one is there, and what bundleUpdate answers otherwise.
pub data Scaled (owners : Owners) (env : Env) (infra : Infrastructure) (h : List Event)
    (d scaled : Deployment) (h' : List Event) : Type 0 where
  kept :
      (infra.spec.replicas ≡ none) ⊎ (infra.spec.replicas ≡ d.spec.replicas)
      → scaled ≡ d
      → h' ≡ h
      → Scaled owners env infra h d scaled h'
  updated :
      (n m : ℤ)
      → infra.spec.replicas ≡ some n
      → d.spec.replicas ≡ some m
      → n ≢ m
      → bundle_update owners env infra h ≡ (ok scaled, h')
      → Scaled owners env infra h d scaled h'

module _ (owners : Owners) (env : Env) (infra : Infrastructure) where
  abbrev lookup : Event
  lookup = get_deployment infra.namespace infra.name

  taken-Located :
      (r : Result Deployment) (h : List Event) (d : Deployment)
      → env.deployment_gotten (lookup ∷ h) ≡ r
      → (take_deployment owners env infra r (lookup ∷ h)).0 ≡ next d
      → Located owners env infra h d (take_deployment owners env infra r (lookup ∷ h)).1
  unfolding take_deployment ◌>>=◌
  taken-Located (ok x) h d gotten e = listed (cc) refl
  taken-Located (err not_found) h d gotten e =
      installed gotten (sym (bundle_create-planned owners env infra (lookup ∷ h)) ∙ try-next _ d e)
  taken-Located (err already_exists) h d gotten e = absurd (cc)
  taken-Located (err conflict) h d gotten e = absurd (cc)
  taken-Located (err (other m)) h d gotten e = absurd (cc)

  scaled-Scaled :
      (wanted actual : Option ℤ) (d scaled : Deployment) (h : List Event)
      → infra.spec.replicas ≡ wanted
      → d.spec.replicas ≡ actual
      → (rescale owners env infra d wanted actual h).0 ≡ next scaled
      → Scaled owners env infra h d scaled (rescale owners env infra d wanted actual h).1
  unfolding rescale ◌>>=◌
  scaled-Scaled none actual d scaled h w a e = kept (inl w) (cc) refl
  scaled-Scaled (some n) none d scaled h w a e = absurd (cc)
  scaled-Scaled (some n) (some m) d scaled h w a e = elim (Bool-cases (eq_ℤ n m)) [
    | inl same ↦
        let kept_d : next d ≡ next scaled = rw same at e in
        rw same (kept (inr (w ∙ ap some (eq_ℤ-eq n m same) ∙ sym a)) (cc) refl)
    | inr differ ↦
        rw differ (updated n m w a (ne-eq_ℤ n m differ) (try-next _ scaled (rw differ at e)))
  ]

  -- Where the handler goes on after the test of the deployment, the infrastructure is its
  -- controller.
  pub owner_checked :
      (d : Deployment) (f : Unit {0} → Flow Event Outcome Outcome) (h : List Event)
      → (run (check_deployment owners env infra d >>= f) h).0 ≡ done
      → (owners.is_controlled_by d.metadata infra.metadata ≡ true)
        × (run (check_deployment owners env infra d >>= f) h ≡ run (f tt) h)
  unfolding check_deployment ◌>>=◌
  owner_checked d f h e = elim (Bool-cases (owners.is_controlled_by d.metadata infra.metadata)) [
    | inl owned ↦ (owned, rw owned)
    | inr foreign ↦
        let ended : failed (other infra_message_resource_exists) ≡ done = rw foreign at e in
        absurd (cc)
  ]

  pub find_deployment-Located :
      (h : List Event) (d : Deployment)
      → (find_deployment owners env infra h).0 ≡ next d
      → Located owners env infra h d (find_deployment owners env infra h).1
  unfolding find_deployment ◌>>=◌
  find_deployment-Located h d e = taken-Located _ h d refl e

  pub scale_deployment-Scaled :
      (d scaled : Deployment) (h : List Event)
      → (scale_deployment owners env infra d h).0 ≡ next scaled
      → Scaled owners env infra h d scaled (scale_deployment owners env infra d h).1
  unfolding scale_deployment
  scale_deployment-Scaled d scaled h e = scaled-Scaled _ _ d scaled h refl refl e
