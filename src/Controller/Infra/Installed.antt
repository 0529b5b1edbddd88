-- ===== src/Controller/Infra/Installed.antt =====
-- The bundles of controller/infra_controller.go install their plans.
use cube_apiserver.Prelude.{
  Str, Option, none, some, List, [], ◌∷◌, ◌≡◌, refl, ◌∙◌, ap, sym, arith, Bool-cases, inl, inr,
}
use cube_apiserver.Base.Errors.{Err, is_already_exists, Result, ok, err}
use cube_apiserver.Base.Effect.{◌>>=◌, ◌>>◌, run}
use cube_apiserver.Types.Meta.{Owners}
use cube_apiserver.Types.Infra.{Infrastructure}
use cube_apiserver.Types.Workloads.{Deployment}
use cube_apiserver.Controller.Infra.Calls.{
  Part, Event, create_namespace, create_part, create_deployment, Env,
}
use cube_apiserver.Controller.Infra.Bundles.{
  Bundle, unless_failed, in_namespace, make, make_deployment, make_main, forget,
}
use cube_apiserver.Controller.Infra.Dashboard.{create_dashboard}
use cube_apiserver.Controller.Infra.Longhorn.{create_longhorn}
use cube_apiserver.Controller.Infra.RancherVm.{create_rancher_vm}
use cube_apiserver.Controller.Infra.{bundle_create}
use cube_apiserver.Controller.Infra.Plan.{
  Plan, dashboard_plan, longhorn_plan, ranchervm_plan, plan_of, refusal, proceed, refused,
  install_from, install, planned,
}

module _ (env : Env) where
  unless_failed-proceed :
      (r : Result (Unit {0})) (m : Bundle (Result Deployment)) (h : List Event)
      → run (unless_failed env r >> m) h ≡ proceed (refusal r) h (run m h)
  unfolding ◌>>=◌ unless_failed
  unless_failed-proceed (ok u) m h = refl
  unless_failed-proceed (err e) m h = elim (Bool-cases (is_already_exists e)) [
    | inl hit ↦ rw hit
    | inr miss ↦ rw miss
  ]

  refusal-forget : (r : Result Deployment) → refusal (forget env r) ≡ refusal r
  unfolding forget
  refusal-forget (ok d) = refl
  refusal-forget (err e) = refl

  in_namespace-proceed :
      (ns : Str) (m : Bundle (Result Deployment)) (h : List Event)
      → run (in_namespace env ns >> m) h
        ≡ proceed
            (refused env (create_namespace ns) (create_namespace ns ∷ h))
            (create_namespace ns ∷ h)
            (run m (create_namespace ns ∷ h))
  unfolding in_namespace ◌>>=◌
  in_namespace-proceed ns m h = unless_failed-proceed _ m (create_namespace ns ∷ h)

  make-proceed :
      (ns : Str) (part : Part) (m : Bundle (Result Deployment)) (h : List Event)
      → run (make env ns part >> m) h
        ≡ proceed
            (refused env (create_part ns part) (create_part ns part ∷ h))
            (create_part ns part ∷ h)
            (run m (create_part ns part ∷ h))
  unfolding make ◌>>=◌
  make-proceed ns part m h = unless_failed-proceed _ m (create_part ns part ∷ h)

  make_deployment-proceed :
      (ns : Str) (d : Deployment) (m : Bundle (Result Deployment)) (h : List Event)
      → run (make_deployment env ns d >> m) h
        ≡ proceed
            (refused env (create_deployment ns d) (create_deployment ns d ∷ h))
            (create_deployment ns d ∷ h)
            (run m (create_deployment ns d ∷ h))
  unfolding make_deployment ◌>>=◌
  make_deployment-proceed ns d m h =
      unless_failed-proceed _ m (create_deployment ns d ∷ h)
      ∙ ap (λ x. proceed x (create_deployment ns d ∷ h) (run m (create_deployment ns d ∷ h)))
          (refusal-forget _)

  make_main-install :
      (ns : Str) (d : Deployment) (h : List Event)
      → run (make_main env ns d) h ≡ install_from env [] ns d h
  unfolding make_main ◌>>=◌ install_from
  make_main-install ns d h = refl

module _ (owners : Owners) (env : Env) (infra : Infrastructure) (h : List Event) where
  create_dashboard-install :
      create_dashboard owners env infra h ≡ install env (dashboard_plan owners infra) h
  unfolding create_dashboard install_from
  create_dashboard-install = simp (in_namespace-proceed, make-proceed, make_main-install)

  create_longhorn-install :
      create_longhorn owners env infra h ≡ install env (longhorn_plan owners infra) h
  unfolding create_longhorn install_from
  create_longhorn-install =
      simp (in_namespace-proceed, make-proceed, make_deployment-proceed, make_main-install)

  create_rancher_vm-install :
      create_rancher_vm owners env infra h ≡ install env (ranchervm_plan owners infra) h
  unfolding create_rancher_vm install_from
  create_rancher_vm-install =
      simp (in_namespace-proceed, make-proceed, make_deployment-proceed, make_main-install)

-- To create the bundle of an infrastructure is to install the plan of its kind: the objects are
-- asked for in the plan's order, one that exists already is passed over, and the first other error
-- ends the work and is the answer. A kind without a plan is an error, and no call is made.
pub bundle_create-planned :
    (owners : Owners) (env : Env) (infra : Infrastructure) (h : List Event)
    → bundle_create owners env infra h ≡ planned env (plan_of owners infra) h
unfolding bundle_create plan_of
bundle_create-planned owners env infra h = ground (
  arith,
  create_dashboard-install owners env infra h,
  create_longhorn-install owners env infra h,
  create_rancher_vm-install owners env infra h,
)

proceed-ok :
    (e : Option Err) (h : List Event) (rest : Result Deployment × List Event) (d : Deployment)
    → (proceed e h rest).0 ≡ ok d
    → (e ≡ none) × (proceed e h rest ≡ rest) × (rest.0 ≡ ok d)
proceed-ok none h rest d good = (refl, refl, good)
proceed-ok (some e) h rest d good = cc

-- A list of calls on top of a history.
abbrev pub logged : List Event → List Event → List Event
logged [] h = h
logged (e ∷ es) h = logged es (e ∷ h)

install_from_complete :
    (env : Env) (es : List Event) (home : Str) (main d : Deployment) (h : List Event)
    → (install_from env es home main h).0 ≡ ok d
    → (install_from env es home main h).1 ≡ create_deployment home main ∷ logged es h
unfolding install_from
install_from_complete env [] home main d h good = refl
install_from_complete env (e ∷ es) home main d h good =
    let (_, same, rest) = proceed-ok (refused env e (e ∷ h)) (e ∷ h) _ d good in
    ap (λ x. x.1) same ∙ install_from_complete env es home main d (e ∷ h) rest

-- A bundle that is created without an error has asked for every object of its plan, each once and
-- in order, and last for the main deployment, and has made no other call.
pub bundle_create_complete :
    (owners : Owners) (env : Env) (infra : Infrastructure) (p : Plan) (d : Deployment)
    (h : List Event)
    → plan_of owners infra ≡ some p
    → (bundle_create owners env infra h).0 ≡ ok d
    → (bundle_create owners env infra h).1 ≡ create_deployment p.home p.main ∷ logged p.creations h
bundle_create_complete owners env infra p d h plan good =
    let same : bundle_create owners env infra h ≡ install env p h =
      bundle_create-planned owners env infra h ∙ ap (λ x. planned env x h) plan in
    ap (λ x. x.1) same
    ∙ install_from_complete env p.creations p.home p.main d h (sym (ap (λ x. x.0) same) ∙ good)
