-- ===== src/Controller/Infra/Owned/Bundles.antt =====
-- The objects that the bundles send are the infrastructure's own.
use cube_apiserver.Prelude.{Str, str, Bool, true, false, List, ◌≡◌, refl, ◌==◌, if◌then◌else◌}
use cube_apiserver.Base.Errors.{Result, ok, err}
use cube_apiserver.Base.Effect.{Flow, run}
use cube_apiserver.Base.Trace.{Since, here, Adds, adds_rules}
use cube_apiserver.Types.Meta.{Owners}
use cube_apiserver.Types.Infra.{Infrastructure}
use cube_apiserver.Types.Workloads.{Deployment}
use cube_apiserver.Controller.Infra.Calls.{Part, Event, create_part, Env}
use cube_apiserver.Controller.Infra.Bundles.{
  unless_failed, in_namespace, make, make_deployment, make_main, update_main,
}
use cube_apiserver.Controller.Infra.Dashboard.{create_dashboard, update_dashboard}
use cube_apiserver.Controller.Infra.Longhorn.{create_longhorn, update_longhorn}
use cube_apiserver.Controller.Infra.RancherVm.{create_rancher_vm, update_rancher_vm}
use cube_apiserver.Controller.Infra.{service_of, bundle_create, bundle_update}
use cube_apiserver.Controller.Infra.Owned.{
  part_meta, place_of, IsHome, IsOwn, IsOwnDeployment, Allowed,
}

module _ (owners : Owners) (env : Env) (infra : Infrastructure) where
  abbrev pub Fits {ℓ κ} : {R : Type ℓ} {A : Type κ} → Flow Event R A → Type 0
  Fits m = Adds (Allowed owners infra) m

  unless_failed-Fits : (r : Result (Unit {0})) → Fits (unless_failed env r)
  unfolding unless_failed
  unless_failed-Fits (ok u) = search adds_rules
  unless_failed-Fits (err e) = search adds_rules

  in_namespace-Fits : (ns : Str) → IsHome infra ns → Fits (in_namespace env ns)
  unfolding in_namespace
  in_namespace-Fits ns home = search (adds_rules, unless_failed-Fits)

  make-Fits :
      (ns : Str) (part : Part)
      → Allowed owners infra (create_part ns part)
      → Fits (make env ns part)
  unfolding make
  make-Fits ns part own = search (adds_rules, unless_failed-Fits)

  make_deployment-Fits :
      (ns : Str) (d : Deployment)
      → IsOwnDeployment owners infra ns d
      → Fits (make_deployment env ns d)
  unfolding make_deployment
  make_deployment-Fits ns d own = search (adds_rules, unless_failed-Fits)

  make_main-Fits :
      (ns : Str) (d : Deployment) → IsOwnDeployment owners infra ns d → Fits (make_main env ns d)
  unfolding make_main
  make_main-Fits ns d own = search adds_rules

  update_main-Fits :
      (ns : Str) (d : Deployment) → IsOwnDeployment owners infra ns d → Fits (update_main env ns d)
  unfolding update_main
  update_main-Fits ns d own = search adds_rules

  ruleset bundle_rules = (
    adds_rules, in_namespace-Fits, make-Fits, make_deployment-Fits, make_main-Fits,
    update_main-Fits, refl,
  )

  -- The bundles' own parts and deployments, once the namespace of the kind is known.
  own_part :
      (home : Str) (part : Part)
      → IsHome infra home
      → IsOwn owners infra (place_of part home) (part_meta part)
      → Fits (make env (place_of part home) part)
  own_part home part at own = make-Fits _ part (home, at, refl, own)

  -- What a handler adds when it is run.
  run-Since {ℓ} :
      {A : Type ℓ} (m : Flow Event A A) (h : List Event)
      → Fits m
      → Since (Allowed owners infra) h (run m h).1
  run-Since m h f = f.at h

  create_dashboard-Since :
      (h : List Event)
      → IsHome infra (str "kube-system")
      → Since (Allowed owners infra) h (create_dashboard owners env infra h).1
  unfolding create_dashboard
  create_dashboard-Since h home = search (run-Since, bundle_rules) depth 16

  update_dashboard-Since :
      (h : List Event)
      → IsHome infra (str "kube-system")
      → Since (Allowed owners infra) h (update_dashboard owners env infra h).1
  unfolding update_dashboard
  update_dashboard-Since h home = search (run-Since, bundle_rules) depth 16

  create_longhorn-Since :
      (h : List Event)
      → IsHome infra (str "longhorn-system")
      → Since (Allowed owners infra) h (create_longhorn owners env infra h).1
  unfolding create_longhorn
  create_longhorn-Since h home = search (run-Since, bundle_rules) depth 16

  update_longhorn-Since :
      (h : List Event)
      → IsHome infra (str "longhorn-system")
      → Since (Allowed owners infra) h (update_longhorn owners env infra h).1
  unfolding update_longhorn
  update_longhorn-Since h home = search (run-Since, bundle_rules) depth 16

  create_rancher_vm-Since :
      (h : List Event)
      → IsHome infra (str "ranchervm-system")
      → Since (Allowed owners infra) h (create_rancher_vm owners env infra h).1
  unfolding create_rancher_vm
  create_rancher_vm-Since h home = search (run-Since, bundle_rules) depth 16

  update_rancher_vm-Since :
      (h : List Event)
      → IsHome infra (str "ranchervm-system")
      → Since (Allowed owners infra) h (update_rancher_vm owners env infra h).1
  unfolding update_rancher_vm
  update_rancher_vm-Since h home = search (run-Since, bundle_rules) depth 16

  if-Since :
      (b : Bool) (h : List Event) (r q : Result Deployment × List Event)
      → (b ≡ true → Since (Allowed owners infra) h r.1)
      → (b ≡ false → Since (Allowed owners infra) h q.1)
      → Since (Allowed owners infra) h (if b then r else q).1
  if-Since true h r q f g = f refl
  if-Since false h r q f g = g refl

  dashboard-IsHome :
      (infra.spec.infra_kind == str "Dashboard") ≡ true → IsHome infra (str "kube-system")
  unfolding service_of
  dashboard-IsHome d = (str "kubernetes-dashboard", rw d)

  longhorn-IsHome :
      (infra.spec.infra_kind == str "Dashboard") ≡ false
      → (infra.spec.infra_kind == str "Longhorn") ≡ true
      → IsHome infra (str "longhorn-system")
  unfolding service_of
  longhorn-IsHome d l = (str "longhorn-frontend", rw (d, l))

  ranchervm-IsHome :
      (infra.spec.infra_kind == str "Dashboard") ≡ false
      → (infra.spec.infra_kind == str "Longhorn") ≡ false
      → (infra.spec.infra_kind == str "RancherVM") ≡ true
      → IsHome infra (str "ranchervm-system")
  unfolding service_of
  ranchervm-IsHome d l r = (str "ranchervm-frontend", rw (d, l, r))

  ruleset kind_rules = (if-Since, here, dashboard-IsHome, longhorn-IsHome, ranchervm-IsHome)

  -- Whatever the kind, also where it is none of the three.
  pub bundle_create-Since :
      (h : List Event) → Since (Allowed owners infra) h (bundle_create owners env infra h).1
  unfolding bundle_create
  bundle_create-Since h =
      search (kind_rules, create_dashboard-Since, create_longhorn-Since, create_rancher_vm-Since)

  pub bundle_update-Since :
      (h : List Event) → Since (Allowed owners infra) h (bundle_update owners env infra h).1
  unfolding bundle_update
  bundle_update-Since h =
      search (kind_rules, update_dashboard-Since, update_longhorn-Since, update_rancher_vm-Since)
