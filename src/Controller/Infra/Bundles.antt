-- ===== src/Controller/Infra/Bundles.antt =====
-- The calls of which the bundles of controller/infra_controller.go are made.
use cube_apiserver.Prelude.{Str, str, none, some, List, [], ◌∷◌, if◌then◌else◌}
use cube_apiserver.Base.Errors.{is_already_exists, Result, ok, err, tolerate}
use cube_apiserver.Base.Effect.{Flow, pure, give_back, ask, ◌>>=◌}
use cube_apiserver.Types.Meta.{GroupVersionKind, ObjectMeta, zero_meta, Owners}
use cube_apiserver.Types.Infra.{Infrastructure}
use cube_apiserver.Types.Rbac.{PolicyRule, RoleRef, Subject}
use cube_apiserver.Types.Workloads.{EnvVar, Deployment, zero_deployment}
use cube_apiserver.Controller.Infra.Calls.{
  Part, Event, create_namespace, create_part, create_deployment, update_deployment, Env,
}

-- A bundle returns its main deployment, or an error.
abbrev pub Bundle : Type 0 → Type 0
Bundle A = Flow Event (Result Deployment) A

-- The kind of the controller references: `SchemeGroupVersion` of the API, and "Infrastructure".
abbrev pub infra_gvk : GroupVersionKind
infra_gvk = record {
  group = str "cube.rancher.io";
  version = str "v1alpha1";
  kind = str "Infrastructure";
}

abbrev pub kube_system : Str
kube_system = str "kube-system"

abbrev pub longhorn_namespace : Str
longhorn_namespace = str "longhorn-system"

abbrev pub ranchervm_namespace : Str
ranchervm_namespace = str "ranchervm-system"

-- The metadata that the bundles write: a name, a namespace (empty for parts of the cluster),
-- labels, and the infrastructure as the controller.
abbrev pub owned_meta : Owners → Infrastructure → Str → Str → List (Str × Str) → ObjectMeta
owned_meta owners infra namespace name labels = record zero_meta {
  name = name;
  namespace = namespace;
  labels = labels;
  owner_references = owners.new_controller_ref infra.metadata infra_gvk ∷ [];
}

abbrev pub rbac_group : Str
rbac_group = str "rbac.authorization.k8s.io"

abbrev pub ref_to_role : Str → Str → RoleRef
ref_to_role kind name = record { kind = kind; api_group = rbac_group; name = name }

-- The one subject of a binding of a bundle.
abbrev pub account_subject : Str → Str → Subject
account_subject namespace name = record {
  kind = str "ServiceAccount";
  api_group = [];
  name = name;
  namespace = namespace;
}

abbrev pub app_label : Str → List (Str × Str)
app_label name = (str "app", name) ∷ []

-- A rule that allows everything on the resources of some groups.
abbrev pub any_verb : List Str → List Str → PolicyRule
any_verb groups resources = record {
  api_groups = groups;
  resources = resources;
  resource_names = [];
  verbs = str "*" ∷ [];
}

-- A variable that is read from a field of the pod, and one with a value.
abbrev pub from_field : Str → Str → EnvVar
from_field name path = record { name = name; value = []; field_path = some path }

abbrev pub set_to : Str → Str → EnvVar
set_to name value = record { name = name; value = value; field_path = none }

module _ (env : Env) where
  -- A creation that tolerates an object that exists already.
  unfoldable pub unless_failed : Result (Unit {0}) → Bundle (Unit {0})
  unless_failed (ok _) = pure tt
  unless_failed (err e) = if is_already_exists e then pure tt else give_back (err e)

  -- ensureNamespaceExists, and the test of its error around a bundle.
  unfoldable pub in_namespace : Str → Bundle (Unit {0})
  unfolding unless_failed
  in_namespace namespace = do
    r ← ask (create_namespace namespace) env.namespace_created
    unless_failed r

  -- The creation of a part.
  unfoldable pub make : Str → Part → Bundle (Unit {0})
  unfolding unless_failed
  make namespace part = do r ← ask (create_part namespace part) env.part_created; unless_failed r

  unfoldable pub forget : Result Deployment → Result (Unit {0})
  forget (ok _) = ok tt
  forget (err e) = err e

  -- The creation of a deployment of which the result is dropped.
  unfoldable pub make_deployment : Str → Deployment → Bundle (Unit {0})
  unfolding unless_failed forget
  make_deployment namespace d = do
    r ← ask (create_deployment namespace d) env.deployment_created
    unless_failed (forget r)

  -- The creation of the deployment that the bundle returns: where it exists already, the client's
  -- zero object.
  unfoldable pub make_main : Str → Deployment → Bundle (Result Deployment)
  make_main namespace d = do
    r ← ask (create_deployment namespace d) env.deployment_created
    pure (tolerate zero_deployment r)

  -- The update of the deployment that the bundle returns.
  unfoldable pub update_main : Str → Deployment → Bundle (Result Deployment)
  update_main namespace d = ask (update_deployment namespace d) env.deployment_updated
