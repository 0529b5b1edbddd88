-- ===== src/Controller/Users/Objects.antt =====
-- controller/user_controller.go: the objects that syncHandler makes and writes.
use cube_apiserver.Prelude.{
  Str, str, Bool, true, false, none, List, [], ◌∷◌, ◌++◌, ◌==◌, if◌then◌else◌,
}
use cube_apiserver.Types.Meta.{OwnerReference, GroupVersionKind, Owners, zero_meta}
use cube_apiserver.Types.Auth.{User, Principal}
use cube_apiserver.Controller.Common.{to_principal, get_local_principal_id}
use cube_apiserver.Types.Rbac.{Role, Binding, PolicyRule}

abbrev pub user_namespace : Str
user_namespace = str "kube-system"

-- The kind of the controller references: `SchemeGroupVersion` of the API, and "User".
abbrev pub user_gvk : GroupVersionKind
user_gvk = record { group = str "cube.rancher.io"; version = str "v1alpha1"; kind = str "User" }

unfoldable pub impersonate : Str → Str → List Str → PolicyRule
impersonate group resource names = record {
  api_groups = group ∷ [];
  resources = resource ∷ [];
  verbs = str "impersonate" ∷ [];
  resource_names = names;
}

unfoldable pub base_rules : User → List PolicyRule
unfolding impersonate
base_rules user =
    impersonate [] (str "users") (user.name ∷ [])
    ∷ impersonate [] (str "groups") (str "admin" ∷ str "edit" ∷ str "view" ∷ [])
    ∷ impersonate (str "authentication.k8s.io") (str "userextras/scopes") ([] ∷ [])
    ∷ impersonate [] (str "serviceaccounts") ([] ∷ [])
    ∷ []

unfoldable pub admin_rule : PolicyRule
admin_rule = record {
  api_groups = [] ∷ [];
  resources = str "*" ∷ [];
  verbs = str "*" ∷ [];
  resource_names = [];
}

-- The rules of the role that generateClusterRole writes for a user.
unfoldable pub role_rules : Str → User → List PolicyRule
unfolding base_rules admin_rule
role_rules role user =
    if role == str "admin" then base_rules user ++ admin_rule ∷ [] else base_rules user

-- The loop of updateUser: whether the principal's name is among the user's identifiers.
unfoldable pub holds_id : List Str → Str → Bool
holds_id [] name = false
holds_id (id ∷ ids) name = if id == name then true else holds_id ids name

-- The object that updateUser sends.
unfoldable pub updated_user : User → Str → User
unfolding holds_id
updated_user user name =
    if holds_id user.principal_ids name
    then user
    else record user { principal_ids = user.principal_ids ++ name ∷ [] }

-- The principal that a user should have.
unfoldable pub wanted_principal : User → Principal
wanted_principal user =
    to_principal (str "user") user.display_name user.username user.namespace
      (get_local_principal_id user) none

module _ (owners : Owners) where
  open owners use {new_controller_ref}

  abbrev pub owned_by : User → List OwnerReference
  owned_by user = new_controller_ref user.metadata user_gvk ∷ []

  -- The principal that createPrincipal sends.
  abbrev pub owned_principal : User → Principal → Principal
  owned_principal user p = record p {
    metadata = record p.metadata { owner_references = owned_by user };
  }

  -- The principal that updatePrincipal sends.
  abbrev pub moved_principal : User → Principal → Principal
  moved_principal user p = record p {
    metadata = record p.metadata { owner_references = owned_by user; namespace = user.namespace };
  }

  abbrev pub role_of : Str → User → Role
  role_of role user = record {
    metadata = record zero_meta { name = user.name; owner_references = owned_by user };
    rules = role_rules role user;
  }

  abbrev pub binding_of : User → Binding
  binding_of user = record {
    metadata = record zero_meta { name = user.name; owner_references = owned_by user };
    role_ref = record {
      kind = str "ClusterRole";
      api_group = str "rbac.authorization.k8s.io";
      name = user.name;
    };
    subjects =
        record {
          kind = str "User";
          api_group = str "rbac.authorization.k8s.io";
          name = user.name;
          namespace = [];
        }
        ∷ [];
  }
