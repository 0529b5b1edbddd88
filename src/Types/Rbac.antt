-- ===== src/Types/Rbac.antt =====
-- What the code writes of k8s.io/api/rbac/v1. A cluster role is a role without a namespace.
use cube_apiserver.Prelude.{Str, List, []}
use cube_apiserver.Types.Meta.{ObjectMeta, zero_meta}

pub record PolicyRule : Type 0 where
  pub api_groups : List Str
  pub resources : List Str
  pub verbs : List Str
  pub resource_names : List Str

pub record RoleRef : Type 0 where
  pub kind : Str
  pub api_group : Str
  pub name : Str

pub record Subject : Type 0 where
  pub kind : Str
  pub api_group : Str
  pub name : Str
  pub namespace : Str

pub record Role : Type 0 where
  pub metadata : ObjectMeta
  pub rules : List PolicyRule

pub record Binding : Type 0 where
  pub metadata : ObjectMeta
  pub role_ref : RoleRef
  pub subjects : List Subject

abbrev pub zero_role : Role
zero_role = record { metadata = zero_meta; rules = [] }

abbrev pub zero_binding : Binding
zero_binding = record {
  metadata = zero_meta;
  role_ref = record { kind = []; api_group = []; name = [] };
  subjects = [];
}
