-- ===== src/Types/Infra.antt =====
-- types.go
use cube_apiserver.Prelude.{Str, Option}
use cube_apiserver.Base.Int.{ℤ}
use cube_apiserver.Types.Meta.{TypeMeta, ObjectMeta}

pub record InfraImages : Type 0 where
  pub dashboard : Str
  pub longhorn_manager : Str
  pub longhorn_engine : Str
  pub longhorn_flexvolume_driver : Str
  pub longhorn_ui : Str
  pub ranchervm : Str
  pub ranchervm_frontend : Str

pub record InfraSpec : Type 0 where
  pub display_name : Str
  pub description : Str
  pub icon : Str
  -- a pointer to int32
  pub replicas : Option ℤ
  pub infra_kind : Str
  pub images : InfraImages

pub record InfraStatus : Type 0 where
  pub state : Str
  pub available_replicas : ℤ
  pub message : Str

pub record Infrastructure : Type 0 where
  pub type_meta : TypeMeta
  pub metadata : ObjectMeta
  pub open metadata use {name, namespace}
  pub spec : InfraSpec
  pub status : InfraStatus
