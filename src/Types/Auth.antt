-- ===== src/Types/Auth.antt =====
-- auth_types.go
use cube_apiserver.Prelude.{Str, Bool, false, List, []}
use cube_apiserver.Base.Int.{ℤ, pos}
use cube_apiserver.Types.Meta.{TypeMeta, ObjectMeta, zero_type_meta, zero_meta}

pub record User : Type 0 where
  pub type_meta : TypeMeta
  pub metadata : ObjectMeta
  pub open metadata use {name, namespace}
  pub display_name : Str
  pub description : Str
  pub username : Str
  pub password : Str
  pub must_change_password : Bool
  pub principal_ids : List Str
  pub me : Bool

pub record Principal : Type 0 where
  pub type_meta : TypeMeta
  pub metadata : ObjectMeta
  pub open metadata use {name, namespace}
  pub display_name : Str
  pub login_name : Str
  pub profile_picture : Str
  pub profile_url : Str
  pub principal_type : Str
  pub me : Bool
  pub member_of : Bool
  pub provider : Str
  pub extra_info : List (Str × Str)

pub record Token : Type 0 where
  pub type_meta : TypeMeta
  pub metadata : ObjectMeta
  pub open metadata use {name, namespace}
  pub token : Str
  pub user_principal : Principal
  pub group_principals : List Principal
  pub provider_info : List (Str × Str)
  pub user_id : Str
  pub auth_provider : Str
  pub ttl_millis : ℤ
  pub last_update_time : Str
  pub is_derived : Bool
  pub description : Str
  pub expired : Bool
  pub expires_at : Str

abbrev pub zero_user : User
zero_user = record {
  type_meta = zero_type_meta;
  metadata = zero_meta;
  display_name = [];
  description = [];
  username = [];
  password = [];
  must_change_password = false;
  principal_ids = [];
  me = false;
}

abbrev pub zero_principal : Principal
zero_principal = record {
  type_meta = zero_type_meta;
  metadata = zero_meta;
  display_name = [];
  login_name = [];
  profile_picture = [];
  profile_url = [];
  principal_type = [];
  me = false;
  member_of = false;
  provider = [];
  extra_info = [];
}

abbrev pub zero_token : Token
zero_token = record {
  type_meta = zero_type_meta;
  metadata = zero_meta;
  token = [];
  user_principal = zero_principal;
  group_principals = [];
  provider_info = [];
  user_id = [];
  auth_provider = [];
  ttl_millis = pos 0;
  last_update_time = [];
  is_derived = false;
  description = [];
  expired = false;
  expires_at = [];
}
