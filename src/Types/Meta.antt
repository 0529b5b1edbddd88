-- ===== src/Types/Meta.antt =====
-- What the code reads and writes of k8s.io/apimachinery's TypeMeta and ObjectMeta, and the three
-- functions on owner references that it calls.
use cube_apiserver.Prelude.{Str, Bool, true, false, ◌≡◌, Option, List, [], ◌∷◌}
use cube_apiserver.Base.Int.{ℤ, pos}

pub record TypeMeta : Type 0 where
  pub kind : Str
  pub api_version : Str

pub record OwnerReference : Type 0 where
  pub api_version : Str
  pub kind : Str
  pub name : Str
  pub uid : Str
  pub controller : Bool

pub record ObjectMeta : Type 0 where
  pub name : Str
  pub generate_name : Str
  pub namespace : Str
  pub uid : Str
  pub resource_version : Str
  -- nanoseconds
  pub creation_timestamp : ℤ
  pub labels : List (Str × Str)
  pub owner_references : List OwnerReference

abbrev pub zero_type_meta : TypeMeta
zero_type_meta = record { kind = []; api_version = [] }

abbrev pub zero_meta : ObjectMeta
zero_meta = record {
  name = [];
  generate_name = [];
  namespace = [];
  uid = [];
  resource_version = [];
  creation_timestamp = pos 0;
  labels = [];
  owner_references = [];
}

pub record GroupVersionKind : Type 0 where
  pub group : Str
  pub version : Str
  pub kind : Str

-- metav1.NewControllerRef, IsControlledBy and GetControllerOf. The code relies on this: an object
-- whose one reference was made for an owner is controlled by it, and an object with no reference
-- by nobody.
pub record Owners : Type 0 where
  pub new_controller_ref : ObjectMeta → GroupVersionKind → OwnerReference
  pub is_controlled_by : ObjectMeta → ObjectMeta → Bool
  pub get_controller_of : ObjectMeta → Option OwnerReference
  pub controlled_by_new :
      (object owner : ObjectMeta) (gvk : GroupVersionKind)
      → object.owner_references ≡ new_controller_ref owner gvk ∷ []
      → is_controlled_by object owner ≡ true
  pub uncontrolled :
      (object owner : ObjectMeta)
      → object.owner_references ≡ []
      → is_controlled_by object owner ≡ false
