-- ===== src/Controller/ByUid.antt =====
-- Owner references by uid, one for an object: a value of `Owners` for the examples.
use cube_apiserver.Prelude.{
  Bool, true, false, Option, none, some, List, [], ◌∷◌, ◌≡◌, ◌==◌, eq_refl,
}
use cube_apiserver.Types.Meta.{ObjectMeta, GroupVersionKind, OwnerReference, Owners}

abbrev pub ref_to : ObjectMeta → GroupVersionKind → OwnerReference
ref_to m gvk = record {
  api_version = gvk.version;
  kind = gvk.kind;
  name = m.name;
  uid = m.uid;
  controller = true;
}

abbrev pub first_ref : List OwnerReference → Option OwnerReference
first_ref [] = none
first_ref (r ∷ rs) = some r

abbrev pub refers : Option OwnerReference → ObjectMeta → Bool
refers none m = false
refers (some r) m = r.uid == m.uid

pub refers-own :
    (m owner : ObjectMeta) (gvk : GroupVersionKind)
    → m.owner_references ≡ ref_to owner gvk ∷ []
    → refers (first_ref m.owner_references) owner ≡ true
refers-own m owner gvk e = rw e (eq_refl owner.uid)

pub refers-none :
    (m owner : ObjectMeta)
    → m.owner_references ≡ []
    → refers (first_ref m.owner_references) owner ≡ false
refers-none m owner e = rw e

abbrev pub by_uid : Owners
by_uid = record {
  new_controller_ref = ref_to;
  is_controlled_by = λ m owner. refers (first_ref m.owner_references) owner;
  get_controller_of = λ m. first_ref m.owner_references;
  controlled_by_new = refers-own;
  uncontrolled = refers-none;
}
