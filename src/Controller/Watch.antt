-- ===== src/Controller/Watch.antt =====
-- The informers' event handlers, which both controllers have in the same form: enqueueUser and
-- enqueueInfra, the handleObject functions, and the update handlers before them. Here over the kind
-- of the owner, the controller's events, and the lister of the owners.
pub mod Owned
pub mod Counts
use cube_apiserver.Prelude.{Str, Bool, Option, none, some, List, ◌∷◌, ◌==◌, if◌then◌else◌}
use cube_apiserver.Base.Errors.{Result, ok, err}
use cube_apiserver.Types.Meta.{ObjectMeta, OwnerReference, Owners}

-- What an informer hands to a handler: an object, the tombstone of a deleted one (which may hold
-- anything), or a value of another type.
pub data Watched : Type 0 where
  object : ObjectMeta → Watched
  tombstone : Option ObjectMeta → Watched
  foreign : Watched

pub record Watcher (E A : Type 0) : Type 0 where
  pub kind : Str
  pub metadata_of : A → ObjectMeta
  pub get : Str → Str → E
  pub add : Str → E
  pub report : E
  pub gotten : List E → Result A
  -- cache.MetaNamespaceKeyFunc
  pub key_of : ObjectMeta → Result Str

abbrev object_of : Watched → Option ObjectMeta
object_of (object m) = some m
object_of (tombstone m) = m
object_of foreign = none

module _ {E A : Type 0} (owners : Owners) (w : Watcher E A) where
  abbrev add_key : Result Str → List E → List E
  add_key (ok k) h = w.add k ∷ h
  add_key (err e) h = w.report ∷ h

  -- enqueueUser, enqueueInfra
  unfoldable pub enqueue : ObjectMeta → List E → List E
  enqueue m h = add_key (w.key_of m) h

  abbrev enqueue_found : Result A → List E → List E
  enqueue_found (ok a) h = enqueue (w.metadata_of a) h
  enqueue_found (err e) h = h

  abbrev enqueue_owner : ObjectMeta → Option OwnerReference → List E → List E
  enqueue_owner m none h = h
  enqueue_owner m (some ref) h =
      if ref.kind == w.kind
      then enqueue_found (w.gotten (w.get m.namespace ref.name ∷ h))
          (w.get m.namespace ref.name ∷ h)
      else h

  abbrev handle_found : Option ObjectMeta → List E → List E
  handle_found none h = w.report ∷ h
  handle_found (some m) h = enqueue_owner m (owners.get_controller_of m) h

  -- handleObject
  unfoldable pub handle_object : Watched → List E → List E
  unfolding enqueue
  handle_object x h = handle_found (object_of x) h

  -- The UpdateFunc of an object: a periodic resync shows the same version twice, and is dropped.
  unfoldable pub on_update : ObjectMeta → ObjectMeta → List E → List E
  unfolding handle_object
  on_update old new h =
      if new.resource_version == old.resource_version then h else handle_object (object new) h
