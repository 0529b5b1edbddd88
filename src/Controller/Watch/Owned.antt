-- ===== src/Controller/Watch/Owned.antt =====
-- Which objects bring their owner onto the queue.
use cube_apiserver.Prelude.{
  Str, Option, none, some, List, [], ◌∷◌, ◌≡◌, refl, ◌⊎◌, inl, inr, ◌==◌, eq_refl, Bool-cases,
}
use cube_apiserver.Base.Errors.{Err, ok, err}
use cube_apiserver.Types.Meta.{ObjectMeta, OwnerReference, Owners}
use cube_apiserver.Controller.Watch.{
  object, tombstone, Watcher, enqueue_owner, handle_object, on_update,
}

module _ {E A : Type 0} (owners : Owners) (w : Watcher E A) where
  -- A changed object whose controller is of the watched kind, and is in the lister under the
  -- object's own namespace, puts that owner's key on the queue. So does its tombstone.
  pub handle_object-owned :
      (m : ObjectMeta) (ref : OwnerReference) (a : A) (k : Str) (h : List E)
      → owners.get_controller_of m ≡ some ref
      → ref.kind ≡ w.kind
      → w.gotten (w.get m.namespace ref.name ∷ h) ≡ ok a
      → w.key_of (w.metadata_of a) ≡ ok k
      → (handle_object owners w (object m) h ≡ w.add k ∷ w.get m.namespace ref.name ∷ h)
        × (handle_object owners w (tombstone (some m)) h ≡ w.add k ∷ w.get m.namespace ref.name ∷ h)
  unfolding handle_object
  handle_object-owned m ref a k h controlled kind found key = (
    rw (controlled, kind, eq_refl w.kind, found, key),
    rw (controlled, kind, eq_refl w.kind, found, key),
  )

  unnamespaced-owner :
      (m : ObjectMeta) (o : Option OwnerReference) (h : List E)
      → m.namespace ≡ []
      → ((name : Str) → (e : Err) × (w.gotten (w.get [] name ∷ h) ≡ err e))
      → (enqueue_owner owners w m o h ≡ h)
        ⊎ ((name : Str) × (enqueue_owner owners w m o h ≡ w.get [] name ∷ h))
  unnamespaced-owner m none h ns absent = inl refl
  unnamespaced-owner m (some ref) h ns absent = elim (Bool-cases (ref.kind == w.kind)) [
    | inl hit ↦ inr (ref.name, rw (hit, ns, (absent ref.name).1))
    | inr miss ↦ inl (rw miss)
  ]

  -- An object without a namespace never puts anything on the queue, if the lister has no owner
  -- without one: its owner is looked for in the object's namespace.
  pub handle_object-unnamespaced :
      (m : ObjectMeta) (h : List E)
      → m.namespace ≡ []
      → ((name : Str) → (e : Err) × (w.gotten (w.get [] name ∷ h) ≡ err e))
      → (handle_object owners w (object m) h ≡ h)
        ⊎ ((name : Str) × (handle_object owners w (object m) h ≡ w.get [] name ∷ h))
  unfolding handle_object
  handle_object-unnamespaced m h ns absent =
      unnamespaced-owner m (owners.get_controller_of m) h ns absent

  -- A resync, which shows the version that was known, changes nothing.
  on_update-resync :
      (old new : ObjectMeta) (h : List E)
      → new.resource_version ≡ old.resource_version
      → on_update owners w old new h ≡ h
  unfolding on_update
  on_update-resync old new h same = rw (same, eq_refl old.resource_version)
