-- ===== src/Controller/Watch/Counts.antt =====
-- An event handler makes at most one call of a kind that is neither a look into the lister nor a
-- report.
use cube_apiserver.Prelude.{suc, ◌≤◌, Str, Bool, false, Option, none, some, List, ◌∷◌, ◌≡◌, arith}
use cube_apiserver.Base.Errors.{Result, ok, err}
use cube_apiserver.Base.Trace.{count}
use cube_apiserver.Types.Meta.{ObjectMeta, OwnerReference, Owners}
use cube_apiserver.Controller.Watch.{
  Watched, object, object_of, Watcher, add_key, enqueue, enqueue_found, enqueue_owner, handle_found,
  handle_object, on_update,
}

module _ {E A : Type 0} (owners : Owners) (w : Watcher E A) (test : E → Bool)
    (on_get : (namespace name : Str) → test (w.get namespace name) ≡ false)
    (on_report : test w.report ≡ false) where
  -- At most one more.
  abbrev OneMore : List E → List E → Type 0
  OneMore h h' = count test h' ≤ suc (count test h)

  add_key-OneMore : (r : Result Str) (h : List E) → OneMore h (add_key owners w r h)
  unfolding count
  add_key-OneMore (ok k) h = ground arith
  add_key-OneMore (err e) h = ground arith

  pub enqueue-OneMore : (m : ObjectMeta) (h : List E) → OneMore h (enqueue owners w m h)
  unfolding enqueue
  enqueue-OneMore m h = add_key-OneMore (w.key_of m) h

  enqueue_found-OneMore : (r : Result A) (h : List E) → OneMore h (enqueue_found owners w r h)
  enqueue_found-OneMore (ok a) h = enqueue-OneMore (w.metadata_of a) h
  enqueue_found-OneMore (err e) h = omega arith

  enqueue_owner-OneMore :
      (m : ObjectMeta) (o : Option OwnerReference) (h : List E)
      → OneMore h (enqueue_owner owners w m o h)
  unfolding count
  enqueue_owner-OneMore m none h = omega arith
  enqueue_owner-OneMore m (some ref) h = ground (
    arith,
    on_get m.namespace ref.name,
    enqueue_found-OneMore (w.gotten (w.get m.namespace ref.name ∷ h))
        (w.get m.namespace ref.name ∷ h),
  )

  handle_found-OneMore :
      (o : Option ObjectMeta) (h : List E) → OneMore h (handle_found owners w o h)
  unfolding count
  handle_found-OneMore none h = ground arith
  handle_found-OneMore (some m) h = enqueue_owner-OneMore m (owners.get_controller_of m) h

  pub handle_object-OneMore : (x : Watched) (h : List E) → OneMore h (handle_object owners w x h)
  unfolding handle_object
  handle_object-OneMore x h = handle_found-OneMore (object_of x) h

  pub on_update-OneMore :
      (old new : ObjectMeta) (h : List E) → OneMore h (on_update owners w old new h)
  unfolding on_update
  on_update-OneMore old new h = ground (arith, handle_object-OneMore (object new) h)
