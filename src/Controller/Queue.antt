-- ===== src/Controller/Queue.antt =====
-- processNextWorkItem and runWorker, which both controllers have in the same form: here over the
-- controller's events and its syncHandler.
pub mod Steps
pub mod Adds
pub mod Discipline
pub mod Marked
use cube_apiserver.Prelude.{
  ℕ, zero, suc, Str, Bool, true, false, Option, none, some, List, ◌∷◌, if◌then◌else◌,
}
use cube_apiserver.Base.Effect.{Flow, pure, give_back}
use cube_apiserver.Base.Errors.{Err, Result, ok, err}

-- An object on the queue: a key, or a value of another type.
pub data Item : Type 0 where
  key : Str → Item
  invalid : Item

-- How syncHandler ends; a nil dereference ends it without a return.
pub data Outcome : Type 0 where
  done : Outcome
  failed : Err → Outcome
  panicked : Outcome

-- Leave a handler with the error, if there is one.
abbrev pub try {ℓ κ} : {E : Type ℓ} {A : Type κ} → Result A → Flow E Outcome A
try (ok a) = pure a
try (err e) = give_back (failed e)

-- A nil pointer is dereferenced.
abbrev pub present {ℓ κ} : {E : Type ℓ} {A : Type κ} → Option A → Flow E Outcome A
present (some a) = pure a
present none = give_back panicked

-- How an iteration ends: the value that processNextWorkItem returns, or a panic passed on.
pub data Iteration : Type 0 where
  returns : Bool → Iteration
  crashes : Iteration

-- The calls of the queue as events of the controller, and the answer to Get: no item at shutdown.
pub record WorkQueue (E : Type 0) : Type 0 where
  pub get : E
  pub forget : Item → E
  pub mark_done : Item → E
  pub handle_error : E
  pub gotten : List E → Option Item

module _ {E : Type 0} (q : WorkQueue E) (sync : Str → List E → Outcome × List E) where
  -- What follows the return of syncHandler, the deferred Done included.
  abbrev after_sync : Item → Outcome × List E → Iteration × List E
  after_sync item (done, h) = (returns true, q.mark_done item ∷ q.forget item ∷ h)
  after_sync item (failed e, h) = (returns true, q.handle_error ∷ q.mark_done item ∷ h)
  after_sync item (panicked, h) = (crashes, q.mark_done item ∷ h)

  abbrev process : Option Item → List E → Iteration × List E
  process none h = (returns false, h)
  process (some (key k)) h = after_sync (key k) (sync k h)
  process (some invalid) h =
      (returns true, q.mark_done invalid ∷ q.handle_error ∷ q.forget invalid ∷ h)

  -- processNextWorkItem
  unfoldable pub process_next_work_item : List E → Iteration × List E
  process_next_work_item h = process (q.gotten (q.get ∷ h)) (q.get ∷ h)

  -- runWorker, for at most so many rounds; `none` where they do not suffice.
  unfoldable pub run_worker : ℕ → List E → Option (Iteration × List E)
  run_worker zero h = none
  run_worker (suc rounds) h =
      let r = process_next_work_item h in
      elim r.0 [ returns b ↦ if b then run_worker rounds r.1 else some r | crashes ↦ some r ]
