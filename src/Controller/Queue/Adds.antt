-- ===== src/Controller/Queue/Adds.antt =====
-- What a worker adds to the history, beyond what its handler does.
use cube_apiserver.Prelude.{
  ℕ, zero, suc, Str, true, false, Option, none, some, List, ◌∷◌, ◌≡◌, subst, if◌then◌else◌,
}
use cube_apiserver.Base.Trace.{Since, here, more, Since-trans}
use cube_apiserver.Controller.Queue.{
  Item, key, invalid, Outcome, done, failed, panicked, Iteration, returns, crashes, WorkQueue,
  after_sync, process, process_next_work_item, run_worker,
}

module _ {E : Type 0} (q : WorkQueue E) (sync : Str → List E → Outcome × List E) {P : E → Type 0}
    (on_get : P q.get) (on_forget : (i : Item) → P (q.forget i))
    (on_done : (i : Item) → P (q.mark_done i)) (on_error : P q.handle_error)
    (on_sync : (k : Str) (h : List E) → Since P h (sync k h).1) where
  after_sync-Since :
      (i : Item) (h : List E) (r : Outcome × List E)
      → Since P h r.1
      → Since P h (after_sync q sync i r).1
  after_sync-Since i h (done, h') s = more (on_done i) (more (on_forget i) s)
  after_sync-Since i h (failed e, h') s = more on_error (more (on_done i) s)
  after_sync-Since i h (panicked, h') s = more (on_done i) s

  process-Since : (x : Option Item) (h : List E) → Since P h (process q sync x h).1
  process-Since none h = here
  process-Since (some (key k)) h = after_sync-Since (key k) h (sync k h) (on_sync k h)
  process-Since (some invalid) h = more (on_done _) (more on_error (more (on_forget _) here))

  pub iteration-Since : (h : List E) → Since P h (process_next_work_item q sync h).1
  unfolding process_next_work_item
  iteration-Since h = Since-trans (more on_get here) (process-Since _ (q.get ∷ h))

  some-Since :
      (h : List E) (x r : Iteration × List E) → Since P h x.1 → some x ≡ some r → Since P h r.1
  some-Since h x r s e =
      let same : x ≡ r = cc in subst (λ (y : Iteration × List E). Since P h y.1) same s

  next-Since :
      (n : ℕ) (h : List E) (x r : Iteration × List E)
      → Since P h x.1
      → (run_worker q sync n x.1 ≡ some r → Since P x.1 r.1)
      → (elim x.0 [ returns b ↦ if b then run_worker q sync n x.1 else some x | crashes ↦ some x ])
        ≡ some r
      → Since P h r.1
  next-Since n h (returns true, h') r s rest e = Since-trans s (rest e)
  next-Since n h (returns false, h') r s rest e = some-Since h _ r s e
  next-Since n h (crashes, h') r s rest e = some-Since h _ r s e

  -- What holds of the worker's calls of the queue, and of every call of its handler, holds of all
  -- that the worker does.
  pub run_worker-Since :
      (n : ℕ) (h : List E) (r : Iteration × List E) → run_worker q sync n h ≡ some r → Since P h r.1
  unfolding run_worker
  run_worker-Since zero h r e = cc
  run_worker-Since (suc n) h r e =
      next-Since n h (process_next_work_item q sync h) r (iteration-Since h)
        (run_worker-Since n _ r) e
