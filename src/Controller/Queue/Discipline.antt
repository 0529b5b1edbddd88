-- ===== src/Controller/Queue/Discipline.antt =====
-- The worker against the contract of the work queue: every item that Get hands out is marked done,
-- once, and an item is forgotten exactly if it is not to be tried again.
use cube_apiserver.Prelude.{
  ℕ, zero, suc, ◌+◌, Str, Bool, true, false, Option, none, some, List, ◌∷◌, ◌≡◌, refl, ◌≢◌, ◌↔◌,
  arith, if◌then◌else◌,
}
use cube_apiserver.Base.Trace.{count}
use cube_apiserver.Controller.Queue.{
  Item, key, invalid, Outcome, done, failed, panicked, Iteration, returns, crashes, WorkQueue,
  after_sync, process, process_next_work_item, run_worker,
}

-- Which events are the queue's Get, Done and Forget.
pub record Tests {E : Type 0} (q : WorkQueue E) : Type 0 where
  pub is_get : E → Bool
  pub is_done : E → Bool
  pub is_forget : E → Bool
  pub get_event : (is_get q.get ≡ true) × (is_done q.get ≡ false) × (is_forget q.get ≡ false)
  pub done_event :
      (i : Item)
      → (is_get (q.mark_done i) ≡ false)
        × (is_done (q.mark_done i) ≡ true)
        × (is_forget (q.mark_done i) ≡ false)
  pub forget_event :
      (i : Item)
      → (is_get (q.forget i) ≡ false)
        × (is_done (q.forget i) ≡ false)
        × (is_forget (q.forget i) ≡ true)
  pub error_event :
      (is_get q.handle_error ≡ false)
      × (is_done q.handle_error ≡ false)
      × (is_forget q.handle_error ≡ false)

-- Whether an item is not to be tried again, by what came off the queue and how its handler ended.
abbrev pub settled : Option Item → Outcome → Bool
settled none r = false
settled (some invalid) r = true
settled (some (key k)) done = true
settled (some (key k)) _ = false

-- One more, if the test holds.
abbrev pub one_if : Bool → ℕ
one_if b = if b then 1 else 0

-- How often the three kinds of events occur in `h'` beyond `h`.
abbrev pub Counts : {E : Type 0} {q : WorkQueue E} → Tests q → List E → List E → ℕ → ℕ → ℕ → Type 0
Counts t h h' gets dones forgets =
    (count t.is_get h' ≡ count t.is_get h + gets)
    × (count t.is_done h' ≡ count t.is_done h + dones)
    × (count t.is_forget h' ≡ count t.is_forget h + forgets)

abbrev pub handed_out : Option Item → Bool
handed_out none = false
handed_out (some i) = true

-- How the handler of an item that came off the queue ends.
abbrev pub outcome_of :
    {E : Type 0} → (Str → List E → Outcome × List E) → Option Item → List E → Outcome
outcome_of sync (some (key k)) h = (sync k h).0
outcome_of sync _ h = done

-- Of a worker that ended so, the Gets without a Done: the one that reported the shutdown.
abbrev pub open_items : Iteration → ℕ
open_items (returns b) = 1
open_items crashes = 0

module _ {E : Type 0} (q : WorkQueue E) (t : Tests q) (sync : Str → List E → Outcome × List E)
    (quiet : (k : Str) (h : List E) → Counts t h (sync k h).1 0 0 0) where
  after_sync-Counts :
      (k : Str) (r : Outcome × List E)
      → Counts t r.1 (after_sync q sync (key k) r).1 0 1 (one_if (settled (some (key k)) r.0))
  unfolding count
  after_sync-Counts k (done, h) = ground (arith, t.done_event (key k), t.forget_event (key k))
  after_sync-Counts k (failed e, h) = ground (arith, t.done_event (key k))
  after_sync-Counts k (panicked, h) = ground (arith, t.done_event (key k))

  process-Counts :
      (x : Option Item) (h : List E)
      → Counts t h
          (process q sync x h).1
          0
          (one_if (handed_out x))
          (one_if (settled x (outcome_of sync x h)))
  unfolding count
  process-Counts none h = (omega arith, omega arith, omega arith)
  process-Counts (some (key k)) h =
      let c = after_sync-Counts k (sync k h) in
      let d = quiet k h in (omega arith, omega arith, omega arith)
  process-Counts (some invalid) h =
      ground (arith, t.done_event invalid, t.forget_event invalid, t.error_event)

  -- One iteration makes one Get. Where that hands out an item, the item is marked done once, also
  -- when its handler fails or panics; and it is forgotten exactly if it is no key, or its handler
  -- succeeds. Nothing else is done or forgotten.
  pub process_next_work_item-Counts :
      (h : List E)
      → let x = q.gotten (q.get ∷ h) in
        Counts t h
          (process_next_work_item q sync h).1
          1
          (one_if (handed_out x))
          (one_if (settled x (outcome_of sync x (q.get ∷ h))))
  unfolding process_next_work_item count
  process_next_work_item-Counts h =
      let c = process-Counts (q.gotten (q.get ∷ h)) (q.get ∷ h) in ground (arith, t.get_event)

  after_sync-goes_on :
      (k : Str) (r : Outcome × List E) → (after_sync q sync (key k) r).0 ≢ returns false
  after_sync-goes_on k (done, h) e = cc
  after_sync-goes_on k (failed x, h) e = cc
  after_sync-goes_on k (panicked, h) e = cc

  -- An iteration ends the worker exactly if no item was handed out, or its handler panicked.
  process-stops :
      (x : Option Item) (h : List E)
      → ((process q sync x h).0 ≡ returns false) ↔ (handed_out x ≡ false)
  process-stops none h = (λ e. refl, λ e. refl)
  process-stops (some (key k)) h = (λ e. absurd (after_sync-goes_on k (sync k h) e), λ e. cc)
  process-stops (some invalid) h = (λ e. cc, λ e. cc)

  iteration-stops :
      (h : List E)
      → ((process_next_work_item q sync h).0 ≡ returns false)
        ↔ (handed_out (q.gotten (q.get ∷ h)) ≡ false)
  unfolding process_next_work_item
  iteration-stops h = process-stops (q.gotten (q.get ∷ h)) (q.get ∷ h)

  -- However long the worker runs and however its items fare: when it ends, it ends at the queue's
  -- shutdown or by a panic, and every Get but the one that reported the shutdown has its Done.
  pub run_worker-balanced :
      (n : ℕ) (h : List E) (r : Iteration × List E)
      → run_worker q sync n h ≡ some r
      → (r.0 ≢ returns true)
        × (count t.is_get r.1 + count t.is_done h
            ≡ count t.is_get h + count t.is_done r.1 + open_items r.0)
  unfolding run_worker
  run_worker-balanced zero h r e = cc
  run_worker-balanced (suc n) h r e = ground (
    arith,
    process_next_work_item-Counts h,
    iteration-stops h,
    run_worker-balanced n (process_next_work_item q sync h).1 r,
  )
