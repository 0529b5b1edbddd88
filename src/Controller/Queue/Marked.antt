-- ===== src/Controller/Queue/Marked.antt =====
-- Which items a worker takes off the queue and which it marks done.
use cube_apiserver.Prelude.{
  ℕ, zero, suc, Str, Bool, true, false, Option, none, some, List, [], ◌∷◌, ◌≡◌, refl, ap, ◌∙◌, sym,
  arith, if◌then◌else◌,
}
use cube_apiserver.Base.Trace.{Since, here, more}
use cube_apiserver.Controller.Queue.{
  Item, key, invalid, Outcome, done, failed, panicked, Iteration, WorkQueue, after_sync, process,
  process_next_work_item, run_worker,
}

abbrev pub add_item : Option Item → List Item → List Item
add_item none items = items
add_item (some i) items = i ∷ items

-- The items that the queue handed out in a history, newest first.
unfoldable pub taken {ℓ} : {E : Type ℓ} → (E → Bool) → (List E → Option Item) → List E → List Item
taken is_get gotten [] = []
taken is_get gotten (e ∷ h) =
    let rest = taken is_get gotten h in if is_get e then add_item (gotten (e ∷ h)) rest else rest

-- The items that were marked done in a history, newest first.
unfoldable pub marked {ℓ} : {E : Type ℓ} → (E → Option Item) → List E → List Item
marked done_of [] = []
marked done_of (e ∷ h) = add_item (done_of e) (marked done_of h)

pub taken-Since {ℓ} :
    {E : Type ℓ} (is_get : E → Bool) (gotten : List E → Option Item) {h h' : List E}
    → Since (λ e. is_get e ≡ false) h h'
    → taken is_get gotten h' ≡ taken is_get gotten h
unfolding taken
taken-Since is_get gotten here = refl
taken-Since is_get gotten (more p s) = rw p (taken-Since is_get gotten s)

pub marked-Since {ℓ} :
    {E : Type ℓ} (done_of : E → Option Item) {h h' : List E}
    → Since (λ e. done_of e ≡ none) h h'
    → marked done_of h' ≡ marked done_of h
unfolding marked
marked-Since done_of here = refl
marked-Since done_of (more p s) = rw p (marked-Since done_of s)

-- Which events are the queue's Get, and which its Done, of which item.
pub record Reads {E : Type 0} (q : WorkQueue E) : Type 0 where
  pub is_get : E → Bool
  pub done_of : E → Option Item
  pub get_event : (is_get q.get ≡ true) × (done_of q.get ≡ none)
  pub done_event :
      (i : Item) → (is_get (q.mark_done i) ≡ false) × (done_of (q.mark_done i) ≡ some i)
  pub forget_event : (i : Item) → (is_get (q.forget i) ≡ false) × (done_of (q.forget i) ≡ none)
  pub error_event : (is_get q.handle_error ≡ false) × (done_of q.handle_error ≡ none)

-- From `h` to `h'` the items were taken and marked done that `x` has.
abbrev pub Moves :
    {E : Type 0} {q : WorkQueue E} → Reads q → List E → List E → Option Item → Option Item → Type 0
Moves {q = q} t h h' got finished =
    (taken t.is_get q.gotten h' ≡ add_item got (taken t.is_get q.gotten h))
    × (marked t.done_of h' ≡ add_item finished (marked t.done_of h))

module _ {E : Type 0} (q : WorkQueue E) (t : Reads q) (sync : Str → List E → Outcome × List E)
    (quiet : (k : Str) (h : List E) → Moves t h (sync k h).1 none none) where
  after_sync-Moves :
      (i : Item) (r : Outcome × List E) → Moves t r.1 (after_sync q sync i r).1 none (some i)
  unfolding taken marked
  after_sync-Moves i (done, h) =
      rw ((t.done_event i).0, (t.done_event i).1, (t.forget_event i).0, (t.forget_event i).1)
        (refl, refl)
  after_sync-Moves i (failed e, h) =
      rw ((t.done_event i).0, (t.done_event i).1, t.error_event.0, t.error_event.1) (refl, refl)
  after_sync-Moves i (panicked, h) = rw ((t.done_event i).0, (t.done_event i).1) (refl, refl)

  got :
      (h : List E)
      → taken t.is_get q.gotten (q.get ∷ h)
        ≡ add_item (q.gotten (q.get ∷ h)) (taken t.is_get q.gotten h)
  unfolding taken
  got h = rw t.get_event.0

  unmarked : (h : List E) → marked t.done_of (q.get ∷ h) ≡ marked t.done_of h
  unfolding marked
  unmarked h = rw t.get_event.1

  process-Moves : (x : Option Item) (h : List E) → Moves t h (process q sync x h).1 none x
  unfolding taken marked
  process-Moves none h = (refl, refl)
  process-Moves (some (key k)) h =
      let a = after_sync-Moves (key k) (sync k h) in
      let s = quiet k h in (a.0 ∙ s.0, a.1 ∙ ap (λ (l : List Item). key k ∷ l) s.1)
  process-Moves (some invalid) h =
      rw
        (
          (t.done_event invalid).0,
          (t.done_event invalid).1,
          t.error_event.0,
          t.error_event.1,
          (t.forget_event invalid).0,
          (t.forget_event invalid).1,
        )
        (refl, refl)

  -- One iteration takes what Get hands out, and marks exactly that done, also when its handler fails
  -- or panics.
  pub process_next_work_item-Moves :
      (h : List E)
      → let x = q.gotten (q.get ∷ h) in Moves t h (process_next_work_item q sync h).1 x x
  unfolding process_next_work_item
  process_next_work_item-Moves h =
      let p = process-Moves (q.gotten (q.get ∷ h)) (q.get ∷ h) in
      (p.0 ∙ got h, p.1 ∙ ap (add_item (q.gotten (q.get ∷ h))) (unmarked h))

  -- Where the items that were marked done are those that were taken, that stays so.
  pub run_worker-marked :
      (n : ℕ) (h : List E) (r : Iteration × List E)
      → run_worker q sync n h ≡ some r
      → marked t.done_of h ≡ taken t.is_get q.gotten h
      → marked t.done_of r.1 ≡ taken t.is_get q.gotten r.1
  unfolding run_worker
  run_worker-marked zero h r e same = cc
  run_worker-marked (suc n) h r e same =
      let m = process_next_work_item-Moves h in
      let now : marked t.done_of (process_next_work_item q sync h).1
          ≡ taken t.is_get q.gotten (process_next_work_item q sync h).1 =
        m.1 ∙ ap (add_item (q.gotten (q.get ∷ h))) same ∙ sym m.0 in
      ground (arith, run_worker-marked n (process_next_work_item q sync h).1 r)
