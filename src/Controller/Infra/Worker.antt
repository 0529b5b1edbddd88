-- ===== src/Controller/Infra/Worker.antt =====
-- The worker and the event handlers of the infrastructure controller.
use cube_apiserver.Prelude.{
  ℕ, ◌+◌, Str, str, Bool, true, false, Option, none, some, List, [], ◌≡◌, ◌≢◌, refl, arith,
}
use cube_apiserver.Base.Trace.{Since-mono, count, count-Since}
use cube_apiserver.Types.Meta.{ObjectMeta, Owners}
use cube_apiserver.Types.Infra.{Infrastructure}
use cube_apiserver.Controller.Queue.{Item, Iteration, returns, process_next_work_item, run_worker}
use cube_apiserver.Controller.Queue.Adds.{iteration-Since, run_worker-Since}
use cube_apiserver.Controller.Queue.Marked.{
  Reads, taken, taken-Since, marked, marked-Since, Moves, run_worker-marked,
}
use cube_apiserver.Controller.Queue.Discipline.{Tests, Counts, open_items, run_worker-balanced}
use cube_apiserver.Controller.Watch.{Watched, Watcher, handle_object, on_update, enqueue}
use cube_apiserver.Controller.Infra.Calls.{
  Event, get_infrastructure, report, queue_get, queue_forget, queue_done, queue_add, Env,
  infra_queue,
}
use cube_apiserver.Controller.Infra.{infra_sync_handler}
use cube_apiserver.Controller.Infra.Owned.Sync.{is_queue, infra_sync_handler-IsQuiet}

abbrev pub infra_watcher : Env → Watcher Event Infrastructure
infra_watcher env = record {
  kind = str "Infrastructure";
  metadata_of = λ i. i.metadata;
  get = get_infrastructure;
  add = queue_add;
  report = report;
  gotten = env.infrastructure_gotten;
  key_of = env.key_of;
}

-- The controller's enqueueInfra, handleObject, processNextWorkItem and runWorker.
unfoldable pub enqueue_infra : Owners → Env → ObjectMeta → List Event → List Event
enqueue_infra owners env = enqueue owners (infra_watcher env)

unfoldable pub handle_infra_object : Owners → Env → Watched → List Event → List Event
handle_infra_object owners env = handle_object owners (infra_watcher env)

-- The UpdateFunc of the deployments and of the pods.
unfoldable pub on_infra_update : Owners → Env → ObjectMeta → ObjectMeta → List Event → List Event
on_infra_update owners env = on_update owners (infra_watcher env)

unfoldable pub process_next_infra : Owners → Env → List Event → Iteration × List Event
process_next_infra owners env =
    process_next_work_item (infra_queue env) (infra_sync_handler owners env)

unfoldable pub run_infra_worker : Owners → Env → ℕ → List Event → Option (Iteration × List Event)
run_infra_worker owners env = run_worker (infra_queue env) (infra_sync_handler owners env)

abbrev pub is_get : Event → Bool
is_get queue_get = true
is_get _ = false

abbrev pub is_done : Event → Bool
is_done (queue_done i) = true
is_done _ = false

-- The item that an event marks done.
abbrev pub done_of : Event → Option Item
done_of (queue_done i) = some i
done_of _ = none

abbrev pub is_forget : Event → Bool
is_forget (queue_forget i) = true
is_forget _ = false

abbrev pub is_added : Event → Bool
is_added (queue_add k) = true
is_added _ = false

abbrev pub infra_tests : (env : Env) → Tests (infra_queue env)
infra_tests env = record {
  is_get = is_get;
  is_done = is_done;
  is_forget = is_forget;
  get_event = (refl, refl, refl);
  done_event = λ i. (refl, refl, refl);
  forget_event = λ i. (refl, refl, refl);
  error_event = (refl, refl, refl);
}

abbrev pub infra_reads : (env : Env) → Reads (infra_queue env)
infra_reads env = record {
  is_get = is_get;
  done_of = done_of;
  get_event = (refl, refl);
  done_event = λ i. (refl, refl);
  forget_event = λ i. (refl, refl);
  error_event = (refl, refl);
}

no_get : (e : Event) → is_queue e ≡ false → is_get e ≡ false
no_get queue_get p = cc
no_get _ p = refl

no_done : (e : Event) → is_queue e ≡ false → is_done e ≡ false
no_done (queue_done i) p = cc
no_done _ p = refl

no_done_of : (e : Event) → is_queue e ≡ false → done_of e ≡ none
no_done_of (queue_done i) p = cc
no_done_of _ p = refl

no_forget : (e : Event) → is_queue e ≡ false → is_forget e ≡ false
no_forget (queue_forget i) p = cc
no_forget _ p = refl

no_add : (e : Event) → is_queue e ≡ false → is_added e ≡ false
no_add (queue_add k) p = cc
no_add _ p = refl

infra_sync_handler-Counts :
    (owners : Owners) (env : Env) (k : Str) (h : List Event)
    → Counts (infra_tests env) h (infra_sync_handler owners env k h).1 0 0 0
infra_sync_handler-Counts owners env k h =
    let s = infra_sync_handler-IsQuiet owners env k h in
    (
      omega (arith, count-Since is_get (Since-mono no_get s)),
      omega (arith, count-Since is_done (Since-mono no_done s)),
      omega (arith, count-Since is_forget (Since-mono no_forget s)),
    )

infra_sync_handler-Moves :
    (owners : Owners) (env : Env) (k : Str) (h : List Event)
    → Moves (infra_reads env) h (infra_sync_handler owners env k h).1 none none
infra_sync_handler-Moves owners env k h =
    let s = infra_sync_handler-IsQuiet owners env k h in
    (
      taken-Since is_get env.item_gotten (Since-mono no_get s),
      marked-Since done_of (Since-mono no_done_of s),
    )

-- An infrastructure worker that ends, ends with `false` or a panic. The items that it marked done are those
-- that the queue handed out, each as often and in the same order; it called Get once more than Done
-- if it ended with `false`, and as often if it ended with a panic.
pub run_infra_worker-balanced :
    (owners : Owners) (env : Env) (n : ℕ) (r : Iteration × List Event)
    → run_infra_worker owners env n [] ≡ some r
    → (r.0 ≢ returns true)
      × (marked done_of r.1 ≡ taken is_get env.item_gotten r.1)
      × (count is_get r.1 ≡ count is_done r.1 + open_items r.0)
unfolding run_infra_worker count marked taken
run_infra_worker-balanced owners env n r e =
    let b =
      run_worker-balanced (infra_queue env) (infra_tests env) (infra_sync_handler owners env)
        (infra_sync_handler-Counts owners env) n [] r e in
    let m =
      run_worker-marked (infra_queue env) (infra_reads env) (infra_sync_handler owners env)
        (infra_sync_handler-Moves owners env) n [] r e refl in
    (b.0, m, omega (arith, b.1))

-- A round of the worker puts no key on the queue.
pub process_next_infra-never_adds :
    (owners : Owners) (env : Env) (h : List Event)
    → count is_added (process_next_infra owners env h).1 ≡ count is_added h
unfolding process_next_infra
process_next_infra-never_adds owners env h = count-Since is_added (
    iteration-Since (infra_queue env) (infra_sync_handler owners env) refl (λ i. refl) (λ i. refl)
      refl (λ k g. Since-mono no_add (infra_sync_handler-IsQuiet owners env k g)) h)

-- However its items fare, also where a synchronisation fails, an infrastructure worker never puts a
-- key on the queue.
pub run_infra_worker-never_adds :
    (owners : Owners) (env : Env) (n : ℕ) (h : List Event) (r : Iteration × List Event)
    → run_infra_worker owners env n h ≡ some r
    → count is_added r.1 ≡ count is_added h
unfolding run_infra_worker
run_infra_worker-never_adds owners env n h r e = count-Since is_added (
    run_worker-Since (infra_queue env) (infra_sync_handler owners env) refl (λ i. refl) (λ i. refl)
      refl (λ k g. Since-mono no_add (infra_sync_handler-IsQuiet owners env k g)) n h r e)
