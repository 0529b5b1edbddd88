-- ===== src/Controller/Users/Worker.antt =====
-- The worker and the event handlers of the user controller.
use cube_apiserver.Prelude.{
  ℕ, ◌+◌, Str, str, Bool, true, false, Option, none, some, List, [], ◌∷◌, ◌≡◌, ◌≢◌, refl, arith,
}
use cube_apiserver.Base.Errors.{Err, err}
use cube_apiserver.Base.Trace.{Since-mono, count, count-Since}
use cube_apiserver.Types.Meta.{ObjectMeta, Owners}
use cube_apiserver.Types.Auth.{User}
use cube_apiserver.Controller.Queue.{Item, Iteration, returns, process_next_work_item, run_worker}
use cube_apiserver.Controller.Queue.Marked.{
  Reads, taken, taken-Since, marked, marked-Since, Moves, run_worker-marked,
}
use cube_apiserver.Controller.Queue.Discipline.{Tests, Counts, open_items, run_worker-balanced}
use cube_apiserver.Controller.Watch.{Watched, object, Watcher, handle_object, enqueue}
use cube_apiserver.Controller.Watch.Owned.{handle_object-unnamespaced}
use cube_apiserver.Controller.Users.Calls.{
  Event, get_user, report, queue_get, queue_forget, queue_done, queue_add, Env, user_queue,
}
use cube_apiserver.Controller.Users.{sync_handler}
use cube_apiserver.Controller.Users.Writes.Quiet.{is_queue, sync_handler-IsQuiet}

abbrev pub user_watcher : Env → Watcher Event User
user_watcher env = record {
  kind = str "User";
  metadata_of = λ u. u.metadata;
  get = get_user;
  add = queue_add;
  report = report;
  gotten = env.user_gotten;
  key_of = env.key_of;
}

-- The controller's enqueueUser, handleObject, processNextWorkItem and runWorker.
unfoldable pub enqueue_user : Owners → Env → ObjectMeta → List Event → List Event
enqueue_user owners env = enqueue owners (user_watcher env)

unfoldable pub handle_user_object : Owners → Env → Watched → List Event → List Event
handle_user_object owners env = handle_object owners (user_watcher env)

unfoldable pub process_next_user : Owners → Env → List Event → Iteration × List Event
process_next_user owners env = process_next_work_item (user_queue env) (sync_handler owners env)

unfoldable pub run_user_worker : Owners → Env → ℕ → List Event → Option (Iteration × List Event)
run_user_worker owners env = run_worker (user_queue env) (sync_handler owners env)

abbrev pub is_get : Event → Bool
is_get queue_get = true
is_get _ = false

abbrev pub is_done : Event → Bool
is_done (queue_done i) = true
is_done _ = false

-- The item that an event marks done.
abbrev pub done_of : Event → Option Item
done_of (queue_done i) = some i
done_of _ = none

abbrev pub is_forget : Event → Bool
is_forget (queue_forget i) = true
is_forget _ = false

abbrev pub is_added : Event → Bool
is_added (queue_add k) = true
is_added _ = false

abbrev pub user_tests : (env : Env) → Tests (user_queue env)
user_tests env = record {
  is_get = is_get;
  is_done = is_done;
  is_forget = is_forget;
  get_event = (refl, refl, refl);
  done_event = λ i. (refl, refl, refl);
  forget_event = λ i. (refl, refl, refl);
  error_event = (refl, refl, refl);
}

abbrev pub user_reads : (env : Env) → Reads (user_queue env)
user_reads env = record {
  is_get = is_get;
  done_of = done_of;
  get_event = (refl, refl);
  done_event = λ i. (refl, refl);
  forget_event = λ i. (refl, refl);
  error_event = (refl, refl);
}

no_get : (e : Event) → is_queue e ≡ false → is_get e ≡ false
no_get queue_get p = cc
no_get _ p = refl

no_done : (e : Event) → is_queue e ≡ false → is_done e ≡ false
no_done (queue_done i) p = cc
no_done _ p = refl

no_done_of : (e : Event) → is_queue e ≡ false → done_of e ≡ none
no_done_of (queue_done i) p = cc
no_done_of _ p = refl

no_forget : (e : Event) → is_queue e ≡ false → is_forget e ≡ false
no_forget (queue_forget i) p = cc
no_forget _ p = refl

pub sync_handler-Counts :
    (owners : Owners) (env : Env) (k : Str) (h : List Event)
    → Counts (user_tests env) h (sync_handler owners env k h).1 0 0 0
sync_handler-Counts owners env k h =
    let s = sync_handler-IsQuiet owners env k h in
    (
      omega (arith, count-Since is_get (Since-mono no_get s)),
      omega (arith, count-Since is_done (Since-mono no_done s)),
      omega (arith, count-Since is_forget (Since-mono no_forget s)),
    )

sync_handler-Moves :
    (owners : Owners) (env : Env) (k : Str) (h : List Event)
    → Moves (user_reads env) h (sync_handler owners env k h).1 none none
sync_handler-Moves owners env k h =
    let s = sync_handler-IsQuiet owners env k h in
    (
      taken-Since is_get env.item_gotten (Since-mono no_get s),
      marked-Since done_of (Since-mono no_done_of s),
    )

-- A user worker that ends, ends with `false` or a panic. The items that it marked done are those
-- that the queue handed out, each as often and in the same order; it called Get once more than Done
-- if it ended with `false`, and as often if it ended with a panic.
pub run_user_worker-balanced :
    (owners : Owners) (env : Env) (n : ℕ) (r : Iteration × List Event)
    → run_user_worker owners env n [] ≡ some r
    → (r.0 ≢ returns true)
      × (marked done_of r.1 ≡ taken is_get env.item_gotten r.1)
      × (count is_get r.1 ≡ count is_done r.1 + open_items r.0)
unfolding run_user_worker count marked taken
run_user_worker-balanced owners env n r e =
    let b =
      run_worker-balanced (user_queue env) (user_tests env) (sync_handler owners env)
        (sync_handler-Counts owners env) n [] r e in
    let m =
      run_worker-marked (user_queue env) (user_reads env) (sync_handler owners env)
        (sync_handler-Moves owners env) n [] r e refl in
    (b.0, m, omega (arith, b.1))

-- Objects of the cluster scope, such as the roles and bindings that the controller watches, have no
-- namespace, and users always have one: no change of such an object ever queues its user.
pub handle_user_object-cluster_scoped :
    (owners : Owners) (env : Env) (m : ObjectMeta) (h : List Event)
    → m.namespace ≡ []
    → ((name : Str) → (e : Err) × (env.user_gotten (get_user [] name ∷ h) ≡ err e))
    → count is_added (handle_user_object owners env (object m) h) ≡ count is_added h
unfolding handle_user_object count
handle_user_object-cluster_scoped owners env m h ns absent =
    ground (arith, handle_object-unnamespaced owners (user_watcher env) m h ns absent)
