-- ===== src/Controller/Users/Writes/Quiet.antt =====
-- The calls of the work queue, and the handler of the user controller.
use cube_apiserver.Prelude.{Str, Bool, true, false, List, ◌≡◌, refl}
use cube_apiserver.Base.Errors.{Result, ok, err}
use cube_apiserver.Base.Trace.{Since, Since-mono, Adds, adds_rules}
use cube_apiserver.Types.Meta.{Owners}
use cube_apiserver.Types.Auth.{User}
use cube_apiserver.Controller.Users.Calls.{
  Event, queue_get, queue_forget, queue_done, queue_add, Env,
}
use cube_apiserver.Controller.Users.{sync_found, sync_key, sync_handler}
use cube_apiserver.Controller.Users.Writes.{Permitted, sync_found-Fits}

-- A call of the work queue.
abbrev pub is_queue : Event → Bool
is_queue queue_get = true
is_queue (queue_forget i) = true
is_queue (queue_done i) = true
is_queue (queue_add k) = true
is_queue _ = false

Permitted-quiet :
    (owners : Owners) (user : User) (e : Event) → Permitted owners user e → is_queue e ≡ false
Permitted-quiet owners user queue_get p = absurd p
Permitted-quiet owners user (queue_forget i) p = absurd p
Permitted-quiet owners user (queue_done i) p = absurd p
Permitted-quiet owners user (queue_add k) p = absurd p
Permitted-quiet owners user _ p = refl

abbrev IsQuiet : Event → Type 0
IsQuiet e = is_queue e ≡ false

sync_found-IsQuiet :
    (owners : Owners) (env : Env) (r : Result User) → Adds IsQuiet (sync_found owners env r)
unfolding sync_found
sync_found-IsQuiet owners env (err e) = search adds_rules
sync_found-IsQuiet owners env (ok user) = record {
  at = λ h. Since-mono (Permitted-quiet owners user) ((sync_found-Fits owners env user).at h);
}

sync_key-IsQuiet :
    (owners : Owners) (env : Env) (r : Result (Str × Str)) → Adds IsQuiet (sync_key owners env r)
unfolding sync_key
sync_key-IsQuiet owners env (err e) = search adds_rules
sync_key-IsQuiet owners env (ok (namespace, name)) = search (adds_rules, sync_found-IsQuiet)

-- The handler leaves the work queue alone: what is done, forgotten or added, the worker decides.
pub sync_handler-IsQuiet :
    (owners : Owners) (env : Env) (key : Str) (h : List Event)
    → Since (λ e. is_queue e ≡ false) h (sync_handler owners env key h).1
unfolding sync_handler
sync_handler-IsQuiet owners env key h = (sync_key-IsQuiet owners env (env.split_key key)).at h
