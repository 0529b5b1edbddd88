-- ===== src/Controller/Users/Examples.antt =====
-- One user in a cluster that answers every call alike; the theorems at this input, and tests.
use cube_apiserver.Prelude.{
  str, true, none, some, List, [], ◌∷◌, ◌+◌, ◌≡◌, ◌≢◌, ◌↔◌, refl, ap, ◌==◌,
}
use cube_apiserver.Base.Errors.{not_found, already_exists, other, value_or, ok, err}
use cube_apiserver.Base.Effect.{run, ◌>>=◌, leave}
use cube_apiserver.Base.Trace.{Since, count}
use cube_apiserver.Types.Meta.{ObjectMeta, zero_meta}
use cube_apiserver.Types.Auth.{User, Principal, zero_user, zero_principal}
use cube_apiserver.Controller.Common.{match_principal_id}
use cube_apiserver.Controller.Queue.{
  key, Outcome, done, failed, panicked, Iteration, returns, run_worker, process_next_work_item,
}
use cube_apiserver.Controller.Queue.Marked.{marked, taken}
use cube_apiserver.Controller.Queue.Discipline.{open_items}
use cube_apiserver.Controller.ByUid.{ref_to, by_uid}
use cube_apiserver.Controller.Watch.{object}
use cube_apiserver.Types.Rbac.{Role, Binding, zero_binding}
use cube_apiserver.Controller.Users.Calls.{
  Event, principals_by_id, roles_by_name, bindings_by_name, update_user, note_synced, get_role, Env,
}
use cube_apiserver.Controller.Users.{
  user_message_resource_exists, sync_user, sync_found, sync_key, sync_handler, find_role,
}
use cube_apiserver.Controller.Users.Objects.{user_gvk, wanted_principal}
use cube_apiserver.Controller.Users.Writes.{Permitted, sync_handler-Permitted}
use cube_apiserver.Controller.Users.Sync.{IsSynced, sync_user-IsSynced}
use cube_apiserver.Controller.Users.Steady.{IsSettled, sync_user-settled}
use cube_apiserver.Controller.Users.Failures.{
  find_role-panics, sync_user-stale_role, sync_user-existing_principal,
}
use cube_apiserver.Controller.Users.Worker.{
  is_get, is_done, done_of, is_added, process_next_user, run_user_worker, run_user_worker-balanced,
  handle_user_object, handle_user_object-cluster_scoped,
}

abbrev ann_meta : ObjectMeta
ann_meta = record zero_meta { name = str "ann"; namespace = str "ns"; uid = str "7" }

abbrev ann : User
ann = record zero_user {
  metadata = ann_meta;
  username = str "ann";
  principal_ids = str "local.ns.ann" ∷ [];
}

abbrev ann_owned : ObjectMeta
ann_owned = record zero_meta { name = str "ann"; owner_references = ref_to ann_meta user_gvk ∷ [] }

abbrev ann_principal : Principal
ann_principal = record zero_principal {
  metadata = record ann_owned { name = str "local.ns.ann"; namespace = str "ns" };
}

abbrev ann_role : Role
ann_role = record { metadata = ann_owned; rules = [] }

abbrev ann_binding : Binding
ann_binding = record zero_binding { metadata = ann_owned }

-- Everything is there; one item, then the shutdown.
abbrev settled_env : Env
settled_env = record {
  split_key = λ k. ok (str "ns", str "ann");
  key_of = λ m. ok m.name;
  user_gotten = λ h. ok ann;
  principals_found = λ h. ok (ann_principal ∷ []);
  roles_found = λ h. ok (ann_role ∷ []);
  bindings_found = λ h. ok (ann_binding ∷ []);
  namespace_created = λ h. err already_exists;
  principal_created = λ h. err already_exists;
  principal_updated = λ h. ok ann_principal;
  user_updated = λ h. ok ann;
  role_gotten = λ h. ok ann_role;
  role_created = λ h. ok ann_role;
  binding_gotten = λ h. ok ann_binding;
  binding_created = λ h. ok ann_binding;
  item_gotten = λ h. elim h [ _ ∷ [] ↦ some (key (str "ns/ann")) | _ ↦ none ];
}

abbrev stale_env : Env
stale_env = record settled_env { roles_found = λ h. ok [] }

abbrev new_env : Env
new_env = record settled_env { principals_found = λ h. ok [] }

ann-IsSettled : IsSettled by_uid settled_env ann []
unfolding ◌==◌ match_principal_id
ann-IsSettled = record {
  principal = ann_principal;
  role = ann_role;
  binding = ann_binding;
  sent = ann;
  principal_found = refl;
  role_found = refl;
  binding_found = refl;
  owns_principal = refl;
  owns_role = refl;
  owns_binding = refl;
  named = refl;
  written = refl;
}

sync_user-settled_example : run (sync_user by_uid settled_env ann) [] ≡ (
  done,
  note_synced (str "ann")
      ∷ update_user (str "ns") ann
      ∷ bindings_by_name (str "ann")
      ∷ roles_by_name (str "ann")
      ∷ principals_by_id (wanted_principal ann).name
      ∷ [],
)
sync_user-settled_example = sync_user-settled by_uid settled_env ann [] ann-IsSettled

ann_done : (run (sync_user by_uid settled_env ann) []).0 ≡ done
ann_done =
    ap (λ (x : Outcome × List Event). x.0)
      (sync_user-settled by_uid settled_env ann [] ann-IsSettled)

sync_user-IsSynced_example :
    IsSynced by_uid settled_env ann [] (run (sync_user by_uid settled_env ann) []).1
sync_user-IsSynced_example = sync_user-IsSynced by_uid settled_env ann [] ann_done

sync_handler-Permitted_example :
    Since (Permitted by_uid ann) [] (sync_handler by_uid new_env (str "ns/ann") []).1
sync_handler-Permitted_example =
    sync_handler-Permitted by_uid new_env (str "ns/ann") (str "ns") (str "ann") ann [] refl refl

find_role-panics_test : ((find_role by_uid stale_env ann []).0 ≡ leave panicked) ↔ (
    (value_or [] (stale_env.roles_found (roles_by_name (str "ann") ∷ [])) ≡ [])
    × ((r : Role) × (stale_env.role_gotten (get_role (str "ann") ∷ roles_by_name (str "ann") ∷ [])
          ≡ ok r)))
find_role-panics_test = find_role-panics by_uid stale_env ann []

sync_user-stale_role_example : (run (sync_user by_uid stale_env ann) []).0 ≡ panicked
unfolding ◌==◌ match_principal_id
sync_user-stale_role_example =
    sync_user-stale_role by_uid stale_env ann ann_principal ann_role [] refl refl refl refl refl

sync_user-existing_principal_test :
    (run (sync_user by_uid new_env ann) []).0 ≡ failed (other user_message_resource_exists)
sync_user-existing_principal_test =
    ap (λ (x : Outcome × List Event). x.0)
      (sync_user-existing_principal by_uid new_env ann [] refl refl refl)

-- The second iteration meets the shutdown.
abbrev ended : Iteration × List Event
ended = process_next_user by_uid settled_env (process_next_user by_uid settled_env []).1

one_item : run_user_worker by_uid settled_env 2 [] ≡ some ended
unfolding run_user_worker process_next_user run_worker process_next_work_item sync_handler sync_key
    ◌>>=◌ sync_found sync_user ◌==◌ match_principal_id
one_item = refl

run_user_worker-balanced_example :
    (ended.0 ≢ returns true)
    × (marked done_of ended.1 ≡ taken is_get settled_env.item_gotten ended.1)
    × (count is_get ended.1 ≡ count is_done ended.1 + open_items ended.0)
run_user_worker-balanced_example = run_user_worker-balanced by_uid settled_env 2 ended one_item

-- No user is in the lister.
abbrev lonely_env : Env
lonely_env = record settled_env { user_gotten = λ h. err not_found }

handle_user_object-cluster_scoped_example :
    count is_added (handle_user_object by_uid lonely_env (object ann_owned) []) ≡ 0
unfolding count
handle_user_object-cluster_scoped_example =
    handle_user_object-cluster_scoped by_uid lonely_env ann_owned [] refl λ name. (not_found, refl)
