-- ===== src/Controller/Users/Notices.antt =====
-- The event handlers that NewUserController installs.
use cube_apiserver.Prelude.{◌≤◌, suc, List, refl}
use cube_apiserver.Base.Trace.{count}
use cube_apiserver.Types.Meta.{ObjectMeta, Owners}
use cube_apiserver.Controller.Watch.{Watched, on_update}
use cube_apiserver.Controller.Watch.Counts.{
  enqueue-OneMore, handle_object-OneMore, on_update-OneMore,
}
use cube_apiserver.Controller.Users.Calls.{Event, Env}
use cube_apiserver.Controller.Users.Worker.{
  user_watcher, enqueue_user, handle_user_object, is_added,
}

-- The kinds of objects beside the users that are watched, all with the same handlers.
pub data Watching : Type 0 where
  tokens principals cluster_role_bindings cluster_roles : Watching

-- What the informers tell the controller.
pub data UserNotice : Type 0 where
  user_added user_updated : ObjectMeta → UserNotice
  object_added object_deleted : Watching → Watched → UserNotice
  -- the old and the new object
  object_updated : Watching → ObjectMeta → ObjectMeta → UserNotice

module _ (owners : Owners) (env : Env) where
  -- The handlers of NewUserController; there is none for a deleted user.
  unfoldable pub on_user_notice : UserNotice → List Event → List Event
  on_user_notice (user_added new) h = enqueue_user owners env new h
  on_user_notice (user_updated new) h = enqueue_user owners env new h
  on_user_notice (object_added kind x) h = handle_user_object owners env x h
  on_user_notice (object_deleted kind x) h = handle_user_object owners env x h
  on_user_notice (object_updated kind old new) h = on_update owners (user_watcher env) old new h

  -- A notice puts at most one key on the queue.
  on_user_notice-OneMore :
      (x : UserNotice) (h : List Event)
      → count is_added (on_user_notice x h) ≤ suc (count is_added h)
  unfolding on_user_notice enqueue_user handle_user_object
  on_user_notice-OneMore (user_added new) h =
      enqueue-OneMore owners (user_watcher env) is_added (λ ns n. refl) refl new h
  on_user_notice-OneMore (user_updated new) h =
      enqueue-OneMore owners (user_watcher env) is_added (λ ns n. refl) refl new h
  on_user_notice-OneMore (object_added kind x) h =
      handle_object-OneMore owners (user_watcher env) is_added (λ ns n. refl) refl x h
  on_user_notice-OneMore (object_deleted kind x) h =
      handle_object-OneMore owners (user_watcher env) is_added (λ ns n. refl) refl x h
  on_user_notice-OneMore (object_updated kind old new) h =
      on_update-OneMore owners (user_watcher env) is_added (λ ns n. refl) refl old new h
