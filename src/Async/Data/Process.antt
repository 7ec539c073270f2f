-- ===== src/Async/Data/Process.antt =====
-- cmd/data/main.go: `handleCoreMessage`, which runs the command of a message and answers it.
use dataset_service.Base.{
  ℕ, Bool, true, not, ◌&&◌, Option, none, some, List, [], ◌∷◌, if◌then◌else◌,
}
use dataset_service.Text.{Text, codes, is_empty}
use dataset_service.Errors.{Error}
use dataset_service.Exec.{Result, ok, err, Exec, pure, read, lift}
use dataset_service.Async.Contracts.{
  Kind, health_request, category_list_request, dataset_list_request, dataset_get_request,
  versions_list_request, version_get_request, notifications_request, access_pending_request,
  access_find_request, access_update_request, notification_create_request,
  notification_mark_request, dataset_create_request, dataset_update_request, dataset_delete_request,
  version_add_request, version_delete_request, review_create_request, review_update_request,
  review_delete_request, subscription_create_request, subscription_delete_request,
  category_create_request, category_update_request, category_delete_request, user_create_request,
  user_update_request, user_delete_request, user_get_request, unlisted, Field, Fields, Envelope,
}
use dataset_service.Async.Core.{contains}
use dataset_service.Async.Data.{Repos, fail}
use dataset_service.Async.Data.Commands.{
  category_create, category_update, category_delete, user_create, user_update, user_delete,
  dataset_create, dataset_update, dataset_delete, version_add, version_delete,
}
use dataset_service.Async.Data.Reviews.{
  review_create, review_update, review_delete, subscription_create, subscription_delete,
  access_update, notification_create, notification_mark,
}
use dataset_service.Async.Data.Queries.{
  category_list, user_get, dataset_list, dataset_get, versions_list, version_get,
  notifications_list, access_pending, access_find,
}

-- The database, the identifiers of messages that are done, and what was published for the core, the
-- latest first.
pub record DataProcess (S : Type 0) : Type 0 where
  pub store : S
  pub processed : List Text
  pub published : List Envelope

-- The type of the response to a type of request.
unfoldable pub response_kind : Kind → Text
response_kind health_request = codes "health.response"
response_kind category_list_request = codes "categories.list.response"
response_kind dataset_list_request = codes "datasets.list.response"
response_kind dataset_get_request = codes "datasets.get.response"
response_kind versions_list_request = codes "versions.list.response"
response_kind version_get_request = codes "versions.get.response"
response_kind notifications_request = codes "notifications.list.response"
response_kind access_pending_request = codes "access.pending.response"
response_kind access_find_request = codes "access.find.response"
response_kind access_update_request = codes "access.update.response"
response_kind notification_create_request = codes "notification.create.response"
response_kind notification_mark_request = codes "notification.mark.response"
response_kind dataset_create_request = codes "dataset.create.response"
response_kind dataset_update_request = codes "dataset.update.response"
response_kind dataset_delete_request = codes "dataset.delete.response"
response_kind version_add_request = codes "version.add.response"
response_kind version_delete_request = codes "version.delete.response"
response_kind review_create_request = codes "review.create.response"
response_kind review_update_request = codes "review.update.response"
response_kind review_delete_request = codes "review.delete.response"
response_kind subscription_create_request = codes "subscription.create.response"
response_kind subscription_delete_request = codes "subscription.delete.response"
response_kind category_create_request = codes "category.create.response"
response_kind category_update_request = codes "category.update.response"
response_kind category_delete_request = codes "category.delete.response"
response_kind user_create_request = codes "user.create.response"
response_kind user_update_request = codes "user.update.response"
response_kind user_delete_request = codes "user.delete.response"
response_kind user_get_request = codes "user.get.response"
response_kind (unlisted t) = t

-- `err == nil && msg.ID != ""`
abbrev mark_done : {S : Type 0} → Envelope → Bool → DataProcess S → DataProcess S
mark_done msg sent p =
    if sent && not (is_empty msg.id) then record p { processed = msg.id ∷ p.processed } else p

abbrev pub is_done : {S : Type 0} → Envelope → DataProcess S → Bool
is_done msg p = not (is_empty msg.id) && contains msg.id p.processed

-- The answers to errors of `handleListCategories` and to unknown types and health requests carry no
-- trace.
abbrev trace_of : Kind → Option Text → Text → Text
trace_of health_request error trace = []
trace_of (unlisted t) error trace = []
trace_of category_list_request (some text) trace = []
trace_of _ error trace = trace

-- `error_text` is `Error()` of an error. `publishes` says whether the broker takes a message.
module _ {S : Type 0} (repos : Repos S) (error_text : Error → Text)
    (publishes : Envelope → Bool) where
  -- The command of a message; its answer is a payload or an error.
  unfoldable pub run_command : Kind → Option Fields → ℕ → ℕ → Exec S Fields
  unfolding category_create category_update category_delete user_create user_update user_delete
      dataset_create dataset_update dataset_delete version_add version_delete review_create
      review_update review_delete subscription_create subscription_delete access_update
      notification_create notification_mark category_list user_get dataset_list dataset_get
      versions_list version_get notifications_list access_pending access_find
  run_command health_request payload at now =
      pure (("service", Field.string (codes "data")) ∷ ("status", Field.string (codes "ok")) ∷ [])
  run_command category_list_request payload at now = read (category_list repos payload)
  run_command dataset_list_request payload at now = read (dataset_list repos payload)
  run_command dataset_get_request payload at now = read (dataset_get repos payload)
  run_command versions_list_request payload at now = read (versions_list repos payload)
  run_command version_get_request payload at now = read (version_get repos payload)
  run_command notifications_request payload at now = read (notifications_list repos payload)
  run_command access_pending_request payload at now = read (access_pending repos payload)
  run_command access_find_request payload at now = read (access_find repos payload)
  run_command user_get_request payload at now = read (user_get repos payload)
  run_command access_update_request payload at now = access_update repos at now payload
  run_command notification_create_request payload at now = notification_create repos at now payload
  run_command notification_mark_request payload at now = notification_mark repos at now payload
  run_command dataset_create_request payload at now = dataset_create repos at now payload
  run_command dataset_update_request payload at now = dataset_update repos at now payload
  run_command dataset_delete_request payload at now = dataset_delete repos at now payload
  run_command version_add_request payload at now = version_add repos at now payload
  run_command version_delete_request payload at now = version_delete repos at now payload
  run_command review_create_request payload at now = review_create repos at now payload
  run_command review_update_request payload at now = review_update repos at now payload
  run_command review_delete_request payload at now = review_delete repos at now payload
  run_command subscription_create_request payload at now = subscription_create repos at now payload
  run_command subscription_delete_request payload at now = subscription_delete repos at now payload
  run_command category_create_request payload at now = category_create repos at now payload
  run_command category_update_request payload at now = category_update repos at now payload
  run_command category_delete_request payload at now = category_delete repos at now payload
  run_command user_create_request payload at now = user_create repos at now payload
  run_command user_update_request payload at now = user_update repos at now payload
  run_command user_delete_request payload at now = user_delete repos at now payload
  run_command (unlisted t) payload at now = lift (fail "unsupported message type")

  abbrev payload_of : Result Fields → Option Fields
  payload_of (ok fields) = some fields
  payload_of (err e) = none

  abbrev error_of : Result Fields → Option Text
  error_of (ok fields) = none
  error_of (err e) = some (error_text e)

  -- The envelope that is published, with `publishError` for errors.
  abbrev pub reply : Envelope → Result Fields → Envelope
  reply msg result = record {
    id = [];
    kind = unlisted (response_kind msg.kind);
    source = codes "data";
    correlation_id = msg.correlation_id;
    trace_id = trace_of msg.kind (error_of result) msg.trace_id;
    actor_id = 0;
    actor_role = [];
    payload = payload_of result;
    error = error_of result;
  }

  -- `a.bus.Publish(ctx, a.replyTo, …)`
  abbrev publish_response : Envelope → DataProcess S → DataProcess S
  publish_response resp p =
      if publishes resp then record p { published = resp ∷ p.published } else p

  -- The end of every case: the answer is published, and the message is done if that succeeds.
  abbrev pub publish_reply : Envelope → Envelope → DataProcess S → Bool × DataProcess S
  publish_reply msg resp p =
      (publishes resp, mark_done msg (publishes resp) (publish_response resp p))

  -- `handleCoreMessage`: whether it returns nil, and the state after it.
  unfoldable pub handle_core_message : ℕ → ℕ → Envelope → DataProcess S → Bool × DataProcess S
  unfolding run_command response_kind
  handle_core_message at now msg p =
      if is_done msg p
      then (true, p)
      else let (result, s) = run_command msg.kind msg.payload at now p.store in
        publish_reply msg (reply msg result) (record p { store = s })
