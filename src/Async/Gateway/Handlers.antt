-- ===== src/Async/Gateway/Handlers.antt =====
-- cmd/gateway/main.go: the handlers, up to the message that they send.
use dataset_service.Base.{ℕ, true, false, Option, none, some, [], ◌∷◌, if◌then◌else◌}
use dataset_service.Text.{Text, codes, is_empty, text_eq, trim_space}
use dataset_service.Async.Contracts.{
  uint, category_list_request, dataset_list_request, dataset_get_request, versions_list_request,
  version_get_request, notifications_request, access_pending_request, access_find_request,
  access_update_request, notification_create_request, notification_mark_request,
  dataset_create_request, dataset_update_request, dataset_delete_request, version_delete_request,
  review_create_request, review_update_request, review_delete_request, subscription_create_request,
  subscription_delete_request, category_create_request, category_update_request,
  category_delete_request, user_create_request, user_update_request, user_delete_request,
  user_get_request, Field, boolean, set_field, Envelope, category_create_fields,
  category_update_fields, user_create_fields, user_update_fields, dataset_create_fields,
  dataset_update_fields, review_create_fields, review_update_fields, subscription_fields,
  access_update_fields, notification_create_fields,
}
use dataset_service.Async.Gateway.{
  HttpRequest, Fresh, Handled, proceed, respond, ◌>>=◌, parse_uint, parse_uint_param, decode_body,
  with_trace, actor_context, send,
}

module _ (fresh : Fresh) (r : HttpRequest) where
  unfoldable pub handle_list_categories : Handled Envelope
  unfolding with_trace
  handle_list_categories =
      send fresh r (with_trace fresh r) category_list_request (("only_public", boolean false) ∷ [])

  -- The query of `handleListDatasets`: an owner is optional, and it has to be a number.
  abbrev owner_given : Option ℕ → Handled Field
  owner_given none = respond 400 (codes "invalid owner_id")
  owner_given (some id) = proceed (uint id)

  abbrev pub owner_filter : Text → Handled Field
  owner_filter v = if is_empty v then proceed Field.null else owner_given (parse_uint v)

  unfoldable pub handle_list_datasets : Handled Envelope
  unfolding with_trace
  handle_list_datasets = do
    owner ← owner_filter (trim_space (r.query "owner_id"))
    send fresh r (with_trace fresh r) dataset_list_request (
        ("only_public", boolean (text_eq (r.query "only_public") (codes "true")))
        ∷ ("owner_id", owner)
        ∷ [])

  unfoldable pub handle_get_dataset : Handled Envelope
  unfolding with_trace
  handle_get_dataset = do
    id ← parse_uint_param (r.path "id") (codes "id")
    send fresh r (with_trace fresh r) dataset_get_request (("id", uint id) ∷ [])

  unfoldable pub handle_list_versions : Handled Envelope
  unfolding with_trace
  handle_list_versions = do
    id ← parse_uint_param (r.path "id") (codes "id")
    send fresh r (with_trace fresh r) versions_list_request (("dataset_id", uint id) ∷ [])

  unfoldable pub handle_get_version : Handled Envelope
  unfolding with_trace
  handle_get_version = do
    id ← parse_uint_param (r.path "id") (codes "id")
    send fresh r (with_trace fresh r) version_get_request (("version_id", uint id) ∷ [])

  unfoldable pub handle_list_notifications : Handled Envelope
  unfolding with_trace
  handle_list_notifications = do
    id ← parse_uint_param (r.path "userID") (codes "userID")
    send fresh r (with_trace fresh r) notifications_request (("user_id", uint id) ∷ [])

  unfoldable pub handle_pending_access : Handled Envelope
  unfolding with_trace
  handle_pending_access = do
    id ← parse_uint_param (r.path "ownerID") (codes "ownerID")
    send fresh r (with_trace fresh r) access_pending_request (("owner_id", uint id) ∷ [])

  unfoldable pub handle_find_access : Handled Envelope
  unfolding with_trace
  handle_find_access = do
    d ← parse_uint_param (r.query "dataset_id") (codes "dataset_id")
    u ← parse_uint_param (r.query "user_id") (codes "user_id")
    send fresh r (with_trace fresh r) access_find_request
        (("dataset_id", uint d) ∷ ("user_id", uint u) ∷ [])

  unfoldable pub handle_get_user : Handled Envelope
  unfolding with_trace
  handle_get_user = do
    id ← parse_uint_param (r.path "id") (codes "id")
    send fresh r (with_trace fresh r) user_get_request (("id", uint id) ∷ [])

  unfoldable pub handle_update_access_status : Handled Envelope
  unfolding with_trace
  handle_update_access_status = do
    id ← parse_uint_param (r.path "id") (codes "id")
    who ← actor_context fresh r
    req ← decode_body access_update_fields r.body
    send fresh r who.0 access_update_request (set_field "request_id" (uint id) req)

  unfoldable pub handle_create_notification : Handled Envelope
  unfolding with_trace
  handle_create_notification = do
    req ← decode_body notification_create_fields r.body
    who ← actor_context fresh r
    send fresh r who.0 notification_create_request req

  unfoldable pub handle_mark_notification : Handled Envelope
  unfolding with_trace
  handle_mark_notification = do
    id ← parse_uint_param (r.path "id") (codes "id")
    who ← actor_context fresh r
    send fresh r who.0 notification_mark_request
        (("notification_id", uint id) ∷ ("is_read", boolean true) ∷ [])

  unfoldable pub handle_create_category : Handled Envelope
  unfolding with_trace
  handle_create_category = do
    req ← decode_body category_create_fields r.body
    who ← actor_context fresh r
    send fresh r who.0 category_create_request req

  unfoldable pub handle_update_category : Handled Envelope
  unfolding with_trace
  handle_update_category = do
    id ← parse_uint_param (r.path "id") (codes "id")
    req ← decode_body category_update_fields r.body
    who ← actor_context fresh r
    send fresh r who.0 category_update_request (set_field "id" (uint id) req)

  unfoldable pub handle_delete_category : Handled Envelope
  unfolding with_trace
  handle_delete_category = do
    id ← parse_uint_param (r.path "id") (codes "id")
    who ← actor_context fresh r
    send fresh r who.0 category_delete_request (("id", uint id) ∷ [])

  unfoldable pub handle_create_user : Handled Envelope
  unfolding with_trace
  handle_create_user = do
    req ← decode_body user_create_fields r.body
    who ← actor_context fresh r
    send fresh r who.0 user_create_request req

  unfoldable pub handle_update_user : Handled Envelope
  unfolding with_trace
  handle_update_user = do
    id ← parse_uint_param (r.path "id") (codes "id")
    req ← decode_body user_update_fields r.body
    who ← actor_context fresh r
    send fresh r who.0 user_update_request (set_field "id" (uint id) req)

  unfoldable pub handle_delete_user : Handled Envelope
  unfolding with_trace
  handle_delete_user = do
    id ← parse_uint_param (r.path "id") (codes "id")
    who ← actor_context fresh r
    send fresh r who.0 user_delete_request (("id", uint id) ∷ [])

  unfoldable pub handle_create_dataset : Handled Envelope
  unfolding with_trace
  handle_create_dataset = do
    req ← decode_body dataset_create_fields r.body
    who ← actor_context fresh r
    send fresh r who.0 dataset_create_request (set_field "owner_id" (uint who.1) req)

  unfoldable pub handle_update_dataset : Handled Envelope
  unfolding with_trace
  handle_update_dataset = do
    id ← parse_uint_param (r.path "id") (codes "id")
    who ← actor_context fresh r
    req ← decode_body dataset_update_fields r.body
    send fresh r who.0 dataset_update_request (set_field "id" (uint id) req)

  unfoldable pub handle_delete_dataset : Handled Envelope
  unfolding with_trace
  handle_delete_dataset = do
    id ← parse_uint_param (r.path "id") (codes "id")
    who ← actor_context fresh r
    send fresh r who.0 dataset_delete_request (("id", uint id) ∷ [])

  unfoldable pub handle_delete_version : Handled Envelope
  unfolding with_trace
  handle_delete_version = do
    id ← parse_uint_param (r.path "id") (codes "id")
    who ← actor_context fresh r
    send fresh r who.0 version_delete_request (("version_id", uint id) ∷ [])

  unfoldable pub handle_create_review : Handled Envelope
  unfolding with_trace
  handle_create_review = do
    req ← decode_body review_create_fields r.body
    who ← actor_context fresh r
    send fresh r who.0 review_create_request (set_field "user_id" (uint who.1) req)

  unfoldable pub handle_update_review : Handled Envelope
  unfolding with_trace
  handle_update_review = do
    id ← parse_uint_param (r.path "id") (codes "id")
    who ← actor_context fresh r
    req ← decode_body review_update_fields r.body
    send fresh r who.0 review_update_request (set_field "id" (uint id) req)

  unfoldable pub handle_delete_review : Handled Envelope
  unfolding with_trace
  handle_delete_review = do
    id ← parse_uint_param (r.path "id") (codes "id")
    who ← actor_context fresh r
    send fresh r who.0 review_delete_request (("id", uint id) ∷ [])

  unfoldable pub handle_create_subscription : Handled Envelope
  unfolding with_trace
  handle_create_subscription = do
    req ← decode_body subscription_fields r.body
    who ← actor_context fresh r
    send fresh r who.0 subscription_create_request (set_field "user_id" (uint who.1) req)

  unfoldable pub handle_delete_subscription : Handled Envelope
  unfolding with_trace
  handle_delete_subscription = do
    d ← parse_uint_param (r.query "dataset_id") (codes "dataset_id")
    who ← actor_context fresh r
    send fresh r who.0 subscription_delete_request
        (("user_id", uint who.1) ∷ ("dataset_id", uint d) ∷ [])
