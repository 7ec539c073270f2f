-- ===== src/Async/Gateway/Routes.antt =====
-- cmd/gateway/main.go: the routes of `router`, and what the client is answered.
use dataset_service.Base.{ℕ, Bool, true, false, Option, none, some, [], ◌++◌}
use dataset_service.Text.{Text, codes}
use dataset_service.Async.Contracts.{Fields, Envelope, Rpc, answered, failed}
use dataset_service.Async.Gateway.{HttpRequest, Fresh, Handled}
use dataset_service.Async.Gateway.Handlers.{
  handle_list_categories, handle_list_datasets, handle_get_dataset, handle_list_versions,
  handle_get_version, handle_list_notifications, handle_pending_access, handle_find_access,
  handle_get_user, handle_update_access_status, handle_create_notification,
  handle_mark_notification, handle_create_category, handle_update_category, handle_delete_category,
  handle_create_user, handle_update_user, handle_delete_user, handle_create_dataset,
  handle_update_dataset, handle_delete_dataset, handle_delete_version, handle_create_review,
  handle_update_review, handle_delete_review, handle_create_subscription,
  handle_delete_subscription,
}

-- The routes of `router` that send a message, but for the upload of a version, which is in Uploads.
pub data Route : Type 0 where
  get_categories get_datasets get_dataset get_versions : Route
  get_version get_notifications get_pending_access get_access : Route
  get_user post_access_status post_notification post_notification_read : Route
  post_category put_category delete_category post_user : Route
  put_user delete_user post_dataset put_dataset : Route
  delete_dataset delete_version post_review put_review : Route
  delete_review post_subscription delete_subscription : Route

-- Whether a route is registered with `r.Get`.
abbrev pub is_get : Route → Bool
is_get get_categories = true
is_get get_datasets = true
is_get get_dataset = true
is_get get_versions = true
is_get get_version = true
is_get get_notifications = true
is_get get_pending_access = true
is_get get_access = true
is_get get_user = true
is_get _ = false

unfoldable pub serve : Fresh → HttpRequest → Route → Handled Envelope
unfolding handle_list_categories handle_list_datasets handle_get_dataset handle_list_versions
    handle_get_version handle_list_notifications handle_pending_access handle_find_access
    handle_get_user handle_update_access_status handle_create_notification handle_mark_notification
    handle_create_category handle_update_category handle_delete_category handle_create_user
    handle_update_user handle_delete_user handle_create_dataset handle_update_dataset
    handle_delete_dataset handle_delete_version handle_create_review handle_update_review
    handle_delete_review handle_create_subscription handle_delete_subscription
serve fresh r get_categories = handle_list_categories fresh r
serve fresh r get_datasets = handle_list_datasets fresh r
serve fresh r get_dataset = handle_get_dataset fresh r
serve fresh r get_versions = handle_list_versions fresh r
serve fresh r get_version = handle_get_version fresh r
serve fresh r get_notifications = handle_list_notifications fresh r
serve fresh r get_pending_access = handle_pending_access fresh r
serve fresh r get_access = handle_find_access fresh r
serve fresh r get_user = handle_get_user fresh r
serve fresh r post_access_status = handle_update_access_status fresh r
serve fresh r post_notification = handle_create_notification fresh r
serve fresh r post_notification_read = handle_mark_notification fresh r
serve fresh r post_category = handle_create_category fresh r
serve fresh r put_category = handle_update_category fresh r
serve fresh r delete_category = handle_delete_category fresh r
serve fresh r post_user = handle_create_user fresh r
serve fresh r put_user = handle_update_user fresh r
serve fresh r delete_user = handle_delete_user fresh r
serve fresh r post_dataset = handle_create_dataset fresh r
serve fresh r put_dataset = handle_update_dataset fresh r
serve fresh r delete_dataset = handle_delete_dataset fresh r
serve fresh r delete_version = handle_delete_version fresh r
serve fresh r post_review = handle_create_review fresh r
serve fresh r put_review = handle_update_review fresh r
serve fresh r delete_review = handle_delete_review fresh r
serve fresh r post_subscription = handle_create_subscription fresh r
serve fresh r delete_subscription = handle_delete_subscription fresh r

-- What the client is answered: a status, with a text or an object.
pub record HttpResponse : Type 0 where
  pub status : ℕ
  pub body : Text
  pub fields : Option Fields

abbrev pub http_error : ℕ → Text → HttpResponse
http_error status body = record { status = status; body = body; fields = none }

abbrev decoded_payload : Option Fields → HttpResponse
decoded_payload none = http_error 502 (codes "empty payload")
decoded_payload (some fields) = record { status = 200; body = []; fields = some fields }

abbrev upstream : Option Text → Option Fields → HttpResponse
upstream (some text) payload = http_error 502 (codes "upstream error: " ++ text)
upstream none payload = decoded_payload payload

-- `rpcAndDecode` and what the handlers make of it. That a payload can be decoded as the response is
-- taken from the data process, which writes it from the same type.
unfoldable pub answer_client : Rpc → HttpResponse
answer_client (failed text) = http_error 502 text
answer_client (answered resp) = upstream resp.error resp.payload

-- The same in `handleListCategories`, which words its errors otherwise.
abbrev listed : Option Text → Option Fields → HttpResponse
listed (some text) payload = http_error 502 text
listed none none = http_error 500 (codes "decode response")
listed none (some fields) = record { status = 200; body = []; fields = some fields }

unfoldable pub answer_categories : Rpc → HttpResponse
answer_categories (failed text) = http_error 502 (codes "core unavailable")
answer_categories (answered resp) = listed resp.error resp.payload

unfoldable pub answer_for : Route → Rpc → HttpResponse
unfolding answer_client answer_categories
answer_for get_categories reply = answer_categories reply
answer_for _ reply = answer_client reply
