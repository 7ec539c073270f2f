-- ===== src/Async/Data/Reviews.antt =====
-- cmd/data/main.go: the commands on reviews, subscriptions, requests for access and notifications.
use dataset_service.Base.{ℕ, false, Option, none, some, [], ◌∷◌, if◌then◌else◌}
use dataset_service.Text.{Text, codes, is_empty, trim_space, text_eq}
use dataset_service.Exec.{Result, ok, Exec, pure, read, lift, ◌>>=◌}
use dataset_service.Entities.{
  AccessStatus, pending, approved, denied, Notification, Review, new_review, new_subscription,
}
use dataset_service.Async.Contracts.{
  Fields, get_number, get_text, get_int, get_flag, review_create_fields, review_update_fields,
  subscription_fields, access_update_fields, notification_create_fields, notification_mark_fields,
  id_fields,
}
use dataset_service.Async.Data.{Repos, decoded, fail}
use dataset_service.Async.Data.Commands.{new_id, success, found}

-- The status, if it is in `ValidAccessStatuses`.
unfoldable pub read_status : Text → Option AccessStatus
read_status t =
    if text_eq t (codes "pending")
    then some pending
    else if text_eq t (codes "approved")
    then some approved
    else if text_eq t (codes "denied")
    then some denied
    else none

-- The review of `handleReviewUpdate`; its other fields are zero, and the UPDATE does not write them.
abbrev review_of : Fields → Review
review_of req = record {
  id = get_number "id" req;
  user_id = 0;
  dataset_id = 0;
  rating = get_int "rating" req;
  created_at = 0;
  text = get_text "text" req;
}

abbrev notification_of : ℕ → Fields → Notification
notification_of at req = record {
  id = 0;
  user_id = get_number "user_id" req;
  dataset_id = get_number "dataset_id" req;
  message = get_text "message" req;
  is_read = false;
  created_at = at;
}

-- The further check of `handleNotificationCreate`.
abbrev pub with_message : Fields → Result Fields
with_message req =
    if is_empty (trim_space (get_text "message" req)) then fail "invalid notification" else ok req

module _ {S : Type 0} (repos : Repos S) (at now : ℕ) (payload : Option Fields) where
  open repos use {reviews, subscriptions, access, notifications}

  unfoldable pub review_create : Exec S Fields
  unfolding decoded
  review_create = do
    req ← lift (decoded "invalid review" [] review_create_fields payload)
    rv ← lift (
        new_review (get_number "user_id" req) (get_number "dataset_id" req) (get_int "rating" req)
          at (get_text "text" req) now)
    created ← reviews.create rv
    pure (new_id created.id)

  unfoldable pub review_update : Exec S Fields
  unfolding decoded
  review_update = do
    req ← lift (decoded "invalid review" ("id" ∷ []) review_update_fields payload)
    _ ← reviews.update (review_of req)
    pure (success "updated")

  unfoldable pub review_delete : Exec S Fields
  unfolding decoded
  review_delete = do
    req ← lift (decoded "invalid review id" ("id" ∷ []) (id_fields "id") payload)
    _ ← reviews.delete (get_number "id" req)
    pure (success "deleted")

  unfoldable pub subscription_create : Exec S Fields
  unfolding decoded
  subscription_create = do
    req ← lift (decoded "invalid subscription" [] subscription_fields payload)
    sub ← lift (new_subscription (get_number "user_id" req) (get_number "dataset_id" req) at now)
    created ← subscriptions.create sub
    pure (success "created")

  unfoldable pub subscription_delete : Exec S Fields
  unfolding decoded
  subscription_delete = do
    req ← lift (
        decoded "invalid subscription ids" ("user_id" ∷ "dataset_id" ∷ []) subscription_fields
          payload)
    _ ← subscriptions.unsubscribe (get_number "user_id" req) (get_number "dataset_id" req)
    pure (success "deleted")

  unfoldable pub access_update : Exec S Fields
  unfolding decoded read_status
  access_update = do
    req ← lift (decoded "invalid request" ("request_id" ∷ []) access_update_fields payload)
    status ← found "invalid status" (read_status (get_text "status" req))
    _ ← access.update_status (get_number "request_id" req) status
    pure (success "updated")

  unfoldable pub notification_create : Exec S Fields
  unfolding decoded
  notification_create = do
    fields ← lift (
        decoded "invalid notification" ("user_id" ∷ "dataset_id" ∷ []) notification_create_fields
          payload)
    req ← lift (with_message fields)
    created ← notifications.create (notification_of at req)
    pure (new_id created.id)

  unfoldable pub notification_mark : Exec S Fields
  unfolding decoded
  notification_mark = do
    req ← lift (
        decoded "invalid notification id" ("notification_id" ∷ []) notification_mark_fields payload)
    stored ← read (notifications.find_by_id (get_number "notification_id" req))
    item ← found "not found" stored
    _ ← notifications.update (record item { is_read = get_flag "is_read" req })
    pure (success "updated")
