-- ===== src/Services/Notification.antt =====
-- internal/services/notification_service.go and notification_service_impl.go: messages to the
-- subscribers of a dataset.
pub mod Sending
pub mod Reading
mod Tests
use dataset_service.Base.{
  ℕ, zero, suc, Bool, true, false, not, ◌&&◌, ◌||◌, Option, none, some, List, [], ◌∷◌,
  if◌then◌else◌,
}
use dataset_service.Text.{Text}
use dataset_service.Errors.{Error, service, wrap, is_repo, RepoError, ServiceError, no_subscribers}
use dataset_service.Exec.{
  Result, ok, err, Exec, pure, raise, read, lift, map_error, on_error, ◌>>=◌, ◌>>◌,
}
use dataset_service.Entities.{Notification, Subscription, new_notification}
use dataset_service.Repositories.{NotificationRepository, SubscriptionRepository}

-- `NotifySubscribersCmd`
pub record NotifySubscribers : Type 0 where
  pub dataset_id : ℕ
  pub message : Text

-- `(count, err)` of a loop that counts what it has done before an error.
abbrev pub Counted : Type 0 → Type 0
Counted S = (ℕ × Option Error) × S

-- `a == b` on booleans
abbrev same_flag : Bool → Bool → Bool
same_flag a b = (a && b) || (not a && not b)

module _ {S : Type 0} (notifications : NotificationRepository S)
    (subscriptions : SubscriptionRepository S) where
  -- The loop of `NotifySubscribers` after `count` rounds, each with two readings of the clock.
  unfoldable pub notify_each :
      NotifySubscribers → (ℕ → ℕ × ℕ) → ℕ → List Subscription → S → Counted S
  notify_each cmd clock count [] s = ((count, none), s)
  notify_each cmd clock count (sub ∷ subs) s =
      elim (new_notification sub.user_id cmd.dataset_id cmd.message (clock count).0
        (clock count).1) [
          | err e ↦ ((count, some (wrap "invalid notification for user %d: %w" e)), s)
          | ok notif ↦ elim (notifications.create notif s).0 [
            | err e ↦ (
              (count, some (wrap "create notification for user %d: %w" e)),
              (notifications.create notif s).1,
            )
            | ok new ↦ notify_each cmd clock (suc count) subs (notifications.create notif s).1
          ]
        ]

  abbrev notify_found : NotifySubscribers → (ℕ → ℕ × ℕ) → Result (List Subscription) → S → Counted S
  notify_found cmd clock (err e) s = ((0, some (wrap "fetch subscribers: %w" e)), s)
  notify_found cmd clock (ok []) s = ((0, some (service no_subscribers)), s)
  notify_found cmd clock (ok (sub ∷ subs)) s = notify_each cmd clock 0 (sub ∷ subs) s

  -- `NotifySubscribers`
  unfoldable pub notify_subscribers : NotifySubscribers → (ℕ → ℕ × ℕ) → S → Counted S
  notify_subscribers cmd clock s =
      notify_found cmd clock (subscriptions.get_subscribers cmd.dataset_id s) s

  -- `GetNotificationsByUser`
  unfoldable pub get_notifications_by_user : ℕ → S → Result (List Notification)
  get_notifications_by_user user_id s =
      map_error (wrap "list notifications: %w") (notifications.find_by_user_id user_id s)

  abbrev not_found_or : (Error → Error) → Error → Error
  not_found_or wrapped e =
      if is_repo RepoError.notification_not_found e
      then service ServiceError.notification_not_found
      else wrapped e

  abbrev present : Option Notification → Result Notification
  present none = err (service ServiceError.notification_not_found)
  present (some notif) = ok notif

  -- `GetNotificationByID`
  unfoldable pub get_notification_by_id : ℕ → Exec S Notification
  get_notification_by_id id = do
    found ←
        on_error (not_found_or (wrap "fetch notification: %w")) (read (notifications.find_by_id id))
    lift (present found)

  -- `SetReadStatus`
  unfoldable pub set_read_status : ℕ → Bool → Exec S Unit
  unfolding get_notification_by_id
  set_read_status id is_read = do
    notif ← get_notification_by_id id
    (λ s.
        if same_flag notif.is_read is_read
        then pure tt s
        else on_error (not_found_or (wrap "set read status: %w"))
            (notifications.update (record notif { is_read = is_read })) s)

  -- `MarkAsRead`
  unfoldable pub mark_as_read : ℕ → Exec S Unit
  unfolding set_read_status
  mark_as_read id = set_read_status id true

  -- `NotifyUser`
  unfoldable pub notify_user : ℕ → ℕ → Text → ℕ → ℕ → Exec S Notification
  notify_user user_id dataset_id message created_at now = do
    notif ← lift (new_notification user_id dataset_id message created_at now)
    on_error (wrap "create notification: %w") (notifications.create notif)
