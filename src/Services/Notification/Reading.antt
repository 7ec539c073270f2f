-- ===== src/Services/Notification/Reading.antt =====
-- notification_service_impl.go: marking notifications as read.
use dataset_service.Base.{
  ℕ, ◌≡◌, refl, inl, inr, Bool, true, false, Option, none, some, arith, ◌==◌, if◌then◌else◌,
  Bool-cases,
}
use dataset_service.Exec.{ok, Result-cases}
use dataset_service.Entities.{Notification}
use dataset_service.Repositories.{NotificationRepository, SubscriptionRepository}
use dataset_service.Services.Notification.{get_notification_by_id, set_read_status, same_flag}

-- The repository shows the notifications by their numbers.
pub record LawfulRows {S : Type 0} (r : NotificationRepository S) : Type 0 where
  pub row : S → ℕ → Option Notification
  pub found :
      (id : ℕ) (s : S) (notif : Notification)
      → r.find_by_id id s ≡ ok (some notif)
      → (row s id ≡ some notif) × (notif.id ≡ id)
  pub updated :
      (notif : Notification) (s : S) (j : ℕ)
      → (r.update notif s).0 ≡ ok tt
      → row (r.update notif s).1 j ≡ (if notif.id == j then some notif else row s j)

same_flag-true : (a b : Bool) → same_flag a b ≡ true → a ≡ b
same_flag-true true true h = refl
same_flag-true true false h = absurd (ground arith)
same_flag-true false true h = absurd (ground arith)
same_flag-true false false h = refl

module _ {S : Type 0} (notifications : NotificationRepository S)
    (subscriptions : SubscriptionRepository S) (laws : LawfulRows notifications) where
  open laws use {row}

  -- A `SetReadStatus` that succeeds found a notification under its number; afterwards that
  -- notification has the given status and is otherwise the same, and no other one has changed.
  pub set_read_status-row :
      (id : ℕ) (is_read : Bool) (s : S) (j : ℕ)
      → (set_read_status notifications subscriptions id is_read s).0 ≡ ok tt
      → (notif : Notification) × (row s id ≡ some notif)
        × (row (set_read_status notifications subscriptions id is_read s).1 j
            ≡ (if id == j then some (record notif { is_read = is_read }) else row s j))
  unfolding set_read_status get_notification_by_id
  set_read_status-row id is_read s j done = elim (Result-cases (notifications.find_by_id id s)) [
    | inr (e, failed) ↦ absurd (ground arith)
    | inl (none, missing) ↦ absurd (ground arith)
    | inl (some notif, answer) ↦
        let (there, own) = laws.found id s notif answer in
        elim (Bool-cases (same_flag notif.is_read is_read)) [
          | inl same ↦
              (notif, there, ground (arith, same_flag-true notif.is_read is_read same, there, own))
          | inr other ↦
              let changed = record notif { is_read = is_read } in
              elim (Result-cases (notifications.update changed s).0) [
                | inr (e, refused) ↦ absurd (ground arith)
                | inl (_, stored) ↦
                    (notif, there, ground (arith, laws.updated changed s j stored, own))
              ]
        ]
  ]
