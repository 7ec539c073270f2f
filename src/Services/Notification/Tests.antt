-- ===== src/Services/Notification/Tests.antt =====
-- notification_service_impl.go: the theorems at a list of notifications, the newest first, that
-- takes none for the user 9.
use dataset_service.Base.{
  ℕ, ◌≡◌, refl, true, false, Option, none, some, List, [], ◌∷◌, arith, ◌==◌, if◌then◌else◌,
  Bool-cases, inl, inr,
}
use dataset_service.Text.{codes}
use dataset_service.Errors.{Error, driver}
use dataset_service.Exec.{Result, Exec, ok, err, raise}
use dataset_service.Entities.{Notification, Subscription}
use dataset_service.Repositories.{NotificationRepository, SubscriptionRepository}
use dataset_service.Services.Notification.{NotifySubscribers, notify_subscribers}
use dataset_service.Services.Notification.Sending.{
  LawfulNotifications, IsRun, notify_subscribers-IsRun,
}
use dataset_service.Services.Notification.Reading.{LawfulRows}

abbrev Inbox : Type 0
Inbox = List Notification

abbrev create : Notification → Exec Inbox Notification
create notif s =
    if notif.user_id == 9
    then (err (driver 2), s)
    else (ok (record notif { id = 7 }), record notif { id = 7 } ∷ s)

abbrev row_of : Inbox → ℕ → Option Notification
row_of [] j = none
row_of (n ∷ s) j = let older = row_of s j in if n.id == j then some n else older

abbrev notifications : NotificationRepository Inbox
notifications = record {
  create = create;
  find_by_id = λ id s. ok (row_of s id);
  find_by_user_id = λ user_id s. ok s;
  update = λ notif s. (ok tt, notif ∷ s);
  delete = λ id. raise (driver 1);
}

abbrev fan : ℕ → Subscription
fan user_id = record { id = 1; user_id = user_id; dataset_id = 5; created_at = 0 }

abbrev subscriptions : SubscriptionRepository Inbox
subscriptions = record {
  create = λ sub. raise (driver 1);
  is_subscribed = λ user_id dataset_id s. ok true;
  get_subscribers = λ dataset_id s. ok (fan 3 ∷ fan 9 ∷ fan 4 ∷ []);
  unsubscribe = λ user_id dataset_id. raise (driver 1);
  get_by_user = λ user_id s. ok [];
  get_all = λ s. ok [];
}

created :
    (notif new : Notification) (s : Inbox)
    → (create notif s).0 ≡ ok new
    → (new ≡ record notif { id = new.id }) × ((create notif s).1 ≡ new ∷ s)
created notif new s h = ground arith

not_created :
    (notif : Notification) (e : Error) (s : Inbox)
    → (create notif s).0 ≡ err e
    → (create notif s).1 ≡ s
not_created notif e s h = ground arith

abbrev sending : LawfulNotifications notifications
sending = record { sent = λ s. s; created = created; not_created = not_created }

row_of-id : (s : Inbox) (j : ℕ) (n : Notification) → row_of s j ≡ some n → n.id ≡ j
row_of-id [] j n h = absurd (ground arith)
row_of-id (m ∷ s) j n h = elim (Bool-cases (m.id == j)) [
  | inl here ↦ ground arith
  | inr other ↦ row_of-id s j n (ground arith)
]

found_row :
    (id : ℕ) (s : Inbox) (notif : Notification)
    → Path (Result (Option Notification)) (ok (row_of s id)) (ok (some notif))
    → (row_of s id ≡ some notif) × (notif.id ≡ id)
found_row id s notif h =
    let there : row_of s id ≡ some notif = ground arith in (there, row_of-id s id notif there)

abbrev reading : LawfulRows notifications
reading = record { row = row_of; found = found_row; updated = λ notif s j h. refl }

abbrev news : NotifySubscribers
news = record { dataset_id = 5; message = codes "new" }

abbrev clock : ℕ → ℕ × ℕ
clock i = (i, i)

-- The second subscriber cannot be notified: one was, and the third is left out.
notify_subscribers-IsRun_example :
    IsRun notifications subscriptions sending news
      (fan 3 ∷ fan 9 ∷ fan 4 ∷ [])
      []
      (notify_subscribers notifications subscriptions news clock []).1
      (notify_subscribers notifications subscriptions news clock []).0.0
      (notify_subscribers notifications subscriptions news clock []).0.1
notify_subscribers-IsRun_example =
    notify_subscribers-IsRun notifications subscriptions sending news clock (fan 3)
      (fan 9 ∷ fan 4 ∷ []) [] refl

abbrev unread : Notification
unread = record {
  id = 7;
  user_id = 3;
  dataset_id = 5;
  message = codes "new";
  is_read = false;
  created_at = 0;
}
