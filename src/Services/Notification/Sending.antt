-- ===== src/Services/Notification/Sending.antt =====
-- notification_service_impl.go: what `NotifySubscribers` sends, and what it reports after an error.
use dataset_service.Base.{
  ℕ, suc, ◌+◌, ◌<◌, ◌≡◌, refl, inl, inr, ◌⊎◌, false, Option, none, some, List, [], ◌∷◌, arith,
  length, take, ◌∙◌,
}
use dataset_service.Text.{Text, trim_space}
use dataset_service.Errors.{Error, wrap}
use dataset_service.Exec.{ok, err, Result-cases}
use dataset_service.Entities.{Notification, Subscription, new_notification}
use dataset_service.Repositories.{NotificationRepository, SubscriptionRepository}
use dataset_service.Services.Notification.{NotifySubscribers, notify_each, notify_subscribers}

-- The repository keeps the notifications, the newest first; a call that fails adds none.
pub record LawfulNotifications {S : Type 0} (r : NotificationRepository S) : Type 0 where
  pub sent : S → List Notification
  pub created :
      (notif new : Notification) (s : S)
      → (r.create notif s).0 ≡ ok new
      → (new ≡ record notif { id = new.id }) × (sent (r.create notif s).1 ≡ new ∷ sent s)
  pub not_created :
      (notif : Notification) (e : Error) (s : S)
      → (r.create notif s).0 ≡ err e
      → sent (r.create notif s).1 ≡ sent s

-- From `before` to `after` exactly one unread notification of the command was added for each of
-- the subscribers, in their order.
abbrev pub Sent :
    NotifySubscribers → List Subscription → List Notification → List Notification → Type 0
Sent cmd [] before after = after ≡ before
Sent cmd (sub ∷ subs) before after =
    (n : Notification) × (n.user_id ≡ sub.user_id)
    × (n.dataset_id ≡ cmd.dataset_id)
    × (n.message ≡ trim_space cmd.message)
    × (n.is_read ≡ false)
    × Sent cmd subs (n ∷ before) after

new_notification-fields :
    (user_id dataset_id : ℕ) (text : Text) (at now : ℕ) (n : Notification)
    → new_notification user_id dataset_id text at now ≡ ok n
    → (n.user_id ≡ user_id)
      × (n.dataset_id ≡ dataset_id)
      × (n.message ≡ trim_space text)
      × (n.is_read ≡ false)
unfolding new_notification
new_notification-fields user_id dataset_id text at now n h = ground arith

module _ {S : Type 0} (notifications : NotificationRepository S)
    (subscriptions : SubscriptionRepository S) (laws : LawfulNotifications notifications) where
  open laws use {sent}

  -- What a run of the loop over `subs` from `s` to `t` did before it ended with `failure`.
  pub record IsRun (cmd : NotifySubscribers) (subs : List Subscription) (s t : S) (done : ℕ)
      (failure : Option Error) : Type 0 where
    pub notified : Sent cmd (take done subs) (sent s) (sent t)
    pub ended :
        ((failure ≡ none) × (done ≡ length subs))
        ⊎ ((e : Error) × (failure ≡ some e) × (done < length subs))

  -- A run that goes on after a notification was created.
  IsRun-cons :
      (cmd : NotifySubscribers) (sub : Subscription) (subs : List Subscription)
      (notif new : Notification) (s t : S) (done : ℕ) (failure : Option Error) (at now : ℕ)
      → new_notification sub.user_id cmd.dataset_id cmd.message at now ≡ ok notif
      → (notifications.create notif s).0 ≡ ok new
      → IsRun cmd subs (notifications.create notif s).1 t done failure
      → IsRun cmd (sub ∷ subs) s t (suc done) failure
  IsRun-cons cmd sub subs notif new s t done failure at now built made run =
      let (same, log) = laws.created notif new s made in
      let (user, dataset, message, unread) =
        new_notification-fields sub.user_id cmd.dataset_id cmd.message at now notif built in
      record {
        notified =
            (new, ground arith, ground arith, ground arith, ground arith, rw log at run.notified);
        ended = elim run.ended [
          | inl (clean, all) ↦ inl (clean, omega (arith, all))
          | inr (e, broke, fewer) ↦ inr (e, broke, omega (arith, fewer))
        ];
      }

  notify_each-IsRun :
      (cmd : NotifySubscribers) (clock : ℕ → ℕ × ℕ) (count : ℕ) (subs : List Subscription) (s : S)
      → let r = notify_each notifications subscriptions cmd clock count subs s in
        (done : ℕ) × (r.0.0 ≡ count + done) × IsRun cmd subs s r.1 done r.0.1
  notify_each-IsRun cmd clock count [] s =
      unfold notify_each in (0, omega arith, record { notified = refl; ended = inl (refl, refl) })
  notify_each-IsRun cmd clock count (sub ∷ subs) s =
      let (at, now) = clock count in
      let loop = notify_each notifications subscriptions cmd clock in
      elim (Result-cases (new_notification sub.user_id cmd.dataset_id cmd.message at now)) [
        | inr (e, invalid) ↦
            let end : loop count (sub ∷ subs) s
                ≡ ((count, some (wrap "invalid notification for user %d: %w" e)), s) =
              unfold notify_each in ground arith in
            rw end (0, omega arith, record { notified = refl; ended = inr (_, refl, omega arith) })
        | inl (notif, built) ↦
            let u = (notifications.create notif s).1 in
            elim (Result-cases (notifications.create notif s).0) [
              | inr (e, refused) ↦
                  let end : loop count (sub ∷ subs) s
                      ≡ ((count, some (wrap "create notification for user %d: %w" e)), u) =
                    unfold notify_each in ground arith in
                  rw end (
                    0,
                    omega arith,
                    record {
                      notified = laws.not_created notif e s refused;
                      ended = inr (_, refl, omega arith);
                    },
                  )
              | inl (new, made) ↦
                  let next : loop count (sub ∷ subs) s ≡ loop (suc count) subs u =
                    unfold notify_each in ground arith in
                  let (done, total, run) = notify_each-IsRun cmd clock (suc count) subs u in
                  rw next (
                    suc done,
                    total ∙ omega arith,
                    IsRun-cons cmd sub subs notif new s _ done _ at now built made run,
                  )
            ]
      ]

  -- If a dataset has subscribers, `NotifySubscribers` sends one unread notification with the
  -- trimmed message to each of the first ones, in their order, and to nobody else, and it reports
  -- how many they are: all of them if it reports no error, and fewer if it reports one.
  pub notify_subscribers-IsRun :
      (cmd : NotifySubscribers) (clock : ℕ → ℕ × ℕ) (sub : Subscription) (subs : List Subscription)
      (s : S)
      → subscriptions.get_subscribers cmd.dataset_id s ≡ ok (sub ∷ subs)
      → let r = notify_subscribers notifications subscriptions cmd clock s in
        IsRun cmd (sub ∷ subs) s r.1 r.0.0 r.0.1
  unfolding notify_subscribers
  notify_subscribers-IsRun cmd clock sub subs s h =
      let (done, count, run) = notify_each-IsRun cmd clock 0 (sub ∷ subs) s in
      rw (h, count ∙ drop_zero done) run
    where
      drop_zero : (n : ℕ) → 0 + n ≡ n
      drop_zero n = omega arith
