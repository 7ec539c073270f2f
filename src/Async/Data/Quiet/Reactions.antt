-- ===== src/Async/Data/Quiet/Reactions.antt =====
-- cmd/data/main.go over postqbuild: the commands on reviews, subscriptions, requests for access and
-- notifications leave the stored datasets as they were.
use dataset_service.Base.{ℕ, Option, [], ◌∷◌}
use dataset_service.Exec.{ok, Exec}
use dataset_service.Entities.{
  AccessStatus, Notification, Review, Subscription, new_review, new_subscription,
}
use dataset_service.Postgres.Statements.{Pool}
use dataset_service.Postgres.Tables.{LawfulPool}
use dataset_service.Postgres.Datasets.Elsewhere.{
  RestrictsDeletions, notification_create-Kept, notification_update-Kept, review_create-Kept,
  review_delete-Kept, review_update-Kept, subscription_create-Kept, unsubscribe-Kept,
  update_status-Kept,
}
use dataset_service.Async.Contracts.{
  Fields, get_number, get_text, get_int, id_fields, review_create_fields, review_update_fields,
  subscription_fields, access_update_fields, notification_create_fields, notification_mark_fields,
}
use dataset_service.Async.Data.{Repos, postgres_repos, decoded}
use dataset_service.Async.Data.Commands.{new_id, success}
use dataset_service.Async.Data.Reviews.{
  read_status, with_message, review_create, review_update, review_delete, subscription_create,
  subscription_delete, access_update, notification_create, notification_mark,
}
use dataset_service.Async.Data.Quiet.{Keeps, step, same, lifted, found-Keeps}

module _ {S : Type 0} (pool : Pool S) (laws : LawfulPool pool) (restricts : RestrictsDeletions laws)
    (at now : ℕ) (payload : Option Fields) where
  abbrev repos : Repos S
  repos = postgres_repos pool

  abbrev IsQuiet : Exec S Fields → Type 0
  IsQuiet m = Keeps pool laws restricts m

  pub review_create-Keeps : IsQuiet (review_create repos at now payload)
  unfolding review_create
  review_create-Keeps =
      step {A = Fields} (lifted (decoded "invalid review" [] review_create_fields payload)) (λ req.
        step {A = Review}
          (lifted (
            new_review (get_number "user_id" req) (get_number "dataset_id" req)
              (get_int "rating" req) at (get_text "text" req) now))
          (λ rv.
            step {A = Review} (record { kept = review_create-Kept pool laws restricts _ })
              (λ created. lifted (ok (new_id created.id)))))

  pub review_update-Keeps : IsQuiet (review_update repos at now payload)
  unfolding review_update
  review_update-Keeps =
      step {A = Fields} (lifted (decoded "invalid review" ("id" ∷ []) review_update_fields payload))
        (λ req.
          step {A = Unit} (record { kept = review_update-Kept pool laws restricts _ })
            (λ _. lifted (ok (success "updated"))))

  pub review_delete-Keeps : IsQuiet (review_delete repos at now payload)
  unfolding review_delete
  review_delete-Keeps =
      step {A = Fields} (lifted (decoded "invalid review id" ("id" ∷ []) (id_fields "id") payload))
        (λ req.
          step {A = Unit} (record { kept = review_delete-Kept pool laws restricts _ })
            (λ _. lifted (ok (success "deleted"))))

  pub subscription_create-Keeps : IsQuiet (subscription_create repos at now payload)
  unfolding subscription_create
  subscription_create-Keeps =
      step {A = Fields} (lifted (decoded "invalid subscription" [] subscription_fields payload))
        (λ req.
          step {A = Subscription}
            (lifted
              (new_subscription (get_number "user_id" req) (get_number "dataset_id" req) at now))
            (λ sub.
              step {A = Subscription}
                (record { kept = subscription_create-Kept pool laws restricts _ })
                (λ created. lifted (ok (success "created")))))

  pub subscription_delete-Keeps : IsQuiet (subscription_delete repos at now payload)
  unfolding subscription_delete
  subscription_delete-Keeps =
      step {A = Fields}
        (lifted (
          decoded "invalid subscription ids" ("user_id" ∷ "dataset_id" ∷ []) subscription_fields
            payload))
        (λ req.
          step {A = Unit} (record { kept = unsubscribe-Kept pool laws restricts _ _ })
            (λ _. lifted (ok (success "deleted"))))

  pub access_update-Keeps : IsQuiet (access_update repos at now payload)
  unfolding access_update
  access_update-Keeps =
      step {A = Fields}
        (lifted (decoded "invalid request" ("request_id" ∷ []) access_update_fields payload))
        (λ req.
          step {A = AccessStatus}
            (found-Keeps "invalid status" (read_status (get_text "status" req)))
            (λ status.
              step {A = Unit} (record { kept = update_status-Kept pool laws restricts _ _ })
                (λ _. lifted (ok (success "updated")))))

  pub notification_create-Keeps : IsQuiet (notification_create repos at now payload)
  unfolding notification_create
  notification_create-Keeps =
      step {A = Fields}
        (lifted (
          decoded "invalid notification" ("user_id" ∷ "dataset_id" ∷ []) notification_create_fields
            payload))
        (λ fields. step {A = Fields} (lifted (with_message fields)) (λ req.
          step {A = Notification} (record { kept = notification_create-Kept pool laws restricts _ })
            (λ created. lifted (ok (new_id created.id)))))

  pub notification_mark-Keeps : IsQuiet (notification_mark repos at now payload)
  unfolding notification_mark
  notification_mark-Keeps =
      step {A = Fields}
        (lifted (
          decoded "invalid notification id" ("notification_id" ∷ []) notification_mark_fields
            payload))
        (λ req.
          step {A = Option Notification}
            (same {r = (repos.notifications.find_by_id (get_number "notification_id" req))})
            (λ stored. step {A = Notification} (found-Keeps "not found" stored) (λ item.
              step {A = Unit} (record { kept = notification_update-Kept pool laws restricts _ })
                (λ _. lifted (ok (success "updated"))))))
