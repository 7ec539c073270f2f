-- ===== src/Async/Data/Quiet.antt =====
-- cmd/data/main.go over postqbuild: parts of commands that leave the stored datasets as they were.
pub mod Entities
pub mod Reactions
use dataset_service.Base.{
  ℕ, ◌≡◌, refl, ◌∙◌, inl, inr, String, Bool, true, false, Option, none, some, [], ◌∷◌,
}
use dataset_service.Text.{Text}
use dataset_service.Errors.{Error}
use dataset_service.Exec.{Result, ok, Exec, read, lift, Result-cases, ◌>>=◌}
use dataset_service.Entities.{
  AccessStatus, Category, DatasetVersion, Notification, Review, Subscription, User, new_category,
  new_user, new_dataset_version, new_review, new_subscription,
}
use dataset_service.Postgres.Statements.{Pool}
use dataset_service.Postgres.Tables.{LawfulPool}
use dataset_service.Postgres.Datasets.Elsewhere.{
  RestrictsDeletions, Kept, category_create-Kept, category_delete-Kept, category_update-Kept,
  notification_create-Kept, notification_update-Kept, review_create-Kept, review_delete-Kept,
  review_update-Kept, subscription_create-Kept, unsubscribe-Kept, update_status-Kept,
  user_create-Kept, user_delete-Kept, user_update-Kept, version_create-Kept, version_delete-Kept,
}
use dataset_service.Async.Contracts.{
  Kind, dataset_create_request, dataset_update_request, dataset_delete_request, health_request,
  category_list_request, dataset_list_request, dataset_get_request, versions_list_request,
  version_get_request, notifications_request, access_pending_request, access_find_request,
  user_get_request, category_create_request, category_update_request, category_delete_request,
  user_create_request, user_update_request, user_delete_request, version_add_request,
  version_delete_request, review_create_request, review_update_request, review_delete_request,
  subscription_create_request, subscription_delete_request, access_update_request,
  notification_create_request, notification_mark_request, unlisted, Fields, Envelope, get_number,
  get_text, get_int, category_create_fields, category_update_fields, user_create_fields,
  user_update_fields, version_add_fields, version_delete_fields, id_fields, review_create_fields,
  review_update_fields, subscription_fields, access_update_fields, notification_create_fields,
  notification_mark_fields,
}
use dataset_service.Async.Data.{Repos, postgres_repos, decoded}
use dataset_service.Async.Data.Commands.{
  found, new_id, success, category_create, category_update, category_delete, user_create,
  user_update, user_delete, version_add, version_delete,
}
use dataset_service.Async.Data.Reviews.{
  read_status, with_message, review_create, review_update, review_delete, subscription_create,
  subscription_delete, access_update, notification_create, notification_mark,
}
use dataset_service.Async.Data.Process.{run_command}

-- A part of a command that leaves the stored datasets as they were.
pub record Keeps {S A : Type 0} (pool : Pool S) (laws : LawfulPool pool)
    (restricts : RestrictsDeletions laws) (m : Exec S A) : Type 0 where
  pub kept : Kept pool laws restricts m

module _ {S : Type 0} {pool : Pool S} {laws : LawfulPool pool}
    {restricts : RestrictsDeletions laws} where
  pub step :
      {A B : Type 0} {m : Exec S A} {f : A → Exec S B}
      → Keeps pool laws restricts m
      → ((a : A) → Keeps pool laws restricts (f a))
      → Keeps pool laws restricts (m >>= f)
  step {m = m} {f = f} keep after = record {
    kept = λ s. elim (Result-cases (m s).0) [
      | inl (a, e) ↦ rw e ((after a).kept (m s).1 ∙ keep.kept s)
      | inr (x, e) ↦ rw e (keep.kept s)
    ];
  }

  pub same : {A : Type 0} {r : S → Result A} → Keeps pool laws restricts (read r)
  same = record { kept = λ s. refl }

  pub lifted : {A : Type 0} (r : Result A) → Keeps pool laws restricts (lift r)
  lifted r = record { kept = λ s. refl }

  pub found-Keeps :
      {A : Type 0} (text : String) (o : Option A) → Keeps pool laws restricts (found {S = S} text o)
  found-Keeps text none = lifted _
  found-Keeps text (some a) = lifted (ok a)
