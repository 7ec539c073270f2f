-- ===== src/Async/Data/Unrelated.antt =====
-- cmd/data/main.go over postqbuild: the commands that leave the stored datasets as they were.
use dataset_service.Base.{ℕ, ◌≡◌, refl, Bool, true, false, Option}
use dataset_service.Text.{Text}
use dataset_service.Errors.{Error}
use dataset_service.Postgres.Statements.{Pool}
use dataset_service.Postgres.Tables.{LawfulPool}
use dataset_service.Postgres.Datasets.Elsewhere.{RestrictsDeletions, Kept}
use dataset_service.Async.Contracts.{
  Kind, dataset_create_request, dataset_update_request, dataset_delete_request, health_request,
  category_list_request, dataset_list_request, dataset_get_request, versions_list_request,
  version_get_request, notifications_request, access_pending_request, access_find_request,
  user_get_request, category_create_request, category_update_request, category_delete_request,
  user_create_request, user_update_request, user_delete_request, version_add_request,
  version_delete_request, review_create_request, review_update_request, review_delete_request,
  subscription_create_request, subscription_delete_request, access_update_request,
  notification_create_request, notification_mark_request, unlisted, Fields, Envelope,
}
use dataset_service.Async.Data.{Repos, postgres_repos}
use dataset_service.Async.Data.Process.{run_command}
use dataset_service.Async.Data.Quiet.Entities.{
  category_create-Keeps, category_update-Keeps, category_delete-Keeps, user_create-Keeps,
  user_update-Keeps, user_delete-Keeps, version_add-Keeps, version_delete-Keeps,
}
use dataset_service.Async.Data.Quiet.Reactions.{
  review_create-Keeps, review_update-Keeps, review_delete-Keeps, subscription_create-Keeps,
  subscription_delete-Keeps, access_update-Keeps, notification_create-Keeps,
  notification_mark-Keeps,
}

-- The types of messages whose commands write datasets.
abbrev pub writes_datasets : Kind → Bool
writes_datasets dataset_create_request = true
writes_datasets dataset_update_request = true
writes_datasets dataset_delete_request = true
writes_datasets _ = false

module _ {S : Type 0} (pool : Pool S) (laws : LawfulPool pool) (restricts : RestrictsDeletions laws)
    (at now : ℕ) (payload : Option Fields) where
  abbrev repos : Repos S
  repos = postgres_repos pool

  pub run_command-Kept :
      (error_text : Error → Text) (publishes : Envelope → Bool) (k : Kind)
      → writes_datasets k ≡ false
      → Kept pool laws restricts (run_command repos error_text publishes k payload at now)
  unfolding run_command
  run_command-Kept error_text publishes health_request other s = refl
  run_command-Kept error_text publishes category_list_request other s = refl
  run_command-Kept error_text publishes dataset_list_request other s = refl
  run_command-Kept error_text publishes dataset_get_request other s = refl
  run_command-Kept error_text publishes versions_list_request other s = refl
  run_command-Kept error_text publishes version_get_request other s = refl
  run_command-Kept error_text publishes notifications_request other s = refl
  run_command-Kept error_text publishes access_pending_request other s = refl
  run_command-Kept error_text publishes access_find_request other s = refl
  run_command-Kept error_text publishes user_get_request other s = refl
  run_command-Kept error_text publishes category_create_request other s =
      (category_create-Keeps pool laws restricts at now payload).kept s
  run_command-Kept error_text publishes category_update_request other s =
      (category_update-Keeps pool laws restricts at now payload).kept s
  run_command-Kept error_text publishes category_delete_request other s =
      (category_delete-Keeps pool laws restricts at now payload).kept s
  run_command-Kept error_text publishes user_create_request other s =
      (user_create-Keeps pool laws restricts at now payload).kept s
  run_command-Kept error_text publishes user_update_request other s =
      (user_update-Keeps pool laws restricts at now payload).kept s
  run_command-Kept error_text publishes user_delete_request other s =
      (user_delete-Keeps pool laws restricts at now payload).kept s
  run_command-Kept error_text publishes version_add_request other s =
      (version_add-Keeps pool laws restricts at now payload).kept s
  run_command-Kept error_text publishes version_delete_request other s =
      (version_delete-Keeps pool laws restricts at now payload).kept s
  run_command-Kept error_text publishes review_create_request other s =
      (review_create-Keeps pool laws restricts at now payload).kept s
  run_command-Kept error_text publishes review_update_request other s =
      (review_update-Keeps pool laws restricts at now payload).kept s
  run_command-Kept error_text publishes review_delete_request other s =
      (review_delete-Keeps pool laws restricts at now payload).kept s
  run_command-Kept error_text publishes subscription_create_request other s =
      (subscription_create-Keeps pool laws restricts at now payload).kept s
  run_command-Kept error_text publishes subscription_delete_request other s =
      (subscription_delete-Keeps pool laws restricts at now payload).kept s
  run_command-Kept error_text publishes access_update_request other s =
      (access_update-Keeps pool laws restricts at now payload).kept s
  run_command-Kept error_text publishes notification_create_request other s =
      (notification_create-Keeps pool laws restricts at now payload).kept s
  run_command-Kept error_text publishes notification_mark_request other s =
      (notification_mark-Keeps pool laws restricts at now payload).kept s
  run_command-Kept error_text publishes (unlisted t) other s = refl
  run_command-Kept error_text publishes _ other s = absurd (cc)
