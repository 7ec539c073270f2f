-- ===== src/Postgres/Notifications.antt =====
-- postqbuild/notification_repo.go: the notifications.
use dataset_service.Base.{ℕ, String, Option, none, some, List, [], ◌∷◌}
use dataset_service.Errors.{
  repo, annotate, notification_query_build, notification_create, notification_not_found,
  notification_delete_fail, notification_update_fail, notification_scan_row,
  notification_iterate_rows,
}
use dataset_service.Exec.{Result, err, Exec}
use dataset_service.Entities.{Notification}
use dataset_service.Postgres.Statements.{
  Value, uint, text, flag, instant, cause, Pool, Statement, Insert, select_from,
  insert_returning_id, update_where, delete_where, eq,
}
use dataset_service.Postgres.Methods.{pointer, find_one, find_many, change_rows, insert_row}
use dataset_service.Repositories.{NotificationRepository}

-- `row.toEntity()` after the `Scan` of a row.
abbrev pub scan_notification : List Value → Option Notification
scan_notification
      (uint id
        ∷ uint user_id
        ∷ uint dataset_id
        ∷ text message
        ∷ flag is_read
        ∷ instant created_at
        ∷ []) =
    some (record {
      id = id;
      user_id = user_id;
      dataset_id = dataset_id;
      message = message;
      is_read = is_read;
      created_at = created_at;
    })
scan_notification _ = none

abbrev pub notification_columns : List String
notification_columns = "id" ∷ "user_id" ∷ "dataset_id" ∷ "message" ∷ "is_read" ∷ "created_at" ∷ []

abbrev pub insert_notification : Notification → Insert
insert_notification e =
    insert_returning_id "notifications"
      ("user_id" ∷ "dataset_id" ∷ "message" ∷ "is_read" ∷ "created_at" ∷ [])
      (uint e.user_id
        ∷ uint e.dataset_id
        ∷ text e.message
        ∷ flag e.is_read
        ∷ instant e.created_at
        ∷ [])

module _ {S : Type 0} (pool : Pool S) where
  unfoldable pub create : Notification → Exec S Notification
  create e s =
      insert_row pool (insert_notification e) (repo notification_query_build)
        (λ _. repo notification_create) (λ id. record e { id = id }) s

  unfoldable pub find_by_id : ℕ → S → Result (Option Notification)
  find_by_id id s =
      find_one (λ vs. pointer (scan_notification vs)) pool
        (select_from notification_columns "notifications" (eq "id" (uint id)))
        (repo notification_query_build) (err (repo notification_not_found))
        (λ _. repo notification_create) s

  unfoldable pub find_by_user_id : ℕ → S → Result (List Notification)
  find_by_user_id user_id s =
      find_many scan_notification pool
        (record (select_from notification_columns "notifications" (eq "user_id" (uint user_id))) {
          order_by = some "created_at DESC";
        })
        (repo notification_query_build) (λ e. annotate (repo notification_update_fail) (cause e))
        (λ _. repo notification_scan_row) (λ _. repo notification_iterate_rows) s

  unfoldable pub update : Notification → Exec S Unit
  update e s =
      change_rows pool
        (Statement.update (
          update_where "notifications"
            (("message", text e.message) ∷ ("is_read", flag e.is_read) ∷ []) (eq "id" (uint e.id))))
        (repo notification_query_build) (λ _. repo notification_update_fail)
        (repo notification_not_found) s

  unfoldable pub delete : ℕ → Exec S Unit
  delete id s =
      change_rows pool (Statement.delete (delete_where "notifications" (eq "id" (uint id))))
        (repo notification_query_build) (λ _. repo notification_delete_fail)
        (repo notification_not_found) s

  -- `NotificationRepo` as a `NotificationRepository`.
  abbrev pub notification_repo : NotificationRepository S
  notification_repo = record {
    create = create;
    find_by_id = find_by_id;
    find_by_user_id = find_by_user_id;
    update = update;
    delete = delete;
  }
