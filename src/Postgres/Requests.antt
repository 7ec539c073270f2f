-- ===== src/Postgres/Requests.antt =====
-- postqbuild/access_repo.go: the requests for access.
pub mod Table
pub mod Refines
pub mod Missing
use dataset_service.Base.{
  ℕ, Bool, true, false, String, Option, none, some, List, [], ◌∷◌, ◌++◌, if◌then◌else◌,
}
use dataset_service.Base.Time.{ℤ}
use dataset_service.Text.{Text, codes, text_eq}
use dataset_service.Errors.{
  Error, RepoError, repo, wrap, annotate, request_query_build, request_not_found, request_scan,
}
use dataset_service.Exec.{Result, ok, err, Exec, pure}
use dataset_service.Entities.{AccessRequest, AccessStatus, pending, approved, denied}
use dataset_service.Postgres.Statements.{
  Value, uint, int, text, flag, instant, DbError, no_rows, pg_error, failure, cause, Outcome, done,
  failed, Pool, Statement, select, insert, Select, Insert, select_from, insert_returning_id,
  update_where, delete_where, eq,
}
use dataset_service.Postgres.Methods.{
  has_code, pointer, scan_error, scan_row, find_one, find_many, change_rows, insert_row,
}
use dataset_service.Repositories.{AccessRequestRepository}

-- `string(status)`
unfoldable pub status_text : AccessStatus → Text
status_text pending = codes "pending"
status_text approved = codes "approved"
status_text denied = codes "denied"

-- The status of a row; one that is not in `ValidAccessStatuses` becomes `pending`.
unfoldable pub row_status : Text → AccessStatus
unfolding status_text
row_status t =
    if text_eq t (status_text approved)
    then approved
    else if text_eq t (status_text denied)
    then denied
    else pending

-- `row.toEntity()` after the `Scan` of a row.
abbrev pub scan_request : List Value → Option AccessRequest
scan_request (uint id ∷ uint dataset_id ∷ uint user_id ∷ text status ∷ instant created_at ∷ []) =
    some (record {
      id = id;
      dataset_id = dataset_id;
      user_id = user_id;
      status = row_status status;
      created_at = created_at;
    })
scan_request _ = none

abbrev pub request_columns : List String
request_columns = "id" ∷ "dataset_id" ∷ "user_id" ∷ "status" ∷ "created_at" ∷ []

abbrev pub insert_request : AccessRequest → Insert
insert_request ar =
    insert_returning_id "access_requests" ("dataset_id" ∷ "user_id" ∷ "status" ∷ "created_at" ∷ [])
      (uint ar.dataset_id
        ∷ uint ar.user_id
        ∷ text (status_text ar.status)
        ∷ instant ar.created_at
        ∷ [])

abbrev pub pair_of : ℕ → ℕ → List (String × Value)
pair_of dataset_id user_id = ("dataset_id", uint dataset_id) ∷ ("user_id", uint user_id) ∷ []

module _ {S : Type 0} (pool : Pool S) where
  unfoldable pub create : AccessRequest → Exec S AccessRequest
  create ar s =
      insert_row pool (insert_request ar) (repo request_query_build)
        (λ e. wrap "create access_request: %w" (cause e)) (λ id. record ar { id = id }) s

  -- No row is no error here: the answer is a nil pointer.
  unfoldable pub find : ℕ → ℕ → S → Result (Option AccessRequest)
  find dataset_id user_id s =
      find_one (λ vs. pointer (scan_request vs)) pool
        (select_from request_columns "access_requests" (pair_of dataset_id user_id))
        (repo request_query_build) (ok none) (λ e. wrap "find access_request: %w" (cause e)) s

  unfoldable pub list_pending_by_owner : ℕ → S → Result (List AccessRequest)
  list_pending_by_owner owner_id s =
      find_many scan_request pool
        (record (select_from
          ("ar.id" ∷ "ar.dataset_id" ∷ "ar.user_id" ∷ "ar.status" ∷ "ar.created_at" ∷ [])
          "access_requests ar"
          (eq "d.owner_id" (uint owner_id) ++ eq "ar.status" (text (status_text pending)))) {
            join = some "datasets d ON ar.dataset_id = d.id";
          })
        (repo request_query_build) (λ e. wrap "list pending: %w" (cause e)) (λ _. repo request_scan)
        (λ _. repo request_scan) s

  unfoldable pub list_by_dataset_id : ℕ → S → Result (List AccessRequest)
  list_by_dataset_id dataset_id s =
      find_many scan_request pool
        (select_from request_columns "access_requests" (eq "dataset_id" (uint dataset_id)))
        (repo request_query_build) (λ e. wrap "list access requests: %w" (cause e))
        (λ _. repo request_scan) (λ _. repo request_scan) s

  unfoldable pub update_status : ℕ → AccessStatus → Exec S Unit
  update_status id status s =
      change_rows pool
        (Statement.update (
          update_where "access_requests" (eq "status" (text (status_text status)))
            (eq "id" (uint id))))
        (repo request_query_build) (λ e. wrap "update status: %w" (cause e))
        (repo request_not_found) s

  -- The error is a `*pgconn.PgError` with the code P0002, or it is passed on.
  abbrev pub find_failure : DbError → Error
  find_failure e =
      if has_code "P0002" e
      then repo request_not_found
      else wrap "find access_request by id: %w" (cause e)

  unfoldable pub find_by_request_id : ℕ → S → Result AccessRequest
  find_by_request_id request_id s =
      find_one scan_request pool
        (select_from request_columns "access_requests" (eq "id" (uint request_id)))
        (repo request_query_build) (err (find_failure no_rows)) find_failure s

  -- `AccessRequestRepo` as an `AccessRequestRepository`.
  abbrev pub request_repo : AccessRequestRepository S
  request_repo = record {
    create = create;
    find = find;
    list_pending_by_owner = list_pending_by_owner;
    list_by_dataset_id = list_by_dataset_id;
    update_status = update_status;
    find_by_request_id = find_by_request_id;
  }
