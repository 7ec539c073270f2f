-- ===== src/Services/Access.antt =====
-- internal/services/access_service.go and access_service_impl.go: requests for access to a
-- private dataset, which its owner approves or denies.
pub mod Changes
pub mod History
mod Tests
use dataset_service.Base.{ℕ, Option, none, some, List, ◌==◌, if◌then◌else◌}
use dataset_service.Errors.{
  Error, service, wrap, driver, request_not_found, bad_request, request_already_exists,
  request_forbidden,
}
use dataset_service.Exec.{
  Result, ok, err, Exec, pure, raise, read, lift, map_error, attempt, on_error, ◌>>=◌, ◌>>◌,
}
use dataset_service.Entities.{
  AccessRequest, AccessStatus, pending, approved, denied, Dataset, new_access_request,
}
use dataset_service.Repositories.{AccessRequestRepository, DatasetRepository}

-- `RequestAccessCmd`
pub record RequestAccess : Type 0 where
  pub dataset_id : ℕ
  pub user_id : ℕ

-- What a use of a nil pointer does: the program panics, and the HTTP server answers with an error.
abbrev pub nil_dereference : Error
nil_dereference = driver 0

module _ {S : Type 0} (datasets : DatasetRepository S) (requests : AccessRequestRepository S) where
  abbrev create_request : RequestAccess → ℕ → Exec S Unit
  create_request cmd now = do
    ar ← lift (new_access_request cmd.dataset_id cmd.user_id now)
    requests.create ar
    pure tt

  -- The `switch` on the status of an earlier request.
  abbrev reopen : AccessRequest → AccessStatus → Exec S Unit
  reopen existing denied =
      on_error (wrap "reset denied to pending: %w") (requests.update_status existing.id pending)
  reopen existing _ = raise (service request_already_exists)

  -- An error of `Find` is treated as if there were no earlier request.
  abbrev request_again : Result (Option AccessRequest) → RequestAccess → ℕ → Exec S Unit
  request_again (ok (some existing)) cmd now = reopen existing existing.status
  request_again _ cmd now = create_request cmd now

  abbrev request_private : Dataset → RequestAccess → ℕ → Exec S Unit
  request_private ds cmd now =
      if ds.is_public
      then raise (service bad_request)
      else if ds.owner_id == cmd.user_id
      then raise (service bad_request)
      else (do
        existing ← attempt (read (requests.find cmd.dataset_id cmd.user_id))
        request_again existing cmd now)

  abbrev request_found : Result (Option Dataset) → RequestAccess → ℕ → Exec S Unit
  request_found (err _) cmd now = raise (service request_not_found)
  request_found (ok none) cmd now = raise nil_dereference
  request_found (ok (some ds)) cmd now = request_private ds cmd now

  unfoldable pub request : RequestAccess → ℕ → Exec S Unit
  request cmd now = do
    found ← attempt (read (datasets.find_by_id cmd.dataset_id))
    request_found found cmd now

  abbrev decide_owned : Result (Option Dataset) → ℕ → ℕ → AccessStatus → Exec S Unit
  decide_owned (err _) request_id owner_id status = raise (service request_not_found)
  decide_owned (ok none) request_id owner_id status = raise nil_dereference
  decide_owned (ok (some ds)) request_id owner_id status =
      if ds.owner_id == owner_id
      then requests.update_status request_id status
      else raise (service request_forbidden)

  abbrev decide_found : Result AccessRequest → ℕ → ℕ → AccessStatus → Exec S Unit
  decide_found (err _) request_id owner_id status = raise (service request_not_found)
  decide_found (ok ar) request_id owner_id status = do
    ds ← attempt (read (datasets.find_by_id ar.dataset_id))
    decide_owned ds request_id owner_id status

  -- The body that `Approve` and `Deny` share.
  abbrev decide_request : ℕ → ℕ → AccessStatus → Exec S Unit
  decide_request request_id owner_id status = do
    found ← attempt (read (requests.find_by_request_id request_id))
    decide_found found request_id owner_id status

  unfoldable pub approve : ℕ → ℕ → Exec S Unit
  approve request_id owner_id = decide_request request_id owner_id approved

  unfoldable pub deny : ℕ → ℕ → Exec S Unit
  deny request_id owner_id = decide_request request_id owner_id denied

  unfoldable pub list_pending : ℕ → S → Result (List AccessRequest)
  list_pending owner_id s = requests.list_pending_by_owner owner_id s

  unfoldable pub find_by_request_id : ℕ → S → Result AccessRequest
  find_by_request_id request_id s = requests.find_by_request_id request_id s

  unfoldable pub list_by_dataset_id : ℕ → S → Result (List AccessRequest)
  list_by_dataset_id dataset_id s =
      map_error (wrap "list access requests: %w") (requests.list_by_dataset_id dataset_id s)

  unfoldable pub find : ℕ → ℕ → S → Result (Option AccessRequest)
  find dataset_id user_id s = requests.find dataset_id user_id s
