-- ===== src/Http/AccessRequests.antt =====
-- internal/delivery/http/v2/access_requests.go: requests for access over HTTP. What a handler reads
-- from the path, the query and the body is an argument.
pub mod Deciding
pub mod Collecting
mod Tests
use dataset_service.Base.{
  ℕ, Bool, true, false, not, ◌&&◌, ◌||◌, Option, none, some, List, [], ◌∷◌, ◌++◌, map, ◌==◌, select,
  length, if◌then◌else◌,
}
use dataset_service.Text.{Text, codes, is_empty, text_eq, trim_space}
use dataset_service.Errors.{service, bad_input, request_not_found, request_forbidden}
use dataset_service.Exec.{
  Result, ok, err, Exec, pure, raise, read, lift, map_error, on_error, ◌>>=◌, ◌>>◌,
}
use dataset_service.Entities.{AccessRequest, AccessStatus, pending, approved, denied, Dataset, User}
use dataset_service.Repositories.{AccessRequestRepository}
use dataset_service.Services.Access.{
  RequestAccess, request, approve, deny, find, find_by_request_id, list_by_dataset_id,
}
use dataset_service.Services.Dataset.{Parts, get_dataset, list_datasets}
use dataset_service.Http.Policies.{current_user_or_error, is_admin, ensure_dataset_owner_or_admin}
use dataset_service.Http.Query.{page}

-- `accessRequestFilters`
pub record AccessRequestFilters : Type 0 where
  pub dataset_id : Option ℕ
  pub user_id : Option ℕ
  pub status : Text
  pub owned_only : Bool
  pub is_admin : Bool

abbrev pub status_text : AccessStatus → Text
status_text pending = codes "pending"
status_text approved = codes "approved"
status_text denied = codes "denied"

-- `validAccessStatus`
abbrev pub valid_access_status : Text → Bool
valid_access_status status =
    text_eq status (codes "pending")
    || text_eq status (codes "approved")
    || text_eq status (codes "denied")

-- The filter names a user other than the one who asks.
abbrev of_other : Option ℕ → User → Bool
of_other none user = false
of_other (some user_id) user = not (user_id == user.id)

-- `parseAccessRequestFilters` on the values of the query, `owned_only` being true without a value
unfoldable pub parse_access_request_filters :
    Option ℕ → Option ℕ → Text → Bool → User → Result AccessRequestFilters
parse_access_request_filters dataset_id user_id raw_status owned_only user =
    let status = trim_space raw_status in
    let admin = is_admin (some user) in
    if not (is_empty status) && not (valid_access_status status)
    then err (bad_input (codes "invalid status"))
    else if not admin && of_other user_id user
    then err (service request_forbidden)
    else ok (record {
      dataset_id = dataset_id;
      user_id = user_id;
      status = status;
      owned_only = not admin || owned_only;
      is_admin = admin;
    })

-- `parseAccessStatusUpdate` on the status in the body
unfoldable pub parse_access_status_update : Text → Result AccessStatus
parse_access_status_update status =
    if text_eq status (codes "approved")
    then ok approved
    else if text_eq status (codes "denied")
    then ok denied
    else err (bad_input (codes "status must be 'approved' or 'denied'"))

-- `filterAccessRequests`
abbrev pub passes : AccessRequestFilters → AccessRequest → Bool
passes filters req =
    elim filters.user_id [ none ↦ true | some user_id ↦ req.user_id == user_id ]
    && (is_empty filters.status || text_eq (status_text req.status) filters.status)

abbrev pub mem : ℕ → List ℕ → Bool
mem id [] = false
mem id (j ∷ seen) = j == id || mem id seen

-- The inner loop of `collectAccessRequests`: the requests that were not seen before.
unfoldable pub keep_new : List ℕ → List AccessRequest → List AccessRequest
keep_new seen [] = []
keep_new seen (req ∷ reqs) =
    let without_it = keep_new seen reqs in
    let with_it = keep_new (req.id ∷ seen) reqs in
    if mem req.id seen then without_it else req ∷ with_it

-- The numbers that were seen after those requests.
abbrev pub mark : List ℕ → List AccessRequest → List ℕ
mark seen [] = seen
mark seen (req ∷ reqs) = mark (req.id ∷ seen) reqs

abbrev prepend : List AccessRequest → Result (List AccessRequest) → Result (List AccessRequest)
prepend reqs (err e) = err e
prepend reqs (ok later) = ok (reqs ++ later)

module _ {S : Type 0} (parts : Parts S) (requests : AccessRequestRepository S) where
  open parts use {datasets}

  -- `ensureAccessUpdateAllowed`
  abbrev ensure_access_update_allowed : User → ℕ → Exec S Unit
  ensure_access_update_allowed user dataset_id = do
    ds ← get_dataset parts dataset_id
    (if not (ds.owner_id == user.id) && not (is_admin (some user))
        then raise (service request_forbidden)
        else pure tt)

  -- `applyAccessStatus`, for the statuses that the body may name
  abbrev apply_access_status : ℕ → ℕ → AccessStatus → Exec S Unit
  apply_access_status request_id actor_id approved = approve datasets requests request_id actor_id
  apply_access_status request_id actor_id denied = deny datasets requests request_id actor_id
  apply_access_status request_id actor_id pending = raise (bad_input (codes "unknown status"))

  -- `UpdateAccessRequest`
  unfoldable pub update_access_request : Option User → ℕ → Text → Exec S AccessRequest
  update_access_request actor id raw_status = do
    user ← lift (current_user_or_error actor)
    status ← lift (parse_access_status_update raw_status)
    access_req ← read (find_by_request_id datasets requests id)
    ensure_access_update_allowed user access_req.dataset_id
    apply_access_status id user.id status
    read (find_by_request_id datasets requests id)

  abbrev found_or_missing : Option AccessRequest → Result AccessRequest
  found_or_missing none = err (service request_not_found)
  found_or_missing (some req) = ok req

  -- `CreateAccessRequest`
  unfoldable pub create_access_request : Option User → ℕ → ℕ → Exec S AccessRequest
  create_access_request actor dataset_id now = do
    user ← lift (current_user_or_error actor)
    lift (if dataset_id == 0 then err (bad_input (codes "dataset_id is required")) else ok tt)
    request datasets requests (record { dataset_id = dataset_id; user_id = user.id }) now
    found ← read (find datasets requests dataset_id user.id)
    lift (found_or_missing found)

  -- `GetAccessRequest`
  unfoldable pub get_access_request : Option User → ℕ → Exec S AccessRequest
  get_access_request actor id = do
    user ← lift (current_user_or_error actor)
    req ← read (find_by_request_id datasets requests id)
    ds ← get_dataset parts req.dataset_id
    (if not (ds.owner_id == user.id) && not (req.user_id == user.id) && not (is_admin (some user))
        then raise (service request_forbidden)
        else pure req)

  -- `collectAccessRequests` after the datasets of which the requests are seen
  unfoldable pub collect_from : List ℕ → List ℕ → S → Result (List AccessRequest)
  collect_from seen [] s = ok []
  collect_from seen (dataset_id ∷ dataset_ids) s =
      elim (list_by_dataset_id datasets requests dataset_id s) [
        | err e ↦ err e
        | ok reqs ↦
            let kept = keep_new seen reqs in
            prepend kept (collect_from (mark seen kept) dataset_ids s)
      ]

  -- `datasetIDsByOwner`, where the owner 0 stands for all
  abbrev dataset_ids_by_owner : ℕ → S → Result (List ℕ)
  dataset_ids_by_owner owner_id s =
      elim (list_datasets parts false (if owner_id == 0 then none else some owner_id) s) [
        | err e ↦ err e
        | ok list ↦ ok (map (λ ds. ds.id) list)
      ]

  -- `datasetIDsFromSingle`
  abbrev dataset_ids_from_single : User → ℕ → Exec S (List ℕ)
  dataset_ids_from_single user dataset_id = do
    ds ← get_dataset parts dataset_id
    lift (ensure_dataset_owner_or_admin (some user) ds.owner_id)
    pure (ds.id ∷ [])

  -- `datasetIDsForAccessRequests`
  abbrev dataset_ids_for_access_requests : User → AccessRequestFilters → Exec S (List ℕ)
  dataset_ids_for_access_requests user filters = elim filters.dataset_id [
    | some dataset_id ↦ dataset_ids_from_single user dataset_id
    | none ↦ read (dataset_ids_by_owner (if filters.owned_only then user.id else 0))
  ]

  -- `ListAccessRequests`: the requests of the page and the number of all.
  unfoldable pub list_access_requests :
      Option User → Option ℕ → Option ℕ → Text → Bool → ℕ → ℕ → Exec S (List AccessRequest × ℕ)
  list_access_requests actor dataset_id user_id status owned_only limit offset = do
    user ← lift (current_user_or_error actor)
    filters ← lift (parse_access_request_filters dataset_id user_id status owned_only user)
    dataset_ids ← dataset_ids_for_access_requests user filters
    reqs ← read (collect_from [] dataset_ids)
    let filtered = select (passes filters) reqs
    pure (page limit offset filtered, length filtered)
