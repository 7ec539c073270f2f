-- ===== src/Http/AccessRequests/Deciding.antt =====
-- access_requests.go: who can decide a request for access.
use dataset_service.Base.{ℕ, ◌≡◌, refl, inl, inr, ◌⊎◌, false, some, arith, ◌==◌, Bool-cases}
use dataset_service.Text.{Text}
use dataset_service.Errors.{service, request_forbidden}
use dataset_service.Exec.{ok, err}
use dataset_service.Entities.{AccessRequest, AccessStatus, pending, approved, denied, Dataset, User}
use dataset_service.Repositories.{AccessRequestRepository}
use dataset_service.Services.Access.{approve, deny, find_by_request_id}
use dataset_service.Services.Dataset.{Parts, get_dataset}
use dataset_service.Http.Policies.{is_admin}
use dataset_service.Http.AccessRequests.{parse_access_status_update, update_access_request}

parse_access_status_update-cases :
    (raw : Text) (status : AccessStatus)
    → parse_access_status_update raw ≡ ok status
    → (status ≡ approved) ⊎ (status ≡ denied)
unfolding parse_access_status_update
parse_access_status_update-cases raw pending h = absurd (ground arith)
parse_access_status_update-cases raw approved h = inl refl
parse_access_status_update-cases raw denied h = inr refl

module _ {S : Type 0} (parts : Parts S) (requests : AccessRequestRepository S) where
  open parts use {datasets}

  -- If the request and its dataset are found and the body names a decision, then to every user but
  -- the owner of the dataset, administrators included, UpdateAccessRequest answers that it is
  -- forbidden, and it changes nothing.
  pub update_access_request_owner_only :
      (user : User) (id : ℕ) (raw : Text) (status : AccessStatus) (s : S) (ar : AccessRequest)
      (ds : Dataset)
      → parse_access_status_update raw ≡ ok status
      → requests.find_by_request_id id s ≡ ok ar
      → datasets.find_by_id ar.dataset_id s ≡ ok (some ds)
      → (ds.owner_id == user.id) ≡ false
      → update_access_request parts requests (some user) id raw s
        ≡ (err (service request_forbidden), s)
  update_access_request_owner_only user id raw status s ar ds parsed found there other =
      elim (Bool-cases (is_admin (some user))) [
        | inr ordinary ↦ unfold update_access_request get_dataset find_by_request_id in ground arith
        | inl admin ↦ elim (parse_access_status_update-cases raw status parsed) [
          | inl yes_it_is ↦
              unfold update_access_request get_dataset find_by_request_id approve in ground arith
          | inr it_is_not ↦
              unfold update_access_request get_dataset find_by_request_id deny in ground arith
        ]
      ]
