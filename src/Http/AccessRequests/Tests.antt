-- ===== src/Http/AccessRequests/Tests.antt =====
-- access_requests.go: the theorems at one request for a private dataset, which a user sees twice.
use dataset_service.Base.{◌≡◌, refl, some, [], ◌∷◌}
use dataset_service.Text.{codes, text_eq}
use dataset_service.Errors.{service, request_forbidden}
use dataset_service.Exec.{ok, err}
use dataset_service.Entities.{AccessRequest, pending, approved, User, role_admin}
use dataset_service.Repositories.{AccessRequestRepository}
use dataset_service.Http.Sample.{rain, parts, bob, unused}
use dataset_service.Http.AccessRequests.{parse_access_status_update, update_access_request}
use dataset_service.Http.AccessRequests.Deciding.{update_access_request_owner_only}

abbrev asked : AccessRequest
asked = record { id = 1; dataset_id = 5; user_id = 3; status = pending; created_at = 9 }

abbrev requests : AccessRequestRepository Unit
requests = record {
  create = λ ar. unused;
  find = λ dataset_id user_id s. ok (some asked);
  list_pending_by_owner = λ owner_id s. ok (asked ∷ []);
  list_by_dataset_id = λ dataset_id s. ok (asked ∷ []);
  update_status = λ id status. unused;
  find_by_request_id = λ id s. ok asked;
}

abbrev root : User
root = record bob { id = 8; role = role_admin }

update_access_request_owner_only_example :
    update_access_request parts requests (some root) 1 (codes "approved") tt
    ≡ (err (service request_forbidden), tt)
unfolding parse_access_status_update text_eq
update_access_request_owner_only_example =
    update_access_request_owner_only parts requests root 1 (codes "approved") approved tt asked rain
      refl refl refl refl
