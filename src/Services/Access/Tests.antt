-- ===== src/Services/Access/Tests.antt =====
-- access_service_impl.go: the theorems at a repository with room for one request and with one
-- dataset, which the user 2 owns.
use dataset_service.Base.{
  ℕ, ◌≡◌, ◌≢◌, refl, ◌⊎◌, inl, inr, false, Option, none, some, List, [], ◌∷◌, arith, ◌==◌, ◌&&◌,
  if◌then◌else◌, Bool-cases,
}
use dataset_service.Text.{codes}
use dataset_service.Errors.{repo, driver, request_not_found, dataset_not_found}
use dataset_service.Exec.{Result, ok, err, Exec, raise}
use dataset_service.Entities.{
  AccessRequest, AccessStatus, pending, approved, Dataset, new_access_request,
}
use dataset_service.Repositories.{AccessRequestRepository, DatasetRepository}
use dataset_service.Services.Access.{RequestAccess, request, approve}
use dataset_service.Services.Access.Changes.{LawfulRequests, set_status}
use dataset_service.Services.Access.History.{
  Call, ask, approve_as, OwnerApproved, IsApproved, IsApproved-OwnerApproved,
}

abbrev Table : Type 0
Table = Option AccessRequest

abbrev rows : Table → ℕ → Option AccessRequest
rows none id = none
rows (some ar) id = if ar.id == id then some ar else none

abbrev create : AccessRequest → Exec Table AccessRequest
create ar none = (ok (record ar { id = 1 }), some (record ar { id = 1 }))
create ar (some old) = (err (driver 1), some old)

abbrev find : ℕ → ℕ → Table → Result (Option AccessRequest)
find dataset_id user_id none = ok none
find dataset_id user_id (some ar) =
    if ar.dataset_id == dataset_id && ar.user_id == user_id then ok (some ar) else ok none

abbrev find_by_request_id : ℕ → Table → Result AccessRequest
find_by_request_id id none = err (repo request_not_found)
find_by_request_id id (some ar) = if ar.id == id then ok ar else err (repo request_not_found)

abbrev update_status : ℕ → AccessStatus → Exec Table Unit
update_status id status none = (err (repo request_not_found), none)
update_status id status (some ar) =
    if ar.id == id
    then (ok tt, some (record ar { status = status }))
    else (err (repo request_not_found), some ar)

abbrev requests : AccessRequestRepository Table
requests = record {
  create = create;
  find = find;
  list_pending_by_owner = λ owner_id s. ok [];
  list_by_dataset_id = λ dataset_id s. ok [];
  update_status = update_status;
  find_by_request_id = find_by_request_id;
}

found_by_id :
    (id : ℕ) (s : Table) (ar : AccessRequest)
    → find_by_request_id id s ≡ ok ar
    → rows s id ≡ some ar
found_by_id id none ar h = absurd (ground arith)
found_by_id id (some old) ar h = ground arith

found_by_pair :
    (dataset_id user_id : ℕ) (s : Table) (ar : AccessRequest)
    → find dataset_id user_id s ≡ ok (some ar)
    → (rows s ar.id ≡ some ar) × (ar.dataset_id ≡ dataset_id) × (ar.user_id ≡ user_id)
found_by_pair dataset_id user_id none ar h = absurd (ground arith)
found_by_pair dataset_id user_id (some old) ar h = ground arith

updated :
    (id : ℕ) (status : AccessStatus) (s : Table) (j : ℕ)
    → (update_status id status s).0 ≡ ok tt
    → rows (update_status id status s).1 j
      ≡ (if id == j then set_status status (rows s j) else rows s j)
updated id status none j h = absurd (ground arith)
updated id status (some ar) j h = elim (Bool-cases (ar.id == j)) [
  | inl here ↦ ground arith
  | inr other ↦ ground arith
]

created :
    (ar new : AccessRequest) (s : Table) (j : ℕ)
    → (create ar s).0 ≡ ok new
    → (new ≡ record ar { id = new.id })
      × (rows s new.id ≡ none)
      × (rows (create ar s).1 j ≡ (if new.id == j then some new else rows s j))
created ar new none j h = ground arith
created ar new (some old) j h = absurd (ground arith)

update_failed :
    (id : ℕ) (status : AccessStatus) (s : Table) (j : ℕ)
    → (update_status id status s).0 ≢ ok tt
    → rows (update_status id status s).1 j ≡ rows s j
update_failed id status none j h = refl
update_failed id status (some ar) j h = elim (Bool-cases (ar.id == id)) [
  | inl here ↦ absurd (h (ground arith))
  | inr other ↦ ground arith
]

create_failed :
    (ar : AccessRequest) (s : Table) (j : ℕ)
    → ((new : AccessRequest) → (create ar s).0 ≢ ok new)
    → rows (create ar s).1 j ≡ rows s j
create_failed ar none j h = absurd (h (record ar { id = 1 }) refl)
create_failed ar (some old) j h = refl

abbrev laws : LawfulRequests requests
laws = record {
  stored_date = λ t. t;
  rows = rows;
  found_by_id = found_by_id;
  found_by_pair = found_by_pair;
  updated = updated;
  created = created;
  update_failed = update_failed;
  create_failed = create_failed;
}

abbrev rain : Dataset
rain = record {
  id = 5;
  name = codes "rain";
  description = [];
  owner_id = 2;
  created_at = 0;
  category_id = 1;
  is_public = false;
}

abbrev datasets : DatasetRepository Table
datasets = record {
  create = λ ds. raise (driver 1);
  delete = λ id. raise (driver 1);
  update = λ ds. raise (driver 1);
  find_by_id = λ id s. if id == 5 then ok (some rain) else err (repo dataset_not_found);
  find_by_user_id = λ id s. ok [];
  find_all = λ s. ok [];
  find_public = λ s. ok [];
  find_by_category_id = λ id s. ok [];
}

abbrev of_bob : RequestAccess
of_bob = record { dataset_id = 5; user_id = 3 }

abbrev asked : AccessRequest
asked = record { id = 1; dataset_id = 5; user_id = 3; status = pending; created_at = 9 }

-- Bob asks, asks to approve it himself, and then the owner approves.
abbrev history : List Call
history = ask of_bob 9 ∷ approve_as 1 3 ∷ approve_as 1 2 ∷ []

IsApproved-OwnerApproved_example :
    IsApproved datasets requests laws 1 none ⊎ OwnerApproved datasets requests laws 1 history none
unfolding request approve new_access_request
IsApproved-OwnerApproved_example =
    IsApproved-OwnerApproved datasets requests laws history none 1
      (record asked { status = approved }, refl, refl)
