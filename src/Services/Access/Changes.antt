-- ===== src/Services/Access/Changes.antt =====
-- access_service_impl.go: how the calls change the requests of a repository that behaves as a
-- table of requests by their numbers.
use dataset_service.Base.{
  ℕ, ◌≡◌, ◌≢◌, refl, ◌⊎◌, inl, inr, Option, none, some, arith, ◌==◌, if◌then◌else◌, Bool-cases,
}
use dataset_service.Exec.{Result, ok, err, Result-cases}
use dataset_service.Entities.{
  AccessRequest, AccessStatus, pending, approved, denied, Dataset, new_access_request,
}
use dataset_service.Repositories.{AccessRequestRepository, DatasetRepository}
use dataset_service.Services.Access.{
  RequestAccess, request, decide_request, create_request, reopen, request_again, request_private,
  request_found,
}

abbrev pub set_status : AccessStatus → Option AccessRequest → Option AccessRequest
set_status status none = none
set_status status (some ar) = some (record ar { status = status })

-- The repository shows a table: each call that succeeds does to it what its SQL says, and one that
-- fails leaves it alone. A date is stored at the precision of the database.
pub record LawfulRequests {S : Type 0} (r : AccessRequestRepository S) : Type 0 where
  pub stored_date : ℕ → ℕ
  pub rows : S → ℕ → Option AccessRequest
  pub found_by_id :
      (id : ℕ) (s : S) (ar : AccessRequest)
      → r.find_by_request_id id s ≡ ok ar
      → rows s id ≡ some ar
  pub found_by_pair :
      (dataset_id user_id : ℕ) (s : S) (ar : AccessRequest)
      → r.find dataset_id user_id s ≡ ok (some ar)
      → (rows s ar.id ≡ some ar) × (ar.dataset_id ≡ dataset_id) × (ar.user_id ≡ user_id)
  pub updated :
      (id : ℕ) (status : AccessStatus) (s : S) (j : ℕ)
      → (r.update_status id status s).0 ≡ ok tt
      → rows (r.update_status id status s).1 j
        ≡ (if id == j then set_status status (rows s j) else rows s j)
  pub created :
      (ar new : AccessRequest) (s : S) (j : ℕ)
      → (r.create ar s).0 ≡ ok new
      → (new ≡ record ar { id = new.id })
        × (rows s new.id ≡ none)
        × (rows (r.create ar s).1 j ≡ (
            if new.id == j
            then some (record new { created_at = stored_date new.created_at })
            else rows s j))
  pub update_failed :
      (id : ℕ) (status : AccessStatus) (s : S) (j : ℕ)
      → (r.update_status id status s).0 ≢ ok tt
      → rows (r.update_status id status s).1 j ≡ rows s j
  pub create_failed :
      (ar : AccessRequest) (s : S) (j : ℕ)
      → ((new : AccessRequest) → (r.create ar s).0 ≢ ok new)
      → rows (r.create ar s).1 j ≡ rows s j

-- What a request for access may do to one row.
pub data RequestChange (cmd : RequestAccess) (before after : Option AccessRequest) : Type 0 where
  unchanged : after ≡ before → RequestChange cmd before after
  opened :
      (ar : AccessRequest)
      → before ≡ none
      → after ≡ some ar
      → ar.status ≡ pending
      → ar.dataset_id ≡ cmd.dataset_id
      → ar.user_id ≡ cmd.user_id
      → RequestChange cmd before after
  reopened :
      (ar : AccessRequest)
      → before ≡ some ar
      → ar.status ≡ denied
      → ar.dataset_id ≡ cmd.dataset_id
      → ar.user_id ≡ cmd.user_id
      → after ≡ some (record ar { status = pending })
      → RequestChange cmd before after

new_access_request-fields :
    (dataset_id user_id now : ℕ) (ar : AccessRequest)
    → new_access_request dataset_id user_id now ≡ ok ar
    → (ar.status ≡ pending) × (ar.dataset_id ≡ dataset_id) × (ar.user_id ≡ user_id)
unfolding new_access_request
new_access_request-fields dataset_id user_id now ar h = ground arith

module _ {S : Type 0} (datasets : DatasetRepository S) (requests : AccessRequestRepository S)
    (laws : LawfulRequests requests) where
  open laws use {rows}

  -- What a decision may do to the row `j`.
  abbrev pub DecisionChange : ℕ → ℕ → AccessStatus → S → ℕ → Type 0
  DecisionChange request_id owner_id status s j =
      (rows (decide_request datasets requests request_id owner_id status s).1 j ≡ rows s j)
      ⊎ ((ar : AccessRequest) × (ds : Dataset) × (request_id ≡ j)
          × (rows s j ≡ some ar)
          × (datasets.find_by_id ar.dataset_id s ≡ ok (some ds))
          × (ds.owner_id ≡ owner_id)
          × (rows (decide_request datasets requests request_id owner_id status s).1 j
              ≡ some (record ar { status = status })))

  update_status-rows :
      (id : ℕ) (status : AccessStatus) (s : S) (j : ℕ)
      → (rows (requests.update_status id status s).1 j ≡ rows s j)
        ⊎ ((id ≡ j)
            × (rows (requests.update_status id status s).1 j ≡ set_status status (rows s j)))
  update_status-rows id status s j = elim (Result-cases (requests.update_status id status s).0) [
    | inr (e, failed) ↦ inl (laws.update_failed id status s j (λ h. cc))
    | inl (_, done) ↦ elim (Bool-cases (id == j)) [
      | inl same ↦ inr (ground arith, ground (arith, laws.updated id status s j))
      | inr other ↦ inl (ground (arith, laws.updated id status s j))
    ]
  ]

  decide_found-rows :
      (request_id owner_id : ℕ) (status : AccessStatus) (s : S) (j : ℕ) (ar : AccessRequest)
      (d : Option Dataset)
      → requests.find_by_request_id request_id s ≡ ok ar
      → datasets.find_by_id ar.dataset_id s ≡ ok d
      → DecisionChange request_id owner_id status s j
  decide_found-rows request_id owner_id status s j ar none found of_request = inl (ground arith)
  decide_found-rows request_id owner_id status s j ar (some ds) found of_request =
      elim (Bool-cases (ds.owner_id == owner_id)) [
        | inr other ↦ inl (ground arith)
        | inl owner ↦ elim (update_status-rows request_id status s j) [
          | inl same ↦ inl (ground arith)
          | inr (here, changed) ↦ inr (
            ar,
            ds,
            here,
            ground (arith, laws.found_by_id request_id s ar found, here),
            of_request,
            ground arith,
            ground (arith, laws.found_by_id request_id s ar found, here),
          )
        ]
      ]

  -- What a decision does to any row: nothing; or, if it is the row of the decided request and the
  -- caller owns its dataset, the decided status is set and the rest of the row is kept.
  pub decide_request-rows :
      (request_id owner_id : ℕ) (status : AccessStatus) (s : S) (j : ℕ)
      → DecisionChange request_id owner_id status s j
  decide_request-rows request_id owner_id status s j =
      elim (Result-cases (requests.find_by_request_id request_id s)) [
        | inr (e, failed) ↦ inl (ground arith)
        | inl (ar, found) ↦ elim (Result-cases (datasets.find_by_id ar.dataset_id s)) [
          | inr (e, failed) ↦ inl (ground arith)
          | inl (d, of_request) ↦
              decide_found-rows request_id owner_id status s j ar d found of_request
        ]
      ]

  create-rows :
      (cmd : RequestAccess) (ar : AccessRequest) (s : S) (j : ℕ)
      → ar.status ≡ pending
      → ar.dataset_id ≡ cmd.dataset_id
      → ar.user_id ≡ cmd.user_id
      → RequestChange cmd (rows s j) (rows (requests.create ar s).1 j)
  create-rows cmd ar s j is_pending d u = elim (Result-cases (requests.create ar s).0) [
    | inr (e, failed) ↦ unchanged (laws.create_failed ar s j (λ new h. cc))
    | inl (new, made) ↦
        let (same, free, changed) = laws.created ar new s j made in
        elim (Bool-cases (new.id == j)) [
          | inr other ↦ unchanged (ground arith)
          | inl here ↦
              opened (record new { created_at = laws.stored_date new.created_at }) (ground arith)
                (ground arith) (ground arith) (ground arith) (ground arith)
        ]
  ]

  create_request-rows :
      (cmd : RequestAccess) (now : ℕ) (s : S) (j : ℕ)
      → RequestChange cmd (rows s j) (rows (create_request datasets requests cmd now s).1 j)
  create_request-rows cmd now s j =
      elim (Result-cases (new_access_request cmd.dataset_id cmd.user_id now)) [
        | inr (e, refused) ↦ unchanged (ground arith)
        | inl (ar, made) ↦
            let state : (create_request datasets requests cmd now s).1 ≡ (requests.create ar s).1 =
              ground arith in
            let (is_pending, d, u) =
              new_access_request-fields cmd.dataset_id cmd.user_id now ar made in
            rw state (create-rows cmd ar s j is_pending d u)
      ]

  reopen-rows :
      (cmd : RequestAccess) (ar : AccessRequest) (status : AccessStatus) (s : S) (j : ℕ)
      → ar.status ≡ status
      → rows s ar.id ≡ some ar
      → ar.dataset_id ≡ cmd.dataset_id
      → ar.user_id ≡ cmd.user_id
      → RequestChange cmd (rows s j) (rows (reopen datasets requests ar status s).1 j)
  reopen-rows cmd ar pending s j is there d u = unchanged refl
  reopen-rows cmd ar approved s j is there d u = unchanged refl
  reopen-rows cmd ar denied s j is there d u = elim (update_status-rows ar.id pending s j) [
    | inl same ↦ unchanged same
    | inr (here, changed) ↦
        reopened ar (ground (arith, there, here)) is d u (ground (arith, there, here, changed))
  ]

  request_again-rows :
      (cmd : RequestAccess) (now : ℕ) (s : S) (j : ℕ) (existing : Option AccessRequest)
      → requests.find cmd.dataset_id cmd.user_id s ≡ ok existing
      → RequestChange cmd
          (rows s j)
          (rows (request_again datasets requests (ok existing) cmd now s).1 j)
  request_again-rows cmd now s j none found = create_request-rows cmd now s j
  request_again-rows cmd now s j (some ar) found =
      let (there, d, u) = laws.found_by_pair cmd.dataset_id cmd.user_id s ar found in
      reopen-rows cmd ar ar.status s j refl there d u

  request_private-rows :
      (ds : Dataset) (cmd : RequestAccess) (now : ℕ) (s : S) (j : ℕ)
      → RequestChange cmd (rows s j) (rows (request_private datasets requests ds cmd now s).1 j)
  request_private-rows ds cmd now s j = elim (Bool-cases ds.is_public) [
    | inl public ↦ unchanged (ground arith)
    | inr private ↦ elim (Bool-cases (ds.owner_id == cmd.user_id)) [
      | inl own ↦ unchanged (ground arith)
      | inr other ↦ elim (Result-cases (requests.find cmd.dataset_id cmd.user_id s)) [
        | inr (e, failed) ↦ rw (private, other, failed) (create_request-rows cmd now s j)
        | inl (existing, found) ↦
            rw (private, other, found) (request_again-rows cmd now s j existing found)
      ]
    ]
  ]

  request_found-rows :
      (found : Result (Option Dataset)) (cmd : RequestAccess) (now : ℕ) (s : S) (j : ℕ)
      → RequestChange cmd (rows s j) (rows (request_found datasets requests found cmd now s).1 j)
  request_found-rows (err e) cmd now s j = unchanged refl
  request_found-rows (ok none) cmd now s j = unchanged refl
  request_found-rows (ok (some ds)) cmd now s j = request_private-rows ds cmd now s j

  -- What a request for access does to any row: nothing; or it enters a pending request for its
  -- dataset and user under a new number; or it sets the denied request of its dataset and user
  -- back to pending.
  pub request-rows :
      (cmd : RequestAccess) (now : ℕ) (s : S) (j : ℕ)
      → RequestChange cmd (rows s j) (rows (request datasets requests cmd now s).1 j)
  unfolding request
  request-rows cmd now s j = request_found-rows (datasets.find_by_id cmd.dataset_id s) cmd now s j
