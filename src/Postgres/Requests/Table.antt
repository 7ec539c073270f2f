-- ===== src/Postgres/Requests/Table.antt =====
-- postqbuild/access_repo.go: the rows of the table `access_requests` of the second migration.
use dataset_service.Base.{
  ℕ, ◌≡◌, refl, ap, inl, inr, Option, none, some, List, [], ◌∷◌, arith, ◌==◌, if◌then◌else◌,
}
use dataset_service.Text.{text_eq}
use dataset_service.Entities.{AccessRequest, AccessStatus, pending, approved, denied}
use dataset_service.Postgres.Statements.{uint, text, instant, Eqs, eq, Pool}
use dataset_service.Postgres.Tables.{
  Row, inserted_row, project, find_row, change, Among, LawfulPool, IsKey, On, OnBoth, to_micros,
}
use dataset_service.Postgres.Requests.{
  scan_request, request_columns, insert_request, status_text, row_status,
}
use dataset_service.Services.Access.Changes.{set_status}

-- A row of the table, whose columns are all NOT NULL and whose status is CHECKed.
abbrev pub request_row : AccessRequest → Row
request_row ar =
    ("id", uint ar.id)
    ∷ ("dataset_id", uint ar.dataset_id)
    ∷ ("user_id", uint ar.user_id)
    ∷ ("status", text (status_text ar.status))
    ∷ ("created_at", instant ar.created_at)
    ∷ []

abbrev pub AreRequests : List Row → Type 0
AreRequests rows = (r : Row) → Among r rows → (ar : AccessRequest) × (r ≡ request_row ar)

-- What the table `access_requests` says of its rows: their columns, that `id` is its key, and that
-- the pair of dataset and user is UNIQUE.
pub record RequestTable {S : Type 0} {pool : Pool S} (laws : LawfulPool pool) : Type 0 where
  pub typed : (s : S) → AreRequests (laws.table s "access_requests")
  pub primary_key : (s : S) → IsKey (On "id") (laws.table s "access_requests")
  pub unique_pair : (s : S) → IsKey (OnBoth "dataset_id" "user_id") (laws.table s "access_requests")

-- The request that a row holds.
abbrev pub read_request : Option Row → Option AccessRequest
read_request none = none
read_request (some r) = scan_request (project request_columns r)

pub row_status-status_text : (status : AccessStatus) → row_status (status_text status) ≡ status
unfolding row_status status_text text_eq
row_status-status_text pending = refl
row_status-status_text approved = refl
row_status-status_text denied = refl

pub scan_request_row : (ar : AccessRequest) → read_request (some (request_row ar)) ≡ some ar
scan_request_row ar = ap (λ st. some (record ar { status = st })) (row_status-status_text ar.status)

abbrev pub by_id : ℕ → Eqs
by_id id = eq "id" (uint id)

change_status_row :
    (id : ℕ) (status : AccessStatus) (j : ℕ) (ar : AccessRequest) (rows : List Row)
    → read_request
        (find_row (by_id j) (change (by_id id) (eq "status" (text (status_text status))) rows))
      ≡ (if id == j
          then set_status status (read_request (find_row (by_id j) rows))
          else read_request (find_row (by_id j) rows))
    → read_request (
        find_row
          (by_id j)
          (change (by_id id) (eq "status" (text (status_text status))) (request_row ar ∷ rows)))
      ≡ (if id == j
          then set_status status (read_request (find_row (by_id j) (request_row ar ∷ rows)))
          else read_request (find_row (by_id j) (request_row ar ∷ rows)))
unfolding find_row change
change_status_row id status j ar rows ih =
    ground (arith, row_status-status_text ar.status, row_status-status_text status)

pub change_status :
    (id : ℕ) (status : AccessStatus) (j : ℕ) (rows : List Row)
    → AreRequests rows
    → read_request
        (find_row (by_id j) (change (by_id id) (eq "status" (text (status_text status))) rows))
      ≡ (if id == j
          then set_status status (read_request (find_row (by_id j) rows))
          else read_request (find_row (by_id j) rows))
unfolding find_row change
change_status id status j [] typed = ground arith
change_status id status j (r ∷ rows) typed =
    let (ar, e) = typed r (inl refl) in
    rw e (
      change_status_row id status j ar rows
        (change_status id status j rows (λ x among. typed x (inr among))))

pub find_row-new :
    (ar : AccessRequest) (id other j : ℕ) (rows : List Row)
    → id ≡ other
    → read_request (
        find_row (by_id j) (
          inserted_row
            ("id" ∷ (insert_request ar).columns)
            (uint other ∷ (insert_request ar).values)
          ∷ rows))
      ≡ (if id == j
          then some (record ar { id = id; created_at = to_micros ar.created_at })
          else read_request (find_row (by_id j) rows))
unfolding find_row
find_row-new ar id other j rows same = ground (arith, row_status-status_text ar.status)
