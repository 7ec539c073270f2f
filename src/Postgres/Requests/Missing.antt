-- ===== src/Postgres/Requests/Missing.antt =====
-- postqbuild/access_repo.go: when `FindByRequestID` answers that there is no such request.
use package.text.Mathlib.TextEquality.{eq_iff}
use dataset_service.Base.{ℕ, ◌≡◌, ap, ◌↔◌, inl, inr, true, false, arith, Bool-cases, Option-cases}
use dataset_service.Errors.{Error, is_repo, request_not_found}
use dataset_service.Exec.{err}
use dataset_service.Postgres.Statements.{
  DbError, no_rows, pg_error, failure, Pool, failed, uint, eq, select_from, select, Select,
}
use dataset_service.Postgres.Methods.{has_code}
use dataset_service.Postgres.Answers.{Outcome-cases}
use dataset_service.Postgres.Requests.{
  scan_request, request_columns, find_failure, find_by_request_id,
}

module _ {S : Type 0} (pool : Pool S) where
  abbrev request_by_id : ℕ → Select
  request_by_id id = select_from request_columns "access_requests" (eq "id" (uint id))

  no_data_found :
      (d : DbError)
      → is_repo request_not_found (find_failure pool d) ≡ true
      → (n : ℕ) × (d ≡ pg_error "P0002" n)
  unfolding is_repo
  no_data_found no_rows h = absurd (ground arith)
  no_data_found (failure n) h = absurd (ground arith)
  no_data_found (pg_error code n) h = elim (Bool-cases (has_code "P0002" (pg_error code n))) [
    | inl e ↦ (n, ap (λ other. pg_error other n) ((eq_iff code "P0002").0 e))
    | inr e ↦ absurd (ground arith)
  ]

  -- The statement was built, and PostgreSQL raised P0002 for it.
  abbrev pub RaisesNoData : ℕ → S → Type 0
  RaisesNoData id s =
      (pool.to_sql (select (request_by_id id)) ≡ true)
      × (n : ℕ) × (pool.query_row (request_by_id id) s ≡ failed (pg_error "P0002" n))

  not_found-RaisesNoData :
      (id : ℕ) (s : S) (e : Error)
      → find_by_request_id pool id s ≡ err e
      → is_repo request_not_found e ≡ true
      → RaisesNoData id s
  unfolding find_by_request_id is_repo
  not_found-RaisesNoData id s e h is = elim (Bool-cases (pool.to_sql (select (request_by_id id)))) [
    | inr unbuilt ↦ absurd (ground arith)
    | inl built ↦ elim (Outcome-cases (pool.query_row (request_by_id id) s)) [
      | inl (vs, ran) ↦ elim (Option-cases (scan_request vs)) [
        | inl unfit ↦ absurd (ground arith)
        | inr (request, fit) ↦ absurd (ground arith)
      ]
      | inr (no_rows, broke) ↦ absurd (ground arith)
      | inr (failure n, broke) ↦ absurd (ground arith)
      | inr (pg_error code n, broke) ↦
          let missing : is_repo request_not_found (find_failure pool (pg_error code n)) ≡ true =
            ground arith in
          let (m, same) = no_data_found (pg_error code n) missing in (built, m, cc)
    ]
  ]

  -- When `FindByRequestID` fails, the error is `ErrRequestNotFound` exactly if the statement was
  -- built and the query failed with the error P0002 of PostgreSQL. The answer without a row is
  -- another error.
  pub find_by_request_id-not_found :
      (id : ℕ) (s : S) (e : Error)
      → find_by_request_id pool id s ≡ err e
      → ((is_repo request_not_found e ≡ true) ↔ RaisesNoData id s)
        × (pool.query_row (request_by_id id) s ≡ failed no_rows
            → is_repo request_not_found e ≡ false)
  unfolding find_by_request_id is_repo
  find_by_request_id-not_found id s e h = (
    (λ is. not_found-RaisesNoData id s e h is, λ (built, n, broke). ground arith),
    λ nothing. elim (Bool-cases (pool.to_sql (select (request_by_id id)))) [
      | inl built ↦ ground arith
      | inr unbuilt ↦ ground arith
    ],
  )
