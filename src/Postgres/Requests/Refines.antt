-- ===== src/Postgres/Requests/Refines.antt =====
-- postqbuild/access_repo.go over a database with the table `access_requests` of the second
-- migration.
use dataset_service.Base.{
  ℕ, ◌≡◌, ◌≢◌, refl, sym, ap, ◌∙◌, inl, inr, true, Option, none, some, [], ◌∷◌, arith, ◌==◌,
  if◌then◌else◌,
}
use dataset_service.Errors.{repo, wrap, request_query_build, request_not_found}
use dataset_service.Exec.{ok, err}
use dataset_service.Entities.{AccessRequest, AccessStatus}
use dataset_service.Postgres.Statements.{
  uint, text, Eqs, eq, Pool, done, no_rows, select_from, update_where, Select, Update, cause,
  Statement,
}
use dataset_service.Postgres.Methods.{pointer}
use dataset_service.Postgres.Tables.{
  Row, project, find_row, Among, LawfulPool, to_micros, matches, find_row_unique, change-of_none,
}
use dataset_service.Postgres.Answers.{
  Outcome-cases, pointed, find_one-eq-ok, insert_row-eq-ok, insert_row-ne-ok, query_row-find_row,
  change_rows-eq-ok, change_rows-ne-ok,
}
use dataset_service.Postgres.Requests.{
  scan_request, request_columns, insert_request, pair_of, status_text, find, find_by_request_id,
  find_failure, create, update_status, request_repo,
}
use dataset_service.Services.Access.Changes.{LawfulRequests, set_status}
-- A row of the table, whose columns are all NOT NULL and whose status is CHECKed.
use dataset_service.Postgres.Requests.Table.{
  request_row, RequestTable, read_request, scan_request_row, by_id, change_status, find_row-new,
}

module _ {S : Type 0} (pool : Pool S) (laws : LawfulPool pool) (schema : RequestTable laws) where
  abbrev request_rows : S → ℕ → Option AccessRequest
  request_rows s id = read_request (find_row (by_id id) (laws.table s "access_requests"))

  abbrev select_requests : Eqs → Select
  select_requests w = select_from request_columns "access_requests" w

  abbrev status_update : ℕ → AccessStatus → Update
  status_update id status =
      update_where "access_requests" (eq "status" (text (status_text status))) (by_id id)

  request_of :
      (s : S) (r : Row) (ar : AccessRequest)
      → Among r (laws.table s "access_requests")
      → scan_request (project request_columns r) ≡ some ar
      → r ≡ request_row ar
  request_of s r ar among h =
      let (found, e) = schema.typed s r among in
      let read : scan_request (project request_columns (request_row found)) ≡ some ar =
        ap (λ x. scan_request (project request_columns x)) (sym e) ∙ h in
      let same : some found ≡ some ar = sym (scan_request_row found) ∙ read in
      e ∙ ap request_row (cc)

  found_by_id :
      (id : ℕ) (s : S) (ar : AccessRequest)
      → find_by_request_id pool id s ≡ ok ar
      → request_rows s id ≡ some ar
  unfolding find_by_request_id
  found_by_id id s ar h =
      elim (find_one-eq-ok scan_request pool (select_requests (by_id id)) (repo request_query_build)
        (err (find_failure pool no_rows)) (find_failure pool) s ar h) [
          | inr (none_found, e) ↦ absurd (cc)
          | inl (vs, ran, fits) ↦
              let (r, found, among, values, m) =
                query_row-find_row laws (select_requests (by_id id)) s vs refl
                  (schema.primary_key s (by_id id) (uint id, refl)) ran in
              rw found (rw values at fits)
        ]

  found_by_pair :
      (dataset_id user_id : ℕ) (s : S) (ar : AccessRequest)
      → find pool dataset_id user_id s ≡ ok (some ar)
      → (request_rows s ar.id ≡ some ar) × (ar.dataset_id ≡ dataset_id) × (ar.user_id ≡ user_id)
  unfolding find
  found_by_pair dataset_id user_id s ar h =
      elim (find_one-eq-ok (λ vs. pointer (scan_request vs)) pool
        (select_requests (pair_of dataset_id user_id)) (repo request_query_build) (ok none)
        (λ e. wrap "find access_request: %w" (cause e)) s (some ar) h) [
          | inr (none_found, e) ↦ absurd (cc)
          | inl (vs, ran, fits) ↦
              let (r, among, meets, values) =
                laws.row_found (select_requests (pair_of dataset_id user_id)) s vs refl ran in
              let scanned : scan_request (project request_columns r) ≡ some ar =
                ap scan_request (sym values) ∙ pointed (scan_request vs) (some ar) fits in
              let e : r ≡ request_row ar = request_of s r ar among scanned in
              let on_id : matches (by_id ar.id) r ≡ true = rw e (ground arith) in
              let pair : matches (pair_of dataset_id user_id) (request_row ar) ≡ true =
                ap (matches (pair_of dataset_id user_id)) (sym e) ∙ meets in
              let stands : find_row (by_id ar.id) (laws.table s "access_requests") ≡ some r =
                find_row_unique (by_id ar.id) r (laws.table s "access_requests")
                  (λ x among_x meets_x.
                    schema.primary_key s (by_id ar.id) (uint ar.id, refl) r x among among_x on_id
                      meets_x)
                  among on_id in
              (rw stands scanned, ground arith, ground arith)
        ]

  updated :
      (id : ℕ) (status : AccessStatus) (s : S) (j : ℕ)
      → (update_status pool id status s).0 ≡ ok tt
      → request_rows (update_status pool id status s).1 j
        ≡ (if id == j then set_status status (request_rows s j) else request_rows s j)
  unfolding update_status
  updated id status s j h =
      let (n, ran, some_row, after) =
        change_rows-eq-ok pool (Statement.update (status_update id status))
          (repo request_query_build) (λ e. wrap "update status: %w" (cause e))
          (repo request_not_found) s h in
      rw (after, (laws.rows_updated (status_update id status) s n ran).1 "access_requests")
        (change_status id status j (laws.table s "access_requests") (schema.typed s))

  update_failed :
      (id : ℕ) (status : AccessStatus) (s : S) (j : ℕ)
      → (update_status pool id status s).0 ≢ ok tt
      → request_rows (update_status pool id status s).1 j ≡ request_rows s j
  unfolding update_status
  update_failed id status s j h =
      elim (change_rows-ne-ok pool (Statement.update (status_update id status))
        (repo request_query_build) (λ e. wrap "update status: %w" (cause e))
        (repo request_not_found) s h) [
          | inl same ↦ rw same refl
          | inr (after, inl (e, broke)) ↦
              rw
                (
                  after,
                  laws.not_executed (Statement.update (status_update id status)) s e
                      "access_requests" broke,
                )
                refl
          | inr (after, inr none_met) ↦
              let (counted, rows) = laws.rows_updated (status_update id status) s 0 none_met in
              rw
                (
                  after,
                  rows "access_requests",
                  change-of_none (by_id id) (eq "status" (text (status_text status)))
                      (laws.table s "access_requests") (sym counted),
                )
                refl
        ]

  created :
      (ar new : AccessRequest) (s : S) (j : ℕ)
      → (create pool ar s).0 ≡ ok new
      → (new ≡ record ar { id = new.id })
        × (request_rows s new.id ≡ none)
        × (request_rows (create pool ar s).1 j ≡ (
            if new.id == j
            then some (record new { created_at = to_micros new.created_at })
            else request_rows s j))
  unfolding create
  created ar new s j h =
      let (id, ran, numbered, after) =
        insert_row-eq-ok pool (insert_request ar) (repo request_query_build)
          (λ e. wrap "create access_request: %w" (cause e)) (λ id. record ar { id = id }) s new h in
      let (other, only, positive, fresh, rows) =
        laws.row_inserted (insert_request ar) s (uint id ∷ []) refl ran in
      let same : id ≡ other = ground arith in
      (
        ground arith,
        rw numbered (rw same (rw fresh refl)),
        rw (after, rows "access_requests", numbered)
            (find_row-new ar id other j (laws.table s "access_requests") same),
      )

  create_failed :
      (ar : AccessRequest) (s : S) (j : ℕ)
      → ((new : AccessRequest) → (create pool ar s).0 ≢ ok new)
      → request_rows (create pool ar s).1 j ≡ request_rows s j
  unfolding create
  create_failed ar s j h =
      elim (insert_row-ne-ok pool (insert_request ar) (repo request_query_build)
        (λ e. wrap "create access_request: %w" (cause e)) (λ id. record ar { id = id }) s h) [
          | inl same ↦ rw same refl
          | inr (after, unscanned) ↦
              elim (Outcome-cases (pool.insert_row (insert_request ar) s).0) [
                | inr (e, broke) ↦
                    rw
                      (after, laws.row_not_inserted (insert_request ar) s e "access_requests" broke)
                      refl
                | inl (vs, ran) ↦
                    let (id, only, positive, fresh, rows) =
                      laws.row_inserted (insert_request ar) s vs refl ran in
                    absurd (unscanned id (ran ∙ ap done only))
              ]
        ]

  -- The repository of requests over PostgreSQL keeps the promises that the access service relies on.
  pub request_repo-LawfulRequests : LawfulRequests (request_repo pool)
  request_repo-LawfulRequests = record {
    stored_date = to_micros;
    rows = request_rows;
    found_by_id = found_by_id;
    found_by_pair = found_by_pair;
    updated = updated;
    created = created;
    update_failed = update_failed;
    create_failed = create_failed;
  }
