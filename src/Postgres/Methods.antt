-- ===== src/Postgres/Methods.antt =====
-- The bodies that the methods of internal/dataaccess/repositories/postqbuild share: build the
-- statement, run it, scan what comes back, and turn each failure into the method's own error.
use text.Mathlib.Text
use dataset_service.Base.{
  ℕ, String, Bool, false, Option, none, some, List, [], ◌∷◌, ◌==◌, if◌then◌else◌,
}
use dataset_service.Errors.{Error}
use dataset_service.Exec.{Result, ok, err, Exec}
use dataset_service.Postgres.Statements.{
  Value, uint, DbError, no_rows, pg_error, failure, Outcome, done, failed, Cursor, Pool, Select,
  Insert, Statement, select, insert,
}

-- `errors.As(err, &pgErr) && pgErr.Code == code`
abbrev pub has_code : String → DbError → Bool
has_code code (pg_error other n) = Text.◌==◌ other code
has_code code no_rows = false
has_code code (failure n) = false

-- The error of a `Scan` whose values do not fit its variables.
abbrev pub scan_error : DbError
scan_error = failure 0

-- `Scan(&row.ID)`
abbrev pub scan_id : List Value → Option ℕ
scan_id (uint id ∷ []) = some id
scan_id _ = none

-- A pointer to what was scanned.
abbrev pub pointer : {A : Type 0} → Option A → Option (Option A)
pointer none = none
pointer (some a) = some (some a)

module _ {A : Type 0} (scan : List Value → Option A) where
  abbrev pub scan_row : (DbError → Error) → List Value → Result A
  scan_row broken vs = elim (scan vs) [ some a ↦ ok a | none ↦ err (broken scan_error) ]

  abbrev pub scan_found : Result A → (DbError → Error) → Outcome (List Value) → Result A
  scan_found missing broken (done vs) = scan_row broken vs
  scan_found missing broken (failed no_rows) = missing
  scan_found missing broken (failed (pg_error code n)) = err (broken (pg_error code n))
  scan_found missing broken (failed (failure n)) = err (broken (failure n))

  abbrev pub prepend : A → Result (List A) → Result (List A)
  prepend a (ok xs) = ok (a ∷ xs)
  prepend a (err e) = err e

  -- One round: a row that does not fit ends the loop with an error.
  abbrev pub append_scanned : (DbError → Error) → Option A → Result (List A) → Result (List A)
  append_scanned unscanned none rest = err (unscanned scan_error)
  append_scanned unscanned (some a) rest = prepend a rest

  -- The check of `rows.Err()`.
  abbrev pub ended : (DbError → Error) → Option DbError → Result (List A)
  ended cut none = ok []
  ended cut (some e) = err (cut e)

  -- `for rows.Next() { … rows.Scan … }` and the check of `rows.Err()` after it.
  unfoldable pub scan_all :
      (DbError → Error) → (DbError → Error) → Option DbError → List (List Value) → Result (List A)
  scan_all unscanned cut end [] = ended cut end
  scan_all unscanned cut end (vs ∷ rest) =
      append_scanned unscanned (scan vs) (scan_all unscanned cut end rest)

  abbrev pub scan_cursor :
      (DbError → Error) → (DbError → Error) → (DbError → Error) → Outcome Cursor → Result (List A)
  scan_cursor broken unscanned cut (done c) = scan_all unscanned cut c.failed_with c.rows
  scan_cursor broken unscanned cut (failed e) = err (broken e)

  -- `ToSql`, `QueryRow`, `Scan`, with the answer for `pgx.ErrNoRows`.
  abbrev pub find_one :
      {S : Type 0} → Pool S → Select → Error → Result A → (DbError → Error) → S → Result A
  find_one pool q unbuilt missing broken s =
      if pool.to_sql (select q) then scan_found missing broken (pool.query_row q s) else err unbuilt

  -- `ToSql`, `Query` and the loop over its rows.
  abbrev pub find_many :
      {S : Type 0}
      → Pool S
      → Select
      → Error
      → (DbError → Error)
      → (DbError → Error)
      → (DbError → Error)
      → S
      → Result (List A)
  find_many pool q unbuilt broken unscanned cut s =
      if pool.to_sql (select q)
      then scan_cursor broken unscanned cut (pool.query q s)
      else err unbuilt

module _ {S : Type 0} (pool : Pool S) where
  abbrev pub affected : (DbError → Error) → Error → Outcome ℕ → Result (Unit {0})
  affected broken missing (done n) = if n == 0 then err missing else ok tt
  affected broken missing (failed e) = err (broken e)

  -- `ToSql`, `Exec` and the check of `RowsAffected`.
  abbrev pub change_rows : Statement → Error → (DbError → Error) → Error → Exec S Unit
  change_rows stmt unbuilt broken missing s =
      let (outcome, t) = pool.exec stmt s in
      if pool.to_sql stmt then (affected broken missing outcome, t) else (err unbuilt, s)

  module _ {A : Type 0} where
    abbrev pub numbered : (DbError → Error) → (ℕ → A) → Outcome (List Value) → Result A
    numbered broken with_id (done vs) = elim (scan_id vs) [
      | some id ↦ ok (with_id id)
      | none ↦ err (broken scan_error)
    ]
    numbered broken with_id (failed e) = err (broken e)

    -- `ToSql`, `QueryRow`, `Scan(&row.ID)`; the entity takes the scanned number.
    abbrev pub insert_row : Insert → Error → (DbError → Error) → (ℕ → A) → Exec S A
    insert_row q unbuilt broken with_id s =
        let (outcome, t) = pool.insert_row q s in
        if pool.to_sql (insert q) then (numbered broken with_id outcome, t) else (err unbuilt, s)
