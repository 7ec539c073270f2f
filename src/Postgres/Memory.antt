-- ===== src/Postgres/Memory.antt =====
-- A database with one table in memory: a pool that keeps the laws of Postgres.Tables. Like
-- PostgreSQL it checks the rules of its table after each statement, and refuses the statement if
-- the rows would break them.
pub mod Rules
use package.text.Mathlib.TextEquality.{eq_iff}
use dataset_service.Base.{
  ℕ, suc, ◌+◌, ◌<◌, ◌≤◌, ◌≡◌, refl, sym, ap, ◌∙◌, ◌⊎◌, inl, inr, String, Bool, true, false, Option,
  none, some, List, [], ◌∷◌, map, select, arith, ltb, ◌==◌, if◌then◌else◌, Bool-cases, Option-cases,
}
use dataset_service.Postgres.Statements.{
  Value, uint, text, int, flag, instant, null, value_eq, Eqs, Select, Insert, Update, Delete,
  Statement, eq, DbError, no_rows, pg_error, failure, Outcome, done, failed, Cursor, Pool,
}
use dataset_service.Postgres.Tables.{
  Row, str_eq, column, project, matches, inserted_row, find_row, count_rows, change, remove, Among,
  with_table, LawfulPool, find_row-Among,
}

number : Value → ℕ
number (uint n) = n
number _ = 0

-- A number that no row has.
unfoldable pub next_id : List Row → ℕ
unfolding number
next_id [] = 1
next_id (r ∷ rows) =
    let n = next_id rows in
    if ltb n (number (column "id" r) + 1) then number (column "id" r) + 1 else n

next_id-pos : (rows : List Row) → 0 < next_id rows
unfolding next_id
next_id-pos [] = omega arith
next_id-pos (r ∷ rows) = ground (arith, next_id-pos rows)

unequal : (v : Value) (n : ℕ) → number v < n → value_eq v (uint n) ≡ false
unfolding number
unequal (uint a) n h = ground arith
unequal _ n h = refl

next_id-fresh :
    (n : ℕ) (rows : List Row) → next_id rows ≤ n → find_row (eq "id" (uint n)) rows ≡ none
unfolding next_id find_row
next_id-fresh n [] h = refl
next_id-fresh n (r ∷ rows) h =
    rw (unequal (column "id" r) n (ground arith)) (next_id-fresh n rows (ground arith))

-- The check of the rules, with its answer.
abbrev pub check : (b : Bool) → (b ≡ true) ⊎ (b ≡ false)
check true = inl refl
check false = inr refl

module _ (name : String) (valid : List Row → Bool) where
  abbrev pub Db : Type 0
  Db = (rows : List Row) × (valid rows ≡ true)

  abbrev pub tables : Db → String → List Row
  tables s other = if str_eq name other then s.0 else []

  -- The statement stands if the rows that it leaves keep the rules.
  abbrev pub committed :
      {A : Type 0}
      → A
      → (rows : List Row) → Db
      → (valid rows ≡ true) ⊎ (valid rows ≡ false)
      → Outcome A × Db
  committed a rows s (inl h) = (done a, (rows, h))
  committed a rows s (inr h) = (failed (pg_error "23505" 3), s)

  unfoldable pub commit : {A : Type 0} → A → List Row → Db → Outcome A × Db
  commit a rows s = committed a rows s (check (valid rows))

  abbrev pub no_table : DbError
  no_table = pg_error "42P01" 2

  unfoldable pub run_insert : Insert → Db → Outcome (List Value) × Db
  unfolding commit
  run_insert q s =
      let id = uint (next_id s.0) in
      if str_eq name q.into
      then commit (id ∷ []) (inserted_row ("id" ∷ q.columns) (id ∷ q.values) ∷ s.0) s
      else (failed no_table, s)

  unfoldable pub run : Statement → Db → Outcome ℕ × Db
  unfolding commit
  run (Statement.select q) s = (failed no_table, s)
  run (Statement.insert q) s =
      if str_eq name q.into
      then commit 1 (inserted_row q.columns q.values ∷ s.0) s
      else (failed no_table, s)
  run (Statement.update q) s =
      if str_eq name q.table
      then commit (count_rows q.wheres s.0) (change q.wheres q.sets s.0) s
      else (failed no_table, s)
  run (Statement.delete q) s =
      if str_eq name q.from
      then commit (count_rows q.wheres s.0) (remove q.wheres s.0) s
      else (failed no_table, s)

  abbrev pub answer : List String → Option Row → Outcome (List Value)
  answer columns none = failed no_rows
  answer columns (some r) = done (project columns r)

  abbrev pub memory_pool : Pool Db
  memory_pool = record {
    to_sql = λ stmt. true;
    query = λ q s. done (record {
      rows = map (project q.columns) (select (matches q.wheres) (tables s q.from));
      failed_with = none;
    });
    query_row = λ q s. answer q.columns (find_row q.wheres (tables s q.from));
    insert_row = run_insert;
    exec = run;
  }

  committed_done :
      {A : Type 0} (a b : A) (rows : List Row) (s : Db)
      (checked : (valid rows ≡ true) ⊎ (valid rows ≡ false))
      → (committed a rows s checked).0 ≡ done b
      → (b ≡ a) × ((committed a rows s checked).1.0 ≡ rows)
  committed_done a b rows s (inl h) e = (cc, refl)
  committed_done a b rows s (inr h) e = absurd (cc)

  committed_failed :
      {A : Type 0} (a : A) (d : DbError) (rows : List Row) (s : Db)
      (checked : (valid rows ≡ true) ⊎ (valid rows ≡ false))
      → (committed a rows s checked).0 ≡ failed d
      → (committed a rows s checked).1 ≡ s
  committed_failed a d rows s (inl h) e = absurd (cc)
  committed_failed a d rows s (inr h) e = refl

  commit_done :
      {A : Type 0} (a b : A) (rows : List Row) (s : Db)
      → (commit a rows s).0 ≡ done b
      → (b ≡ a) × ((commit a rows s).1.0 ≡ rows)
  unfolding commit
  commit_done a b rows s h = committed_done a b rows s (check (valid rows)) h

  commit_failed :
      {A : Type 0} (a : A) (d : DbError) (rows : List Row) (s : Db)
      → (commit a rows s).0 ≡ failed d
      → (commit a rows s).1 ≡ s
  unfolding commit
  commit_failed a d rows s h = committed_failed a d rows s (check (valid rows)) h

  tables_after :
      (into other : String) (rows : List Row) (s t : Db)
      → str_eq name into ≡ true
      → t.0 ≡ rows
      → tables t other ≡ with_table into rows (tables s) other
  tables_after into other rows s t here e = rw (sym ((eq_iff name into).0 here)) (ground arith)

  pub row_inserted :
      (q : Insert) (s : Db) (vs : List Value)
      → (run_insert q s).0 ≡ done vs
      → (id : ℕ) × (vs ≡ uint id ∷ [])
        × (0 < id)
        × (find_row (eq "id" (uint id)) (tables s q.into) ≡ none)
        × ((other : String)
            → tables (run_insert q s).1 other
              ≡ with_table q.into
                  (inserted_row ("id" ∷ q.columns) (uint id ∷ q.values) ∷ tables s q.into)
                  (tables s)
                  other)
  unfolding run_insert
  row_inserted q s vs h = elim (Bool-cases (str_eq name q.into)) [
    | inr other ↦ absurd (ground arith)
    | inl here ↦
        let id = next_id s.0 in
        let rows : List Row = inserted_row ("id" ∷ q.columns) (uint id ∷ q.values) ∷ s.0 in
        let (e, after) = commit_done (uint id ∷ []) vs rows s (rw here at h) in
        (
          id,
          e,
          next_id-pos s.0,
          rw here (next_id-fresh id s.0 (omega arith)),
          λ other.
              rw here
                (tables_after q.into other rows s (commit (uint id ∷ []) rows s).1 here after),
        )
  ]

  pub row_not_inserted :
      (q : Insert) (s : Db) (d : DbError) (other : String)
      → (run_insert q s).0 ≡ failed d
      → tables (run_insert q s).1 other ≡ tables s other
  unfolding run_insert
  row_not_inserted q s d other h = elim (Bool-cases (str_eq name q.into)) [
    | inr elsewhere ↦ rw elsewhere refl
    | inl here ↦ rw here (ap (λ t. tables t other) (commit_failed _ d _ s (rw here at h)))
  ]

  pub rows_inserted :
      (q : Insert) (s : Db) (n : ℕ) (other : String)
      → (run (Statement.insert q) s).0 ≡ done n
      → tables (run (Statement.insert q) s).1 other
        ≡ with_table q.into (inserted_row q.columns q.values ∷ tables s q.into) (tables s) other
  unfolding run
  rows_inserted q s n other h = elim (Bool-cases (str_eq name q.into)) [
    | inr elsewhere ↦ absurd (ground arith)
    | inl here ↦
        let rows : List Row = inserted_row q.columns q.values ∷ s.0 in
        rw here (
          tables_after q.into other rows s (commit 1 rows s).1 here
            (commit_done 1 n rows s (rw here at h)).1)
  ]

  pub rows_updated :
      (q : Update) (s : Db) (n : ℕ)
      → (run (Statement.update q) s).0 ≡ done n
      → (n ≡ count_rows q.wheres (tables s q.table))
        × ((other : String)
            → tables (run (Statement.update q) s).1 other
              ≡ with_table q.table (change q.wheres q.sets (tables s q.table)) (tables s) other)
  unfolding run
  rows_updated q s n h = elim (Bool-cases (str_eq name q.table)) [
    | inr elsewhere ↦ absurd (ground arith)
    | inl here ↦
        let rows : List Row = change q.wheres q.sets s.0 in
        let (e, after) = commit_done (count_rows q.wheres s.0) n rows s (rw here at h) in
        (
          rw here e,
          λ other. rw here (
              tables_after q.table other rows s (commit (count_rows q.wheres s.0) rows s).1 here
                after),
        )
  ]

  pub rows_deleted :
      (q : Delete) (s : Db) (n : ℕ)
      → (run (Statement.delete q) s).0 ≡ done n
      → (n ≡ count_rows q.wheres (tables s q.from))
        × (tables (run (Statement.delete q) s).1 q.from ≡ remove q.wheres (tables s q.from))
  unfolding run
  rows_deleted q s n h = elim (Bool-cases (str_eq name q.from)) [
    | inr elsewhere ↦ absurd (ground arith)
    | inl here ↦
        let rows : List Row = remove q.wheres s.0 in
        let (e, after) = commit_done (count_rows q.wheres s.0) n rows s (rw here at h) in
        (rw here e, rw here after)
  ]

  pub not_executed :
      (stmt : Statement) (s : Db) (d : DbError) (other : String)
      → (run stmt s).0 ≡ failed d
      → tables (run stmt s).1 other ≡ tables s other
  unfolding run
  not_executed (Statement.select q) s d other h = refl
  not_executed (Statement.insert q) s d other h = elim (Bool-cases (str_eq name q.into)) [
    | inr elsewhere ↦ rw elsewhere refl
    | inl here ↦ rw here (ap (λ t. tables t other) (commit_failed _ d _ s (rw here at h)))
  ]
  not_executed (Statement.update q) s d other h = elim (Bool-cases (str_eq name q.table)) [
    | inr elsewhere ↦ rw elsewhere refl
    | inl here ↦ rw here (ap (λ t. tables t other) (commit_failed _ d _ s (rw here at h)))
  ]
  not_executed (Statement.delete q) s d other h = elim (Bool-cases (str_eq name q.from)) [
    | inr elsewhere ↦ rw elsewhere refl
    | inl here ↦ rw here (ap (λ t. tables t other) (commit_failed _ d _ s (rw here at h)))
  ]

  pub row_found :
      (q : Select) (s : Db) (vs : List Value)
      → answer q.columns (find_row q.wheres (tables s q.from)) ≡ done vs
      → (r : Row) × Among r (tables s q.from)
        × (matches q.wheres r ≡ true)
        × (vs ≡ project q.columns r)
  row_found q s vs h = elim (Option-cases (find_row q.wheres (tables s q.from))) [
    | inl nothing ↦ absurd (ground arith)
    | inr (r, found) ↦
        let (among, meets) = find_row-Among q.wheres r (tables s q.from) found in
        (r, among, meets, ground arith)
  ]

  pub row_missing :
      (q : Select) (s : Db)
      → answer q.columns (find_row q.wheres (tables s q.from)) ≡ failed no_rows
      → find_row q.wheres (tables s q.from) ≡ none
  row_missing q s h = elim (Option-cases (find_row q.wheres (tables s q.from))) [
    | inl nothing ↦ nothing
    | inr (r, found) ↦ absurd (ground arith)
  ]

  unfoldable pub memory_laws : LawfulPool memory_pool
  memory_laws = record {
    table = tables;
    row_found = λ q s vs single h. row_found q s vs h;
    row_missing = λ q s single h. row_missing q s h;
    row_inserted = λ q s vs returning h. row_inserted q s vs h;
    row_not_inserted = row_not_inserted;
    rows_inserted = rows_inserted;
    rows_updated = rows_updated;
    rows_deleted = rows_deleted;
    not_executed = not_executed;
  }
