-- ===== src/Postgres/Answers.antt =====
-- What the answer of a shared method body says of the calls of the pool, and these of the tables.
use dataset_service.Base.{
  ℕ, ◌≡◌, ◌≢◌, refl, ap, ◌∙◌, ◌⊎◌, inl, inr, true, false, Option, none, some, List, [], ◌∷◌, arith,
  ◌==◌, Bool-cases, Option-cases,
}
use dataset_service.Errors.{Error}
use dataset_service.Exec.{Result, ok, err}
use dataset_service.Postgres.Statements.{
  Value, uint, int, text, flag, instant, null, value_eq, DbError, no_rows, pg_error, failure,
  Outcome, done, failed, Pool, Select, Insert, Statement, select, insert,
}
use dataset_service.Postgres.Methods.{
  find_one, scan_found, pointer, scan_id, insert_row, change_rows,
}
use dataset_service.Postgres.Tables.{
  Row, project, find_row, matches, Among, LawfulPool, find_row_unique,
}

pub Outcome-cases :
    {A : Type 0} (o : Outcome A) → ((a : A) × (o ≡ done a)) ⊎ ((e : DbError) × (o ≡ failed e))
Outcome-cases (done a) = inl (a, refl)
Outcome-cases (failed e) = inr (e, refl)

-- A value equals one number.
pub value_eq-uint_inj :
    (v : Value) (a b : ℕ) → value_eq v (uint a) ≡ true → value_eq v (uint b) ≡ true → a ≡ b
value_eq-uint_inj (uint n) a b p q = ground arith
value_eq-uint_inj (int n) a b p q = absurd (cc)
value_eq-uint_inj (text n) a b p q = absurd (cc)
value_eq-uint_inj (flag n) a b p q = absurd (cc)
value_eq-uint_inj (instant n) a b p q = absurd (cc)
value_eq-uint_inj null a b p q = absurd (cc)

-- A pointer that is set comes from a value that was scanned.
pub pointed : {A : Type 0} (o u : Option A) → pointer o ≡ some u → o ≡ u
pointed none u h = absurd (cc)
pointed (some a) u h = cc

module _ {A : Type 0} (scan : List Value → Option A) where
  scan_found-eq-ok :
      (missing : Result A) (broken : DbError → Error) (o : Outcome (List Value)) (a : A)
      → scan_found scan missing broken o ≡ ok a
      → ((vs : List Value) × (o ≡ done vs) × (scan vs ≡ some a))
        ⊎ ((o ≡ failed no_rows) × (missing ≡ ok a))
  scan_found-eq-ok missing broken (done vs) a h = elim (Option-cases (scan vs)) [
    | inl unfit ↦ absurd (ground arith)
    | inr (b, fit) ↦ inl (vs, refl, ground arith)
  ]
  scan_found-eq-ok missing broken (failed no_rows) a h = inr (refl, h)
  scan_found-eq-ok missing broken (failed (pg_error code n)) a h = absurd (cc)
  scan_found-eq-ok missing broken (failed (failure n)) a h = absurd (cc)

  scan_found-eq-err :
      (missing : Result A) (broken : DbError → Error) (o : Outcome (List Value)) (e : Error)
      → scan_found scan missing broken o ≡ err e
      → ((o ≡ failed no_rows) × (missing ≡ err e)) ⊎ ((d : DbError) × (e ≡ broken d))
  scan_found-eq-err missing broken (done vs) e h = elim (Option-cases (scan vs)) [
    | inl unfit ↦ inr (failure 0, ground arith)
    | inr (b, fit) ↦ absurd (ground arith)
  ]
  scan_found-eq-err missing broken (failed no_rows) e h = inl (refl, h)
  scan_found-eq-err missing broken (failed (pg_error code n)) e h = inr (pg_error code n, cc)
  scan_found-eq-err missing broken (failed (failure n)) e h = inr (failure n, cc)

  module _ {S : Type 0} (pool : Pool S) (q : Select) (unbuilt : Error) (missing : Result A)
      (broken : DbError → Error) (s : S) where
    -- An answer comes from a row that was found and scanned, or for want of a row.
    pub find_one-eq-ok :
        (a : A)
        → find_one scan pool q unbuilt missing broken s ≡ ok a
        → ((vs : List Value) × (pool.query_row q s ≡ done vs) × (scan vs ≡ some a))
          ⊎ ((pool.query_row q s ≡ failed no_rows) × (missing ≡ ok a))
    find_one-eq-ok a h = elim (Bool-cases (pool.to_sql (select q))) [
      | inr no_sql ↦ absurd (ground arith)
      | inl built ↦ scan_found-eq-ok missing broken (pool.query_row q s) a (rw built at h)
    ]

    -- An error says that there was no row, or it is one of the others.
    pub find_one-eq-err :
        (e : Error)
        → find_one scan pool q unbuilt missing broken s ≡ err e
        → ((pool.query_row q s ≡ failed no_rows) × (missing ≡ err e))
          ⊎ ((e ≡ unbuilt) ⊎ ((d : DbError) × (e ≡ broken d)))
    find_one-eq-err e h = elim (Bool-cases (pool.to_sql (select q))) [
      | inr no_sql ↦ inr (inl (ground arith))
      | inl built ↦ elim (scan_found-eq-err missing broken (pool.query_row q s) e (rw built at h)) [
        | inl none_found ↦ inl none_found
        | inr other ↦ inr (inr other)
      ]
    ]

module _ {S : Type 0} {pool : Pool S} (laws : LawfulPool pool) where
  -- Where the condition is on a key, the row of the answer is the one that stands in the table.
  pub query_row-find_row :
      (q : Select) (s : S) (vs : List Value)
      → q.join ≡ none
      → ((r x : Row)
          → Among r (laws.table s q.from)
          → Among x (laws.table s q.from)
          → matches q.wheres r ≡ true
          → matches q.wheres x ≡ true
          → r ≡ x)
      → pool.query_row q s ≡ done vs
      → (r : Row) × (find_row q.wheres (laws.table s q.from) ≡ some r)
        × Among r (laws.table s q.from)
        × (vs ≡ project q.columns r)
        × (matches q.wheres r ≡ true)
  query_row-find_row q s vs single only h =
      let (r, among, fits, values) = laws.row_found q s vs single h in
      (
        r,
        find_row_unique q.wheres r (laws.table s q.from)
            (λ x among_x ok_x. only r x among among_x fits ok_x) among fits,
        among,
        values,
        fits,
      )

scan_id-eq-some : (vs : List Value) (id : ℕ) → scan_id vs ≡ some id → vs ≡ uint id ∷ []
scan_id-eq-some [] id h = absurd (cc)
scan_id-eq-some (uint n ∷ []) id h = cc
scan_id-eq-some (uint n ∷ y ∷ zs) id h = absurd (cc)
scan_id-eq-some (int n ∷ zs) id h = absurd (cc)
scan_id-eq-some (text n ∷ zs) id h = absurd (cc)
scan_id-eq-some (flag n ∷ zs) id h = absurd (cc)
scan_id-eq-some (instant n ∷ zs) id h = absurd (cc)
scan_id-eq-some (null ∷ zs) id h = absurd (cc)

module _ {S A : Type 0} (pool : Pool S) (q : Insert) (unbuilt : Error) (broken : DbError → Error)
    (with_id : ℕ → A) (s : S) where
  -- A creation that succeeds has run its statement and scanned a number.
  pub insert_row-eq-ok :
      (a : A)
      → (insert_row pool q unbuilt broken with_id s).0 ≡ ok a
      → (id : ℕ) × ((pool.insert_row q s).0 ≡ done (uint id ∷ []))
        × (a ≡ with_id id)
        × ((insert_row pool q unbuilt broken with_id s).1 ≡ (pool.insert_row q s).1)
  insert_row-eq-ok a h = elim (Bool-cases (pool.to_sql (insert q))) [
    | inr no_sql ↦ absurd (ground arith)
    | inl built ↦ elim (Outcome-cases (pool.insert_row q s).0) [
      | inr (e, broke) ↦ absurd (ground arith)
      | inl (vs, ran) ↦ elim (Option-cases (scan_id vs)) [
        | inl unfit ↦ absurd (ground arith)
        | inr (id, fit) ↦
            (id, ran ∙ ap done (scan_id-eq-some vs id fit), ground arith, ground arith)
      ]
    ]
  ]

  -- One that fails has not run it, or not to its end.
  pub insert_row-ne-ok :
      ((a : A) → (insert_row pool q unbuilt broken with_id s).0 ≢ ok a)
      → ((insert_row pool q unbuilt broken with_id s).1 ≡ s)
        ⊎ (((insert_row pool q unbuilt broken with_id s).1 ≡ (pool.insert_row q s).1)
            × ((id : ℕ) → (pool.insert_row q s).0 ≢ done (uint id ∷ [])))
  insert_row-ne-ok h = elim (Bool-cases (pool.to_sql (insert q))) [
    | inr no_sql ↦ inl (ground arith)
    | inl built ↦ inr (ground arith, λ id ran. h (with_id id) (rw (built, ran) refl))
  ]

module _ {S : Type 0} (pool : Pool S) (stmt : Statement) (unbuilt : Error)
    (broken : DbError → Error) (missing : Error) (s : S) where
  -- A change that succeeds has run its statement.
  pub change_rows-eq-ok :
      (change_rows pool stmt unbuilt broken missing s).0 ≡ ok tt
      → (n : ℕ) × ((pool.exec stmt s).0 ≡ done n)
        × ((n == 0) ≡ false)
        × ((change_rows pool stmt unbuilt broken missing s).1 ≡ (pool.exec stmt s).1)
  change_rows-eq-ok h = elim (Bool-cases (pool.to_sql stmt)) [
    | inr no_sql ↦ absurd (ground arith)
    | inl built ↦ elim (Outcome-cases (pool.exec stmt s).0) [
      | inr (e, broke) ↦ absurd (ground arith)
      | inl (n, ran) ↦ (n, ran, ground arith, ground arith)
    ]
  ]

  -- One that fails has not run it, or it failed, or it has changed no row.
  pub change_rows-ne-ok :
      (change_rows pool stmt unbuilt broken missing s).0 ≢ ok tt
      → ((change_rows pool stmt unbuilt broken missing s).1 ≡ s)
        ⊎ (((change_rows pool stmt unbuilt broken missing s).1 ≡ (pool.exec stmt s).1)
            × (((e : DbError) × ((pool.exec stmt s).0 ≡ failed e))
                ⊎ ((pool.exec stmt s).0 ≡ done 0)))
  change_rows-ne-ok h = elim (Bool-cases (pool.to_sql stmt)) [
    | inr no_sql ↦ inl (ground arith)
    | inl built ↦ inr (
      ground arith,
      elim (Outcome-cases (pool.exec stmt s).0) [
        | inr (e, broke) ↦ inl (e, broke)
        | inl (n, ran) ↦ inr (ground arith)
      ],
    )
  ]
