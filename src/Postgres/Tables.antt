-- ===== src/Postgres/Tables.antt =====
-- What PostgreSQL does with the statements of Postgres.Statements, on tables as lists of rows. A
-- table lists its rows with the latest first; SQL itself gives no order, and no law depends on it.
use text.Mathlib.Text as StringTests
use dataset_service.Base.{
  ℕ, ◌+◌, ◌<◌, ◌≡◌, refl, sym, ap, ◌∙◌, ◌⊎◌, inl, inr, String, Bool, true, false, ◌&&◌, Option,
  none, some, List, [], ◌∷◌, arith, ◌/◌, ◌*◌, if◌then◌else◌, Bool-cases,
}
use dataset_service.Base.Time.{pos}
use dataset_service.Postgres.Statements.{
  Value, uint, int, instant, null, value_eq, Eqs, Select, Insert, Update, Delete, Statement, insert,
  eq, DbError, no_rows, done, failed, Pool,
}

abbrev pub str_eq : String → String → Bool
str_eq = StringTests.◌==◌

abbrev pub Row : Type 0
Row = List (String × Value)

-- The value of a column; a row that lacks it counts as NULL there.
abbrev pub column : String → Row → Value
column c [] = null
column c ((d, v) ∷ r) = if str_eq d c then v else column c r

-- One column of a SELECT list: a name, or the constant 1.
abbrev pub selected : String → Row → Value
selected c r = if str_eq c "1" then int (pos 1) else column c r

abbrev pub project : List String → Row → List Value
project [] r = []
project (c ∷ cs) r = selected c r ∷ project cs r

-- WHERE with a conjunction of equations.
abbrev pub matches : Eqs → Row → Bool
matches [] r = true
matches ((c, v) ∷ w) r = value_eq (column c r) v && matches w r

-- A TIMESTAMPTZ keeps microseconds: pgx and PostgreSQL drop what is below of the nanoseconds of an
-- instant. Other values are stored as they are.
unfoldable pub to_micros : ℕ → ℕ
to_micros t = t / 1000 * 1000

abbrev pub as_stored : Value → Value
as_stored (instant t) = instant (to_micros t)
as_stored v = v

-- SET
abbrev pub assigned : String → Value → Eqs → Value
assigned c v [] = v
assigned c v ((d, u) ∷ sets) = if str_eq d c then as_stored u else assigned c v sets

abbrev pub assign : Eqs → Row → Row
assign sets [] = []
assign sets ((c, v) ∷ r) = (c, assigned c v sets) ∷ assign sets r

abbrev pub inserted_row : List String → List Value → Row
inserted_row (c ∷ cs) (v ∷ vs) = (c, as_stored v) ∷ inserted_row cs vs
inserted_row _ _ = []

module _ (w : Eqs) where
  unfoldable pub find_row : List Row → Option Row
  find_row [] = none
  find_row (r ∷ rows) = if matches w r then some r else find_row rows

  unfoldable pub count_rows : List Row → ℕ
  count_rows [] = 0
  count_rows (r ∷ rows) = let n = count_rows rows in if matches w r then n + 1 else n

  unfoldable pub change : Eqs → List Row → List Row
  change sets [] = []
  change sets (r ∷ rows) = (if matches w r then assign sets r else r) ∷ change sets rows

  unfoldable pub remove : List Row → List Row
  remove [] = []
  remove (r ∷ rows) = let rest = remove rows in if matches w r then rest else r ∷ rest

abbrev pub Among : Row → List Row → Type 0
Among r [] = ⊥
Among r (x ∷ rows) = (r ≡ x) ⊎ Among r rows

-- The rows of one table after a change of it.
abbrev pub with_table : String → List Row → (String → List Row) → String → List Row
with_table name rows tables other = if str_eq name other then rows else tables other

-- What is relied on of pgx and PostgreSQL: a statement that succeeds does to the tables what SQL
-- says, one that fails leaves them alone, and BIGSERIAL gives new rows numbers that are not in
-- use. What a deletion does to other tables, by ON DELETE, is left open.
pub record LawfulPool {S : Type 0} (pool : Pool S) : Type 0 where
  pub table : S → String → List Row
  pub row_found :
      (q : Select) (s : S) (vs : List Value)
      → q.join ≡ none
      → pool.query_row q s ≡ done vs
      → (r : Row) × Among r (table s q.from)
        × (matches q.wheres r ≡ true)
        × (vs ≡ project q.columns r)
  pub row_missing :
      (q : Select) (s : S)
      → q.join ≡ none
      → pool.query_row q s ≡ failed no_rows
      → find_row q.wheres (table s q.from) ≡ none
  pub row_inserted :
      (q : Insert) (s : S) (vs : List Value)
      → q.suffix ≡ some "RETURNING id"
      → (pool.insert_row q s).0 ≡ done vs
      → (id : ℕ) × (vs ≡ uint id ∷ [])
        × (0 < id)
        × (find_row (eq "id" (uint id)) (table s q.into) ≡ none)
        × ((name : String)
            → table (pool.insert_row q s).1 name
              ≡ with_table q.into
                  (inserted_row ("id" ∷ q.columns) (uint id ∷ q.values) ∷ table s q.into)
                  (table s)
                  name)
  pub row_not_inserted :
      (q : Insert) (s : S) (e : DbError) (name : String)
      → (pool.insert_row q s).0 ≡ failed e
      → table (pool.insert_row q s).1 name ≡ table s name
  pub rows_inserted :
      (q : Insert) (s : S) (n : ℕ) (name : String)
      → (pool.exec (insert q) s).0 ≡ done n
      → table (pool.exec (insert q) s).1 name
        ≡ with_table q.into (inserted_row q.columns q.values ∷ table s q.into) (table s) name
  pub rows_updated :
      (q : Update) (s : S) (n : ℕ)
      → (pool.exec (Statement.update q) s).0 ≡ done n
      → (n ≡ count_rows q.wheres (table s q.table))
        × ((name : String)
            → table (pool.exec (Statement.update q) s).1 name
              ≡ with_table q.table (change q.wheres q.sets (table s q.table)) (table s) name)
  pub rows_deleted :
      (q : Delete) (s : S) (n : ℕ)
      → (pool.exec (Statement.delete q) s).0 ≡ done n
      → (n ≡ count_rows q.wheres (table s q.from))
        × (table (pool.exec (Statement.delete q) s).1 q.from ≡ remove q.wheres (table s q.from))
  pub not_executed :
      (stmt : Statement) (s : S) (e : DbError) (name : String)
      → (pool.exec stmt s).0 ≡ failed e
      → table (pool.exec stmt s).1 name ≡ table s name

-- No two rows have the same values in the columns that the conditions of a kind compare.
abbrev pub IsKey : (Eqs → Type 0) → List Row → Type 0
IsKey Kind rows =
    (w : Eqs)
    → Kind w
    → (r x : Row) → Among r rows
    → Among x rows
    → matches w r ≡ true
    → matches w x ≡ true
    → r ≡ x

-- The conditions on one column, and on two.
abbrev pub On : String → Eqs → Type 0
On c w = (v : Value) × (w ≡ (c, v) ∷ [])

abbrev pub OnBoth : String → String → Eqs → Type 0
OnBoth c d w = (v : Value) × (u : Value) × (w ≡ (c, v) ∷ (d, u) ∷ [])

-- A row that meets a condition is the one that is found, if the condition is on a key.
pub find_row_unique :
    (w : Eqs) (r : Row) (rows : List Row)
    → ((x : Row) → Among x rows → matches w x ≡ true → r ≡ x)
    → Among r rows
    → matches w r ≡ true
    → find_row w rows ≡ some r
unfolding find_row
find_row_unique w r [] only among ok = absurd among
find_row_unique w r (x ∷ rows) only among ok = elim (Bool-cases (matches w x)) [
  | inl here ↦ rw here (ap some (sym (only x (inl refl) here)))
  | inr no_match ↦ elim among [
    | inl e ↦ absurd (cc)
    | inr later ↦
        rw no_match
          (find_row_unique w r rows (λ y among_y ok_y. only y (inr among_y) ok_y) later ok)
  ]
]

pub find_row-Among :
    (w : Eqs) (r : Row) (rows : List Row)
    → find_row w rows ≡ some r
    → Among r rows × (matches w r ≡ true)
unfolding find_row
find_row-Among w r [] h = absurd (cc)
find_row-Among w r (x ∷ rows) h = elim (Bool-cases (matches w x)) [
  | inl here ↦ let e : r ≡ x = ground arith in (inl e, rw e here)
  | inr later ↦
      let h' : find_row w rows ≡ some r = ground arith in
      let (among, ok) = find_row-Among w r rows h' in (inr among, ok)
]

-- An UPDATE whose condition no row meets changes nothing.
pub change-of_none :
    (w sets : Eqs) (rows : List Row) → count_rows w rows ≡ 0 → change w sets rows ≡ rows
unfolding count_rows change
change-of_none w sets [] h = refl
change-of_none w sets (r ∷ rows) h = elim (Bool-cases (matches w r)) [
  | inl here ↦ absurd (ground arith)
  | inr no_match ↦ rw (no_match, change-of_none w sets rows (ground arith)) refl
]

-- Whether some row meets a condition.
abbrev pub is_found : Option Row → Bool
is_found none = false
is_found (some r) = true

pub find_row-of_Among :
    (w : Eqs) (r : Row) (rows : List Row)
    → Among r rows
    → matches w r ≡ true
    → is_found (find_row w rows) ≡ true
unfolding find_row
find_row-of_Among w r [] among meets = absurd among
find_row-of_Among w r (x ∷ rows) (inl e) meets = rw (ap (matches w) (sym e) ∙ meets) refl
find_row-of_Among w r (x ∷ rows) (inr later) meets =
    ground (arith, find_row-of_Among w r rows later meets)

-- What is found after a deletion, for conditions of which either no row meets both, or a row that
-- meets the second meets the first.
pub find_row-remove_other :
    (w v : Eqs) (rows : List Row)
    → ((r : Row) → matches w r ≡ true → matches v r ≡ true → ⊥)
    → find_row v (remove w rows) ≡ find_row v rows
unfolding find_row remove
find_row-remove_other w v [] apart = refl
find_row-remove_other w v (r ∷ rows) apart = elim (Bool-cases (matches w r)) [
  | inr no_match ↦ rw (no_match, find_row-remove_other w v rows apart) refl
  | inl here ↦ elim (Bool-cases (matches v r)) [
    | inl both ↦ absurd (apart r here both)
    | inr not_v ↦ rw (here, not_v) (find_row-remove_other w v rows apart)
  ]
]

pub find_row-remove_self : (w : Eqs) (rows : List Row) → find_row w (remove w rows) ≡ none
unfolding find_row remove
find_row-remove_self w [] = refl
find_row-remove_self w (r ∷ rows) = elim (Bool-cases (matches w r)) [
  | inr no_match ↦ rw (no_match, no_match) (find_row-remove_self w rows)
  | inl here ↦ rw here (find_row-remove_self w rows)
]
