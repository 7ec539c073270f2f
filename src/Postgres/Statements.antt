-- ===== src/Postgres/Statements.antt =====
-- What internal/dataaccess/repositories/postqbuild hands to squirrel and pgx: the statements that
-- its query builder composes, the values that go in and come out, and the pool of connections.
use dataset_service.Base.{ℕ, String, Bool, true, false, Option, none, some, List, [], ◌∷◌, ◌==◌}
use dataset_service.Base.Time.{ℤ, pos, negsuc}
use dataset_service.Text.{Text, text_eq}
use dataset_service.Errors.{Error, driver}

-- An argument of a statement or a column of a row.
pub data Value : Type 0 where
  uint : ℕ → Value
  int : ℤ → Value
  text : Text → Value
  flag : Bool → Value
  instant : ℕ → Value
  null : Value

abbrev int_eq : ℤ → ℤ → Bool
int_eq (pos a) (pos b) = a == b
int_eq (negsuc a) (negsuc b) = a == b
int_eq _ _ = false

abbrev flag_eq : Bool → Bool → Bool
flag_eq true b = b
flag_eq false true = false
flag_eq false false = true

-- `a = b` in SQL, which is never true of NULL.
abbrev pub value_eq : Value → Value → Bool
value_eq (uint a) (uint b) = a == b
value_eq (int a) (int b) = int_eq a b
value_eq (text a) (text b) = text_eq a b
value_eq (flag a) (flag b) = flag_eq a b
value_eq (instant a) (instant b) = a == b
value_eq _ _ = false

-- `squirrel.Eq`, and a conjunction of such.
abbrev pub Eqs : Type 0
Eqs = List (String × Value)

pub record Select : Type 0 where
  pub columns : List String
  pub from : String
  pub join : Option String
  pub wheres : Eqs
  pub order_by : Option String
  pub limit : Option ℕ

pub record Insert : Type 0 where
  pub into : String
  pub columns : List String
  pub values : List Value
  pub suffix : Option String

pub record Update : Type 0 where
  pub table : String
  pub sets : Eqs
  pub wheres : Eqs

pub record Delete : Type 0 where
  pub from : String
  pub wheres : Eqs

pub data Statement : Type 0 where
  select : Select → Statement
  insert : Insert → Statement
  update : Update → Statement
  delete : Delete → Statement

-- `psql.Select(columns...).From(table).Where(wheres)`
abbrev pub select_from : List String → String → Eqs → Select
select_from columns table wheres = record {
  columns = columns;
  from = table;
  join = none;
  wheres = wheres;
  order_by = none;
  limit = none;
}

-- `psql.Insert(table).Columns(columns...).Values(values...).Suffix("RETURNING id")`
abbrev pub insert_returning_id : String → List String → List Value → Insert
insert_returning_id table columns values = record {
  into = table;
  columns = columns;
  values = values;
  suffix = some "RETURNING id";
}

abbrev pub update_where : String → Eqs → Eqs → Update
update_where table sets wheres = record { table = table; sets = sets; wheres = wheres }

abbrev pub delete_where : String → Eqs → Delete
delete_where table wheres = record { from = table; wheres = wheres }

-- `squirrel.Eq{column: value}`
abbrev pub eq : String → Value → Eqs
eq column value = (column, value) ∷ []

-- What pgx returns for an error: `pgx.ErrNoRows`, a `*pgconn.PgError` with its code, another one.
pub data DbError : Type 0 where
  no_rows : DbError
  pg_error : String → ℕ → DbError
  failure : ℕ → DbError

-- The error as the code passes it on.
abbrev pub cause : DbError → Error
cause no_rows = driver 1
cause (pg_error code n) = driver n
cause (failure n) = driver n

pub data Outcome (A : Type 0) : Type 0 where
  done : A → Outcome A
  failed : DbError → Outcome A

-- `pgx.Rows`: the rows that `Next` gives, and what `Err` says at the end.
pub record Cursor : Type 0 where
  pub rows : List (List Value)
  pub failed_with : Option DbError

-- squirrel's `ToSql` and `pgxpool.Pool`, outside the repository. `query_row` is `QueryRow` up to
-- the conversions of `Scan`; a SELECT does not change the state.
pub record Pool (S : Type 0) : Type 0 where
  pub to_sql : Statement → Bool
  pub query : Select → S → Outcome Cursor
  pub query_row : Select → S → Outcome (List Value)
  pub insert_row : Insert → S → Outcome (List Value) × S
  pub exec : Statement → S → Outcome ℕ × S
