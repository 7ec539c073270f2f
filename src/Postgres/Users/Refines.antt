-- ===== src/Postgres/Users/Refines.antt =====
-- postqbuild/user_repo.go over a database with the table `users` of the first migration.
use dataset_service.Base.{◌≡◌, refl, Option, none, some, [], ◌∷◌}
use dataset_service.Text.{Text}
use dataset_service.Entities.{User}
use dataset_service.Postgres.Statements.{uint, text, flag, instant, eq, Pool}
use dataset_service.Postgres.Tables.{Row, project, find_row, Among, LawfulPool, IsKey, On}
use dataset_service.Postgres.Users.{scan_user, user_columns}

-- A row of the table, whose columns are all NOT NULL.
abbrev pub user_row : User → Row
user_row u =
    ("id", uint u.id)
    ∷ ("username", text u.username)
    ∷ ("email", text u.email)
    ∷ ("password", text u.password)
    ∷ ("registration_date", instant u.registration_date)
    ∷ ("country", text u.country)
    ∷ ("is_blocked", flag u.is_blocked)
    ∷ ("role", text u.role)
    ∷ []

-- What the table `users` of the first migration says of its rows: their columns, and that
-- addresses are UNIQUE.
pub record UserTable {S : Type 0} {pool : Pool S} (laws : LawfulPool pool) : Type 0 where
  pub typed : (s : S) (r : Row) → Among r (laws.table s "users") → (u : User) × (r ≡ user_row u)
  pub unique_email : (s : S) → IsKey (On "email") (laws.table s "users")

-- The user that a row holds.
abbrev pub read_user : Option Row → Option User
read_user none = none
read_user (some r) = scan_user (project user_columns r)

read_user_row : (u : User) → read_user (some (user_row u)) ≡ some u
read_user_row u = refl

module _ {S : Type 0} (pool : Pool S) (laws : LawfulPool pool) (schema : UserTable laws) where
  abbrev user_by_email : S → Text → Option User
  user_by_email s email = read_user (find_row (eq "email" (text email)) (laws.table s "users"))
