-- ===== src/Postgres/Users.antt =====
-- postqbuild/user_repo.go: the users.
pub mod Refines
use dataset_service.Base.{
  ℕ, Bool, true, false, String, Option, none, some, List, [], ◌∷◌, ◌++◌, if◌then◌else◌,
}
use dataset_service.Base.Time.{ℤ}
use dataset_service.Text.{Text, codes, text_eq}
use dataset_service.Errors.{
  Error, RepoError, repo, wrap, annotate, user_query_build, user_not_found, user_create,
  user_update, user_delete, user_get, user_get_all, user_scan, email_already_exists,
}
use dataset_service.Exec.{Result, ok, err, Exec, pure}
use dataset_service.Entities.{User}
use dataset_service.Postgres.Statements.{
  Value, uint, int, text, flag, instant, DbError, no_rows, pg_error, failure, cause, Outcome, done,
  failed, Pool, Statement, select, insert, Select, Insert, select_from, insert_returning_id,
  update_where, delete_where, eq,
}
use dataset_service.Postgres.Methods.{
  has_code, pointer, scan_error, scan_row, find_one, find_many, change_rows, insert_row,
}
use dataset_service.Repositories.{UserRepository}

-- `row.toEntity()` after the `Scan` of a row.
abbrev pub scan_user : List Value → Option User
scan_user
      (uint id
        ∷ text username
        ∷ text email
        ∷ text password
        ∷ instant registration_date
        ∷ text country
        ∷ flag is_blocked
        ∷ text role
        ∷ []) =
    some (record {
      id = id;
      username = username;
      email = email;
      password = password;
      registration_date = registration_date;
      country = country;
      is_blocked = is_blocked;
      role = role;
    })
scan_user _ = none

abbrev pub user_columns : List String
user_columns =
    "id" ∷ "username" ∷ "email" ∷ "password" ∷ "registration_date" ∷ "country" ∷ "is_blocked"
    ∷ "role" ∷ []

abbrev pub select_users : String → Value → Select
select_users column value = select_from user_columns "users" (eq column value)

abbrev pub insert_user : User → Insert
insert_user u =
    insert_returning_id "users"
      ("username" ∷ "email" ∷ "password" ∷ "registration_date" ∷ "country" ∷ "is_blocked" ∷ "role"
        ∷ [])
      (text u.username
        ∷ text u.email
        ∷ text u.password
        ∷ instant u.registration_date
        ∷ text u.country
        ∷ flag u.is_blocked
        ∷ text u.role
        ∷ [])

module _ {S : Type 0} (pool : Pool S) where
  -- A second user with one address breaks the rule UNIQUE, whose code is 23505.
  abbrev pub create_failure : DbError → Error
  create_failure e = if has_code "23505" e then repo email_already_exists else repo user_create

  unfoldable pub create : User → Exec S User
  create u s =
      insert_row pool (insert_user u) (repo user_query_build) create_failure
        (λ id. record u { id = id }) s

  unfoldable pub update : User → Exec S Unit
  update u s =
      change_rows pool
        (Statement.update (
          update_where "users"
            (("username", text u.username)
              ∷ ("email", text u.email)
              ∷ ("password", text u.password)
              ∷ ("country", text u.country)
              ∷ ("is_blocked", flag u.is_blocked)
              ∷ ("role", text u.role)
              ∷ [])
            (eq "id" (uint u.id))))
        (repo user_query_build) (λ _. repo user_update) (repo user_not_found) s

  unfoldable pub delete : ℕ → Exec S Unit
  delete id s =
      change_rows pool (Statement.delete (delete_where "users" (eq "id" (uint id))))
        (repo user_query_build) (λ _. repo user_delete) (repo user_not_found) s

  abbrev find_user : String → Value → S → Result (Option User)
  find_user column value s =
      find_one (λ vs. pointer (scan_user vs)) pool (select_users column value)
        (repo user_query_build) (err (repo user_not_found)) (λ _. repo user_get) s

  unfoldable pub find_by_id : ℕ → S → Result (Option User)
  find_by_id id s = find_user "id" (uint id) s

  unfoldable pub find_by_email : Text → S → Result (Option User)
  find_by_email email s = find_user "email" (text email) s

  unfoldable pub find_all : S → Result (List User)
  find_all s =
      find_many scan_user pool
        (record (select_from user_columns "users" []) { order_by = some "registration_date DESC" })
        (repo user_query_build) (λ _. repo user_get_all) (λ _. repo user_scan)
        (λ _. repo user_get_all) s

  -- `UserRepo` as a `UserRepository`.
  abbrev pub user_repo : UserRepository S
  user_repo = record {
    create = create;
    update = update;
    delete = delete;
    find_by_id = find_by_id;
    find_all = find_all;
    find_by_email = find_by_email;
  }
