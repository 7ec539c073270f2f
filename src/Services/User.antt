-- ===== src/Services/User.antt =====
-- internal/services/user_service.go and user_service_impl.go: accounts and passwords.
pub mod Accounts
mod Tests
use dataset_service.Base.{ℕ, Bool, true, false, Option, none, some, List, ◌||◌, if◌then◌else◌}
use dataset_service.Text.{Text, text_eq, is_empty}
use dataset_service.Errors.{
  Error, service, wrap, driver, is_repo, RepoError, user_exists, invalid_credentials, user_blocked,
  ServiceError,
}
use dataset_service.Exec.{
  Result, ok, err, Exec, pure, raise, read, lift, map_error, on_error, ◌>>=◌, ◌>>◌,
}
use dataset_service.Entities.{User, new_user}
use dataset_service.Repositories.{UserRepository}

-- `RegisterUserCmd`
pub record RegisterUser : Type 0 where
  pub username : Text
  pub email : Text
  pub password : Text
  pub country : Text
  pub role : Text

-- `AuthenticateUserCmd`
pub record AuthenticateUser : Type 0 where
  pub email : Text
  pub password : Text

-- `UpdateUserCmd`
pub record UpdateUser : Type 0 where
  pub id : ℕ
  pub username : Text
  pub email : Text
  pub password : Text
  pub country : Text
  pub is_blocked : Bool
  pub role : Text

-- The package bcrypt: hashing with a salt that it draws, and the comparison of a hash with a
-- password.
pub record Bcrypt : Type 0 where
  pub generate : Text → ℕ → Result Text
  pub matches : Text → Text → Bool

module _ {S : Type 0} (bcrypt : Bcrypt) (repo : UserRepository S) where
  -- The search for a user by an address where an address that is not there is no error.
  abbrev find_existing : Error → Result (Option User) → Result (Option User)
  find_existing failure (ok found) = ok found
  find_existing failure (err e) =
      if is_repo RepoError.user_not_found e then ok none else err failure

  abbrev refuse_existing : Option User → Exec S Unit
  refuse_existing none = pure tt
  refuse_existing (some user) = raise (service user_exists)

  abbrev create_error : Error → Error
  create_error e =
      if is_repo RepoError.email_already_exists e
      then service user_exists
      else wrap "create user: %w" e

  -- The error of the search wrapped, unless it says that the address is not there.
  abbrev check_email : (Error → Error) → Text → S → Result (Option User)
  check_email wrapped email s = elim (repo.find_by_email email s) [
    | ok found ↦ ok found
    | err e ↦ find_existing (wrapped e) (err e)
  ]

  -- `Register`, with two readings of the clock and the salt that bcrypt draws.
  unfoldable pub register : RegisterUser → ℕ → ℕ → ℕ → Exec S ℕ
  register cmd registered_at now salt = do
    user ← lift (
        map_error (wrap "invalid user data: %w")
          (new_user cmd.username cmd.email cmd.password cmd.country cmd.role registered_at now))
    existing ← read (check_email (wrap "check existing user: %w") user.email)
    refuse_existing existing
    hashed ← lift (map_error (wrap "hash password: %w") (bcrypt.generate user.password salt))
    created ← on_error create_error (repo.create (record user { password = hashed }))
    pure created.id

  abbrev authenticate_error : Error → Error
  authenticate_error e =
      if is_repo RepoError.user_not_found e
      then service invalid_credentials
      else wrap "fetch user: %w" e

  -- A user that is not there without an error is used through a nil pointer.
  abbrev check_password : Text → Option User → Result User
  check_password password none = err (driver 0)
  check_password password (some user) =
      if user.is_blocked
      then err (service user_blocked)
      else if bcrypt.matches user.password password
      then ok user
      else err (service invalid_credentials)

  -- `Authenticate`
  unfoldable pub authenticate : AuthenticateUser → S → Result User
  authenticate cmd s = elim (map_error authenticate_error (repo.find_by_email cmd.email s)) [
    | err e ↦ err e
    | ok found ↦ check_password cmd.password found
  ]

  abbrev present : Option User → Result User
  present none = err (service ServiceError.user_not_found)
  present (some user) = ok user

  -- `loadUserForUpdate`
  abbrev load_user_for_update : ℕ → Exec S User
  load_user_for_update id = do
    found ← on_error (wrap "fetch user: %w") (read (repo.find_by_id id))
    lift (present found)

  -- `updateEmailIfNeeded`
  abbrev update_email_if_needed : User → Text → Exec S User
  update_email_if_needed user new_email s =
      if is_empty new_email || text_eq new_email user.email
      then pure user s
      else (do
        dup ← read (check_email (wrap "check email duplicate: %w") new_email)
        refuse_existing dup
        pure (record user { email = new_email }))
          s

  -- `updatePassword`, for a password that is not empty
  abbrev update_password : User → Text → ℕ → Result User
  update_password user password salt =
      if is_empty password then ok user else elim (bcrypt.generate password salt) [
        | err e ↦ err (wrap "hash new password: %w" e)
        | ok hashed ↦ ok (record user { password = hashed })
      ]

  -- `applyUserUpdates`; the changed user is returned.
  abbrev apply_user_updates : User → UpdateUser → ℕ → Exec S User
  apply_user_updates user cmd salt = do
    let named = if is_empty cmd.username then user else record user { username = cmd.username }
    reachable ← update_email_if_needed named cmd.email
    secured ← lift (update_password reachable cmd.password salt)
    pure (record secured { country = cmd.country; is_blocked = cmd.is_blocked; role = cmd.role })

  abbrev not_found_or : (Error → Error) → Error → Error
  not_found_or wrapped e =
      if is_repo RepoError.user_not_found e then service ServiceError.user_not_found else wrapped e

  -- `UpdateUser`
  unfoldable pub update_user : UpdateUser → ℕ → Exec S Unit
  update_user cmd salt = do
    user ← load_user_for_update cmd.id
    changed ← apply_user_updates user cmd salt
    on_error (not_found_or (wrap "update user: %w")) (repo.update changed)

  -- `DeleteUser`
  unfoldable pub delete_user : ℕ → Exec S Unit
  delete_user id = on_error (not_found_or (wrap "delete user: %w")) (repo.delete id)

  -- `GetUserByID`
  unfoldable pub get_user_by_id : ℕ → Exec S User
  get_user_by_id id = do
    found ← on_error (not_found_or (wrap "fetch user: %w")) (read (repo.find_by_id id))
    lift (present found)

  -- `GetUserByEmail`
  unfoldable pub get_user_by_email : Text → Exec S User
  get_user_by_email email = do
    found ← on_error (not_found_or (wrap "fetch user: %w")) (read (repo.find_by_email email))
    lift (present found)

  -- `ListAllUsers`
  unfoldable pub list_all_users : S → Result (List User)
  list_all_users s = map_error (wrap "list all users: %w") (repo.find_all s)
