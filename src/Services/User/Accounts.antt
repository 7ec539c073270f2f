-- ===== src/Services/User/Accounts.antt =====
-- user_service_impl.go: who can sign in after a registration.
use dataset_service.Base.{ℕ, ◌≡◌, inl, inr, true, false, Option, none, some, arith, if◌then◌else◌}
use dataset_service.Text.{Text, text_eq, text_eq_iff, trim_space}
use dataset_service.Errors.{Error, service, is_repo, wrap, RepoError, invalid_credentials}
use dataset_service.Exec.{ok, err, Result-cases}
use dataset_service.Entities.{User, new_user, is_valid_role}
use dataset_service.Repositories.{UserRepository}
use dataset_service.Services.User.{RegisterUser, Bcrypt, check_email, register, authenticate}

-- The repository shows the users by their addresses: what a search answers is right, and a user
-- who is created stands under the own address, with the date at the precision of the database.
pub record LawfulUsers {S : Type 0} (r : UserRepository S) : Type 0 where
  pub stored_date : ℕ → ℕ
  pub by_email : S → Text → Option User
  pub found :
      (email : Text) (s : S) (user : Option User)
      → r.find_by_email email s ≡ ok user
      → by_email s email ≡ user
  pub missing :
      (email : Text) (s : S) (e : Error)
      → r.find_by_email email s ≡ err e
      → is_repo RepoError.user_not_found e ≡ true
      → by_email s email ≡ none
  pub created :
      (user new : User) (s : S)
      → (r.create user s).0 ≡ ok new
      → (new ≡ record user { id = new.id })
        × ((email : Text)
            → by_email (r.create user s).1 email ≡ (
                if text_eq user.email email
                then some (record new { registration_date = stored_date new.registration_date })
                else by_email s email))

-- What bcrypt documents: a hash matches the password that it was made from.
pub record LawfulBcrypt (b : Bcrypt) : Type 0 where
  pub matches-generate :
      (password hashed : Text) (salt : ℕ)
      → b.generate password salt ≡ ok hashed
      → b.matches hashed password ≡ true

new_user-fields :
    (username email password country role : Text) (at now : ℕ) (user : User)
    → new_user username email password country role at now ≡ ok user
    → (user.email ≡ trim_space email)
      × (user.password ≡ trim_space password)
      × (user.is_blocked ≡ false)
      × (is_valid_role user.role ≡ true)
unfolding new_user
new_user-fields username email password country role at now user h = ground arith

module _ {S : Type 0} (bcrypt : Bcrypt) (repo : UserRepository S) (laws : LawfulUsers repo) where
  open laws use {by_email}

  -- A search that reports nobody was right.
  check_email-none :
      (wrapped : Error → Error) (email : Text) (s : S)
      → check_email bcrypt repo wrapped email s ≡ ok none
      → by_email s email ≡ none
  check_email-none wrapped email s h = elim (Result-cases (repo.find_by_email email s)) [
    | inl (user, answer) ↦ laws.found email s none (ground arith)
    | inr (e, failed) ↦ laws.missing email s e failed (ground arith)
  ]

  -- The account that a registration creates.
  pub record IsRegistered (cmd : RegisterUser) (salt id : ℕ) (s t : S) : Type 0 where
    pub user : User
    pub numbered : user.id ≡ id
    pub at_email : user.email ≡ trim_space cmd.email
    pub hashed : bcrypt.generate (trim_space cmd.password) salt ≡ ok user.password
    pub unblocked : user.is_blocked ≡ false
    pub with_role : is_valid_role user.role ≡ true
    pub was_free : by_email s (trim_space cmd.email) ≡ none
    pub rows :
        (email : Text)
        → by_email t email
          ≡ (if text_eq (trim_space cmd.email) email then some user else by_email s email)

  module _ (cmd : RegisterUser) (registered_at now salt : ℕ) (s : S) (id : ℕ) where
    -- A registration that succeeds was made with an address that no user had after trimming. It
    -- adds one user under that address, with the returned number, a hash of the trimmed password,
    -- a known role and no block, and changes no other address.
    pub register-IsRegistered :
        (register bcrypt repo cmd registered_at now salt s).0 ≡ ok id
        → IsRegistered cmd salt id s (register bcrypt repo cmd registered_at now salt s).1
    unfolding register
    register-IsRegistered done =
        elim (Result-cases
          (new_user cmd.username cmd.email cmd.password cmd.country cmd.role registered_at now)) [
            | inr (e, invalid) ↦ absurd (ground arith)
            | inl (user, built) ↦
                elim (Result-cases
                  (check_email bcrypt repo (wrap "check existing user: %w") user.email s)) [
                    | inr (e, failed) ↦ absurd (ground arith)
                    | inl (some other, taken) ↦ absurd (ground arith)
                    | inl (none, free) ↦ elim (Result-cases (bcrypt.generate user.password salt)) [
                      | inr (e, failed) ↦ absurd (ground arith)
                      | inl (hashed, made) ↦
                          elim (Result-cases
                            (repo.create (record user { password = hashed }) s).0) [
                              | inr (e, refused) ↦ absurd (ground arith)
                              | inl (new, stored) ↦
                                  let (email, password, unblocked, role) =
                                    new_user-fields cmd.username cmd.email cmd.password cmd.country
                                      cmd.role registered_at now user built in
                                  let (same, rows) =
                                    laws.created (record user { password = hashed }) new s stored in
                                  record {
                                    user = record new {
                                      registration_date = laws.stored_date new.registration_date;
                                    };
                                    numbered = ground arith;
                                    at_email = ground arith;
                                    hashed = ground arith;
                                    unblocked = ground arith;
                                    with_role = ground arith;
                                    was_free = ground (
                                      arith,
                                      email,
                                      check_email-none (wrap "check existing user: %w") user.email s
                                          free,
                                    );
                                    rows = λ other. ground (arith, rows other, email);
                                  }
                            ]
                    ]
                  ]
          ]

    -- After a registration that succeeds, whether a password is accepted with the trimmed address is
    -- what bcrypt says of that password as it is given, with its outer space, and of a hash of the
    -- trimmed password of the registration, if the search for the address answers without an error;
    -- a password that does not match is answered as invalid credentials.
    pub authenticate_as_given :
        (answer : Option User) (given : Text)
        → let t = (register bcrypt repo cmd registered_at now salt s).1 in
          (register bcrypt repo cmd registered_at now salt s).0 ≡ ok id
          → repo.find_by_email (trim_space cmd.email) t ≡ ok answer
          → (user : User) × (user.id ≡ id)
            × (bcrypt.generate (trim_space cmd.password) salt ≡ ok user.password)
            × (authenticate bcrypt repo
                  (record { email = trim_space cmd.email; password = given })
                  t
                ≡ (if bcrypt.matches user.password given
                    then ok user
                    else err (service invalid_credentials)))
    unfolding authenticate
    authenticate_as_given answer given done found =
        let t = (register bcrypt repo cmd registered_at now salt s).1 in
        let account = register-IsRegistered done in
        let user = account.user in
        let there = laws.found (trim_space cmd.email) t answer found in
        let row = account.rows (trim_space cmd.email) in
        (
          user,
          account.numbered,
          account.hashed,
          ground (
            arith,
            found,
            there,
            row,
            account.unblocked,
            text_eq_iff (trim_space cmd.email) (trim_space cmd.email),
          ),
        )

    module _ (crypt : LawfulBcrypt bcrypt) where
      -- After a registration that succeeds, the user signs in with the trimmed address and the
      -- trimmed password, if the search for the address answers without an error.
      pub authenticate-register :
          (answer : Option User)
          → let t = (register bcrypt repo cmd registered_at now salt s).1 in
            (register bcrypt repo cmd registered_at now salt s).0 ≡ ok id
            → repo.find_by_email (trim_space cmd.email) t ≡ ok answer
            → (user : User) × (authenticate bcrypt repo
                  (record { email = trim_space cmd.email; password = trim_space cmd.password })
                  t
                ≡ ok user)
              × (user.id ≡ id)
      unfolding authenticate
      authenticate-register answer done found =
          let t = (register bcrypt repo cmd registered_at now salt s).1 in
          let account = register-IsRegistered done in
          let user = account.user in
          let there = laws.found (trim_space cmd.email) t answer found in
          let row = account.rows (trim_space cmd.email) in
          let right =
            crypt.matches-generate (trim_space cmd.password) user.password salt account.hashed in
          (
            user,
            ground (
              arith,
              found,
              there,
              row,
              right,
              account.unblocked,
              text_eq_iff (trim_space cmd.email) (trim_space cmd.email),
            ),
            account.numbered,
          )
