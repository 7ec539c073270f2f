-- ===== src/Services/User/Tests.antt =====
-- user_service_impl.go: the theorems at users kept by their addresses and at a hash that puts the
-- salt before the password.
use dataset_service.Base.{
  ℕ, ◌≡◌, refl, Bool, true, false, Option, none, some, [], ◌∷◌, arith, if◌then◌else◌,
}
use dataset_service.Text.{
  Text, codes, text_eq, text_eq_iff, is_space, trim_left, trim_right, trim_space, to_lower,
}
use dataset_service.Errors.{Error, repo, service, driver, is_repo, RepoError, invalid_credentials}
use dataset_service.Exec.{Result, ok, err, raise}
use dataset_service.Entities.{User, new_user, role_user}
use dataset_service.Repositories.{UserRepository}
use dataset_service.Services.User.{RegisterUser, Bcrypt, register, authenticate}
use dataset_service.Services.User.Accounts.{
  LawfulUsers, LawfulBcrypt, IsRegistered, register-IsRegistered, authenticate-register,
  authenticate_as_given,
}

abbrev Users : Type 0
Users = Text → Option User

abbrev search : Option User → Result (Option User)
search none = err (repo RepoError.user_not_found)
search (some user) = ok (some user)

abbrev with_user : User → Users → Users
with_user user s email = if text_eq user.email email then some user else s email

abbrev users : UserRepository Users
users = record {
  create = λ user s. (ok (record user { id = 1 }), with_user (record user { id = 1 }) s);
  update = λ user. raise (driver 1);
  delete = λ id. raise (driver 1);
  find_by_id = λ id s. ok none;
  find_all = λ s. ok [];
  find_by_email = λ email s. search (s email);
}

found_user : (held user : Option User) → search held ≡ ok user → held ≡ user
found_user none user h = absurd (ground arith)
found_user (some other) user h = ground arith

no_user : (held : Option User) (e : Error) → search held ≡ err e → held ≡ none
no_user none e h = refl
no_user (some other) e h = absurd (ground arith)

created_user :
    (user new : User) (s : Users) (email : Text)
    → Path (Result User) (ok (record user { id = 1 })) (ok new)
    → (new ≡ record user { id = new.id })
      × (with_user (record user { id = 1 }) s email
          ≡ (if text_eq user.email email then some new else s email))
created_user user new s email h = ground arith

abbrev laws : LawfulUsers users
laws = record {
  stored_date = λ t. t;
  by_email = λ s. s;
  found = λ email s user h. found_user (s email) user h;
  missing = λ email s e h is. no_user (s email) e h;
  created = λ user new s h.
      ((created_user user new s [] h).0, λ email. (created_user user new s email h).1);
}

abbrev matches : Text → Text → Bool
matches [] password = false
matches (salt ∷ stored) password = text_eq stored password

abbrev bcrypt : Bcrypt
bcrypt = record { generate = λ password salt. ok (salt ∷ password); matches = matches }

matches-salted :
    (password hashed : Text) (salt : ℕ)
    → Path (Result Text) (ok (salt ∷ password)) (ok hashed)
    → matches hashed password ≡ true
matches-salted password [] salt h = absurd (ground arith)
matches-salted password (c ∷ stored) salt h = ground (arith, text_eq_iff stored password)

abbrev crypt : LawfulBcrypt bcrypt
crypt = record { matches-generate = matches-salted }

abbrev ann : RegisterUser
ann = record {
  username = codes "ann";
  email = codes "a@x";
  password = codes " pw";
  country = [];
  role = codes "User";
}

abbrev nobody : Users
nobody email = none

-- The account that is created.
abbrev account : User
account = record {
  id = 1;
  username = codes "ann";
  email = codes "a@x";
  password = 9 ∷ codes "pw";
  registration_date = 1;
  country = [];
  is_blocked = false;
  role = role_user;
}

register-IsRegistered_example :
    IsRegistered bcrypt users laws ann 9 1 nobody (register bcrypt users ann 1 2 9 nobody).1
unfolding register new_user is_space trim_left trim_right trim_space to_lower text_eq is_repo
register-IsRegistered_example = register-IsRegistered bcrypt users laws ann 1 2 9 nobody 1 refl

authenticate-register_example :
    (user : User) × (authenticate bcrypt users
        (record { email = trim_space (codes "a@x"); password = trim_space (codes " pw") })
        (register bcrypt users ann 1 2 9 nobody).1
      ≡ ok user)
    × (user.id ≡ 1)
unfolding register new_user is_space trim_left trim_right trim_space to_lower text_eq is_repo
authenticate-register_example =
    authenticate-register bcrypt users laws ann 1 2 9 nobody 1 crypt (some account) refl refl

-- The password was registered with a space before it, and is given in the same way.
authenticate_as_given_example :
    (user : User) × (user.id ≡ 1)
    × (Path (Result Text) (ok (9 ∷ trim_space (codes " pw"))) (ok user.password))
    × (authenticate bcrypt users
          (record { email = trim_space (codes "a@x"); password = codes " pw" })
          (register bcrypt users ann 1 2 9 nobody).1
        ≡ (if bcrypt.matches user.password (codes " pw")
            then ok user
            else err (service invalid_credentials)))
unfolding register new_user is_space trim_left trim_right trim_space to_lower text_eq is_repo
authenticate_as_given_example =
    authenticate_as_given bcrypt users laws ann 1 2 9 nobody 1 (some account) (codes " pw") refl
      refl
