-- ===== src/Entities.antt =====
-- The package internal/entities: the records of the program and the functions that make them.
-- A time that such a function takes from the clock comes as the argument `now`. The `ID` of a new
-- record is 0 until a repository sets it.
use dataset_service.Base.{ℕ, Bool, false, ◌||◌, ltb, ◌==◌, if◌then◌else◌, [], ◌∷◌}
use dataset_service.Base.Time.{ℤ, pos, negsuc}
use dataset_service.Text.{Text, codes, is_empty, text_eq, trim_space, to_lower, len}
use dataset_service.Errors.{
  EntityError, entity, message, empty_category_name, category_name_too_long, empty_dataset_name,
  dataset_name_too_long, invalid_owner_id, invalid_category_id, invalid_created_at,
  empty_version_number, version_number_too_long, empty_filepath, invalid_dataset_id,
  upload_date_in_future, empty_format, zero_size, missing_version_id, missing_user_id,
  missing_dataset_id, empty_message, notification_in_future, empty_username, empty_email,
  empty_password, invalid_role, invalid_registration_date,
}
use dataset_service.Exec.{Result, ok, err}

-- The three values that `AccessStatus` takes in the program.
pub data AccessStatus : Type 0 where
  pending approved denied : AccessStatus

pub record AccessRequest : Type 0 where
  pub id : ℕ
  pub dataset_id : ℕ
  pub user_id : ℕ
  pub status : AccessStatus
  pub created_at : ℕ

unfoldable pub new_access_request : ℕ → ℕ → ℕ → Result AccessRequest
new_access_request dataset_id user_id now =
    if dataset_id == 0 || user_id == 0
    then err (message "invalid dataset or user ID" (dataset_id ∷ user_id ∷ []))
    else ok (record {
      id = 0;
      dataset_id = dataset_id;
      user_id = user_id;
      status = pending;
      created_at = now;
    })

pub record Category : Type 0 where
  pub id : ℕ
  pub name : Text
  pub description : Text

unfoldable pub new_category : Text → Text → Result Category
new_category raw_name description =
    let name = trim_space raw_name in
    if is_empty name
    then err (entity empty_category_name)
    else if ltb 50 (len name)
    then err (entity category_name_too_long)
    else ok (record { id = 0; name = name; description = trim_space description })

pub record Dataset : Type 0 where
  pub id : ℕ
  pub name : Text
  pub description : Text
  pub owner_id : ℕ
  pub created_at : ℕ
  pub category_id : ℕ
  pub is_public : Bool

unfoldable pub new_dataset : Text → Text → ℕ → ℕ → Bool → ℕ → ℕ → Result Dataset
new_dataset raw_name description owner_id category_id is_public created_at now =
    let name = trim_space raw_name in
    if is_empty name
    then err (entity empty_dataset_name)
    else if ltb 120 (len name)
    then err (entity dataset_name_too_long)
    else if owner_id == 0
    then err (entity invalid_owner_id)
    else if category_id == 0
    then err (entity invalid_category_id)
    else if ltb now created_at
    then err (entity invalid_created_at)
    else ok (record {
      id = 0;
      name = name;
      description = trim_space description;
      owner_id = owner_id;
      created_at = created_at;
      category_id = category_id;
      is_public = is_public;
    })

pub record DatasetVersion : Type 0 where
  pub id : ℕ
  pub number : Text
  pub upload_date : ℕ
  pub filepath : Text
  pub dataset_id : ℕ
  pub change_log : Text

unfoldable pub new_dataset_version : Text → Text → Text → ℕ → ℕ → ℕ → Result DatasetVersion
new_dataset_version raw_number raw_filepath raw_changelog dataset_id upload_date now =
    let number = trim_space raw_number in
    let filepath = trim_space raw_filepath in
    if is_empty number
    then err (entity empty_version_number)
    else if ltb 20 (len number)
    then err (entity version_number_too_long)
    else if is_empty filepath
    then err (entity empty_filepath)
    else if dataset_id == 0
    then err (entity invalid_dataset_id)
    else if ltb now upload_date
    then err (entity upload_date_in_future)
    else ok (record {
      id = 0;
      number = number;
      upload_date = upload_date;
      filepath = filepath;
      dataset_id = dataset_id;
      change_log = trim_space raw_changelog;
    })

pub record Metadata : Type 0 where
  pub id : ℕ
  pub format : Text
  pub size : ℕ
  pub tags : Text
  pub dataset_version_id : ℕ

unfoldable pub new_metadata : Text → Text → ℕ → ℕ → Result Metadata
new_metadata raw_format raw_tags size version_id =
    let format = trim_space raw_format in
    if is_empty format
    then err (entity empty_format)
    else if size == 0
    then err (entity zero_size)
    else if version_id == 0
    then err (entity missing_version_id)
    else ok (record {
      id = 0;
      format = format;
      size = size;
      tags = trim_space raw_tags;
      dataset_version_id = version_id;
    })

pub record Notification : Type 0 where
  pub id : ℕ
  pub user_id : ℕ
  pub dataset_id : ℕ
  pub message : Text
  pub is_read : Bool
  pub created_at : ℕ

unfoldable pub new_notification : ℕ → ℕ → Text → ℕ → ℕ → Result Notification
new_notification user_id dataset_id raw_message created_at now =
    let message = trim_space raw_message in
    if user_id == 0
    then err (entity missing_user_id)
    else if dataset_id == 0
    then err (entity missing_dataset_id)
    else if is_empty message
    then err (entity empty_message)
    else if ltb now created_at
    then err (entity notification_in_future)
    else ok (record {
      id = 0;
      user_id = user_id;
      dataset_id = dataset_id;
      message = message;
      is_read = false;
      created_at = created_at;
    })

pub record Review : Type 0 where
  pub id : ℕ
  pub user_id : ℕ
  pub dataset_id : ℕ
  pub rating : ℤ  -- int8
  pub created_at : ℕ
  pub text : Text

-- The keys of `validRatings`.
abbrev pub is_valid_rating : ℤ → Bool
is_valid_rating (pos r) = r == 1 || r == 2 || r == 3 || r == 4 || r == 5
is_valid_rating (negsuc r) = false

unfoldable pub new_review : ℕ → ℕ → ℤ → ℕ → Text → ℕ → Result Review
new_review user_id dataset_id rating created_at text now =
    if user_id == 0
    then err (entity missing_user_id)
    else if dataset_id == 0
    then err (entity missing_dataset_id)
    else if is_valid_rating rating
    then (if ltb now created_at
        then err (entity invalid_created_at)
        else ok (record {
          id = 0;
          user_id = user_id;
          dataset_id = dataset_id;
          rating = rating;
          created_at = created_at;
          text = trim_space text;
        }))
    else err (entity EntityError.invalid_rating)

pub record Subscription : Type 0 where
  pub id : ℕ
  pub user_id : ℕ
  pub dataset_id : ℕ
  pub created_at : ℕ

unfoldable pub new_subscription : ℕ → ℕ → ℕ → ℕ → Result Subscription
new_subscription user_id dataset_id created_at now =
    if user_id == 0
    then err (entity missing_user_id)
    else if dataset_id == 0
    then err (entity invalid_dataset_id)
    else if ltb now created_at
    then err (entity invalid_created_at)
    else ok (record { id = 0; user_id = user_id; dataset_id = dataset_id; created_at = created_at })

pub record User : Type 0 where
  pub id : ℕ
  pub username : Text
  pub email : Text
  pub password : Text
  pub registration_date : ℕ
  pub country : Text
  pub is_blocked : Bool
  pub role : Text

abbrev pub role_guest : Text
role_guest = codes "guest"

abbrev pub role_user : Text
role_user = codes "user"

abbrev pub role_admin : Text
role_admin = codes "admin"

-- The keys of `validRoles`.
abbrev pub is_valid_role : Text → Bool
is_valid_role role = text_eq role role_guest || text_eq role role_user || text_eq role role_admin

unfoldable pub new_user : Text → Text → Text → Text → Text → ℕ → ℕ → Result User
new_user raw_username raw_email raw_password country raw_role registration_date now =
    let username = trim_space raw_username in
    let email = trim_space raw_email in
    let password = trim_space raw_password in
    let role = to_lower (trim_space raw_role) in
    if is_empty username
    then err (entity empty_username)
    else if is_empty email
    then err (entity empty_email)
    else if is_empty password
    then err (entity empty_password)
    else if is_valid_role role
    then (if ltb now registration_date
        then err (entity invalid_registration_date)
        else ok (record {
          id = 0;
          username = username;
          email = email;
          password = password;
          registration_date = registration_date;
          country = trim_space country;
          is_blocked = false;
          role = role;
        }))
    else err (entity invalid_role)
