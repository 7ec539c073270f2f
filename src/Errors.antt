-- ===== src/Errors.antt =====
-- The error values: internal/entities/errors.go, internal/repositories/errors.go,
-- internal/services/errors.go, and the errors that `fmt.Errorf` builds from them.
use dataset_service.Base.{ℕ, String, Bool, false, List, ◌==◌}
use dataset_service.Text.{Text}

-- internal/entities/errors.go
pub data EntityError : Type 0 where
  empty_category_name category_name_too_long category_name_invalid_chars : EntityError
  empty_dataset_name dataset_name_too_long invalid_owner_id invalid_category_id : EntityError
  invalid_created_at : EntityError
  empty_version_number version_number_too_long empty_filepath invalid_dataset_id : EntityError
  upload_date_in_future : EntityError
  empty_format zero_size missing_version_id : EntityError
  missing_user_id missing_dataset_id empty_message notification_in_future : EntityError
  invalid_rating : EntityError
  invalid_subscription_date : EntityError
  empty_username empty_email empty_password invalid_role invalid_registration_date : EntityError

-- internal/repositories/errors.go
pub data RepoError : Type 0 where
  category_query_build dataset_query_build user_query_build request_query_build : RepoError
  dataset_not_found dataset_create dataset_update dataset_delete : RepoError
  dataset_scan dataset_list : RepoError
  version_query_build version_create version_update version_delete : RepoError
  version_scan version_list version_not_found : RepoError
  metadata_query_build metadata_create metadata_update metadata_delete : RepoError
  metadata_scan metadata_not_found metadata_list : RepoError
  notification_query_build notification_create notification_not_found : RepoError
  notification_delete_fail notification_update_fail : RepoError
  notification_scan_row notification_iterate_rows : RepoError
  review_not_found : RepoError
  already_subscribed subscription_not_found : RepoError
  user_not_found user_create user_update user_delete user_get user_get_all : RepoError
  user_scan email_already_exists : RepoError
  category_not_found category_not_empty category_already_exists category_create : RepoError
  category_update category_delete category_find category_scan category_iterate : RepoError
  request_not_found request_scan : RepoError

-- internal/services/errors.go
pub data ServiceError : Type 0 where
  nil_review invalid_rating review_not_found : ServiceError
  user_exists invalid_password user_not_found nil_user invalid_credentials : ServiceError
  user_blocked invalid_two_fa_code two_fa_expired two_fa_challenge_not_found : ServiceError
  two_fa_debug_disabled : ServiceError
  nil_dataset version_fail invalid_metadata dataset_not_found version_not_found : ServiceError
  nil_category category_exists category_not_empty category_not_found category_create : ServiceError
  notification_not_found no_subscribers : ServiceError
  already_subscribed not_subscribed : ServiceError
  token_not_found token_invalid : ServiceError
  request_not_found bad_request request_already_exists request_forbidden : ServiceError
  external_service_unavailable external_bad_request : ServiceError

-- An `error` that is not nil. `wrap` is `fmt.Errorf("text: %w", err)`; `annotate` is
-- `fmt.Errorf("%w: %s", err, detail)`; `message` is an error that has only a text and the numbers
-- printed in it; `driver` is an error of a library outside the repository, such as the SQL driver;
-- `bad_input` is a `dto.BadRequestError` of the HTTP layer with its message.
pub data Error : Type 0 where
  entity : EntityError → Error
  repo : RepoError → Error
  service : ServiceError → Error
  wrap : String → Error → Error
  annotate : Error → Error → Error
  message : String → List ℕ → Error
  driver : ℕ → Error
  bad_input : Text → Error

-- The place of a repository error in its declaration, by which it is compared.
repo_code : RepoError → ℕ
repo_code category_query_build = 0
repo_code dataset_query_build = 1
repo_code user_query_build = 2
repo_code request_query_build = 3
repo_code dataset_not_found = 4
repo_code dataset_create = 5
repo_code dataset_update = 6
repo_code dataset_delete = 7
repo_code dataset_scan = 8
repo_code dataset_list = 9
repo_code version_query_build = 10
repo_code version_create = 11
repo_code version_update = 12
repo_code version_delete = 13
repo_code version_scan = 14
repo_code version_list = 15
repo_code version_not_found = 16
repo_code metadata_query_build = 17
repo_code metadata_create = 18
repo_code metadata_update = 19
repo_code metadata_delete = 20
repo_code metadata_scan = 21
repo_code metadata_not_found = 22
repo_code metadata_list = 23
repo_code notification_query_build = 24
repo_code notification_create = 25
repo_code notification_not_found = 26
repo_code notification_delete_fail = 27
repo_code notification_update_fail = 28
repo_code notification_scan_row = 29
repo_code notification_iterate_rows = 30
repo_code review_not_found = 31
repo_code already_subscribed = 32
repo_code subscription_not_found = 33
repo_code user_not_found = 34
repo_code user_create = 35
repo_code user_update = 36
repo_code user_delete = 37
repo_code user_get = 38
repo_code user_get_all = 39
repo_code user_scan = 40
repo_code email_already_exists = 41
repo_code category_not_found = 42
repo_code category_not_empty = 43
repo_code category_already_exists = 44
repo_code category_create = 45
repo_code category_update = 46
repo_code category_delete = 47
repo_code category_find = 48
repo_code category_scan = 49
repo_code category_iterate = 50
repo_code request_not_found = 51
repo_code request_scan = 52

-- `err == target` for a repository's sentinel error.
unfoldable pub equals_repo : RepoError → Error → Bool
unfolding repo_code
equals_repo target (repo e) = repo_code e == repo_code target
equals_repo target _ = false

-- `errors.Is(err, target)`, which looks through every `%w`.
unfoldable pub is_repo : RepoError → Error → Bool
unfolding repo_code
is_repo target (repo e) = repo_code e == repo_code target
is_repo target (wrap s e) = is_repo target e
is_repo target (annotate e d) = is_repo target e
is_repo target _ = false
