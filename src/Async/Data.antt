-- ===== src/Async/Data.antt =====
-- cmd/data/main.go: the process that runs the commands of messages on the repositories.
pub mod Commands
pub mod Reviews
pub mod Queries
pub mod Process
pub mod Replies
pub mod Updates
pub mod Quiet
pub mod Unrelated
pub mod Writes
use dataset_service.Base.{
  ℕ, String, Bool, true, false, not, ◌&&◌, Option, none, some, List, [], ◌∷◌, ◌==◌, if◌then◌else◌,
}
use dataset_service.Errors.{Error, message}
use dataset_service.Exec.{Result, ok, err}
use dataset_service.Repositories.{
  AccessRequestRepository, CategoryRepository, DatasetRepository, DatasetVersionRepository,
  NotificationRepository, ReviewRepository, SubscriptionRepository, UserRepository,
}
use dataset_service.Postgres.Statements.{Pool}
use dataset_service.Postgres.Users.{user_repo}
use dataset_service.Postgres.Requests.{request_repo}
use dataset_service.Postgres.Subscriptions.{subscription_repo}
use dataset_service.Postgres.Datasets.{dataset_repo}
use dataset_service.Postgres.Versions.{version_repo}
use dataset_service.Postgres.Notifications.{notification_repo}
use dataset_service.Postgres.Reviews.{review_repo}
use dataset_service.Postgres.Categories.{category_repo}
use dataset_service.Async.Contracts.{Fields, Schema, decode, get_number}

-- The repositories of `dataApp`, over one database.
pub record Repos (S : Type 0) : Type 0 where
  pub categories : CategoryRepository S
  pub datasets : DatasetRepository S
  pub versions : DatasetVersionRepository S
  pub notifications : NotificationRepository S
  pub access : AccessRequestRepository S
  pub reviews : ReviewRepository S
  pub subscriptions : SubscriptionRepository S
  pub users : UserRepository S

-- The repositories that `main` makes of its pool of connections.
abbrev pub postgres_repos : {S : Type 0} → Pool S → Repos S
postgres_repos pool = record {
  categories = category_repo pool;
  datasets = dataset_repo pool;
  versions = version_repo pool;
  notifications = notification_repo pool;
  access = request_repo pool;
  reviews = review_repo pool;
  subscriptions = subscription_repo pool;
  users = user_repo pool;
}

-- `fmt.Errorf(text)`
abbrev pub fail : {A : Type 0} → String → Result A
fail text = err (message text [])

abbrev pub none_zero : List String → Fields → Bool
none_zero [] fields = true
none_zero (k ∷ ks) fields = not (get_number k fields == 0) && none_zero ks fields

abbrev checked : String → List String → Option Fields → Result Fields
checked text keys none = fail text
checked text keys (some fields) = if none_zero keys fields then ok fields else fail text

-- `if err := json.Unmarshal(msg.Payload, &req); err != nil || req.Key == 0 { … }`, which answers
-- with the text; an empty payload cannot be decoded.
unfoldable pub decoded : String → List String → Schema → Option Fields → Result Fields
decoded text keys schema none = fail text
decoded text keys schema (some payload) = checked text keys (decode schema payload)
