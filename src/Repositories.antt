-- ===== src/Repositories.antt =====
-- The interfaces of internal/repositories and internal/storage. A method that only runs a SELECT
-- reads the state; the others change it. What a method hands back through a pointer, the record
-- with its new `ID`, it returns here.
use dataset_service.Base.{ℕ, Bool, Option, List}
use dataset_service.Text.{Text}
use dataset_service.Exec.{Result, Exec}
use dataset_service.Entities.{
  AccessRequest, AccessStatus, Category, Dataset, DatasetVersion, Metadata, Notification, Review,
  Subscription, User,
}

pub record AccessRequestRepository (S : Type 0) : Type 0 where
  pub create : AccessRequest → Exec S AccessRequest
  pub find : ℕ → ℕ → S → Result (Option AccessRequest)
  pub list_pending_by_owner : ℕ → S → Result (List AccessRequest)
  pub list_by_dataset_id : ℕ → S → Result (List AccessRequest)
  pub update_status : ℕ → AccessStatus → Exec S Unit
  pub find_by_request_id : ℕ → S → Result AccessRequest

pub record CategoryRepository (S : Type 0) : Type 0 where
  pub create : Category → Exec S Category
  pub delete : ℕ → Exec S Unit
  pub update : Category → Exec S Unit
  pub find_by_id : ℕ → S → Result (Option Category)
  pub find_all : S → Result (List Category)

pub record DatasetRepository (S : Type 0) : Type 0 where
  pub create : Dataset → Exec S Dataset
  pub delete : ℕ → Exec S Unit
  pub update : Dataset → Exec S Unit
  pub find_by_id : ℕ → S → Result (Option Dataset)
  pub find_by_user_id : ℕ → S → Result (List Dataset)
  pub find_all : S → Result (List Dataset)
  pub find_public : S → Result (List Dataset)
  pub find_by_category_id : ℕ → S → Result (List Dataset)

pub record DatasetVersionRepository (S : Type 0) : Type 0 where
  pub create : DatasetVersion → Exec S DatasetVersion
  pub delete : ℕ → Exec S Unit
  pub update : DatasetVersion → Exec S Unit
  pub find_by_id : ℕ → S → Result (Option DatasetVersion)
  pub find_by_dataset_id : ℕ → S → Result (List DatasetVersion)

pub record MetadataRepository (S : Type 0) : Type 0 where
  pub create : Metadata → Exec S Metadata
  pub update : Metadata → Exec S Unit
  pub delete : ℕ → Exec S Unit
  pub find_by_id : ℕ → S → Result (Option Metadata)
  pub find_by_dataset_id : ℕ → S → Result (List Metadata)

pub record NotificationRepository (S : Type 0) : Type 0 where
  pub create : Notification → Exec S Notification
  pub find_by_id : ℕ → S → Result (Option Notification)
  pub find_by_user_id : ℕ → S → Result (List Notification)
  pub update : Notification → Exec S Unit
  pub delete : ℕ → Exec S Unit

pub record ReviewRepository (S : Type 0) : Type 0 where
  pub create : Review → Exec S Review
  pub update : Review → Exec S Unit
  pub delete : ℕ → Exec S Unit
  pub find_by_id : ℕ → S → Result (Option Review)
  pub find_by_dataset_id : ℕ → S → Result (List Review)
  pub find_by_user_id : ℕ → S → Result (List Review)

pub record SubscriptionRepository (S : Type 0) : Type 0 where
  pub create : Subscription → Exec S Subscription
  pub is_subscribed : ℕ → ℕ → S → Result Bool
  pub get_subscribers : ℕ → S → Result (List Subscription)
  pub unsubscribe : ℕ → ℕ → Exec S Unit
  pub get_by_user : ℕ → S → Result (List Subscription)
  pub get_all : S → Result (List Subscription)

pub record UserRepository (S : Type 0) : Type 0 where
  pub create : User → Exec S User
  pub update : User → Exec S Unit
  pub delete : ℕ → Exec S Unit
  pub find_by_id : ℕ → S → Result (Option User)
  pub find_all : S → Result (List User)
  pub find_by_email : Text → S → Result (Option User)

-- `Storage`; the uploaded bytes are not looked at by the program.
pub record Storage (S : Type 0) : Type 0 where
  pub upload : Text → ℕ → Exec S Text
  pub delete : Text → Exec S Unit
  pub get_url : Text → S → Result Text
