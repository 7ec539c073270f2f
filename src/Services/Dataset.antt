-- ===== src/Services/Dataset.antt =====
-- internal/services/dataset_service.go and dataset_service_impl.go: datasets with their versions,
-- their metadata and the uploaded files.
pub mod Naming
pub mod Undo
mod Tests
use dataset_service.Base.{
  ℕ, Bool, Option, none, some, List, [], ◌∷◌, ◌==◌, ◌&&◌, not, if◌then◌else◌,
}
use dataset_service.Text.{Text, codes, is_empty}
use dataset_service.Errors.{
  Error, service, wrap, annotate, driver, equals_repo, is_repo, RepoError, invalid_metadata,
  dataset_not_found, version_not_found,
}
use dataset_service.Exec.{
  Result, ok, err, Exec, pure, raise, read, lift, map_error, attempt, on_error, ignore, on_failure,
  ◌>>=◌, ◌>>◌,
}
use dataset_service.Entities.{
  Dataset, DatasetVersion, Metadata, new_dataset, new_dataset_version, new_metadata,
}
use dataset_service.Repositories.{
  DatasetRepository, DatasetVersionRepository, MetadataRepository, Storage,
}
use Naming.{initial_dataset_version, next_version_number, dataset_object_key}

-- `CreateDatasetCmd`
pub record CreateDataset : Type 0 where
  pub actor_id : ℕ
  pub name : Text
  pub description : Text
  pub category_id : ℕ
  pub file_name : Text
  pub is_public : Bool
  pub meta_format : Text
  pub meta_tags : Text
  pub meta_size : ℕ

-- `AddVersionCmd`
pub record AddVersion : Type 0 where
  pub actor_id : ℕ
  pub dataset_id : ℕ
  pub change_log : Text
  pub file_name : Text
  pub meta_format : Text
  pub meta_tags : Text
  pub meta_size : ℕ

-- `UpdateDatasetCmd`
pub record UpdateDataset : Type 0 where
  pub id : ℕ
  pub name : Text
  pub description : Text
  pub category_id : ℕ
  pub is_public : Bool

-- The readings of the clock in a call, in their order: the time of the dataset, the check in
-- `NewDataset`, the time of the version, the check in `NewDatasetVersion`.
pub record Clock : Type 0 where
  pub created : ℕ
  pub created_check : ℕ
  pub uploaded : ℕ
  pub uploaded_check : ℕ

-- `datasetService`
pub record Parts (S : Type 0) : Type 0 where
  pub datasets : DatasetRepository S
  pub versions : DatasetVersionRepository S
  pub metadata : MetadataRepository S
  pub storage : Storage S

-- A use of a nil pointer panics.
abbrev pub nil_dereference : Error
nil_dereference = driver 0

module _ {S : Type 0} (parts : Parts S) where
  open parts use {datasets, versions, metadata, storage}

  -- `initDatasetEntity`
  abbrev pub init_dataset_entity : CreateDataset → Clock → Result Dataset
  init_dataset_entity cmd clock = map_error (wrap "invalid dataset: %w") (
      new_dataset cmd.name cmd.description cmd.actor_id cmd.category_id cmd.is_public clock.created
        clock.created_check)

  -- `uploadFile`
  abbrev pub upload_file : Text → ℕ → Exec S Text
  upload_file key size = on_error (wrap "upload file: %w") (storage.upload key size)

  -- `buildDatasetVersion`
  abbrev pub build_dataset_version : Text → Text → Text → ℕ → Clock → Result DatasetVersion
  build_dataset_version number url change_log dataset_id clock =
      map_error (wrap "invalid version data: %w")
        (new_dataset_version number url change_log dataset_id clock.uploaded clock.uploaded_check)

  abbrev when : Bool → Exec S Unit → Exec S Unit
  when test m s = if test then m s else pure tt s

  -- `cleanupDataset`, which drops every error
  unfoldable pub cleanup_dataset : ℕ → Text → ℕ → Exec S Unit
  cleanup_dataset dataset_id key version_id = do
    when (not (is_empty key)) (ignore (storage.delete key))
    when (not (version_id == 0)) (ignore (versions.delete version_id))
    when (not (dataset_id == 0)) (ignore (datasets.delete dataset_id))

  -- `persistMetadata`
  unfoldable pub persist_metadata : Text → Text → ℕ → ℕ → Exec S Unit → Exec S Unit
  persist_metadata format tags size version_id on_fail s =
      if is_empty format && size == 0
      then pure tt s
      else (do
        md ← on_failure on_fail (
            lift (
              map_error (annotate (service invalid_metadata))
                (new_metadata format tags size version_id)))
        on_failure on_fail (on_error (wrap "create metadata: %w") (metadata.create md))
        pure tt)
          s

  -- `CreateDataset` once the dataset has its number.
  unfoldable pub fill_dataset : CreateDataset → ℕ → Clock → Dataset → Exec S ℕ
  fill_dataset cmd size clock ds = do
    let key = dataset_object_key ds.id initial_dataset_version cmd.file_name
    url ← on_failure (cleanup_dataset ds.id key 0) (upload_file key size)
    ver ←
        on_failure (cleanup_dataset ds.id key 0)
          (lift (build_dataset_version initial_dataset_version url [] ds.id clock))
    stored ←
        on_failure (cleanup_dataset ds.id key ver.id)
          (on_error (wrap "create version: %w") (versions.create ver))
    persist_metadata cmd.meta_format cmd.meta_tags cmd.meta_size stored.id
        (cleanup_dataset ds.id key stored.id)
    pure ds.id

  unfoldable pub create_dataset : CreateDataset → ℕ → Clock → Exec S ℕ
  create_dataset cmd size clock = do
    ds ← lift (init_dataset_entity cmd clock)
    created ← on_error (wrap "create dataset: %w") (datasets.create ds)
    fill_dataset cmd size clock created

  -- `wrapDatasetFetchError`
  abbrev pub wrap_dataset_fetch_error : Error → Error
  wrap_dataset_fetch_error e =
      if equals_repo RepoError.dataset_not_found e
      then service dataset_not_found
      else wrap "fetch dataset: %w" e

  abbrev or_not_found {ℓ} : {A : Type ℓ} → Error → Option A → Result A
  or_not_found e none = err e
  or_not_found e (some a) = ok a

  abbrev version_create_error : Error → Error
  version_create_error e =
      if equals_repo RepoError.version_not_found e
      then service version_not_found
      else wrap "create version: %w" e

  unfoldable pub add_dataset_version : AddVersion → ℕ → Clock → Exec S ℕ
  add_dataset_version cmd size clock = do
    found ← on_error wrap_dataset_fetch_error (read (datasets.find_by_id cmd.dataset_id))
    ds ← lift (or_not_found (service dataset_not_found) found)
    existing ←
        on_error (wrap "fetch versions: %w") (read (versions.find_by_dataset_id cmd.dataset_id))
    let next = next_version_number existing
    let key = dataset_object_key ds.id next cmd.file_name
    url ← upload_file key size
    ver ←
        on_failure (cleanup_dataset 0 key 0)
          (lift (build_dataset_version next url cmd.change_log cmd.dataset_id clock))
    stored ←
        on_failure (cleanup_dataset 0 key ver.id)
          (on_error version_create_error (versions.create ver))
    persist_metadata cmd.meta_format cmd.meta_tags cmd.meta_size stored.id
        (cleanup_dataset 0 key stored.id)
    pure stored.id

  abbrev dataset_error : Error → Error
  dataset_error e =
      if equals_repo RepoError.dataset_not_found e
      then service dataset_not_found
      else wrap "get dataset: %w" e

  unfoldable pub get_dataset : ℕ → Exec S Dataset
  get_dataset id = do
    found ← on_error dataset_error (read (datasets.find_by_id id))
    lift (or_not_found (service dataset_not_found) found)

  unfoldable pub list_datasets : Bool → Option ℕ → S → Result (List Dataset)
  list_datasets only_public (some owner_id) s = datasets.find_by_user_id owner_id s
  list_datasets only_public none s =
      if only_public then datasets.find_public s else datasets.find_all s

  abbrev version_error : Error → Error
  version_error e =
      if equals_repo RepoError.version_not_found e
      then service version_not_found
      else wrap "get version: %w" e

  unfoldable pub get_version : ℕ → Exec S DatasetVersion
  get_version version_id = do
    found ← on_error version_error (read (versions.find_by_id version_id))
    lift (or_not_found (service version_not_found) found)

  unfoldable pub list_versions : ℕ → S → Result (List DatasetVersion)
  list_versions dataset_id s =
      map_error (wrap "list versions: %w") (versions.find_by_dataset_id dataset_id s)

  unfoldable pub list_by_category : ℕ → S → Result (List Dataset)
  list_by_category category_id s =
      map_error (wrap "list datasets by category: %w") (datasets.find_by_category_id category_id s)

  abbrev delete_error : Error → Error
  delete_error e =
      if is_repo RepoError.dataset_not_found e
      then service dataset_not_found
      else wrap "delete dataset: %w" e

  unfoldable pub delete_dataset : ℕ → Exec S Unit
  delete_dataset dataset_id = on_error delete_error (datasets.delete dataset_id)

  abbrev url_of_first : List DatasetVersion → Exec S Text
  url_of_first [] = raise (service version_not_found)
  url_of_first (ver ∷ older) =
      on_error (wrap "presigned URL: %w") (read (storage.get_url ver.filepath))

  unfoldable pub get_download_url : ℕ → Exec S Text
  get_download_url dataset_id = do
    found ← on_error (wrap "fetch versions: %w") (read (versions.find_by_dataset_id dataset_id))
    url_of_first found

  -- Every error of the lookup is reported as a dataset that is not there.
  unfoldable pub update_dataset : UpdateDataset → Exec S Unit
  update_dataset cmd = do
    found ← on_error (λ _. service dataset_not_found) (read (datasets.find_by_id cmd.id))
    ds ← lift (or_not_found nil_dereference found)
    on_error (wrap "update dataset: %w") (
        datasets.update (record ds {
          name = cmd.name;
          description = cmd.description;
          category_id = cmd.category_id;
          is_public = cmd.is_public;
        }))

  unfoldable pub get_version_download_url : ℕ → Exec S Text
  get_version_download_url version_id = do
    found ← on_error (wrap "fetch version: %w") (read (versions.find_by_id version_id))
    ver ← lift (or_not_found nil_dereference found)
    on_error (wrap "presign version: %w") (read (storage.get_url ver.filepath))

  abbrev first {ℓ} : {A : Type ℓ} → List A → Option A
  first [] = none
  first (x ∷ xs) = some x

  unfoldable pub get_version_metadata : ℕ → Exec S (Option Metadata)
  get_version_metadata version_id = do
    found ← on_error (wrap "get metadata: %w") (read (metadata.find_by_dataset_id version_id))
    pure (first found)
