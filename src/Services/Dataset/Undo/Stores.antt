-- ===== src/Services/Dataset/Undo/Stores.antt =====
-- What the tables and the bucket behind `datasetService` show, and what the calls do to them.
use dataset_service.Base.{ℕ, ◌≡◌, ◌≢◌, Bool, true, false, Option, none, some, ◌==◌, if◌then◌else◌}
use dataset_service.Text.{Text, text_eq}
use dataset_service.Errors.{Error}
use dataset_service.Exec.{ok, err}
use dataset_service.Entities.{Dataset, DatasetVersion, Metadata}
use dataset_service.Services.Dataset.{Parts}

-- The rows of the tables by their numbers, and which objects the bucket holds.
pub record Views (S : Type 0) : Type 0 where
  pub dataset_row : S → ℕ → Option Dataset
  pub version_row : S → ℕ → Option DatasetVersion
  pub object : S → Text → Bool

-- The row of a version, unless it belongs to the dataset.
abbrev pub without : ℕ → Option DatasetVersion → Option DatasetVersion
without id none = none
without id (some ver) = if ver.dataset_id == id then none else some ver

module _ {S : Type 0} (v : Views S) where
  abbrev pub SameDatasets : S → S → Type 0
  SameDatasets s t = (j : ℕ) → v.dataset_row t j ≡ v.dataset_row s j

  abbrev pub SameVersions : S → S → Type 0
  SameVersions s t = (j : ℕ) → v.version_row t j ≡ v.version_row s j

  abbrev pub SameObjects : S → S → Type 0
  SameObjects s t = (k : Text) → v.object t k ≡ v.object s k

  abbrev pub Same : S → S → Type 0
  Same s t = SameDatasets s t × SameVersions s t × SameObjects s t

-- The calls of a database with the foreign key from versions to datasets, whose deletions cascade,
-- and of a bucket. A call that creates a row and fails leaves no row; a failed upload may leave
-- anything under its own key. A deletion takes effect.
pub record LawfulStores {S : Type 0} (p : Parts S) : Type 0 where
  pub views : Views S
  pub no_orphans :
      (s : S) (j : ℕ) (ver : DatasetVersion)
      → views.version_row s j ≡ some ver
      → views.dataset_row s ver.dataset_id ≢ none
  pub dataset_created :
      (ds new : Dataset) (s : S)
      → (p.datasets.create ds s).0 ≡ ok new
      → let t = (p.datasets.create ds s).1 in
        (new ≡ record ds { id = new.id })
        × ((new.id == 0) ≡ false)
        × (views.dataset_row s new.id ≡ none)
        × ((j : ℕ)
            → views.dataset_row t j ≡ (if new.id == j then some new else views.dataset_row s j))
        × SameVersions views s t
        × SameObjects views s t
  pub dataset_not_created :
      (ds : Dataset) (e : Error) (s : S)
      → (p.datasets.create ds s).0 ≡ err e
      → Same views s (p.datasets.create ds s).1
  pub uploaded :
      (key : Text) (size : ℕ) (s : S)
      → let t = (p.storage.upload key size s).1 in
        SameDatasets views s t
        × SameVersions views s t
        × ((k : Text) → text_eq key k ≡ false → views.object t k ≡ views.object s k)
  pub stored :
      (key url : Text) (size : ℕ) (s : S)
      → (p.storage.upload key size s).0 ≡ ok url
      → views.object (p.storage.upload key size s).1 key ≡ true
  pub version_created :
      (ver new : DatasetVersion) (s : S)
      → (p.versions.create ver s).0 ≡ ok new
      → let t = (p.versions.create ver s).1 in
        (new ≡ record ver { id = new.id })
        × (views.version_row s new.id ≡ none)
        × ((j : ℕ)
            → views.version_row t j ≡ (if new.id == j then some new else views.version_row s j))
        × SameDatasets views s t
        × SameObjects views s t
  pub version_not_created :
      (ver : DatasetVersion) (e : Error) (s : S)
      → (p.versions.create ver s).0 ≡ err e
      → Same views s (p.versions.create ver s).1
  pub metadata_created : (md : Metadata) (s : S) → Same views s (p.metadata.create md s).1
  pub object_deleted :
      (key : Text) (s : S)
      → let t = (p.storage.delete key s).1 in
        ((k : Text) → views.object t k ≡ (if text_eq key k then false else views.object s k))
        × SameDatasets views s t
        × SameVersions views s t
  pub version_deleted :
      (id : ℕ) (s : S)
      → let t = (p.versions.delete id s).1 in
        ((j : ℕ) → views.version_row t j ≡ (if id == j then none else views.version_row s j))
        × SameDatasets views s t
        × SameObjects views s t
  pub dataset_deleted :
      (id : ℕ) (s : S)
      → let t = (p.datasets.delete id s).1 in
        ((j : ℕ) → views.dataset_row t j ≡ (if id == j then none else views.dataset_row s j))
        × ((j : ℕ) → views.version_row t j ≡ without id (views.version_row s j))
        × SameObjects views s t
