-- ===== src/Services/Dataset/Undo/Tests.antt =====
-- dataset_service_impl.go: `CreateDataset` on tables with room for one dataset and one version and
-- on a bucket, where the table of metadata refuses every row.
use dataset_service.Base.{
  ℕ, ◌≡◌, ◌≢◌, refl, inl, inr, Bool, true, false, not, ◌&&◌, ◌||◌, Option, none, some, [], arith,
  ◌==◌, if◌then◌else◌, Bool-cases,
}
use dataset_service.Text.{
  Text, codes, text_eq, text_eq_iff, trim_space, trim_left, trim_right, is_space, len,
}
use dataset_service.Errors.{
  Error, repo, wrap, driver, dataset_create, version_create, metadata_create,
}
use dataset_service.Exec.{Exec, ok, err, raise}
use dataset_service.Entities.{
  Dataset, DatasetVersion, new_dataset, new_dataset_version, new_metadata,
}
use dataset_service.Services.Dataset.{
  CreateDataset, Clock, Parts, create_dataset, fill_dataset, persist_metadata,
}
use dataset_service.Services.Dataset.Naming.{dataset_object_key}
use dataset_service.Services.Dataset.Undo.Stores.{Views, without, LawfulStores}
use dataset_service.Services.Dataset.Undo.Cleanup.{Undone}
use dataset_service.Services.Dataset.Undo.Failure.{create_dataset-Undone}
use dataset_service.Services.Dataset.Undo.Success.{IsComplete, create_dataset-IsComplete}

abbrev Tables : Type 0
Tables = Option (Dataset × Option DatasetVersion)

record Store : Type 0 where
  tables : Tables
  objects : Text → Bool

abbrev dataset_at : Tables → ℕ → Option Dataset
dataset_at none j = none
dataset_at (some (ds, ver)) j = if ds.id == j then some ds else none

-- The foreign key of the version is that of the one dataset.
abbrev version_at : Tables → ℕ → Option DatasetVersion
version_at none j = none
version_at (some (ds, none)) j = none
version_at (some (ds, some ver)) j =
    if ver.id == j then some (record ver { dataset_id = ds.id }) else none

abbrev create_in : Dataset → Tables → Option Dataset × Tables
create_in ds none = (some (record ds { id = 1 }), some (record ds { id = 1 }, none))
create_in ds (some row) = (none, some row)

abbrev add_version : DatasetVersion → Tables → Option DatasetVersion × Tables
add_version ver (some (ds, none)) =
    if ver.dataset_id == ds.id
    then (some (record ver { id = 1 }), some (ds, some (record ver { id = 1 })))
    else (none, some (ds, none))
add_version ver t = (none, t)

abbrev drop_dataset : ℕ → Tables → Tables
drop_dataset id none = none
drop_dataset id (some (ds, ver)) = if ds.id == id then none else some (ds, ver)

abbrev drop_version : ℕ → Tables → Tables
drop_version id (some (ds, some ver)) =
    if ver.id == id then some (ds, none) else some (ds, some ver)
drop_version id t = t

abbrev reply {ℓ} : {A : Type ℓ} → Error → Option A → dataset_service.Exec.Result A
reply e none = err e
reply e (some a) = ok a

abbrev unused : {A : Type 0} → Exec Store A
unused = raise (driver 1)

abbrev parts : Parts Store
parts = record {
  datasets = record {
    create = λ ds s. (
      reply (repo dataset_create) (create_in ds s.tables).0,
      record s { tables = (create_in ds s.tables).1 },
    );
    delete = λ id s. (ok tt, record s { tables = drop_dataset id s.tables });
    update = λ ds. unused;
    find_by_id = λ id s. ok none;
    find_by_user_id = λ id s. ok [];
    find_all = λ s. ok [];
    find_public = λ s. ok [];
    find_by_category_id = λ id s. ok [];
  };
  versions = record {
    create = λ ver s. (
      reply (repo version_create) (add_version ver s.tables).0,
      record s { tables = (add_version ver s.tables).1 },
    );
    delete = λ id s. (ok tt, record s { tables = drop_version id s.tables });
    update = λ ver. unused;
    find_by_id = λ id s. ok none;
    find_by_dataset_id = λ id s. ok [];
  };
  metadata = record {
    create = λ md. raise (repo metadata_create);
    update = λ md. unused;
    delete = λ id. unused;
    find_by_id = λ id s. ok none;
    find_by_dataset_id = λ id s. ok [];
  };
  storage = record {
    upload = λ key size s. (ok key, record s { objects = λ k. text_eq key k || s.objects k });
    delete = λ key s. (ok tt, record s { objects = λ k. not (text_eq key k) && s.objects k });
    get_url = λ key s. ok key;
  };
}

abbrev views : Views Store
views = record {
  dataset_row = λ s. dataset_at s.tables;
  version_row = λ s. version_at s.tables;
  object = λ s. s.objects;
}

no_orphans :
    (t : Tables) (j : ℕ) (ver : DatasetVersion)
    → version_at t j ≡ some ver
    → dataset_at t ver.dataset_id ≢ none
no_orphans none j ver h missing = ground arith
no_orphans (some (ds, none)) j ver h missing = ground arith
no_orphans (some (ds, some old)) j ver h missing = ground arith

create_in-rows :
    (ds new : Dataset) (t : Tables)
    → reply (repo dataset_create) (create_in ds t).0 ≡ ok new
    → (new ≡ record ds { id = new.id })
      × ((new.id == 0) ≡ false)
      × (dataset_at t new.id ≡ none)
      × ((j : ℕ)
          → dataset_at (create_in ds t).1 j ≡ (if new.id == j then some new else dataset_at t j))
      × ((j : ℕ) → version_at (create_in ds t).1 j ≡ version_at t j)
create_in-rows ds new none h = (ground arith, ground arith, refl, (λ j. ground arith), λ j. refl)
create_in-rows ds new (some row) h = absurd (ground arith)

create_in_refused :
    (ds : Dataset) (e : Error) (t : Tables)
    → reply (repo dataset_create) (create_in ds t).0 ≡ err e
    → (create_in ds t).1 ≡ t
create_in_refused ds e none h = absurd (ground arith)
create_in_refused ds e (some row) h = refl

add_version-rows :
    (ver new : DatasetVersion) (t : Tables)
    → reply (repo version_create) (add_version ver t).0 ≡ ok new
    → (new ≡ record ver { id = new.id })
      × (version_at t new.id ≡ none)
      × ((j : ℕ)
          → version_at (add_version ver t).1 j ≡ (if new.id == j then some new else version_at t j))
      × ((j : ℕ) → dataset_at (add_version ver t).1 j ≡ dataset_at t j)
add_version-rows ver new none h = absurd (ground arith)
add_version-rows ver new (some (ds, some old)) h = absurd (ground arith)
add_version-rows ver new (some (ds, none)) h = elim (Bool-cases (ver.dataset_id == ds.id)) [
  | inl of ↦ (ground arith, ground arith, (λ j. ground arith), λ j. ground arith)
  | inr other ↦ absurd (ground arith)
]

add_version_refused :
    (ver : DatasetVersion) (e : Error) (t : Tables)
    → reply (repo version_create) (add_version ver t).0 ≡ err e
    → (add_version ver t).1 ≡ t
add_version_refused ver e none h = refl
add_version_refused ver e (some (ds, some old)) h = refl
add_version_refused ver e (some (ds, none)) h = ground arith

drop_version-rows :
    (id : ℕ) (t : Tables)
    → ((j : ℕ) → version_at (drop_version id t) j ≡ (if id == j then none else version_at t j))
      × ((j : ℕ) → dataset_at (drop_version id t) j ≡ dataset_at t j)
drop_version-rows id none = ((λ j. ground arith), λ j. refl)
drop_version-rows id (some (ds, none)) = ((λ j. ground arith), λ j. refl)
drop_version-rows id (some (ds, some ver)) = ((λ j. ground arith), λ j. ground arith)

drop_dataset-rows :
    (id : ℕ) (t : Tables)
    → ((j : ℕ) → dataset_at (drop_dataset id t) j ≡ (if id == j then none else dataset_at t j))
      × ((j : ℕ) → version_at (drop_dataset id t) j ≡ without id (version_at t j))
drop_dataset-rows id none = ((λ j. ground arith), λ j. refl)
drop_dataset-rows id (some (ds, none)) = ((λ j. ground arith), λ j. ground arith)
drop_dataset-rows id (some (ds, some ver)) = ((λ j. ground arith), λ j. ground arith)

object_there : (key : Text) (before : Bool) → (text_eq key key || before) ≡ true
object_there key before = ground (arith, text_eq_iff key key)

object_gone : (here before : Bool) → (not here && before) ≡ (if here then false else before)
object_gone true before = refl
object_gone false before = refl

abbrev laws : LawfulStores parts
laws = record {
  views = views;
  no_orphans = λ s. no_orphans s.tables;
  dataset_created = λ ds new s made.
      let (same, nonzero, free, d, v) = create_in-rows ds new s.tables made in
      (same, nonzero, free, d, v, λ k. refl);
  dataset_not_created = λ ds e s refused.
      let same = create_in_refused ds e s.tables refused in
      ((λ j. rw same refl), (λ j. rw same refl), λ k. refl);
  uploaded = λ key size s. ((λ j. refl), (λ j. refl), λ k other. rw other refl);
  stored = λ key url size s up. object_there key (s.objects key);
  version_created = λ ver new s made.
      let (same, free, v, d) = add_version-rows ver new s.tables made in
      (same, free, v, d, λ k. refl);
  version_not_created = λ ver e s refused.
      let same = add_version_refused ver e s.tables refused in
      ((λ j. rw same refl), (λ j. rw same refl), λ k. refl);
  metadata_created = λ md s. ((λ j. refl), (λ j. refl), λ k. refl);
  object_deleted =
      λ key s. ((λ k. object_gone (text_eq key k) (s.objects k)), (λ j. refl), λ j. refl);
  version_deleted = λ id s. let (v, d) = drop_version-rows id s.tables in (v, d, λ k. refl);
  dataset_deleted = λ id s. let (d, v) = drop_dataset-rows id s.tables in (d, v, λ k. refl);
}

abbrev empty : Store
empty = record { tables = none; objects = λ k. false }

abbrev clock : Clock
clock = record { created = 1; created_check = 2; uploaded = 3; uploaded_check = 4 }

abbrev rain : CreateDataset
rain = record {
  actor_id = 2;
  name = codes "rain";
  description = [];
  category_id = 1;
  file_name = codes "rain.csv";
  is_public = true;
  meta_format = [];
  meta_tags = [];
  meta_size = 0;
}

abbrev with_metadata : CreateDataset
with_metadata = record rain { meta_format = codes "csv"; meta_size = 8 }

-- The metadata is refused after the dataset, the file and the version were stored.
create_dataset-Undone_example :
    Undone parts laws empty (create_dataset parts with_metadata 8 clock empty).1
unfolding create_dataset fill_dataset persist_metadata new_dataset new_dataset_version trim_space
    trim_left trim_right is_space len dataset_object_key new_metadata
create_dataset-Undone_example =
    create_dataset-Undone parts laws with_metadata 8 clock empty
      (wrap "create metadata: %w" (repo metadata_create)) refl

create_dataset-IsComplete_example :
    IsComplete parts laws rain 1 (create_dataset parts rain 8 clock empty).1
unfolding create_dataset fill_dataset persist_metadata new_dataset new_dataset_version trim_space
    trim_left trim_right is_space len dataset_object_key
create_dataset-IsComplete_example = create_dataset-IsComplete parts laws rain 8 clock empty 1 refl
