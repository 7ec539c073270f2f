-- ===== src/Postgres/Versions.antt =====
-- postqbuild/version_repo.go: the versions of datasets.
use dataset_service.Base.{ℕ, String, Option, none, some, List, [], ◌∷◌}
use dataset_service.Errors.{
  repo, version_query_build, version_create, version_update, version_delete, version_scan,
  version_list, version_not_found,
}
use dataset_service.Exec.{Result, err, Exec}
use dataset_service.Entities.{DatasetVersion}
use dataset_service.Postgres.Statements.{
  Value, uint, text, instant, Pool, Statement, Insert, select_from, insert_returning_id,
  update_where, delete_where, eq,
}
use dataset_service.Postgres.Methods.{pointer, find_one, find_many, change_rows, insert_row}
use dataset_service.Repositories.{DatasetVersionRepository}

-- `row.toEntity()` after the `Scan` of a row.
abbrev pub scan_version : List Value → Option DatasetVersion
scan_version
      (uint id
        ∷ text number
        ∷ instant upload_date
        ∷ text filepath
        ∷ uint dataset_id
        ∷ text change_log
        ∷ []) =
    some (record {
      id = id;
      number = number;
      upload_date = upload_date;
      filepath = filepath;
      dataset_id = dataset_id;
      change_log = change_log;
    })
scan_version _ = none

abbrev pub version_columns : List String
version_columns = "id" ∷ "number" ∷ "upload_date" ∷ "filepath" ∷ "dataset_id" ∷ "change_log" ∷ []

abbrev pub insert_version : DatasetVersion → Insert
insert_version e =
    insert_returning_id "dataset_versions"
      ("number" ∷ "upload_date" ∷ "filepath" ∷ "dataset_id" ∷ "change_log" ∷ [])
      (text e.number
        ∷ instant e.upload_date
        ∷ text e.filepath
        ∷ uint e.dataset_id
        ∷ text e.change_log
        ∷ [])

module _ {S : Type 0} (pool : Pool S) where
  unfoldable pub create : DatasetVersion → Exec S DatasetVersion
  create e s =
      insert_row pool (insert_version e) (repo version_query_build) (λ _. repo version_create)
        (λ id. record e { id = id }) s

  unfoldable pub update : DatasetVersion → Exec S Unit
  update e s =
      change_rows pool
        (Statement.update (
          update_where "dataset_versions"
            (("number", text e.number)
              ∷ ("upload_date", instant e.upload_date)
              ∷ ("filepath", text e.filepath)
              ∷ ("change_log", text e.change_log)
              ∷ [])
            (eq "id" (uint e.id))))
        (repo version_query_build) (λ _. repo version_update) (repo version_not_found) s

  unfoldable pub delete : ℕ → Exec S Unit
  delete id s =
      change_rows pool (Statement.delete (delete_where "dataset_versions" (eq "id" (uint id))))
        (repo version_query_build) (λ _. repo version_delete) (repo version_not_found) s

  unfoldable pub find_by_id : ℕ → S → Result (Option DatasetVersion)
  find_by_id id s =
      find_one (λ vs. pointer (scan_version vs)) pool
        (select_from version_columns "dataset_versions" (eq "id" (uint id)))
        (repo version_query_build) (err (repo version_not_found)) (λ _. repo version_scan) s

  unfoldable pub find_by_dataset_id : ℕ → S → Result (List DatasetVersion)
  find_by_dataset_id dataset_id s =
      find_many scan_version pool
        (record (select_from version_columns "dataset_versions"
          (eq "dataset_id" (uint dataset_id))) { order_by = some "upload_date DESC" })
        (repo version_query_build) (λ _. repo version_list) (λ _. repo version_scan)
        (λ _. repo version_list) s

  -- `VersionRepo` as a `DatasetVersionRepository`.
  abbrev pub version_repo : DatasetVersionRepository S
  version_repo = record {
    create = create;
    update = update;
    delete = delete;
    find_by_id = find_by_id;
    find_by_dataset_id = find_by_dataset_id;
  }
