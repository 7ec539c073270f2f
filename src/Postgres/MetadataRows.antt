-- ===== src/Postgres/MetadataRows.antt =====
-- postqbuild/metadata_repo.go: the metadata of versions.
use dataset_service.Base.{ℕ, String, Option, none, some, List, [], ◌∷◌}
use dataset_service.Errors.{
  repo, metadata_query_build, metadata_create, metadata_update, metadata_delete, metadata_scan,
  metadata_not_found, metadata_list,
}
use dataset_service.Exec.{Result, err, Exec}
use dataset_service.Entities.{Metadata}
use dataset_service.Postgres.Statements.{
  Value, uint, text, Pool, Statement, Insert, select_from, insert_returning_id, update_where,
  delete_where, eq,
}
use dataset_service.Postgres.Methods.{pointer, find_one, find_many, change_rows, insert_row}
use dataset_service.Repositories.{MetadataRepository}

-- `row.toEntity()` after the `Scan` of a row.
abbrev pub scan_metadata : List Value → Option Metadata
scan_metadata (uint id ∷ text format ∷ uint size ∷ text tags ∷ uint dataset_version_id ∷ []) =
    some (record {
      id = id;
      format = format;
      size = size;
      tags = tags;
      dataset_version_id = dataset_version_id;
    })
scan_metadata _ = none

abbrev pub metadata_columns : List String
metadata_columns = "id" ∷ "format" ∷ "size" ∷ "tags" ∷ "dataset_version_id" ∷ []

abbrev pub insert_metadata : Metadata → Insert
insert_metadata e =
    insert_returning_id "metadata" ("format" ∷ "size" ∷ "tags" ∷ "dataset_version_id" ∷ [])
      (text e.format ∷ uint e.size ∷ text e.tags ∷ uint e.dataset_version_id ∷ [])

module _ {S : Type 0} (pool : Pool S) where
  unfoldable pub create : Metadata → Exec S Metadata
  create e s =
      insert_row pool (insert_metadata e) (repo metadata_query_build) (λ _. repo metadata_create)
        (λ id. record e { id = id }) s

  unfoldable pub update : Metadata → Exec S Unit
  update e s =
      change_rows pool
        (Statement.update (
          update_where "metadata"
            (("format", text e.format) ∷ ("size", uint e.size) ∷ ("tags", text e.tags) ∷ [])
            (eq "id" (uint e.id))))
        (repo metadata_query_build) (λ _. repo metadata_update) (repo metadata_not_found) s

  unfoldable pub delete : ℕ → Exec S Unit
  delete id s =
      change_rows pool (Statement.delete (delete_where "metadata" (eq "id" (uint id))))
        (repo metadata_query_build) (λ _. repo metadata_delete) (repo metadata_not_found) s

  unfoldable pub find_by_id : ℕ → S → Result (Option Metadata)
  find_by_id id s =
      find_one (λ vs. pointer (scan_metadata vs)) pool
        (select_from metadata_columns "metadata" (eq "id" (uint id))) (repo metadata_query_build)
        (err (repo metadata_not_found)) (λ _. repo metadata_scan) s

  unfoldable pub find_by_dataset_id : ℕ → S → Result (List Metadata)
  find_by_dataset_id dataset_version_id s =
      find_many scan_metadata pool
        (record (select_from metadata_columns "metadata"
          (eq "dataset_version_id" (uint dataset_version_id))) { order_by = some "id DESC" })
        (repo metadata_query_build) (λ _. repo metadata_list) (λ _. repo metadata_scan)
        (λ _. repo metadata_list) s

  -- `MetadataRepo` as a `MetadataRepository`.
  abbrev pub metadata_repo : MetadataRepository S
  metadata_repo = record {
    create = create;
    update = update;
    delete = delete;
    find_by_id = find_by_id;
    find_by_dataset_id = find_by_dataset_id;
  }
