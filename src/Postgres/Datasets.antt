-- ===== src/Postgres/Datasets.antt =====
-- postqbuild/dataset_repo.go: the datasets.
pub mod RoundTrip
pub mod Changes
pub mod Writes
pub mod Elsewhere
use dataset_service.Base.{
  ℕ, Bool, true, false, String, Option, none, some, List, [], ◌∷◌, ◌++◌, if◌then◌else◌,
}
use dataset_service.Base.Time.{ℤ}
use dataset_service.Text.{Text, codes, text_eq}
use dataset_service.Errors.{
  Error, RepoError, repo, wrap, annotate, dataset_query_build, dataset_not_found, dataset_create,
  dataset_update, dataset_delete, dataset_scan, dataset_list,
}
use dataset_service.Exec.{Result, ok, err, Exec, pure}
use dataset_service.Entities.{Dataset}
use dataset_service.Postgres.Statements.{
  Value, uint, int, text, flag, instant, DbError, no_rows, pg_error, failure, cause, Outcome, done,
  failed, Pool, Statement, select, insert, Select, Insert, select_from, insert_returning_id,
  update_where, delete_where, eq,
}
use dataset_service.Postgres.Methods.{
  has_code, pointer, scan_error, scan_row, find_one, find_many, change_rows, insert_row,
}
use dataset_service.Repositories.{DatasetRepository}

-- `row.toEntity()` after the `Scan` of a row.
abbrev pub scan_dataset : List Value → Option Dataset
scan_dataset
      (uint id
        ∷ text name
        ∷ text description
        ∷ uint owner_id
        ∷ uint category_id
        ∷ flag is_public
        ∷ instant created_at
        ∷ []) =
    some (record {
      id = id;
      name = name;
      description = description;
      owner_id = owner_id;
      category_id = category_id;
      is_public = is_public;
      created_at = created_at;
    })
scan_dataset _ = none

abbrev pub dataset_columns : List String
dataset_columns =
    "id" ∷ "name" ∷ "description" ∷ "owner_id" ∷ "category_id" ∷ "is_public" ∷ "created_at" ∷ []

abbrev pub insert_dataset : Dataset → Insert
insert_dataset e =
    insert_returning_id "datasets"
      ("name" ∷ "description" ∷ "owner_id" ∷ "category_id" ∷ "is_public" ∷ "created_at" ∷ [])
      (text e.name
        ∷ text e.description
        ∷ uint e.owner_id
        ∷ uint e.category_id
        ∷ flag e.is_public
        ∷ instant e.created_at
        ∷ [])

module _ {S : Type 0} (pool : Pool S) where
  unfoldable pub create : Dataset → Exec S Dataset
  create e s =
      insert_row pool (insert_dataset e) (repo dataset_query_build) (λ _. repo dataset_create)
        (λ id. record e { id = id }) s

  unfoldable pub update : Dataset → Exec S Unit
  update e s =
      change_rows pool
        (Statement.update (
          update_where "datasets"
            (("name", text e.name)
              ∷ ("description", text e.description)
              ∷ ("category_id", uint e.category_id)
              ∷ ("is_public", flag e.is_public)
              ∷ [])
            (eq "id" (uint e.id))))
        (repo dataset_query_build) (λ _. repo dataset_update) (repo dataset_not_found) s

  unfoldable pub delete : ℕ → Exec S Unit
  delete id s =
      change_rows pool (Statement.delete (delete_where "datasets" (eq "id" (uint id))))
        (repo dataset_query_build) (λ _. repo dataset_delete) (repo dataset_not_found) s

  unfoldable pub find_by_id : ℕ → S → Result (Option Dataset)
  find_by_id id s =
      find_one (λ vs. pointer (scan_dataset vs)) pool
        (select_from dataset_columns "datasets" (eq "id" (uint id))) (repo dataset_query_build)
        (err (repo dataset_not_found)) (λ _. repo dataset_scan) s

  unfoldable pub find_by_user_id : ℕ → S → Result (List Dataset)
  find_by_user_id user_id s =
      find_many scan_dataset pool
        (record (select_from dataset_columns "datasets" (eq "owner_id" (uint user_id))) {
          order_by = some "created_at DESC";
        })
        (repo dataset_query_build) (λ _. repo dataset_scan) (λ _. repo dataset_scan)
        (λ _. repo dataset_scan) s

  unfoldable pub find_all : S → Result (List Dataset)
  find_all s =
      find_many scan_dataset pool
        (record (select_from dataset_columns "datasets" []) { order_by = some "created_at DESC" })
        (repo dataset_query_build) (λ _. repo dataset_list) (λ _. repo dataset_list)
        (λ _. repo dataset_list) s

  unfoldable pub find_public : S → Result (List Dataset)
  find_public s =
      find_many scan_dataset pool
        (select_from dataset_columns "datasets" (eq "is_public" (flag true)))
        (repo dataset_query_build) (λ _. repo dataset_scan) (λ _. repo dataset_scan)
        (λ _. repo dataset_scan) s

  unfoldable pub find_by_category_id : ℕ → S → Result (List Dataset)
  find_by_category_id category_id s =
      find_many scan_dataset pool
        (record (select_from dataset_columns "datasets" (eq "category_id" (uint category_id))) {
          order_by = some "created_at DESC";
        })
        (repo dataset_query_build) (λ _. repo dataset_scan) (λ _. repo dataset_scan)
        (λ _. repo dataset_scan) s

  -- `DatasetRepo` as a `DatasetRepository`.
  abbrev pub dataset_repo : DatasetRepository S
  dataset_repo = record {
    create = create;
    update = update;
    delete = delete;
    find_by_id = find_by_id;
    find_by_user_id = find_by_user_id;
    find_all = find_all;
    find_public = find_public;
    find_by_category_id = find_by_category_id;
  }
