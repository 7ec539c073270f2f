-- ===== src/Postgres/Categories.antt =====
-- postqbuild/category_repo.go: the categories.
use dataset_service.Base.{ℕ, String, Option, none, some, List, [], ◌∷◌, if◌then◌else◌}
use dataset_service.Errors.{
  Error, RepoError, repo, annotate, category_query_build, category_not_found, category_not_empty,
  category_already_exists, category_create, category_update, category_delete, category_find,
  category_scan, category_iterate,
}
use dataset_service.Exec.{Result, err, Exec}
use dataset_service.Entities.{Category}
use dataset_service.Postgres.Statements.{
  Value, uint, text, DbError, cause, Pool, Statement, Insert, select_from, insert_returning_id,
  update_where, delete_where, eq,
}
use dataset_service.Postgres.Methods.{
  has_code, pointer, scan_error, find_one, find_many, change_rows, insert_row,
}
use dataset_service.Repositories.{CategoryRepository}

-- `row.toEntity()` after the `Scan` of a row.
abbrev pub scan_category : List Value → Option Category
scan_category (uint id ∷ text name ∷ text description ∷ []) =
    some (record { id = id; name = name; description = description })
scan_category _ = none

abbrev pub category_columns : List String
category_columns = "id" ∷ "name" ∷ "description" ∷ []

abbrev pub insert_category : Category → Insert
insert_category e =
    insert_returning_id "categories" ("name" ∷ "description" ∷ [])
      (text e.name ∷ text e.description ∷ [])

-- The error with the code of a broken rule of the table (23505 is UNIQUE, 23503 a foreign key) has
-- a sentinel of its own.
abbrev broken_rule : String → RepoError → RepoError → DbError → Error
broken_rule code rule other e =
    if has_code code e then repo rule else annotate (repo other) (cause e)

module _ {S : Type 0} (pool : Pool S) where
  unfoldable pub create : Category → Exec S Category
  create e s =
      insert_row pool (insert_category e) (annotate (repo category_query_build) (cause scan_error))
        (broken_rule "23505" category_already_exists category_create) (λ id. record e { id = id }) s

  unfoldable pub update : Category → Exec S Unit
  update e s =
      change_rows pool
        (Statement.update (
          update_where "categories"
            (("name", text e.name) ∷ ("description", text e.description) ∷ [])
            (eq "id" (uint e.id))))
        (annotate (repo category_query_build) (cause scan_error))
        (broken_rule "23505" category_already_exists category_update) (repo category_not_found) s

  unfoldable pub delete : ℕ → Exec S Unit
  delete id s =
      change_rows pool (Statement.delete (delete_where "categories" (eq "id" (uint id))))
        (annotate (repo category_query_build) (cause scan_error))
        (broken_rule "23503" category_not_empty category_delete) (repo category_not_found) s

  unfoldable pub find_by_id : ℕ → S → Result (Option Category)
  find_by_id id s =
      find_one (λ vs. pointer (scan_category vs)) pool
        (select_from category_columns "categories" (eq "id" (uint id)))
        (annotate (repo category_query_build) (cause scan_error)) (err (repo category_not_found))
        (λ e. annotate (repo category_find) (cause e)) s

  unfoldable pub find_all : S → Result (List Category)
  find_all s =
      find_many scan_category pool
        (record (select_from category_columns "categories" []) { order_by = some "name ASC" })
        (annotate (repo category_query_build) (cause scan_error))
        (λ e. annotate (repo category_find) (cause e))
        (λ e. annotate (repo category_scan) (cause e))
        (λ e. annotate (repo category_iterate) (cause e)) s

  -- `CategoryRepo` as a `CategoryRepository`.
  abbrev pub category_repo : CategoryRepository S
  category_repo = record {
    create = create;
    update = update;
    delete = delete;
    find_by_id = find_by_id;
    find_all = find_all;
  }
