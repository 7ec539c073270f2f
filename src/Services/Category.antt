-- ===== src/Services/Category.antt =====
-- internal/services/category_service.go and category_service_impl.go: the categories of datasets.
use dataset_service.Base.{ℕ, Option, some, List, if◌then◌else◌}
use dataset_service.Text.{Text}
use dataset_service.Errors.{
  Error, service, is_repo, RepoError, ServiceError, nil_category, category_exists,
}
use dataset_service.Exec.{
  Result, ok, err, Exec, pure, read, lift, map_error, attempt, on_error, ◌>>=◌, ◌>>◌,
}
use dataset_service.Entities.{Category, new_category}
use dataset_service.Repositories.{CategoryRepository}

-- `CreateCategoryCmd`
pub record CreateCategory : Type 0 where
  pub name : Text
  pub description : Text

-- `UpdateCategoryCmd`
pub record UpdateCategory : Type 0 where
  pub name : Text
  pub description : Text
  pub id : ℕ

module _ {S : Type 0} (repo : CategoryRepository S) where
  abbrev create_error : Error → Error
  create_error e =
      if is_repo RepoError.category_already_exists e
      then service category_exists
      else if is_repo RepoError.category_create e
      then service ServiceError.category_create
      else e

  -- `CreateCategory`; every error of `NewCategory` is reported as a nil category.
  unfoldable pub create_category : CreateCategory → Exec S ℕ
  create_category cmd = do
    cat ← lift (map_error (λ _. service nil_category) (new_category cmd.name cmd.description))
    created ← on_error create_error (repo.create cat)
    pure created.id

  abbrev update_error : Error → Error
  update_error e =
      if is_repo RepoError.category_already_exists e
      then service category_exists
      else if is_repo RepoError.category_not_found e
      then service ServiceError.category_not_found
      else e

  abbrev present : Result (Option Category) → Result Category
  present (ok (some cat)) = ok cat
  present _ = err (service ServiceError.category_not_found)

  -- `UpdateCategory`
  unfoldable pub update_category : UpdateCategory → Exec S Unit
  update_category cmd = do
    found ← attempt (read (repo.find_by_id cmd.id))
    lift (present found)
    updated ← lift (map_error (λ _. service nil_category) (new_category cmd.name cmd.description))
    on_error update_error (repo.update (record updated { id = cmd.id }))

  abbrev delete_error : Error → Error
  delete_error e =
      if is_repo RepoError.category_not_empty e
      then service ServiceError.category_not_empty
      else if is_repo RepoError.category_not_found e
      then service ServiceError.category_not_found
      else e

  -- `DeleteCategory`
  unfoldable pub delete_category : ℕ → Exec S Unit
  delete_category id = on_error delete_error (repo.delete id)

  abbrev get_error : Error → Error
  get_error e =
      if is_repo RepoError.category_not_found e then service ServiceError.category_not_found else e

  -- `GetCategoryByID`, which may return nil without an error
  unfoldable pub get_category_by_id : ℕ → S → Result (Option Category)
  get_category_by_id id s = map_error get_error (repo.find_by_id id s)

  -- `ListCategories`
  unfoldable pub list_categories : S → Result (List Category)
  list_categories s = repo.find_all s
