-- ===== src/Async/Data/Quiet/Entities.antt =====
-- cmd/data/main.go over postqbuild: the commands on categories, users and versions leave the stored
-- datasets as they were.
use dataset_service.Base.{ℕ, Option, [], ◌∷◌}
use dataset_service.Exec.{ok, Exec}
use dataset_service.Entities.{
  Category, DatasetVersion, User, new_category, new_user, new_dataset_version,
}
use dataset_service.Postgres.Statements.{Pool}
use dataset_service.Postgres.Tables.{LawfulPool}
use dataset_service.Postgres.Datasets.Elsewhere.{
  RestrictsDeletions, category_create-Kept, category_delete-Kept, category_update-Kept,
  user_create-Kept, user_delete-Kept, user_update-Kept, version_create-Kept, version_delete-Kept,
}
use dataset_service.Async.Contracts.{
  Fields, get_number, get_text, category_create_fields, category_update_fields, user_create_fields,
  user_update_fields, version_add_fields, version_delete_fields, id_fields,
}
use dataset_service.Async.Data.{Repos, postgres_repos, decoded}
use dataset_service.Async.Data.Commands.{
  new_id, success, category_create, category_update, category_delete, user_create, user_update,
  user_delete, version_add, version_delete,
}
use dataset_service.Async.Data.Quiet.{Keeps, step, same, lifted, found-Keeps}

module _ {S : Type 0} (pool : Pool S) (laws : LawfulPool pool) (restricts : RestrictsDeletions laws)
    (at now : ℕ) (payload : Option Fields) where
  abbrev repos : Repos S
  repos = postgres_repos pool

  abbrev IsQuiet : Exec S Fields → Type 0
  IsQuiet m = Keeps pool laws restricts m

  pub category_create-Keeps : IsQuiet (category_create repos at now payload)
  unfolding category_create
  category_create-Keeps =
      step {A = Fields} (lifted (decoded "invalid category" [] category_create_fields payload))
        (λ req.
          step {A = Category}
            (lifted (new_category (get_text "name" req) (get_text "description" req)))
            (λ cat.
              step {A = Category} (record { kept = category_create-Kept pool laws restricts _ })
                (λ created. lifted (ok (new_id created.id)))))

  pub category_update-Keeps : IsQuiet (category_update repos at now payload)
  unfolding category_update
  category_update-Keeps =
      step {A = Fields}
        (lifted (decoded "invalid category" ("id" ∷ []) category_update_fields payload))
        (λ req.
          step {A = Category}
            (lifted (new_category (get_text "name" req) (get_text "description" req)))
            (λ cat.
              step {A = Unit} (record { kept = category_update-Kept pool laws restricts _ })
                (λ _. lifted (ok (success "updated")))))

  pub category_delete-Keeps : IsQuiet (category_delete repos at now payload)
  unfolding category_delete
  category_delete-Keeps =
      step {A = Fields}
        (lifted (decoded "invalid category id" ("id" ∷ []) (id_fields "id") payload))
        (λ req.
          step {A = Unit} (record { kept = category_delete-Kept pool laws restricts _ })
            (λ _. lifted (ok (success "deleted"))))

  pub user_create-Keeps : IsQuiet (user_create repos at now payload)
  unfolding user_create
  user_create-Keeps =
      step {A = Fields} (lifted (decoded "invalid user" [] user_create_fields payload)) (λ req.
        step {A = User}
          (lifted (
            new_user (get_text "username" req) (get_text "email" req) (get_text "password" req)
              (get_text "country" req) (get_text "role" req) at now))
          (λ u.
            step {A = User} (record { kept = user_create-Kept pool laws restricts _ })
              (λ created. lifted (ok (new_id created.id)))))

  pub user_update-Keeps : IsQuiet (user_update repos at now payload)
  unfolding user_update
  user_update-Keeps =
      step {A = Fields} (lifted (decoded "invalid user" ("id" ∷ []) user_update_fields payload))
        (λ req.
          step {A = Option User} (same {r = (repos.users.find_by_id (get_number "id" req))})
            (λ stored. step {A = User} (found-Keeps "user not found" stored) (λ u.
              step {A = Unit} (record { kept = user_update-Kept pool laws restricts _ })
                (λ _. lifted (ok (success "updated"))))))

  pub user_delete-Keeps : IsQuiet (user_delete repos at now payload)
  unfolding user_delete
  user_delete-Keeps =
      step {A = Fields} (lifted (decoded "invalid user id" ("id" ∷ []) (id_fields "id") payload))
        (λ req.
          step {A = Unit} (record { kept = user_delete-Kept pool laws restricts _ })
            (λ _. lifted (ok (success "deleted"))))

  pub version_add-Keeps : IsQuiet (version_add repos at now payload)
  unfolding version_add
  version_add-Keeps =
      step {A = Fields}
        (lifted (decoded "invalid version payload" ("dataset_id" ∷ []) version_add_fields payload))
        (λ req.
          step {A = DatasetVersion}
            (lifted (
              new_dataset_version (get_text "number" req) (get_text "filepath" req)
                (get_text "change_log" req) (get_number "dataset_id" req) at now))
            (λ ver.
              step {A = DatasetVersion}
                (record { kept = version_create-Kept pool laws restricts _ })
                (λ created. lifted (ok (new_id created.id)))))

  pub version_delete-Keeps : IsQuiet (version_delete repos at now payload)
  unfolding version_delete
  version_delete-Keeps =
      step {A = Fields}
        (lifted (decoded "invalid version id" ("version_id" ∷ []) version_delete_fields payload))
        (λ req.
          step {A = Unit} (record { kept = version_delete-Kept pool laws restricts _ })
            (λ _. lifted (ok (success "deleted"))))
