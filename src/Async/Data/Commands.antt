-- ===== src/Async/Data/Commands.antt =====
-- cmd/data/main.go: the commands on categories, users, datasets and versions. A command returns the
-- payload of its answer, or the error that `publishError` sends.
use dataset_service.Base.{ℕ, String, Bool, true, Option, none, some, [], ◌∷◌, if◌then◌else◌}
use dataset_service.Text.{Text, is_empty}
use dataset_service.Exec.{Exec, pure, read, lift, ◌>>=◌}
use dataset_service.Entities.{
  User, Dataset, new_category, new_user, new_dataset, new_dataset_version,
}
use dataset_service.Async.Contracts.{
  Field, boolean, Fields, uint, get_field, get_number, get_text, get_flag, category_create_fields,
  category_update_fields, user_create_fields, user_update_fields, dataset_create_fields,
  dataset_update_fields, version_add_fields, version_delete_fields, id_fields,
}
use dataset_service.Async.Data.{Repos, decoded, fail}

abbrev pub new_id : ℕ → Fields
new_id n = ("id", uint n) ∷ []

abbrev pub success : String → Fields
success k = (k, boolean true) ∷ []

abbrev given : Text → Text → Text
given new old = if is_empty new then old else new

abbrev block_or : Field → Bool → Bool
block_or (boolean b) old = b
block_or _ old = old

abbrev pub found : {A S : Type 0} → String → Option A → Exec S A
found text none = lift (fail text)
found text (some a) = pure a

-- What `handleUserUpdate` writes into the user that it has read.
abbrev user_with : Fields → User → User
user_with req u = record u {
  username = given (get_text "username" req) u.username;
  email = given (get_text "email" req) u.email;
  country = given (get_text "country" req) u.country;
  role = given (get_text "role" req) u.role;
  is_blocked = block_or (get_field "block" req) u.is_blocked;
}

abbrev pub dataset_with : Fields → Dataset → Dataset
dataset_with req ds = record ds {
  name = get_text "name" req;
  description = get_text "description" req;
  category_id = get_number "category_id" req;
  is_public = get_flag "is_public" req;
}

-- `at` and `now` are the readings of the clock by the handler and by the constructor of the entity.
module _ {S : Type 0} (repos : Repos S) (at now : ℕ) (payload : Option Fields) where
  open repos use {categories, datasets, versions, users}

  unfoldable pub category_create : Exec S Fields
  unfolding decoded
  category_create = do
    req ← lift (decoded "invalid category" [] category_create_fields payload)
    cat ← lift (new_category (get_text "name" req) (get_text "description" req))
    created ← categories.create cat
    pure (new_id created.id)

  unfoldable pub category_update : Exec S Fields
  unfolding decoded
  category_update = do
    req ← lift (decoded "invalid category" ("id" ∷ []) category_update_fields payload)
    cat ← lift (new_category (get_text "name" req) (get_text "description" req))
    _ ← categories.update (record cat { id = get_number "id" req })
    pure (success "updated")

  unfoldable pub category_delete : Exec S Fields
  unfolding decoded
  category_delete = do
    req ← lift (decoded "invalid category id" ("id" ∷ []) (id_fields "id") payload)
    _ ← categories.delete (get_number "id" req)
    pure (success "deleted")

  unfoldable pub user_create : Exec S Fields
  unfolding decoded
  user_create = do
    req ← lift (decoded "invalid user" [] user_create_fields payload)
    u ← lift (
        new_user (get_text "username" req) (get_text "email" req) (get_text "password" req)
          (get_text "country" req) (get_text "role" req) at now)
    created ← users.create u
    pure (new_id created.id)

  unfoldable pub user_update : Exec S Fields
  unfolding decoded
  user_update = do
    req ← lift (decoded "invalid user" ("id" ∷ []) user_update_fields payload)
    stored ← read (users.find_by_id (get_number "id" req))
    u ← found "user not found" stored
    _ ← users.update (user_with req u)
    pure (success "updated")

  unfoldable pub user_delete : Exec S Fields
  unfolding decoded
  user_delete = do
    req ← lift (decoded "invalid user id" ("id" ∷ []) (id_fields "id") payload)
    _ ← users.delete (get_number "id" req)
    pure (success "deleted")

  unfoldable pub dataset_create : Exec S Fields
  unfolding decoded
  dataset_create = do
    req ← lift (decoded "invalid dataset payload" [] dataset_create_fields payload)
    ds ← lift (
        new_dataset (get_text "name" req) (get_text "description" req) (get_number "owner_id" req)
          (get_number "category_id" req) (get_flag "is_public" req) at now)
    created ← datasets.create ds
    pure (new_id created.id)

  unfoldable pub dataset_update : Exec S Fields
  unfolding decoded
  dataset_update = do
    req ← lift (decoded "invalid dataset payload" ("id" ∷ []) dataset_update_fields payload)
    stored ← read (datasets.find_by_id (get_number "id" req))
    existing ← found "dataset not found" stored
    _ ← datasets.update (dataset_with req existing)
    pure (success "updated")

  unfoldable pub dataset_delete : Exec S Fields
  unfolding decoded
  dataset_delete = do
    req ← lift (decoded "invalid dataset id" ("id" ∷ []) (id_fields "id") payload)
    _ ← datasets.delete (get_number "id" req)
    pure (success "deleted")

  unfoldable pub version_add : Exec S Fields
  unfolding decoded
  version_add = do
    req ← lift (decoded "invalid version payload" ("dataset_id" ∷ []) version_add_fields payload)
    ver ← lift (
        new_dataset_version (get_text "number" req) (get_text "filepath" req)
          (get_text "change_log" req) (get_number "dataset_id" req) at now)
    created ← versions.create ver
    pure (new_id created.id)

  unfoldable pub version_delete : Exec S Fields
  unfolding decoded
  version_delete = do
    req ← lift (decoded "invalid version id" ("version_id" ∷ []) version_delete_fields payload)
    _ ← versions.delete (get_number "version_id" req)
    pure (success "deleted")
