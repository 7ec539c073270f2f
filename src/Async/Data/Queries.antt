-- ===== src/Async/Data/Queries.antt =====
-- cmd/data/main.go: the commands that only read.
use dataset_service.Base.{Bool, true, false, Option, none, some, List, [], ◌∷◌}
use dataset_service.Base.Time.{pos}
use dataset_service.Exec.{Result, ok, err}
use dataset_service.Entities.{Dataset}
use dataset_service.Async.Contracts.{
  Field, number, dataset, version, user, request, categories, datasets, versions, notifications,
  requests, null, Fields, get_field, get_number, get_flag, decode_each, dataset_list_fields,
  access_find_fields, id_fields,
}
use dataset_service.Async.Data.{Repos, decoded}

module _ {A B : Type 0} where
  infixl 10 ◌>>=◌
  abbrev ◌>>=◌ : Result A → (A → Result B) → Result B
  ok a >>= f = f a
  err e >>= f = err e

-- A pointer in a response; `omitempty` leaves a nil pointer out, which is read as nil again.
abbrev pointer_field : {A : Type 0} → (A → Field) → Option A → Field
pointer_field f none = null
pointer_field f (some a) = f a

-- The request of `handleDatasetList`, which ignores errors.
abbrev list_request : Option Fields → Fields
list_request none = decode_each dataset_list_fields []
list_request (some payload) = decode_each dataset_list_fields payload

module _ {S : Type 0} (repos : Repos S) (payload : Option Fields) where
  unfoldable pub category_list : S → Result Fields
  category_list s = do list ← repos.categories.find_all s; ok (("categories", categories list) ∷ [])

  unfoldable pub user_get : S → Result Fields
  unfolding decoded
  user_get s = do
    req ← decoded "invalid user id" ("id" ∷ []) (id_fields "id") payload
    found ← repos.users.find_by_id (get_number "id" req) s
    ok (("user", pointer_field user found) ∷ [])

  abbrev select_datasets : Field → Bool → S → Result (List Dataset)
  select_datasets (number (pos owner)) only_public s = repos.datasets.find_by_user_id owner s
  select_datasets _ true s = repos.datasets.find_public s
  select_datasets _ false s = repos.datasets.find_all s

  unfoldable pub dataset_list : S → Result Fields
  unfolding decode_each
  dataset_list s =
      let req = list_request payload in
      select_datasets (get_field "owner_id" req) (get_flag "only_public" req) s >>= λ list.
      ok (("datasets", datasets list) ∷ [])

  unfoldable pub dataset_get : S → Result Fields
  unfolding decoded
  dataset_get s = do
    req ← decoded "invalid dataset id" ("id" ∷ []) (id_fields "id") payload
    found ← repos.datasets.find_by_id (get_number "id" req) s
    ok (("dataset", pointer_field dataset found) ∷ [])

  unfoldable pub versions_list : S → Result Fields
  unfolding decoded
  versions_list s = do
    req ← decoded "invalid dataset id" ("dataset_id" ∷ []) (id_fields "dataset_id") payload
    list ← repos.versions.find_by_dataset_id (get_number "dataset_id" req) s
    ok (("versions", versions list) ∷ [])

  unfoldable pub version_get : S → Result Fields
  unfolding decoded
  version_get s = do
    req ← decoded "invalid version id" ("version_id" ∷ []) (id_fields "version_id") payload
    found ← repos.versions.find_by_id (get_number "version_id" req) s
    ok (("version", pointer_field version found) ∷ [])

  unfoldable pub notifications_list : S → Result Fields
  unfolding decoded
  notifications_list s = do
    req ← decoded "invalid user id" ("user_id" ∷ []) (id_fields "user_id") payload
    list ← repos.notifications.find_by_user_id (get_number "user_id" req) s
    ok (("notifications", notifications list) ∷ [])

  unfoldable pub access_pending : S → Result Fields
  unfolding decoded
  access_pending s = do
    req ← decoded "invalid owner id" ("owner_id" ∷ []) (id_fields "owner_id") payload
    list ← repos.access.list_pending_by_owner (get_number "owner_id" req) s
    ok (("requests", requests list) ∷ [])

  unfoldable pub access_find : S → Result Fields
  unfolding decoded
  access_find s = do
    req ← decoded "invalid ids" ("dataset_id" ∷ "user_id" ∷ []) access_find_fields payload
    found ← repos.access.find (get_number "dataset_id" req) (get_number "user_id" req) s
    ok (("request", pointer_field request found) ∷ [])
