-- ===== src/Postgres/Tests.antt =====
-- The repositories on databases in memory.
use dataset_service.Base.{
  ◌≡◌, ◌↔◌, refl, Bool, true, false, ◌&&◌, Option, none, some, List, [], ◌∷◌, arith,
}
use dataset_service.Text.{codes, text_eq}
use dataset_service.Entities.{User, AccessRequest, Subscription}
use dataset_service.Exec.{ok, err}
use dataset_service.Errors.{repo, email_already_exists}
use dataset_service.Postgres.Memory
use dataset_service.Errors.{wrap, is_repo, request_not_found}
use dataset_service.Entities.{Dataset}
use dataset_service.Postgres.Statements.{
  Pool, no_rows, cause, select_from, eq, uint, instant, failed,
}
use dataset_service.Postgres.Requests
use dataset_service.Postgres.Datasets
use dataset_service.Postgres.Datasets.RoundTrip.{find_by_id-create}
use dataset_service.Postgres.Requests.Missing.{RaisesNoData, find_by_request_id-not_found}
use dataset_service.Postgres.Tables.{Row, LawfulPool, to_micros, find_row}
use dataset_service.Postgres.Memory.{Db, memory_pool, memory_laws, run, run_insert, next_id}
use dataset_service.Postgres.Memory.Rules.{
  every, every-Among, row_eq, row_eq_sound, distinct, distinct-IsKey, distinct-IsKey_of_two,
}
use dataset_service.Postgres.Users
use dataset_service.Postgres.Users.Refines.{user_row, read_user}
use dataset_service.Postgres.Requests.{request_repo}
use dataset_service.Postgres.Requests.Table.{RequestTable, request_row, read_request}
use dataset_service.Postgres.Requests.Refines.{request_repo-LawfulRequests}
use dataset_service.Postgres.Subscriptions.{subscription_repo}
use dataset_service.Postgres.Subscriptions.Refines.{subscription_repo-LawfulSubscriptions}
use dataset_service.Services.Access.Changes.{LawfulRequests}
use dataset_service.Services.Subscription.Twice.{LawfulSubscriptions}

abbrev holds_user : Row → Option User → Bool
holds_user r none = false
holds_user r (some u) = row_eq r (user_row u)

abbrev valid_users : List Row → Bool
valid_users rows =
    every (λ r. holds_user r (read_user (some r))) rows && distinct ("email" ∷ []) rows

abbrev users_pool : Pool (Db "users" valid_users)
users_pool = memory_pool "users" valid_users

abbrev alice : User
alice = record {
  id = 1;
  username = codes "alice";
  email = codes "a@b.c";
  password = codes "hash";
  registration_date = 10;
  country = codes "";
  is_blocked = false;
  role = codes "user";
}

alice-valid : valid_users (user_row alice ∷ []) ≡ true
unfolding text_eq
alice-valid = refl

abbrev with_alice : Db "users" valid_users
with_alice = (user_row alice ∷ [], alice-valid)

-- A second user with the same address is refused.
create_taken : (Users.create users_pool alice with_alice).0 ≡ err (repo email_already_exists)
unfolding Users.create run_insert Memory.commit text_eq next_id to_micros
create_taken = refl

abbrev holds_request : Row → Option AccessRequest → Bool
holds_request r none = false
holds_request r (some ar) = row_eq r (request_row ar)

holds_request_sound :
    (r : Row) (o : Option AccessRequest)
    → holds_request r o ≡ true
    → (ar : AccessRequest) × (r ≡ request_row ar)
holds_request_sound r none h = absurd (cc)
holds_request_sound r (some ar) h = (ar, row_eq_sound r (request_row ar) h)

abbrev valid_requests : List Row → Bool
valid_requests rows =
    every (λ r. holds_request r (read_request (some r))) rows
    && distinct ("id" ∷ []) rows
    && distinct ("dataset_id" ∷ "user_id" ∷ []) rows

abbrev requests_pool : Pool (Db "access_requests" valid_requests)
requests_pool = memory_pool "access_requests" valid_requests

abbrev requests_laws : LawfulPool requests_pool
requests_laws = memory_laws "access_requests" valid_requests

requests_table : RequestTable requests_laws
unfolding memory_laws
requests_table = record {
  typed = λ s r among.
      holds_request_sound r (read_request (some r))
        (every-Among (λ r. holds_request r (read_request (some r))) r s.0 (ground arith) among);
  primary_key = λ s. distinct-IsKey "id" s.0 (ground arith);
  unique_pair = λ s. distinct-IsKey_of_two "dataset_id" "user_id" s.0 (ground arith);
}

request_repo-LawfulRequests_example : LawfulRequests (request_repo requests_pool)
request_repo-LawfulRequests_example =
    request_repo-LawfulRequests requests_pool requests_laws requests_table

subscription_repo-LawfulSubscriptions_example :
    LawfulSubscriptions
      (subscription_repo (memory_pool "subscriptions" (distinct ("user_id" ∷ "dataset_id" ∷ []))))
subscription_repo-LawfulSubscriptions_example =
    subscription_repo-LawfulSubscriptions
      (memory_pool "subscriptions" (distinct ("user_id" ∷ "dataset_id" ∷ [])))
      (memory_laws "subscriptions" (distinct ("user_id" ∷ "dataset_id" ∷ [])))

abbrev cats : Dataset
cats = record {
  id = 0;
  name = codes "cats";
  description = [];
  owner_id = 7;
  created_at = 1234;
  category_id = 1;
  is_public = true;
}

abbrev any_rows : List Row → Bool
any_rows rows = true

abbrev datasets_pool : Pool (Db "datasets" any_rows)
datasets_pool = memory_pool "datasets" any_rows

cats_created : (Datasets.create datasets_pool cats ([], refl)).0 ≡ ok (record cats { id = 1 })
unfolding Datasets.create run_insert Memory.commit next_id
cats_created = refl

cats_found :
    Datasets.find_by_id datasets_pool 1 (Datasets.create datasets_pool cats ([], refl)).1
    ≡ ok (some (record cats { id = 1; created_at = 1000 }))
unfolding Datasets.create Datasets.find_by_id run_insert Memory.commit next_id find_row to_micros
cats_found = refl

find_by_id-create_example :
    (some (record cats { id = 1; created_at = 1000 })
      ≡ some (record cats { id = 1; created_at = to_micros 1234 }))
    × (false ≡ false)
find_by_id-create_example =
    find_by_id-create datasets_pool (memory_laws "datasets" any_rows) cats (record cats { id = 1 })
      ([], refl) (some (record cats { id = 1; created_at = 1000 })) cats_created cats_found

abbrev no_requests : Db "access_requests" valid_requests
no_requests = ([], refl)

no_request :
    Requests.find_by_request_id requests_pool 4 no_requests
    ≡ err (wrap "find access_request by id: %w" (cause no_rows))
unfolding Requests.find_by_request_id find_row
no_request = refl

find_by_request_id-not_found_example :
    ((is_repo request_not_found (wrap "find access_request by id: %w" (cause no_rows)) ≡ true)
      ↔ RaisesNoData requests_pool 4 no_requests)
    × (requests_pool.query_row
            (select_from Requests.request_columns "access_requests" (eq "id" (uint 4)))
            no_requests
          ≡ failed no_rows
        → is_repo request_not_found (wrap "find access_request by id: %w" (cause no_rows)) ≡ false)
find_by_request_id-not_found_example =
    find_by_request_id-not_found requests_pool 4 no_requests
      (wrap "find access_request by id: %w" (cause no_rows)) no_request

abbrev subscriptions_pool : Pool (Db "subscriptions" any_rows)
subscriptions_pool = memory_pool "subscriptions" any_rows

abbrev one_subscriber : Db "subscriptions" any_rows
one_subscriber =
    ((("user_id", uint 7) ∷ ("dataset_id", uint 5) ∷ ("created_at", instant 3) ∷ []) ∷ [], refl)

abbrev seven : Subscription
seven = record { id = 0; user_id = 7; dataset_id = 5; created_at = 3 }
