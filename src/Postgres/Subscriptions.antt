-- ===== src/Postgres/Subscriptions.antt =====
-- postqbuild/subscription_repo.go: the subscriptions, whose key is the pair of user and dataset.
pub mod Refines
pub mod Scanning
use dataset_service.Base.{
  ℕ, Bool, true, false, String, Option, none, some, List, [], ◌∷◌, ◌++◌, if◌then◌else◌,
}
use dataset_service.Base.Time.{ℤ}
use dataset_service.Text.{Text, codes, text_eq}
use dataset_service.Errors.{
  Error, RepoError, repo, wrap, annotate, already_subscribed, subscription_not_found,
}
use dataset_service.Exec.{Result, ok, err, Exec, pure}
use dataset_service.Entities.{Subscription}
use dataset_service.Postgres.Statements.{
  Value, uint, int, text, flag, instant, DbError, no_rows, pg_error, failure, cause, Outcome, done,
  failed, Pool, Statement, select, insert, Select, Insert, select_from, insert_returning_id,
  update_where, delete_where, eq,
}
use dataset_service.Postgres.Methods.{
  has_code, pointer, scan_error, scan_row, find_one, find_many, change_rows, insert_row,
}
use dataset_service.Repositories.{SubscriptionRepository}

-- `row.toEntity()` after the `Scan` of a row, which has no number.
abbrev pub scan_subscription : List Value → Option Subscription
scan_subscription (uint user_id ∷ uint dataset_id ∷ instant created_at ∷ []) =
    some (record { id = 0; user_id = user_id; dataset_id = dataset_id; created_at = created_at })
scan_subscription _ = none

-- `Scan(&dummy)`
abbrev pub scan_one : List Value → Option Bool
scan_one (int n ∷ []) = some true
scan_one _ = none

abbrev pub subscription_columns : List String
subscription_columns = "user_id" ∷ "dataset_id" ∷ "created_at" ∷ []

abbrev pub key_of : ℕ → ℕ → List (String × Value)
key_of user_id dataset_id = ("user_id", uint user_id) ∷ ("dataset_id", uint dataset_id) ∷ []

abbrev pub insert_subscription : Subscription → Insert
insert_subscription sub = record {
  into = "subscriptions";
  columns = subscription_columns;
  values = uint sub.user_id ∷ uint sub.dataset_id ∷ instant sub.created_at ∷ [];
  suffix = none;
}

-- What `ToSql` fails with.
abbrev pub unbuilt : String → Error
unbuilt what = wrap what (cause scan_error)

module _ {S : Type 0} (pool : Pool S) where
  abbrev create_failure : DbError → Error
  create_failure e =
      if has_code "23505" e then repo already_subscribed else wrap "subscribe: %w" (cause e)

  abbrev created : Subscription → Outcome ℕ → Result Subscription
  created sub (done n) = ok sub
  created sub (failed e) = err (create_failure e)

  unfoldable pub create : Subscription → Exec S Subscription
  create sub s =
      let (outcome, t) = pool.exec (insert (insert_subscription sub)) s in
      if pool.to_sql (insert (insert_subscription sub))
      then (created sub outcome, t)
      else (err (unbuilt "build insert subscription sql: %w"), s)

  unfoldable pub unsubscribe : ℕ → ℕ → Exec S Unit
  unsubscribe user_id dataset_id s =
      change_rows pool (Statement.delete (delete_where "subscriptions" (key_of user_id dataset_id)))
        (unbuilt "build delete subscription sql: %w") (λ e. wrap "unsubscribe: %w" (cause e))
        (repo subscription_not_found) s

  unfoldable pub is_subscribed : ℕ → ℕ → S → Result Bool
  is_subscribed user_id dataset_id s =
      find_one scan_one pool
        (record (select_from ("1" ∷ []) "subscriptions" (key_of user_id dataset_id)) {
          limit = some 1;
        })
        (unbuilt "build is_subscribed sql: %w") (ok false) (λ e. wrap "is subscribed: %w" (cause e))
        s

  unfoldable pub get_subscribers : ℕ → S → Result (List Subscription)
  get_subscribers dataset_id s =
      find_many scan_subscription pool
        (select_from subscription_columns "subscriptions" (eq "dataset_id" (uint dataset_id)))
        (unbuilt "build get subscribers sql: %w") (λ e. wrap "get subscribers: %w" (cause e))
        (λ e. wrap "scan subscriber row: %w" (cause e))
        (λ e. wrap "iterate subscriber rows: %w" (cause e)) s

  unfoldable pub get_by_user : ℕ → S → Result (List Subscription)
  get_by_user user_id s =
      find_many scan_subscription pool
        (select_from subscription_columns "subscriptions" (eq "user_id" (uint user_id)))
        (unbuilt "build get subscriptions by user sql: %w")
        (λ e. wrap "get_subscriptions_by_user: %w" (cause e))
        (λ e. wrap "scan subscription: %w" (cause e))
        (λ e. wrap "iterate subscription rows: %w" (cause e)) s

  -- `Delete`, which the interface does not have.
  unfoldable pub delete : ℕ → ℕ → Exec S Unit
  delete user_id dataset_id s =
      change_rows pool (Statement.delete (delete_where "subscriptions" (key_of user_id dataset_id)))
        (unbuilt "build delete subscription sql: %w")
        (λ e. wrap "delete subscription: %w" (cause e)) (repo subscription_not_found) s

  unfoldable pub get_all : S → Result (List Subscription)
  get_all s =
      find_many scan_subscription pool
        (record (select_from subscription_columns "subscriptions" []) {
          order_by = some "created_at DESC";
        })
        (unbuilt "build get all subscriptions sql: %w")
        (λ e. wrap "get all subscriptions: %w" (cause e))
        (λ e. wrap "scan subscription row: %w" (cause e))
        (λ e. wrap "iterate subscription rows: %w" (cause e)) s

  -- `SubscriptionRepo` as a `SubscriptionRepository`.
  abbrev pub subscription_repo : SubscriptionRepository S
  subscription_repo = record {
    create = create;
    is_subscribed = is_subscribed;
    get_subscribers = get_subscribers;
    unsubscribe = unsubscribe;
    get_by_user = get_by_user;
    get_all = get_all;
  }
