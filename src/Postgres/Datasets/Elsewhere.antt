-- ===== src/Postgres/Datasets/Elsewhere.antt =====
-- The repositories of postqbuild that write other tables: they leave the table `datasets` of the
-- first migration as it was.
use dataset_service.Base.{ℕ, ◌≡◌, refl, ◌∙◌, inl, inr, Bool, true, false, some, if◌then◌else◌}
use dataset_service.Exec.{Exec}
use dataset_service.Entities.{
  AccessStatus, Category, DatasetVersion, Notification, Review, Subscription, User,
}
use dataset_service.Postgres.Statements.{done, Pool, Insert, Delete, Statement}
use dataset_service.Postgres.Tables.{str_eq, LawfulPool}
use dataset_service.Postgres.Answers.{Outcome-cases}
use dataset_service.Postgres.Categories
use dataset_service.Postgres.Versions
use dataset_service.Postgres.Notifications
use dataset_service.Postgres.Requests
use dataset_service.Postgres.Reviews
use dataset_service.Postgres.Subscriptions
use dataset_service.Postgres.Subscriptions.{insert_subscription}
use dataset_service.Postgres.Users

-- The foreign keys of `datasets` are declared ON DELETE RESTRICT, and the others refer to it: a
-- deletion from another table leaves its rows alone.
pub record RestrictsDeletions {S : Type 0} {pool : Pool S} (laws : LawfulPool pool) : Type 0 where
  pub deleted_elsewhere :
      (q : Delete) (s : S) (n : ℕ)
      → str_eq q.from "datasets" ≡ false
      → (pool.exec (Statement.delete q) s).0 ≡ done n
      → laws.table (pool.exec (Statement.delete q) s).1 "datasets" ≡ laws.table s "datasets"

module _ {S : Type 0} (pool : Pool S) (laws : LawfulPool pool)
    (restricts : RestrictsDeletions laws) where
  -- A method that leaves the table `datasets` as it was.
  abbrev pub Kept : {A : Type 0} → Exec S A → Type 0
  Kept m = (s : S) → laws.table (m s).1 "datasets" ≡ laws.table s "datasets"

  insert_row-Kept :
      (q : Insert) (s : S)
      → q.suffix ≡ some "RETURNING id"
      → str_eq q.into "datasets" ≡ false
      → laws.table (pool.insert_row q s).1 "datasets" ≡ laws.table s "datasets"
  insert_row-Kept q s returning other = elim (Outcome-cases (pool.insert_row q s).0) [
    | inr (e, broke) ↦ laws.row_not_inserted q s e "datasets" broke
    | inl (vs, ran) ↦
        let (id, only, positive, fresh, rows) = laws.row_inserted q s vs returning ran in
        rows "datasets" ∙ rw other refl
  ]

  statement-Kept :
      (stmt : Statement) (s : S)
      → ((n : ℕ)
          → (pool.exec stmt s).0 ≡ done n
          → laws.table (pool.exec stmt s).1 "datasets" ≡ laws.table s "datasets")
      → laws.table (pool.exec stmt s).1 "datasets" ≡ laws.table s "datasets"
  statement-Kept stmt s ran = elim (Outcome-cases (pool.exec stmt s).0) [
    | inr (e, broke) ↦ laws.not_executed stmt s e "datasets" broke
    | inl (n, worked) ↦ ran n worked
  ]

  -- A statement that inserts elsewhere, updates elsewhere or deletes elsewhere.
  abbrev IsElsewhere : Statement → Type 0
  IsElsewhere (Statement.select q) = ⊥
  IsElsewhere (Statement.insert q) = str_eq q.into "datasets" ≡ false
  IsElsewhere (Statement.update q) = str_eq q.table "datasets" ≡ false
  IsElsewhere (Statement.delete q) = str_eq q.from "datasets" ≡ false

  exec-Kept :
      (stmt : Statement) (s : S)
      → IsElsewhere stmt
      → laws.table (pool.exec stmt s).1 "datasets" ≡ laws.table s "datasets"
  exec-Kept (Statement.select q) s other = absurd other
  exec-Kept (Statement.insert q) s other =
      statement-Kept (Statement.insert q) s
        (λ n ran. laws.rows_inserted q s n "datasets" ran ∙ rw other refl)
  exec-Kept (Statement.update q) s other =
      statement-Kept (Statement.update q) s
        (λ n ran. (laws.rows_updated q s n ran).1 "datasets" ∙ rw other refl)
  exec-Kept (Statement.delete q) s other =
      statement-Kept (Statement.delete q) s (λ n ran. restricts.deleted_elsewhere q s n other ran)

  -- Where the statement was not built, nothing was run.
  if_built :
      {A : Type 0} (built : Bool) (x y : A × S) (s : S)
      → laws.table x.1 "datasets" ≡ laws.table s "datasets"
      → laws.table y.1 "datasets" ≡ laws.table s "datasets"
      → laws.table (if built then x else y).1 "datasets" ≡ laws.table s "datasets"
  if_built true x y s h k = h
  if_built false x y s h k = k

  pub category_create-Kept : (cat : Category) → Kept (Categories.create pool cat)
  unfolding Categories.create
  category_create-Kept cat s = if_built _ _ _ s (insert_row-Kept _ s refl refl) refl

  pub category_update-Kept : (cat : Category) → Kept (Categories.update pool cat)
  unfolding Categories.update
  category_update-Kept cat s = if_built _ _ _ s (exec-Kept _ s refl) refl

  pub category_delete-Kept : (id : ℕ) → Kept (Categories.delete pool id)
  unfolding Categories.delete
  category_delete-Kept id s = if_built _ _ _ s (exec-Kept _ s refl) refl

  pub user_create-Kept : (user : User) → Kept (Users.create pool user)
  unfolding Users.create
  user_create-Kept user s = if_built _ _ _ s (insert_row-Kept _ s refl refl) refl

  pub user_update-Kept : (user : User) → Kept (Users.update pool user)
  unfolding Users.update
  user_update-Kept user s = if_built _ _ _ s (exec-Kept _ s refl) refl

  pub user_delete-Kept : (id : ℕ) → Kept (Users.delete pool id)
  unfolding Users.delete
  user_delete-Kept id s = if_built _ _ _ s (exec-Kept _ s refl) refl

  pub version_create-Kept : (version : DatasetVersion) → Kept (Versions.create pool version)
  unfolding Versions.create
  version_create-Kept version s = if_built _ _ _ s (insert_row-Kept _ s refl refl) refl

  pub version_delete-Kept : (id : ℕ) → Kept (Versions.delete pool id)
  unfolding Versions.delete
  version_delete-Kept id s = if_built _ _ _ s (exec-Kept _ s refl) refl

  pub review_create-Kept : (review : Review) → Kept (Reviews.create pool review)
  unfolding Reviews.create
  review_create-Kept review s = if_built _ _ _ s (insert_row-Kept _ s refl refl) refl

  pub review_update-Kept : (review : Review) → Kept (Reviews.update pool review)
  unfolding Reviews.update
  review_update-Kept review s = if_built _ _ _ s (exec-Kept _ s refl) refl

  pub review_delete-Kept : (id : ℕ) → Kept (Reviews.delete pool id)
  unfolding Reviews.delete
  review_delete-Kept id s = if_built _ _ _ s (exec-Kept _ s refl) refl

  pub notification_create-Kept : (item : Notification) → Kept (Notifications.create pool item)
  unfolding Notifications.create
  notification_create-Kept item s = if_built _ _ _ s (insert_row-Kept _ s refl refl) refl

  pub notification_update-Kept : (item : Notification) → Kept (Notifications.update pool item)
  unfolding Notifications.update
  notification_update-Kept item s = if_built _ _ _ s (exec-Kept _ s refl) refl

  pub subscription_create-Kept : (sub : Subscription) → Kept (Subscriptions.create pool sub)
  unfolding Subscriptions.create
  subscription_create-Kept sub s = if_built _ _ _ s (exec-Kept _ s refl) refl

  pub unsubscribe-Kept :
      (user_id dataset_id : ℕ) → Kept (Subscriptions.unsubscribe pool user_id dataset_id)
  unfolding Subscriptions.unsubscribe
  unsubscribe-Kept user_id dataset_id s = if_built _ _ _ s (exec-Kept _ s refl) refl

  pub update_status-Kept :
      (id : ℕ) (status : AccessStatus) → Kept (Requests.update_status pool id status)
  unfolding Requests.update_status
  update_status-Kept id status s = if_built _ _ _ s (exec-Kept _ s refl) refl
