-- ===== src/Postgres/Subscriptions/Refines.antt =====
-- postqbuild/subscription_repo.go over a database: who is subscribed to what.
use dataset_service.Base.{
  ℕ, ◌≡◌, refl, sym, ap, ◌∙◌, inl, inr, Bool, true, false, ◌&&◌, ◌||◌, some, List, [], ◌∷◌, arith,
  ◌==◌, if◌then◌else◌, Bool-cases,
}
use dataset_service.Errors.{repo, wrap, RepoError}
use dataset_service.Exec.{ok}
use dataset_service.Entities.{Subscription}
use dataset_service.Postgres.Statements.{
  Value, uint, int, text, flag, instant, null, Pool, Select, Delete, select_from, delete_where,
  cause, Statement, insert,
}
use dataset_service.Postgres.Tables.{
  Row, column, inserted_row, find_row, remove, LawfulPool, matches, is_found, find_row-of_Among,
  find_row-remove_other, find_row-remove_self,
}
use dataset_service.Postgres.Answers.{
  Outcome-cases, value_eq-uint_inj, find_one-eq-ok, change_rows-eq-ok,
}
use dataset_service.Postgres.Subscriptions.{
  scan_one, key_of, unbuilt, insert_subscription, create, is_subscribed, unsubscribe,
  subscription_repo,
}
use dataset_service.Services.Subscription.Twice.{LawfulSubscriptions}

-- A row has one key.
key_of-inj :
    (r : Row) (a b u d : ℕ)
    → matches (key_of a b) r ≡ true
    → matches (key_of u d) r ≡ true
    → (a ≡ u) × (b ≡ d)
key_of-inj r a b u d p q = (
  value_eq-uint_inj (column "user_id" r) a u (ground arith) (ground arith),
  value_eq-uint_inj (column "dataset_id" r) b d (ground arith) (ground arith),
)

scan_one-true : (vs : List Value) (b : Bool) → scan_one vs ≡ some b → b ≡ true
scan_one-true [] b h = absurd (cc)
scan_one-true (int n ∷ []) b h = cc
scan_one-true (int n ∷ y ∷ zs) b h = absurd (cc)
scan_one-true (uint n ∷ zs) b h = absurd (cc)
scan_one-true (text n ∷ zs) b h = absurd (cc)
scan_one-true (flag n ∷ zs) b h = absurd (cc)
scan_one-true (instant n ∷ zs) b h = absurd (cc)
scan_one-true (null ∷ zs) b h = absurd (cc)

find_row-new :
    (sub : Subscription) (u d : ℕ) (rows : List Row)
    → is_found (
        find_row
          (key_of u d)
          (inserted_row (insert_subscription sub).columns (insert_subscription sub).values ∷ rows))
      ≡ ((sub.user_id == u && sub.dataset_id == d) || is_found (find_row (key_of u d) rows))
unfolding find_row
find_row-new sub u d rows = ground arith

found-remove :
    (a b u d : ℕ) (rows : List Row)
    → is_found (find_row (key_of u d) (remove (key_of a b) rows))
      ≡ (if a == u && b == d then false else is_found (find_row (key_of u d) rows))
found-remove a b u d rows = elim (Bool-cases (a == u && b == d)) [
  | inl same ↦
      let e : a ≡ u = ground arith in
      let f : b ≡ d = ground arith in
      rw same (rw (e, f) (ap is_found (find_row-remove_self (key_of u d) rows)))
  | inr other ↦ rw other (
      ap is_found (
        find_row-remove_other (key_of a b) (key_of u d) rows
          (λ r p q. let (e, f) = key_of-inj r a b u d p q in absurd (ground arith))))
]

module _ {S : Type 0} (pool : Pool S) (laws : LawfulPool pool) where
  abbrev has_row : S → ℕ → ℕ → Bool
  has_row s u d = is_found (find_row (key_of u d) (laws.table s "subscriptions"))

  abbrev select_one : ℕ → ℕ → Select
  select_one u d = record (select_from ("1" ∷ []) "subscriptions" (key_of u d)) { limit = some 1 }

  answered :
      (user_id dataset_id : ℕ) (s : S) (b : Bool)
      → is_subscribed pool user_id dataset_id s ≡ ok b
      → has_row s user_id dataset_id ≡ b
  unfolding is_subscribed
  answered user_id dataset_id s b h =
      elim (find_one-eq-ok scan_one pool (select_one user_id dataset_id)
        (unbuilt "build is_subscribed sql: %w") (ok false) (λ e. wrap "is subscribed: %w" (cause e))
        s b h) [
          | inl (vs, ran, fits) ↦
              let (r, among, meets, values) =
                laws.row_found (select_one user_id dataset_id) s vs refl ran in
              find_row-of_Among (key_of user_id dataset_id) r (laws.table s "subscriptions") among
                meets
              ∙ sym (scan_one-true vs b fits)
          | inr (ran, e) ↦ rw (laws.row_missing (select_one user_id dataset_id) s refl ran) (cc)
        ]

  created :
      (sub new : Subscription) (s : S)
      → (create pool sub s).0 ≡ ok new
      → let t = (create pool sub s).1 in
        (u d : ℕ) → has_row t u d ≡ ((sub.user_id == u && sub.dataset_id == d) || has_row s u d)
  unfolding create
  created sub new s h u d = elim (Bool-cases (pool.to_sql (insert (insert_subscription sub)))) [
    | inr no_sql ↦ absurd (ground arith)
    | inl built ↦ elim (Outcome-cases (pool.exec (insert (insert_subscription sub)) s).0) [
      | inr (e, broke) ↦ absurd (ground arith)
      | inl (n, ran) ↦
          rw (built, laws.rows_inserted (insert_subscription sub) s n "subscriptions" ran)
            (find_row-new sub u d (laws.table s "subscriptions"))
    ]
  ]

  abbrev delete_key : ℕ → ℕ → Delete
  delete_key u d = delete_where "subscriptions" (key_of u d)

  removed :
      (user_id dataset_id : ℕ) (s : S)
      → (unsubscribe pool user_id dataset_id s).0 ≡ ok tt
      → let t = (unsubscribe pool user_id dataset_id s).1 in
        (u d : ℕ)
        → has_row t u d ≡ (if user_id == u && dataset_id == d then false else has_row s u d)
  unfolding unsubscribe
  removed user_id dataset_id s h u d =
      let (n, ran, some_row, after) =
        change_rows-eq-ok pool (Statement.delete (delete_key user_id dataset_id))
          (unbuilt "build delete subscription sql: %w") (λ e. wrap "unsubscribe: %w" (cause e))
          (repo RepoError.subscription_not_found) s h in
      rw (after, (laws.rows_deleted (delete_key user_id dataset_id) s n ran).1)
        (found-remove user_id dataset_id u d (laws.table s "subscriptions"))

  -- The subscription repository over PostgreSQL keeps the promises that the subscription service
  -- relies on.
  pub subscription_repo-LawfulSubscriptions : LawfulSubscriptions (subscription_repo pool)
  subscription_repo-LawfulSubscriptions = record {
    has = has_row;
    answered = answered;
    created = created;
    removed = removed;
  }
