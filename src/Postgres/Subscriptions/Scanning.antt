-- ===== src/Postgres/Subscriptions/Scanning.antt =====
-- postqbuild/subscription_repo.go: the lists that the loops over rows give.
use dataset_service.Base.{
  ℕ, ◌≡◌, ◌↔◌, refl, inl, inr, true, Option, none, some, List, [], ◌∷◌, map, arith, Bool-cases,
  Option-cases,
}
use dataset_service.Errors.{Error, wrap}
use dataset_service.Exec.{Result, ok, err}
use dataset_service.Entities.{Subscription}
use dataset_service.Postgres.Statements.{
  DbError, Value, Pool, Cursor, Select, done, uint, eq, select, select_from, cause,
}
use dataset_service.Postgres.Methods.{scan_all, prepend}
use dataset_service.Postgres.Answers.{Outcome-cases}
use dataset_service.Postgres.Subscriptions.{
  scan_subscription, subscription_columns, get_subscribers,
}

module _ {A : Type 0} (scan : List Value → Option A) (unscanned cut : DbError → Error) where
  prepend-eq-ok :
      (a : A) (r : Result (List A)) (xs : List A)
      → prepend scan a r ≡ ok xs
      → (ys : List A) × (r ≡ ok ys) × (xs ≡ a ∷ ys)
  prepend-eq-ok a (ok ys) xs h = (ys, refl, cc)
  prepend-eq-ok a (err e) xs h = absurd (cc)

  -- A list comes back exactly when every row fits and the rows did not break off, and it has them all.
  pub scan_all-eq-ok :
      (end : Option DbError) (rows : List (List Value)) (xs : List A)
      → scan_all scan unscanned cut end rows ≡ ok xs
      → (end ≡ none) × (map scan rows ≡ map some xs)
  unfolding scan_all
  scan_all-eq-ok none [] xs h = let e : xs ≡ [] = cc in (refl, rw e refl)
  scan_all-eq-ok (some e) [] xs h = absurd (cc)
  scan_all-eq-ok end (vs ∷ rows) xs h = elim (Option-cases (scan vs)) [
    | inl unfit ↦ absurd (ground arith)
    | inr (a, fits) ↦
        let (ys, rest, e) =
          prepend-eq-ok a (scan_all scan unscanned cut end rows) xs (rw fits at h) in
        let (whole, all) = scan_all-eq-ok end rows ys rest in (whole, rw (e, fits, all) refl)
  ]

  pub scan_all-of_all :
      (rows : List (List Value)) (xs : List A)
      → map scan rows ≡ map some xs
      → scan_all scan unscanned cut none rows ≡ ok xs
  unfolding scan_all
  scan_all-of_all [] [] h = refl
  scan_all-of_all [] (x ∷ xs) h = absurd (cc)
  scan_all-of_all (vs ∷ rows) [] h = absurd (cc)
  scan_all-of_all (vs ∷ rows) (x ∷ xs) h =
      let fits : scan vs ≡ some x = cc in rw (fits, scan_all-of_all rows xs (cc)) refl

module _ {S : Type 0} (pool : Pool S) where
  abbrev select_subscribers : ℕ → Select
  select_subscribers dataset_id =
      select_from subscription_columns "subscriptions" (eq "dataset_id" (uint dataset_id))

  -- `GetSubscribers` answers with a list exactly when the statement could be built and was run,
  -- its rows came to their end without an error, and each of them could be scanned; the list then
  -- holds every row, in order.
  pub get_subscribers-eq-ok :
      (dataset_id : ℕ) (s : S) (xs : List Subscription)
      → (get_subscribers pool dataset_id s ≡ ok xs) ↔ (
          (pool.to_sql (select (select_subscribers dataset_id)) ≡ true)
          × (c : Cursor) × (pool.query (select_subscribers dataset_id) s ≡ done c)
          × (c.failed_with ≡ none)
          × (map scan_subscription c.rows ≡ map some xs))
  unfolding get_subscribers
  get_subscribers-eq-ok dataset_id s xs = (
    λ h. elim (Bool-cases (pool.to_sql (select (select_subscribers dataset_id)))) [
      | inr unbuilt ↦ absurd (ground arith)
      | inl built ↦ elim (Outcome-cases (pool.query (select_subscribers dataset_id) s)) [
        | inr (e, broke) ↦ absurd (ground arith)
        | inl (c, ran) ↦
            let (whole, all) =
              scan_all-eq-ok scan_subscription (λ e. wrap "scan subscriber row: %w" (cause e))
                (λ e. wrap "iterate subscriber rows: %w" (cause e)) c.failed_with c.rows xs
                (rw (built, ran) at h) in
            (built, c, ran, whole, all)
      ]
    ],
    λ (built, c, ran, whole, all).
        rw (built, ran, whole) (scan_all-of_all scan_subscription _ _ c.rows xs all),
  )
