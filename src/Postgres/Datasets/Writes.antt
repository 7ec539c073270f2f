-- ===== src/Postgres/Datasets/Writes.antt =====
-- postqbuild/dataset_repo.go over a database with the table `datasets`: what each writing method
-- may do to the stored dataset with a number, whether it succeeds or not.
use dataset_service.Base.{
  ℕ, ◌≡◌, refl, ap, ◌⊎◌, inl, inr, false, none, List, ◌∷◌, arith, ◌==◌, Bool-cases,
}
use dataset_service.Entities.{Dataset}
use dataset_service.Postgres.Statements.{uint, Pool, Statement, insert, update_where, delete_where}
use dataset_service.Postgres.Tables.{
  Row, inserted_row, find_row, LawfulPool, column, remove, find_row-remove_other,
  find_row-remove_self,
}
use dataset_service.Postgres.Answers.{Outcome-cases, value_eq-uint_inj}
use dataset_service.Postgres.Datasets.{insert_dataset, create, update, delete}
use dataset_service.Postgres.Datasets.Changes.{
  by_id, sets, read_dataset, DatasetTable, dataset_rows, overwrite, change_dataset,
}

find_row-inserted_other :
    (d : Dataset) (id j : ℕ) (rows : List Row)
    → (id == j) ≡ false
    → find_row (by_id j) (
        inserted_row ("id" ∷ (insert_dataset d).columns) (uint id ∷ (insert_dataset d).values)
        ∷ rows)
      ≡ find_row (by_id j) rows
unfolding find_row
find_row-inserted_other d id j rows other = rw other refl

find_row-removed :
    (id j : ℕ) (rows : List Row)
    → (id == j) ≡ false
    → find_row (by_id j) (remove (by_id id) rows) ≡ find_row (by_id j) rows
find_row-removed id j rows other = find_row-remove_other (by_id id) (by_id j) rows (λ r p q.
    let same = value_eq-uint_inj (column "id" r) id j (ground arith) (ground arith) in
    absurd (ground arith))

module _ {S : Type 0} (pool : Pool S) (laws : LawfulPool pool) (schema : DatasetTable laws) where
  -- A creation writes a dataset at most where there was none.
  pub create-one :
      (d : Dataset) (s : S) (j : ℕ)
      → (dataset_rows pool laws schema (create pool d s).1 j ≡ dataset_rows pool laws schema s j)
        ⊎ (dataset_rows pool laws schema s j ≡ none)
  unfolding create
  create-one d s j = elim (Bool-cases (pool.to_sql (insert (insert_dataset d)))) [
    | inr no_sql ↦ inl (rw no_sql refl)
    | inl built ↦ elim (Outcome-cases (pool.insert_row (insert_dataset d) s).0) [
      | inr (e, broke) ↦
          inl (rw (built, laws.row_not_inserted (insert_dataset d) s e "datasets" broke) refl)
      | inl (vs, ran) ↦
          let (id, only, positive, fresh, rows) =
            laws.row_inserted (insert_dataset d) s vs refl ran in
          elim (Bool-cases (id == j)) [
            | inl here ↦
                let same : id ≡ j = ground arith in inr (ap read_dataset (rw same at fresh))
            | inr other ↦ inl (
                rw (built, rows "datasets")
                  (ap read_dataset
                    (find_row-inserted_other d id j (laws.table s "datasets") other)))
          ]
    ]
  ]

  -- An update rewrites at most the dataset with its number.
  pub update-one :
      (d : Dataset) (s : S) (j : ℕ)
      → (dataset_rows pool laws schema (update pool d s).1 j ≡ dataset_rows pool laws schema s j)
        ⊎ ((d.id ≡ j)
            × (dataset_rows pool laws schema (update pool d s).1 j
                ≡ overwrite d (dataset_rows pool laws schema s j)))
  unfolding update
  update-one d s j =
      let q = update_where "datasets" (sets d) (by_id d.id) in
      elim (Bool-cases (pool.to_sql (Statement.update q))) [
        | inr no_sql ↦ inl (rw no_sql refl)
        | inl built ↦ elim (Outcome-cases (pool.exec (Statement.update q) s).0) [
          | inr (e, broke) ↦
              inl (rw (built, laws.not_executed (Statement.update q) s e "datasets" broke) refl)
          | inl (n, ran) ↦
              let rows = (laws.rows_updated q s n ran).1 "datasets" in
              let changed = change_dataset d j (laws.table s "datasets") (schema.typed s) in
              elim (Bool-cases (d.id == j)) [
                | inl here ↦ inr (ground arith, rw (built, rows) (rw here at changed))
                | inr other ↦ inl (rw (built, rows) (rw other at changed))
              ]
        ]
      ]

  -- A deletion takes away at most the dataset with its number.
  pub delete-one :
      (id : ℕ) (s : S) (j : ℕ)
      → (dataset_rows pool laws schema (delete pool id s).1 j ≡ dataset_rows pool laws schema s j)
        ⊎ ((id ≡ j) × (dataset_rows pool laws schema (delete pool id s).1 j ≡ none))
  unfolding delete
  delete-one id s j =
      let q = delete_where "datasets" (by_id id) in
      elim (Bool-cases (pool.to_sql (Statement.delete q))) [
        | inr no_sql ↦ inl (rw no_sql refl)
        | inl built ↦ elim (Outcome-cases (pool.exec (Statement.delete q) s).0) [
          | inr (e, broke) ↦
              inl (rw (built, laws.not_executed (Statement.delete q) s e "datasets" broke) refl)
          | inl (n, ran) ↦
              let rows = (laws.rows_deleted q s n ran).1 in
              elim (Bool-cases (id == j)) [
                | inl here ↦
                    let same : id ≡ j = ground arith in
                    inr (
                      same,
                      rw (built, rows, same)
                          (ap read_dataset
                            (find_row-remove_self (by_id j) (laws.table s "datasets"))),
                    )
                | inr other ↦ inl (
                    rw (built, rows)
                      (ap read_dataset (find_row-removed id j (laws.table s "datasets") other)))
              ]
        ]
      ]
