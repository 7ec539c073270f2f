-- ===== src/Postgres/Datasets/RoundTrip.antt =====
-- postqbuild/dataset_repo.go: a dataset that was created is found again.
use dataset_service.Base.{
  ℕ, ◌≡◌, refl, sym, ap, ◌∙◌, inl, inr, true, false, Option, none, some, List, [], ◌∷◌, arith, ◌==◌,
}
use dataset_service.Errors.{repo, dataset_query_build, dataset_create, dataset_scan, RepoError}
use dataset_service.Exec.{ok, err}
use dataset_service.Entities.{Dataset}
use dataset_service.Postgres.Statements.{uint, eq, Pool, Select, select_from}
use dataset_service.Postgres.Methods.{pointer}
use dataset_service.Postgres.Tables.{
  Row, project, inserted_row, find_row, Among, LawfulPool, to_micros, matches, is_found,
  find_row-of_Among,
}
use dataset_service.Postgres.Answers.{find_one-eq-ok, insert_row-eq-ok}
use dataset_service.Postgres.Datasets.{
  scan_dataset, dataset_columns, insert_dataset, create, find_by_id,
}

abbrev new_row : Dataset → ℕ → Row
new_row d id =
    inserted_row ("id" ∷ (insert_dataset d).columns) (uint id ∷ (insert_dataset d).values)

not_fresh :
    (id : ℕ) (r : Row) (rows : List Row)
    → Among r rows
    → matches (eq "id" (uint id)) r ≡ true
    → find_row (eq "id" (uint id)) rows ≡ none
    → ⊥
not_fresh id r rows among meets fresh =
    let found = find_row-of_Among (eq "id" (uint id)) r rows among meets in
    ground (arith, ap is_found fresh)

module _ {S : Type 0} (pool : Pool S) (laws : LawfulPool pool) where
  abbrev select_id : ℕ → Select
  select_id id = select_from dataset_columns "datasets" (eq "id" (uint id))

  -- If `Create` succeeds and then `FindByID` answers for the new number, the answer is the dataset
  -- that was created, with every field, except that its creation time has only the microseconds
  -- that TIMESTAMPTZ keeps; its number is not 0.
  pub find_by_id-create :
      (d new : Dataset) (s : S) (found : Option Dataset)
      → (create pool d s).0 ≡ ok new
      → find_by_id pool new.id (create pool d s).1 ≡ ok found
      → (found ≡ some (record d { id = new.id; created_at = to_micros d.created_at }))
        × ((new.id == 0) ≡ false)
  unfolding create find_by_id
  find_by_id-create d new s found h answer =
      let (id, ran, numbered, after) =
        insert_row-eq-ok pool (insert_dataset d) (repo dataset_query_build)
          (λ _. repo dataset_create) (λ id. record d { id = id }) s new h in
      let (other, only, positive, fresh, rows) =
        laws.row_inserted (insert_dataset d) s (uint id ∷ []) refl ran in
      let stands : laws.table (create pool d s).1 "datasets"
          ≡ new_row d other ∷ laws.table s "datasets" =
        ap (λ t. laws.table t "datasets") after ∙ rows "datasets" in
      let same : new.id ≡ other = ground arith in
      elim (find_one-eq-ok (λ vs. pointer (scan_dataset vs)) pool (select_id new.id)
        (repo dataset_query_build) (err (repo RepoError.dataset_not_found)) (λ _. repo dataset_scan)
        (create pool d s).1 found answer) [
          | inr (nothing, e) ↦ absurd (cc)
          | inl (vs, asked, fits) ↦
              let (r, among, meets, values) =
                laws.row_found (select_id new.id) (create pool d s).1 vs refl asked in
              elim (rw stands at among) [
                | inl e ↦
                    let scanned : scan_dataset vs
                        ≡ some (record d { id = other; created_at = to_micros d.created_at }) =
                      ap scan_dataset (values ∙ ap (project dataset_columns) e) in
                    (ground arith, ground arith)
                | inr old ↦ absurd (
                    not_fresh other r (laws.table s "datasets") old
                      (ap (λ n. matches (eq "id" (uint n)) r) (sym same) ∙ meets) fresh)
              ]
        ]
