-- ===== src/Postgres/Datasets/Changes.antt =====
-- postqbuild/dataset_repo.go over a database with the table `datasets` of the first migration: what
-- an update does to the stored datasets.
use dataset_service.Base.{
  ℕ, ◌≡◌, refl, sym, ap, ◌∙◌, inl, inr, true, Option, none, some, List, [], ◌∷◌, arith, ◌==◌,
  if◌then◌else◌,
}
use dataset_service.Errors.{
  repo, dataset_query_build, dataset_update, dataset_not_found, dataset_scan,
}
use dataset_service.Exec.{ok, err}
use dataset_service.Entities.{Dataset}
use dataset_service.Postgres.Statements.{
  uint, text, flag, instant, Pool, Statement, Eqs, eq, select_from, update_where,
}
use dataset_service.Postgres.Methods.{pointer}
use dataset_service.Postgres.Tables.{
  Row, project, find_row, change, Among, LawfulPool, IsKey, On, matches,
}
use dataset_service.Postgres.Answers.{
  find_one-eq-ok, change_rows-eq-ok, pointed, query_row-find_row,
}
use dataset_service.Postgres.Datasets.{scan_dataset, dataset_columns, update, find_by_id}

abbrev pub dataset_row : Dataset → Row
dataset_row d =
    ("id", uint d.id)
    ∷ ("name", text d.name)
    ∷ ("description", text d.description)
    ∷ ("owner_id", uint d.owner_id)
    ∷ ("category_id", uint d.category_id)
    ∷ ("is_public", flag d.is_public)
    ∷ ("created_at", instant d.created_at)
    ∷ []

abbrev pub AreDatasets : List Row → Type 0
AreDatasets rows = (r : Row) → Among r rows → (d : Dataset) × (r ≡ dataset_row d)

-- What the table `datasets` says of its rows: their columns, and that `id` is its key.
pub record DatasetTable {S : Type 0} {pool : Pool S} (laws : LawfulPool pool) : Type 0 where
  pub typed : (s : S) → AreDatasets (laws.table s "datasets")
  pub primary_key : (s : S) → IsKey (On "id") (laws.table s "datasets")

-- The dataset that a row holds.
abbrev pub read_dataset : Option Row → Option Dataset
read_dataset none = none
read_dataset (some r) = scan_dataset (project dataset_columns r)

-- A stored dataset with the fields that an update writes.
abbrev pub overwrite : Dataset → Option Dataset → Option Dataset
overwrite d none = none
overwrite d (some old) = some (record old {
  name = d.name;
  description = d.description;
  category_id = d.category_id;
  is_public = d.is_public;
})

abbrev pub by_id : ℕ → Eqs
by_id id = eq "id" (uint id)

abbrev pub sets : Dataset → Eqs
sets d =
    ("name", text d.name)
    ∷ ("description", text d.description)
    ∷ ("category_id", uint d.category_id)
    ∷ ("is_public", flag d.is_public)
    ∷ []

change_dataset_row :
    (d : Dataset) (j : ℕ) (old : Dataset) (rows : List Row)
    → read_dataset (find_row (by_id j) (change (by_id d.id) (sets d) rows)) ≡ (
        if d.id == j
        then overwrite d (read_dataset (find_row (by_id j) rows))
        else read_dataset (find_row (by_id j) rows))
    → read_dataset (find_row (by_id j) (change (by_id d.id) (sets d) (dataset_row old ∷ rows))) ≡ (
        if d.id == j
        then overwrite d (read_dataset (find_row (by_id j) (dataset_row old ∷ rows)))
        else read_dataset (find_row (by_id j) (dataset_row old ∷ rows)))
unfolding find_row change
change_dataset_row d j old rows ih = ground arith

pub change_dataset :
    (d : Dataset) (j : ℕ) (rows : List Row)
    → AreDatasets rows
    → read_dataset (find_row (by_id j) (change (by_id d.id) (sets d) rows)) ≡ (
        if d.id == j
        then overwrite d (read_dataset (find_row (by_id j) rows))
        else read_dataset (find_row (by_id j) rows))
unfolding find_row change
change_dataset d j [] typed = ground arith
change_dataset d j (r ∷ rows) typed =
    let (old, e) = typed r (inl refl) in
    rw e
      (change_dataset_row d j old rows (change_dataset d j rows (λ x among. typed x (inr among))))

module _ {S : Type 0} (pool : Pool S) (laws : LawfulPool pool) (schema : DatasetTable laws) where
  -- The stored datasets by their numbers.
  abbrev pub dataset_rows : S → ℕ → Option Dataset
  dataset_rows s id = read_dataset (find_row (by_id id) (laws.table s "datasets"))

  pub update-dataset_rows :
      (d : Dataset) (s : S) (j : ℕ)
      → (update pool d s).0 ≡ ok tt
      → dataset_rows (update pool d s).1 j
        ≡ (if d.id == j then overwrite d (dataset_rows s j) else dataset_rows s j)
  unfolding update
  update-dataset_rows d s j h =
      let (n, ran, some_row, after) =
        change_rows-eq-ok pool (Statement.update (update_where "datasets" (sets d) (by_id d.id)))
          (repo dataset_query_build) (λ _. repo dataset_update) (repo dataset_not_found) s h in
      rw
        (
          after,
          (laws.rows_updated (update_where "datasets" (sets d) (by_id d.id)) s n ran).1 "datasets",
        )
        (change_dataset d j (laws.table s "datasets") (schema.typed s))

  pub find_by_id-number :
      (id : ℕ) (s : S) (ds : Dataset)
      → find_by_id pool id s ≡ ok (some ds)
      → (ds.id ≡ id) × (dataset_rows s id ≡ some ds)
  unfolding find_by_id
  find_by_id-number id s ds h =
      elim (find_one-eq-ok (λ vs. pointer (scan_dataset vs)) pool
        (select_from dataset_columns "datasets" (by_id id)) (repo dataset_query_build)
        (err (repo dataset_not_found)) (λ _. repo dataset_scan) s (some ds) h) [
          | inr (none_found, e) ↦ absurd (cc)
          | inl (vs, ran, fits) ↦
              let (r, found, among, values, meets) =
                query_row-find_row laws (select_from dataset_columns "datasets" (by_id id)) s vs
                  refl (schema.primary_key s (by_id id) (uint id, refl)) ran in
              let scanned : scan_dataset (project dataset_columns r) ≡ some ds =
                ap scan_dataset (sym values) ∙ pointed (scan_dataset vs) (some ds) fits in
              let (d, e) = schema.typed s r among in
              let same : some d ≡ some ds =
                ap (λ x. scan_dataset (project dataset_columns x)) (sym e) ∙ scanned in
              let here : matches (by_id id) (dataset_row d) ≡ true =
                ap (matches (by_id id)) (sym e) ∙ meets in
              (ground arith, rw found scanned)
        ]
