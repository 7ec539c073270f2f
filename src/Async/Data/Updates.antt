-- ===== src/Async/Data/Updates.antt =====
-- cmd/data/main.go over postqbuild/dataset_repo.go: what the command that changes a dataset does to
-- the stored datasets.
use dataset_service.Base.{
  ℕ, ◌≡◌, refl, ap, ◌∙◌, inl, inr, Option, none, some, [], ◌∷◌, ◌==◌, if◌then◌else◌,
}
use dataset_service.Exec.{ok, Result-cases}
use dataset_service.Entities.{Dataset}
use dataset_service.Postgres.Statements.{Pool}
use dataset_service.Postgres.Tables.{LawfulPool}
use dataset_service.Postgres.Datasets
use dataset_service.Postgres.Datasets.Changes.{
  DatasetTable, dataset_rows, overwrite, update-dataset_rows, find_by_id-number,
}
use dataset_service.Async.Contracts.{Fields, get_number, dataset_update_fields}
use dataset_service.Async.Data.{decoded, postgres_repos}
use dataset_service.Async.Data.Commands.{dataset_update, dataset_with}

abbrev pub rewritten : Fields → Option Dataset → Option Dataset
rewritten req none = none
rewritten req (some ds) = some (dataset_with req ds)

overwrite-dataset_with :
    (req : Fields) (ds : Dataset) (o : Option Dataset)
    → overwrite (dataset_with req ds) o ≡ rewritten req o
overwrite-dataset_with req ds none = refl
overwrite-dataset_with req ds (some old) = refl

module _ {S : Type 0} (pool : Pool S) (laws : LawfulPool pool) (schema : DatasetTable laws) where
  -- What the update of a dataset that was read leaves.
  rewritten_rows :
      (req : Fields) (ds : Dataset) (s : S) (j : ℕ)
      → Datasets.find_by_id pool (get_number "id" req) s ≡ ok (some ds)
      → (Datasets.update pool (dataset_with req ds) s).0 ≡ ok tt
      → dataset_rows pool laws schema (Datasets.update pool (dataset_with req ds) s).1 j ≡ (
          if get_number "id" req == j
          then rewritten req (dataset_rows pool laws schema s j)
          else dataset_rows pool laws schema s j)
  rewritten_rows req ds s j read wrote =
      let (number, stands) = find_by_id-number pool laws schema (get_number "id" req) s ds read in
      update-dataset_rows pool laws schema (dataset_with req ds) s j wrote
      ∙ rw number (
          ap (λ o. if get_number "id" req == j then o else dataset_rows pool laws schema s j)
            (overwrite-dataset_with req ds (dataset_rows pool laws schema s j)))

  -- A dataset update that succeeds was asked for by a payload that names a number other than zero,
  -- and it rewrites the name, the description, the category and the visibility of the dataset with
  -- that number. Its owner and time of creation and every other dataset stay as they were.
  pub dataset_update-dataset_rows :
      (at now : ℕ) (payload : Option Fields) (s : S) (answer : Fields) (j : ℕ)
      → (dataset_update (postgres_repos pool) at now payload s).0 ≡ ok answer
      → (req : Fields) × (decoded "invalid dataset payload"
            ("id" ∷ [])
            dataset_update_fields
            payload
          ≡ ok req)
        × (dataset_rows pool laws schema (dataset_update (postgres_repos pool) at now payload s).1 j
            ≡ (if get_number "id" req == j
                then rewritten req (dataset_rows pool laws schema s j)
                else dataset_rows pool laws schema s j))
  unfolding dataset_update
  dataset_update-dataset_rows at now payload s answer j h =
      elim (Result-cases
        (decoded "invalid dataset payload" ("id" ∷ []) dataset_update_fields payload)) [
          | inr (e, x) ↦ absurd (cc (rw x at h))
          | inl (req, x) ↦ elim (Result-cases (Datasets.find_by_id pool (get_number "id" req) s)) [
            | inr (e, y) ↦ absurd (cc (rw (x, y) at h))
            | inl (none, y) ↦ absurd (cc (rw (x, y) at h))
            | inl (some ds, y) ↦
                elim (Result-cases (Datasets.update pool (dataset_with req ds) s).0) [
                  | inr (e, z) ↦ absurd (cc (rw (x, y, z) at h))
                  | inl (u, z) ↦ (req, x, rw (x, y, z) (rewritten_rows req ds s j y z))
                ]
          ]
        ]
