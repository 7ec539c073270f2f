-- ===== src/Async/StoredTests.antt =====
-- The core and the data process on a database in memory.
use package.text.Mathlib.TextEquality.{eq_iff}
use dataset_service.Base.{
  ℕ, ◌≡◌, ◌&&◌, ◌==◌, if◌then◌else◌, refl, Bool, true, false, Option, none, some, List, [], ◌∷◌,
  arith, inl, inr, sym, String, Bool-cases,
}
use dataset_service.Base.Time.{pos}
use dataset_service.Text.{Text, codes, text_eq}
use dataset_service.Errors.{Error}
use dataset_service.Exec.{ok}
use dataset_service.Entities.{Dataset}
use dataset_service.Postgres.Statements.{Pool}
use dataset_service.Postgres.Datasets
use dataset_service.Postgres.Datasets.{dataset_repo}
use dataset_service.Postgres.Tables.{LawfulPool, str_eq, change, count_rows, Row, find_row}
use dataset_service.Postgres.Memory
use dataset_service.Postgres.Memory.{Db, memory_pool, memory_laws, run, run_insert, next_id}
use dataset_service.Postgres.Memory.Rules.{
  every, every-Among, row_eq, row_eq_sound, distinct, distinct-IsKey,
}
use dataset_service.Postgres.Datasets.Changes.{
  dataset_row, read_dataset, DatasetTable, dataset_rows,
}
use dataset_service.Async.Data.Commands.{dataset_update}
use dataset_service.Async.Data.Updates.{rewritten, dataset_update-dataset_rows}
use dataset_service.Async.Contracts.{
  dataset_update_request, dataset_update_fields, number, string, Envelope, decode, get_number,
  Fields, boolean, get_text, get_flag,
}
use dataset_service.Async.Core.{Core, handle_gateway_message}
use dataset_service.Async.Data.{Repos, postgres_repos, decoded}
use dataset_service.Async.Data.Process.{DataProcess, handle_core_message}
use dataset_service.Async.Data.Replies.{Answered, handle-Answered}
use dataset_service.Async.Owners.{ask_data, store_of}
use dataset_service.Async.Owners.Changes.{DatasetChange, handle-DatasetChange}
use dataset_service.Postgres.Datasets.Elsewhere.{RestrictsDeletions}

abbrev holds_dataset : Row → Option Dataset → Bool
holds_dataset r none = false
holds_dataset r (some d) = row_eq r (dataset_row d)

holds_dataset_sound :
    (r : Row) (o : Option Dataset) → holds_dataset r o ≡ true → (d : Dataset) × (r ≡ dataset_row d)
holds_dataset_sound r none h = absurd (cc)
holds_dataset_sound r (some d) h = (d, row_eq_sound r (dataset_row d) h)

abbrev valid_datasets : List Row → Bool
valid_datasets rows =
    every (λ r. holds_dataset r (read_dataset (some r))) rows && distinct ("id" ∷ []) rows

abbrev pool : Pool (Db "datasets" valid_datasets)
pool = memory_pool "datasets" valid_datasets

datasets_table : DatasetTable (memory_laws "datasets" valid_datasets)
unfolding memory_laws
datasets_table = record {
  typed = λ s r among.
      holds_dataset_sound r (read_dataset (some r))
        (every-Among (λ r. holds_dataset r (read_dataset (some r))) r s.0 (ground arith) among);
  primary_key = λ s. distinct-IsKey "id" s.0 (ground arith);
}

abbrev rain : Dataset
rain = record {
  id = 1;
  name = codes "rain";
  description = [];
  owner_id = 7;
  created_at = 5;
  category_id = 1;
  is_public = true;
}

rain-valid : valid_datasets (dataset_row rain ∷ []) ≡ true
unfolding text_eq
rain-valid = refl

-- The dataset 1 of the user 7.
abbrev start : DataProcess (Db "datasets" valid_datasets)
start = record { store = (dataset_row rain ∷ [], rain-valid); processed = []; published = [] }

abbrev repos : Repos (Db "datasets" valid_datasets)
repos = postgres_repos pool

abbrev error_text : Error → Text
error_text e = codes "error"

abbrev clock : List Envelope → ℕ × ℕ
clock log = (9, 9)

abbrev uuid : List Envelope → ℕ → Text
uuid log n = n ∷ []

abbrev publishes : Envelope → Bool
publishes msg = true

abbrev rename_message : Envelope
rename_message = record {
  id = codes "m1";
  kind = dataset_update_request;
  source = codes "gateway";
  correlation_id = codes "c1";
  trace_id = [];
  actor_id = 7;
  actor_role = codes "user";
  payload = some (("id", number (pos 1)) ∷ ("name", string (codes "snow")) ∷ []);
  error = none;
}

handle-Answered_example :
    Answered repos error_text publishes 9 9 rename_message start
      (handle_core_message repos error_text publishes 9 9 rename_message start)
handle-Answered_example = handle-Answered repos error_text publishes 9 9 rename_message start refl

abbrev idle : Core
idle = record { processed = []; to_data = []; to_gateway = [] }

-- A table of another name is not `datasets`.
elsewhere : (name : String) → str_eq name "datasets" ≡ false → str_eq "datasets" name ≡ false
elsewhere name other = elim (Bool-cases (str_eq "datasets" name)) [
  | inr e ↦ e
  | inl e ↦ absurd (cc (rw (sym ((eq_iff "datasets" name).0 e)) at other))
]

abbrev laws : LawfulPool pool
laws = memory_laws "datasets" valid_datasets

-- The database has no other table to delete from.
datasets_restrict : RestrictsDeletions laws
unfolding memory_laws run
datasets_restrict = record {
  deleted_elsewhere = λ q s n other h. absurd (ground (arith, elsewhere q.from other));
}

abbrev row_after : Core → Option Dataset
row_after c =
    dataset_rows pool laws datasets_table (store_of repos error_text clock start uuid publishes c) 1

handle-DatasetChange_example : DatasetChange rename_message (row_after idle) (
    row_after
      (handle_gateway_message
        (ask_data repos error_text clock start)
        uuid
        publishes
        rename_message
        idle).1)
handle-DatasetChange_example =
    handle-DatasetChange pool laws datasets_table datasets_restrict error_text clock start uuid
      publishes 1 rename_message idle

-- The user 7 renames the dataset, which is then private and without a category.
renamed :
    (dataset_update repos 9 9 rename_message.payload start.store).0
    ≡ ok (("updated", boolean true) ∷ [])
unfolding dataset_update decoded decode get_number get_text get_flag Datasets.find_by_id
    Datasets.update run change count_rows find_row text_eq Memory.commit
renamed = refl

dataset_update-dataset_rows_example :
    (req : Fields) × (decoded "invalid dataset payload"
        ("id" ∷ [])
        dataset_update_fields
        rename_message.payload
      ≡ ok req)
    × (dataset_rows pool
          (memory_laws "datasets" valid_datasets)
          datasets_table
          (dataset_update repos 9 9 rename_message.payload start.store).1
          1
        ≡ (if get_number "id" req == 1
            then rewritten req (
                dataset_rows pool
                  (memory_laws "datasets" valid_datasets)
                  datasets_table
                  start.store
                  1)
            else dataset_rows pool
                (memory_laws "datasets" valid_datasets)
                datasets_table
                start.store
                1))
dataset_update-dataset_rows_example =
    dataset_update-dataset_rows pool (memory_laws "datasets" valid_datasets) datasets_table 9 9
      rename_message.payload start.store (("updated", boolean true) ∷ []) 1 renamed
