-- ===== src/Async/Owners/Changes.antt =====
-- cmd/core/main.go with cmd/data/main.go over PostgreSQL: whose datasets a message changes.
use dataset_service.Base.{
  ℕ, ◌≡◌, refl, ap, ◌∙◌, sym, subst, ◌⊎◌, inl, inr, Bool, true, Option, none, some, List, arith,
  if◌then◌else◌, Bool-cases,
}
use dataset_service.Text.{Text, codes, is_empty}
use dataset_service.Errors.{Error}
use dataset_service.Entities.{Dataset, role_admin}
use dataset_service.Postgres.Statements.{Pool}
use dataset_service.Postgres.Tables.{LawfulPool}
use dataset_service.Postgres.Datasets.Changes.{
  DatasetTable, dataset_rows, overwrite, read_dataset, by_id, find_by_id-number,
}
use dataset_service.Postgres.Datasets.Elsewhere.{RestrictsDeletions}
use dataset_service.Postgres.Tables.{find_row}
use dataset_service.Async.Contracts.{
  Kind, dataset_create_request, dataset_update_request, dataset_delete_request, Envelope, Rpc,
}
use dataset_service.Async.Core.{
  Core, Checked, passed, refused, role_of, require_actor, access_of, enforce_access,
  forward_to_data, settle, pass_on, handle_gateway_message, is_forwarded, is_duplicate,
}
use dataset_service.Async.Asking.{Checked-cases, access_of-Keeps}
use dataset_service.Async.Granted.{Right, access_of-Right}
use dataset_service.Async.Reads.{respond_to-forwarded}
use dataset_service.Async.Rights.{settle-refused, respond_to-other}
use dataset_service.Async.Data.{Repos, postgres_repos}
use dataset_service.Async.Data.Process.{DataProcess, run_command}
use dataset_service.Async.Data.Unrelated.{writes_datasets, run_command-Kept}
use dataset_service.Async.Data.Writes.{
  same_number, dataset_create-one, dataset_update-one, dataset_delete-one,
}
use dataset_service.Async.Owners.{
  takes, data_after, ask_data, store_of, handled-store, asking-store, OwnsStored,
  MayChange-OwnsStored,
}

-- What a message may do to the stored dataset with a number: nothing, or a creation where there was
-- none, or, if the actor of the message owns the dataset or is an admin, an update that keeps the
-- owner, or a deletion.
pub data DatasetChange (msg : Envelope) (before after : Option Dataset) : Type 0 where
  unchanged : after ≡ before → DatasetChange msg before after
  created : msg.kind ≡ dataset_create_request → before ≡ none → DatasetChange msg before after
  rewritten :
      (ds new : Dataset)
      → msg.kind ≡ dataset_update_request
      → before ≡ some ds
      → after ≡ some new
      → new.owner_id ≡ ds.owner_id
      → (ds.owner_id ≡ msg.actor_id) ⊎ (role_of msg ≡ role_admin)
      → DatasetChange msg before after
  removed :
      (ds : Dataset)
      → msg.kind ≡ dataset_delete_request
      → before ≡ some ds
      → after ≡ none
      → (ds.owner_id ≡ msg.actor_id) ⊎ (role_of msg ≡ role_admin)
      → DatasetChange msg before after

module _ {S : Type 0} (pool : Pool S) (laws : LawfulPool pool) (schema : DatasetTable laws)
    (restricts : RestrictsDeletions laws) (error_text : Error → Text)
    (clock : List Envelope → ℕ × ℕ) (start : DataProcess S) (uuid : List Envelope → ℕ → Text)
    (publishes : Envelope → Bool) (j : ℕ) where
  abbrev repos : Repos S
  repos = postgres_repos pool

  abbrev store : Core → S
  store c = store_of repos error_text clock start uuid publishes c

  -- The stored dataset with the number `j`.
  abbrev row : S → Option Dataset
  row s = dataset_rows pool laws schema s j

  abbrev data_process : List Envelope → Envelope → Rpc
  data_process = ask_data repos error_text clock start

  abbrev took : Envelope → Bool
  took = takes repos error_text clock start

  kept_row : (s t : S) → laws.table t "datasets" ≡ laws.table s "datasets" → row t ≡ row s
  kept_row s t same = ap (λ rows. read_dataset (find_row (by_id j) rows)) same

  owned_row :
      (msg : Envelope) (id : ℕ) (s : S)
      (owns : OwnsStored repos error_text clock start uuid publishes msg id s)
      → id ≡ j
      → row s ≡ some owns.ds
  owned_row msg id s owns here =
      rw (sym here) (find_by_id-number pool laws schema id s owns.ds owns.stored).1

  writing-Change :
      (k : Kind) (msg : Envelope) (at now : ℕ) (c : Core)
      → msg.kind ≡ k
      → writes_datasets k ≡ true
      → Right data_process uuid publishes k msg c
      → DatasetChange msg
          (row (store c))
          (row (run_command repos error_text took k msg.payload at now (store c)).1)
  unfolding run_command
  writing-Change dataset_create_request msg at now c e h right =
      elim (dataset_create-one pool laws schema at now msg.payload (store c) j) [
        | inl kept ↦ unchanged kept
        | inr free ↦ created e free
      ]
  writing-Change dataset_update_request msg at now c e h (id, read, may) =
      let owns = MayChange-OwnsStored repos error_text clock start uuid publishes msg id c may in
      elim (dataset_update-one pool laws schema at now msg.payload (store c) j) [
        | inl kept ↦ unchanged kept
        | inr (req, d, named, here, wrote) ↦
            let same =
              same_number "invalid dataset payload" (codes "invalid dataset payload") _ _
                msg.payload req id named read in
            let stands = owned_row msg id (store c) owns (sym same ∙ here) in
            rewritten owns.ds _ e stands (wrote ∙ ap (overwrite d) stands) refl owns.entitled
      ]
  writing-Change dataset_delete_request msg at now c e h (id, read, may) =
      let owns = MayChange-OwnsStored repos error_text clock start uuid publishes msg id c may in
      elim (dataset_delete-one pool laws schema at now msg.payload (store c) j) [
        | inl kept ↦ unchanged kept
        | inr (req, named, here, gone) ↦
            let same =
              same_number "invalid dataset id" (codes "invalid dataset payload") _ _ msg.payload req
                id named read in
            let stands = owned_row msg id (store c) owns (sym same ∙ here) in
            removed owns.ds e stands gone owns.entitled
      ]
  writing-Change _ msg at now c e h right = absurd (cc)

  run-Change :
      (msg : Envelope) (at now : ℕ) (c : Core)
      → Right data_process uuid publishes msg.kind msg c
      → DatasetChange msg
          (row (store c))
          (row (run_command repos error_text took msg.kind msg.payload at now (store c)).1)
  run-Change msg at now c right = elim (Bool-cases (writes_datasets msg.kind)) [
    | inl writes ↦ writing-Change msg.kind msg at now c refl writes right
    | inr other ↦ unchanged (
        kept_row (store c) _ (
          run_command-Kept pool laws restricts at now msg.payload error_text took msg.kind other
            (store c)))
  ]

  -- The message is passed on with another correlation identifier.
  forwarded-Change :
      (msg : Envelope) (c d : Core)
      → store d ≡ store c
      → Right data_process uuid publishes msg.kind msg c
      → DatasetChange msg
          (row (store c))
          (row (store (forward_to_data data_process uuid publishes msg d).1))
  unfolding forward_to_data
  forwarded-Change msg c d keep right =
      elim (handled-store repos error_text clock start
        (record msg {
          correlation_id =
              if is_empty msg.correlation_id then uuid d.to_data 0 else msg.correlation_id;
        })
        d.to_data) [
          | inl same ↦ unchanged (ap row (same ∙ keep))
          | inr ran ↦
              let (at, now) = clock d.to_data in
              subst (λ t. DatasetChange msg (row (store c)) (row t))
                (sym (
                  ran
                  ∙ ap (λ s. (run_command repos error_text took msg.kind msg.payload at now s).1)
                      keep))
                (run-Change msg at now c right)
        ]

  settle-to_data :
      (msg : Envelope) (r : Checked Envelope) (d : Core)
      → (settle data_process uuid publishes msg (r, d)).1.to_data ≡ d.to_data
  settle-to_data msg (refused t) d = settle-refused data_process uuid publishes msg t d
  settle-to_data msg (passed resp) d = ground arith

  -- What was refused leaves the database as the questions before left it.
  settled :
      (msg : Envelope) (r : Checked Envelope) (c d : Core)
      → store d ≡ store c
      → DatasetChange msg
          (row (store c))
          (row (store (settle data_process uuid publishes msg (r, d)).1))
  settled msg r c d keep = unchanged (
      ap (λ log. row (data_after repos error_text clock start log).store) (settle-to_data msg r d)
      ∙ ap row keep)

  passed-Change :
      (msg : Envelope) (c : Core)
      → DatasetChange msg (row (store c)) (
          row (
            store
              (settle data_process uuid publishes msg
                (pass_on data_process uuid publishes msg c)).1))
  unfolding enforce_access
  passed-Change msg c = elim (Checked-cases (require_actor msg)) [
    | inr (t, e) ↦ rw e (settled msg (refused t) c c refl)
    | inl (u, e) ↦
        let d = (access_of data_process uuid publishes msg.kind msg c).1 in
        let keep : store d ≡ store c =
          access_of-Keeps data_process uuid publishes store msg.kind msg
            (λ asks. asking-store repos error_text clock start uuid publishes) c in
        elim (Checked-cases (access_of data_process uuid publishes msg.kind msg c).0) [
          | inr (t, f) ↦ rw (e, f) (settled msg (refused t) c d keep)
          | inl (v, f) ↦
              let right = access_of-Right data_process uuid publishes msg.kind msg c f in
              let (answer, after) = forward_to_data data_process uuid publishes msg d in
              rw (e, f)
                (subst
                  (λ log.
                    DatasetChange msg (row (store c))
                      (row (data_after repos error_text clock start log).store))
                  (sym (settle-to_data msg answer after)) (forwarded-Change msg c d keep right))
        ]
  ]

  -- A message of the gateway, after it went through the core and the data process, leaves each
  -- stored dataset as it was, except that it may create one where there was none, and that it may
  -- rewrite a dataset but for its owner, or delete it, if the actor of the message is the stored
  -- owner or an admin. The data process runs on PostgreSQL repositories; the table of the datasets
  -- has the columns, the primary key and the foreign keys of the migrations.
  pub handle-DatasetChange :
      (msg : Envelope) (c : Core)
      → DatasetChange msg
          (row (store c))
          (row (store (handle_gateway_message data_process uuid publishes msg c).1))
  unfolding handle_gateway_message
  handle-DatasetChange msg c = elim (Bool-cases (is_duplicate msg c)) [
    | inl old ↦ rw old (unchanged refl)
    | inr new ↦ elim (Bool-cases (is_forwarded msg.kind)) [
      | inr other ↦ rw new (
          unchanged (
            ap (λ log. row (data_after repos error_text clock start log).store)
              (respond_to-other data_process uuid publishes msg.kind msg c other)))
      | inl forwarded ↦
          rw (new, respond_to-forwarded data_process uuid publishes msg.kind msg c forwarded)
            (passed-Change msg c)
    ]
  ]
