-- ===== src/Async/Owners.antt =====
-- cmd/core/main.go with cmd/data/main.go: the data process behind the core, and what the core knows
-- of its database.
pub mod Changes
use dataset_service.Base.{
  ℕ, ◌≡◌, ◌∙◌, refl, ◌⊎◌, inl, inr, Bool, true, not, ◌&&◌, none, some, List, [], ◌∷◌, ◌^◌, ltb,
  ◌==◌, if◌then◌else◌, Bool-cases,
}
use dataset_service.Base.Time.{pos}
use dataset_service.Text.{Text, codes, is_empty}
use dataset_service.Errors.{Error}
use dataset_service.Exec.{ok, Result-cases}
use dataset_service.Entities.{Dataset, role_admin}
use dataset_service.Async.Contracts.{number, Envelope, Rpc, answered, failed, decode, get_number}
use dataset_service.Async.Core.{
  Core, passed, contains, content, dataset_of, fetch_dataset, forward_to_data, role_of,
}
use dataset_service.Async.Asking.{AskingKeeps}
use dataset_service.Async.Granted.{MayChange}
use dataset_service.Async.Data.{Repos, decoded}
use dataset_service.Async.Data.Queries.{dataset_get}
use dataset_service.Async.Data.Process.{
  DataProcess, run_command, reply, handle_core_message, is_done,
}
use dataset_service.Async.Data.Replies.{is_read, run_command-read, handle-store}

module _ {S : Type 0} (repos : Repos S) (error_text : Error → Text) (clock : List Envelope → ℕ × ℕ)
    (start : DataProcess S) where
  abbrev takes : Envelope → Bool
  takes msg = true

  -- The data process after the messages of the core, the latest first.
  unfoldable pub data_after : List Envelope → DataProcess S
  unfolding handle_core_message
  data_after [] = start
  data_after (msg ∷ log) =
      let (at, now) = clock log in
      (handle_core_message repos error_text takes at now msg (data_after log)).1

  handled-store :
      (msg : Envelope) (log : List Envelope)
      → ((data_after (msg ∷ log)).store ≡ (data_after log).store)
        ⊎ ((data_after (msg ∷ log)).store
            ≡ (run_command repos error_text takes msg.kind msg.payload
                (clock log).0
                (clock log).1
                (data_after log).store).1)
  unfolding data_after
  handled-store msg log =
      handle-store repos error_text takes (clock log).0 (clock log).1 msg (data_after log)

  -- What the core gets for a message: the answer, or, for a message that is done, none in time.
  unfoldable pub ask_data : List Envelope → Envelope → Rpc
  unfolding data_after run_command
  ask_data log msg =
      let p = data_after log in
      let (at, now) = clock log in
      if is_done msg p
      then failed (codes "context deadline exceeded")
      else answered (
          reply repos error_text takes msg
            (run_command repos error_text takes msg.kind msg.payload at now p.store).0)

  -- The answer to the question for a dataset holds what the repository finds.
  dataset_get-stored :
      (id : ℕ) (s : S) (ds : Dataset) (msg : Envelope)
      → content dataset_of "dataset" (
          reply repos error_text takes msg
            (dataset_get repos (some (("id", number (pos id)) ∷ [])) s))
        ≡ passed (some ds)
      → repos.datasets.find_by_id id s ≡ ok (some ds)
  unfolding dataset_get decoded decode get_number
  dataset_get-stored id s ds msg h = elim (Bool-cases (ltb id (2 ^ 64))) [
    | inr e ↦ absurd (cc (rw e at h))
    | inl e ↦ elim (Bool-cases (id == 0)) [
      | inl f ↦ absurd (cc (rw (e, f) at h))
      | inr f ↦ elim (Result-cases (repos.datasets.find_by_id id s)) [
        | inr (x, g) ↦ absurd (cc (rw (e, f, g) at h))
        | inl (none, g) ↦ absurd (cc (rw (e, f, g) at h))
        | inl (some d, g) ↦ cc (rw (e, f, g) at h)
      ]
    ]
  ]

  module _ (uuid : List Envelope → ℕ → Text) (publishes : Envelope → Bool) where
    fetch-stored :
        (msg : Envelope) (id : ℕ) (c : Core) (ds : Dataset)
        → (fetch_dataset ask_data uuid publishes msg id c).0 ≡ passed (some ds)
        → repos.datasets.find_by_id id (data_after c.to_data).store ≡ ok (some ds)
    unfolding fetch_dataset forward_to_data ask_data run_command
    fetch-stored msg id c ds h =
        elim (Bool-cases (
          not (is_empty (uuid c.to_data 1))
          && contains (uuid c.to_data 1) (data_after c.to_data).processed)) [
            | inl old ↦ absurd (cc (rw old at h))
            | inr new ↦ dataset_get-stored id (data_after c.to_data).store ds msg (rw new at h)
          ]

    abbrev pub store_of : Core → S
    store_of c = (data_after c.to_data).store

    read-store :
        (msg : Envelope) (log : List Envelope)
        → is_read msg.kind ≡ true
        → (data_after (msg ∷ log)).store ≡ (data_after log).store
    read-store msg log reads = elim (handled-store msg log) [
      | inl same ↦ same
      | inr ran ↦
          ran
          ∙ run_command-read repos error_text takes msg.kind msg.payload (clock log).0 (clock log).1
              (data_after log).store reads
    ]

    -- The questions of the core change nothing in the database.
    pub asking-store : AskingKeeps ask_data uuid publishes store_of
    unfolding forward_to_data
    asking-store msg id = (λ c. read-store _ c.to_data refl, λ c. read-store _ c.to_data refl)

    -- The actor of the message owns the stored dataset, or is an admin.
    pub record OwnsStored (msg : Envelope) (id : ℕ) (s : S) : Type 0 where
      pub ds : Dataset
      pub stored : repos.datasets.find_by_id id s ≡ ok (some ds)
      pub entitled : (ds.owner_id ≡ msg.actor_id) ⊎ (role_of msg ≡ role_admin)

    pub MayChange-OwnsStored :
        (msg : Envelope) (id : ℕ) (c : Core)
        → MayChange ask_data uuid publishes msg id c
        → OwnsStored msg id (data_after c.to_data).store
    MayChange-OwnsStored msg id c may = record {
      ds = may.ds;
      stored = fetch-stored msg id c may.ds may.fetched;
      entitled = may.entitled;
    }
