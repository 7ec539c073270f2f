-- ===== src/Async/Asking.antt =====
-- cmd/core/main.go: what the questions that the core asks for itself leave as it was.
use dataset_service.Base.{ℕ, ◌≡◌, refl, ◌∙◌, ◌⊎◌, inl, inr, Bool, true, false, List, [], ◌∷◌}
use dataset_service.Base.Time.{pos}
use dataset_service.Text.{Text, codes}
use dataset_service.Async.Contracts.{
  Kind, dataset_get_request, version_get_request, dataset_update_request, dataset_delete_request,
  version_add_request, version_delete_request, number, Envelope, Rpc, version_delete_fields,
}
use dataset_service.Async.Core.{
  Core, ask, content, dataset_of, version_of, dataset_id_of, Checked, passed, refused, Step, ◌>>=◌,
  check, required, unmarshal, fetch_dataset, fetch_dataset_id_by_version, ensure_dataset_owner,
  own_version, access_of,
}

pub Checked-cases :
    {A : Type 0} (r : Checked A) → ((a : A) × (r ≡ passed a)) ⊎ ((t : Text) × (r ≡ refused t))
Checked-cases (passed a) = inl (a, refl)
Checked-cases (refused t) = inr (t, refl)

module _ (data_service : List Envelope → Envelope → Rpc) (uuid : List Envelope → ℕ → Text)
    (publishes : Envelope → Bool) where
  -- A step that leaves what `f` sees of the state as it was.
  abbrev pub Keeps : {A X : Type 0} → (Core → X) → Step A → Type 0
  Keeps f m = (c : Core) → f (m c).1 ≡ f c

  pub >>=-Keeps :
      {A B X : Type 0} (f : Core → X) (m : Step A) (g : A → Step B)
      → Keeps f m
      → ((a : A) → Keeps f (g a))
      → Keeps f (m >>= g)
  >>=-Keeps f m g keep after c = elim (Checked-cases (m c).0) [
    | inl (a, e) ↦ rw e (after a (m c).1 ∙ keep c)
    | inr (t, e) ↦ rw e (keep c)
  ]

  abbrev ask_dataset : Envelope → ℕ → Step Envelope
  ask_dataset msg id =
      ask data_service uuid publishes dataset_get_request (("id", number (pos id)) ∷ []) msg

  abbrev ask_version : Envelope → ℕ → Step Envelope
  ask_version msg id =
      ask data_service uuid publishes version_get_request (("version_id", number (pos id)) ∷ []) msg

  -- The questions leave it as it was.
  abbrev pub AskingKeeps : {X : Type 0} → (Core → X) → Type 0
  AskingKeeps f =
      (msg : Envelope) (id : ℕ) → Keeps f (ask_dataset msg id) × Keeps f (ask_version msg id)

  -- The types of messages whose check asks.
  abbrev pub asks : Kind → Bool
  asks dataset_update_request = true
  asks dataset_delete_request = true
  asks version_add_request = true
  asks version_delete_request = true
  asks _ = false

  module _ {X : Type 0} (f : Core → X) (asking : AskingKeeps f) where
    fetch-Keeps :
        (msg : Envelope) (id : ℕ) → Keeps f (fetch_dataset data_service uuid publishes msg id)
    unfolding fetch_dataset
    fetch-Keeps msg id =
        >>=-Keeps f (ask_dataset msg id) (λ resp. check (content dataset_of "dataset" resp))
          (asking msg id).0 (λ resp c. refl)

    ensure-Keeps :
        (msg : Envelope) (id : ℕ)
        → Keeps f (ensure_dataset_owner data_service uuid publishes msg id)
    unfolding ensure_dataset_owner
    ensure-Keeps msg id =
        >>=-Keeps f (fetch_dataset data_service uuid publishes msg id) _ (fetch-Keeps msg id)
          (λ ds c. refl)

    version-Keeps :
        (msg : Envelope) (id : ℕ)
        → Keeps f (fetch_dataset_id_by_version data_service uuid publishes msg id)
    unfolding fetch_dataset_id_by_version
    version-Keeps msg id =
        >>=-Keeps f (ask_version msg id)
          (λ resp. check (content version_of "version" resp) >>= λ v. check (dataset_id_of v))
          (asking msg id).1
          (λ resp.
            >>=-Keeps f (check (content version_of "version" resp)) (λ v. check (dataset_id_of v))
              (λ c. refl) (λ v c. refl))

    own_version-Keeps : (msg : Envelope) → Keeps f (own_version data_service uuid publishes msg)
    own_version-Keeps msg =
        >>=-Keeps f
          (check (
            required (codes "invalid version payload") "version_id"
              (unmarshal version_delete_fields msg.payload)))
          (λ id.
            fetch_dataset_id_by_version data_service uuid publishes msg id
            >>= ensure_dataset_owner data_service uuid publishes msg)
          (λ c. refl)
          (λ id.
            >>=-Keeps f (fetch_dataset_id_by_version data_service uuid publishes msg id)
              (ensure_dataset_owner data_service uuid publishes msg) (version-Keeps msg id)
              (λ d. ensure-Keeps msg d))

  pub access_of-Keeps :
      {X : Type 0} (f : Core → X) (k : Kind) (msg : Envelope)
      → (asks k ≡ true → AskingKeeps f)
      → Keeps f (access_of data_service uuid publishes k msg)
  access_of-Keeps f dataset_update_request msg asking =
      >>=-Keeps f (check _) _ (λ c. refl) (λ id. ensure-Keeps f (asking refl) msg id)
  access_of-Keeps f dataset_delete_request msg asking =
      >>=-Keeps f (check _) _ (λ c. refl) (λ id. ensure-Keeps f (asking refl) msg id)
  access_of-Keeps f version_add_request msg asking =
      >>=-Keeps f (check _) _ (λ c. refl) (λ id. ensure-Keeps f (asking refl) msg id)
  access_of-Keeps f version_delete_request msg asking = own_version-Keeps f (asking refl) msg
  access_of-Keeps f _ msg asking = λ c. refl
