-- ===== src/Async/Rights.antt =====
-- cmd/core/main.go: who may have which message passed on to the data process.
use dataset_service.Base.{
  ℕ, ◌+◌, ◌≡◌, ◌≢◌, refl, ap, ◌∙◌, inl, inr, Bool, true, false, List, [], ◌∷◌, arith, ◌==◌,
  if◌then◌else◌, Bool-cases,
}
use dataset_service.Text.{Text}
use dataset_service.Entities.{role_guest}
use dataset_service.Async.Contracts.{
  Kind, dataset_update_request, dataset_delete_request, version_add_request, version_delete_request,
  health_request, unlisted, kind_code, Envelope, Rpc,
}
use dataset_service.Async.Reads.{respond_to-forwarded}
use dataset_service.Async.Core.{
  Core, refused, role_of, require_actor, access_of, enforce_access, forward_to_data, settle,
  pass_on, respond_to, handle_gateway_message, is_forwarded, is_duplicate,
}
use dataset_service.Async.Asking.{Checked-cases, AskingKeeps, asks, access_of-Keeps}
use dataset_service.Async.Granted.{Right, require_actor-passed, access_of-Right}

-- How many messages of a type there are.
unfoldable pub count_kind : ℕ → List Envelope → ℕ
count_kind n [] = 0
count_kind n (msg ∷ log) =
    let rest = count_kind n log in if kind_code msg.kind == n then rest + 1 else rest

module _ (data_service : List Envelope → Envelope → Rpc) (uuid : List Envelope → ℕ → Text)
    (publishes : Envelope → Bool) where
  abbrev passed_on : ℕ → Core → ℕ
  passed_on n c = count_kind n c.to_data

  -- Apart from the two types of its own questions, the core passes on nothing while it checks.
  asking-Quiet :
      (k : Kind)
      → asks data_service uuid publishes k ≡ true
      → AskingKeeps data_service uuid publishes (passed_on (kind_code k))
  unfolding forward_to_data count_kind kind_code
  asking-Quiet dataset_update_request h msg id = (λ c. refl, λ c. refl)
  asking-Quiet dataset_delete_request h msg id = (λ c. refl, λ c. refl)
  asking-Quiet version_add_request h msg id = (λ c. refl, λ c. refl)
  asking-Quiet version_delete_request h msg id = (λ c. refl, λ c. refl)
  asking-Quiet _ h msg id = absurd (cc)

  access_of-Quiet :
      (k : Kind) (msg : Envelope) (c : Core)
      → passed_on (kind_code k) (access_of data_service uuid publishes k msg c).1
        ≡ passed_on (kind_code k) c
  access_of-Quiet k msg c =
      access_of-Keeps data_service uuid publishes (passed_on (kind_code k)) k msg (asking-Quiet k) c

  pub settle-refused :
      (msg : Envelope) (t : Text) (d : Core)
      → (settle data_service uuid publishes msg (refused t, d)).1.to_data ≡ d.to_data
  settle-refused msg t d = ground arith

  pub respond_to-other :
      (k : Kind) (msg : Envelope) (c : Core)
      → is_forwarded k ≡ false
      → (respond_to data_service uuid publishes k msg c).1.to_data ≡ c.to_data
  respond_to-other health_request msg c h = ground arith
  respond_to-other (unlisted t) msg c h = ground arith
  respond_to-other _ msg c h = absurd (cc)

  passed-Right :
      (msg : Envelope) (c : Core)
      → count_kind
          (kind_code msg.kind)
          (settle data_service uuid publishes msg
            (pass_on data_service uuid publishes msg c)).1.to_data
        ≢ count_kind (kind_code msg.kind) c.to_data
      → (msg.actor_id ≢ 0)
        × (role_of msg ≢ role_guest)
        × Right data_service uuid publishes msg.kind msg c
  unfolding enforce_access
  passed-Right msg c more = elim (Checked-cases (require_actor msg)) [
    | inr (t, e) ↦
        absurd (more (rw e (ap (count_kind (kind_code msg.kind)) (settle-refused msg t c))))
    | inl (u, e) ↦ elim (Checked-cases (access_of data_service uuid publishes msg.kind msg c).0) [
      | inr (t, f) ↦ absurd (
          more (
            rw (e, f)
              (ap (count_kind (kind_code msg.kind))
                  (settle-refused msg t (access_of data_service uuid publishes msg.kind msg c).1)
                ∙ access_of-Quiet msg.kind msg c)))
      | inl (v, f) ↦
          let (named, no_guest) = require_actor-passed msg e in
          (named, no_guest, access_of-Right data_service uuid publishes msg.kind msg c f)
    ]
  ]

  -- A message is passed on only for an actor who is named and is not a guest, and only with the
  -- right that its type needs: an admin for users, categories and decisions on access; for a
  -- dataset or its versions the owner, as the data process answers, or an admin; for a subscription
  -- the user that the payload names, or an admin, if the payload names a user.
  pub forwarded-Right :
      (msg : Envelope) (c : Core)
      → count_kind
          (kind_code msg.kind)
          (handle_gateway_message data_service uuid publishes msg c).1.to_data
        ≢ count_kind (kind_code msg.kind) c.to_data
      → (msg.actor_id ≢ 0)
        × (role_of msg ≢ role_guest)
        × Right data_service uuid publishes msg.kind msg c
  unfolding handle_gateway_message
  forwarded-Right msg c more = elim (Bool-cases (is_duplicate msg c)) [
    | inl old ↦ absurd (more (rw old refl))
    | inr new ↦ elim (Bool-cases (is_forwarded msg.kind)) [
      | inr other ↦ absurd (
          more
            (rw new (ap (count_kind (kind_code msg.kind)) (respond_to-other msg.kind msg c other))))
      | inl forwarded ↦ passed-Right msg c (λ kept. more (
          rw new (
            ap (λ (x : Bool × Core). count_kind (kind_code msg.kind) x.1.to_data)
              (respond_to-forwarded data_service uuid publishes msg.kind msg c forwarded)
            ∙ kept)))
    ]
  ]
