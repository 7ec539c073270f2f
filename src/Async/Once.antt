-- ===== src/Async/Once.antt =====
-- cmd/core/main.go: a message that was passed on is not acted on again.
use dataset_service.Base.{
  ℕ, ◌≡◌, refl, ap, ◌∙◌, inl, inr, Bool, true, false, List, [], ◌∷◌, arith, Bool-cases,
}
use dataset_service.Text.{Text, is_empty, text_eq_iff}
use dataset_service.Async.Contracts.{Kind, Envelope, Rpc, health_request, unlisted}
use dataset_service.Async.Reads.{respond_to-forwarded}
use dataset_service.Async.Asking.{Keeps, >>=-Keeps, AskingKeeps, access_of-Keeps}
use dataset_service.Async.Core.{
  Core, Checked, passed, refused, check, contains, require_actor, access_of, forward_to_data,
  settle, pass_on, respond_to, handle_gateway_message, is_forwarded, is_duplicate, enforce_access,
}

module _ (data_service : List Envelope → Envelope → Rpc) (uuid : List Envelope → ℕ → Text)
    (publishes : Envelope → Bool) where
  -- The messages of the queue, one after the other.
  unfoldable pub handle_all : List Envelope → Core → Core
  unfolding handle_gateway_message
  handle_all [] c = c
  handle_all (msg ∷ msgs) c =
      handle_all msgs (handle_gateway_message data_service uuid publishes msg c).1

  abbrev done_ids : Core → List Text
  done_ids c = c.processed

  asking-done_ids : AskingKeeps data_service uuid publishes done_ids
  unfolding forward_to_data
  asking-done_ids msg id = (λ c. refl, λ c. refl)

  pass_on-done_ids :
      (msg : Envelope)
      → Keeps data_service uuid publishes done_ids (pass_on data_service uuid publishes msg)
  unfolding enforce_access forward_to_data
  pass_on-done_ids msg =
      >>=-Keeps data_service uuid publishes done_ids
        (enforce_access data_service uuid publishes msg)
        (λ _. forward_to_data data_service uuid publishes msg)
        (>>=-Keeps data_service uuid publishes done_ids (check (require_actor msg))
          (λ _. access_of data_service uuid publishes msg.kind msg) (λ c. refl)
          (λ _.
            access_of-Keeps data_service uuid publishes done_ids msg.kind msg
              (λ _. asking-done_ids)))
        (λ _ c. refl)

  settle-contains :
      (id : Text) (msg : Envelope) (r : Checked Envelope) (d : Core)
      → contains id d.processed ≡ true
      → contains id (settle data_service uuid publishes msg (r, d)).1.processed ≡ true
  settle-contains id msg (refused t) d h = ground arith
  settle-contains id msg (passed resp) d h = ground arith

  respond_to-contains :
      (id : Text) (k : Kind) (msg : Envelope) (c : Core)
      → contains id c.processed ≡ true
      → contains id (respond_to data_service uuid publishes k msg c).1.processed ≡ true
  respond_to-contains id health_request msg c h = ground arith
  respond_to-contains id (unlisted t) msg c h = ground arith
  respond_to-contains id _ msg c h =
      settle-contains id msg (pass_on data_service uuid publishes msg c).0
        (pass_on data_service uuid publishes msg c).1
        (ap (contains id) (pass_on-done_ids msg c) ∙ h)

  handle-contains :
      (id : Text) (msg : Envelope) (c : Core)
      → contains id c.processed ≡ true
      → contains id (handle_gateway_message data_service uuid publishes msg c).1.processed ≡ true
  unfolding handle_gateway_message
  handle-contains id msg c h = elim (Bool-cases (is_duplicate msg c)) [
    | inl old ↦ rw old h
    | inr new ↦ rw new (respond_to-contains id msg.kind msg c h)
  ]

  handle_all-contains :
      (id : Text) (msgs : List Envelope) (c : Core)
      → contains id c.processed ≡ true
      → contains id (handle_all msgs c).processed ≡ true
  unfolding handle_all
  handle_all-contains id [] c h = h
  handle_all-contains id (msg ∷ msgs) c h =
      handle_all-contains id msgs (handle_gateway_message data_service uuid publishes msg c).1
        (handle-contains id msg c h)

  settle-marks :
      (msg resp : Envelope) (x : Checked Envelope × Core)
      → is_empty msg.id ≡ false
      → x.0 ≡ passed resp
      → contains msg.id (settle data_service uuid publishes msg x).1.processed ≡ true
  settle-marks msg resp (refused t, d) named answer = absurd (cc)
  settle-marks msg resp (passed r, d) named answer =
      ground (arith, (text_eq_iff msg.id msg.id).1 refl)

  handle-marks :
      (msg resp : Envelope) (c : Core)
      → is_empty msg.id ≡ false
      → is_forwarded msg.kind ≡ true
      → is_duplicate msg c ≡ false
      → (pass_on data_service uuid publishes msg c).0 ≡ passed resp
      → contains msg.id (handle_gateway_message data_service uuid publishes msg c).1.processed
        ≡ true
  unfolding handle_gateway_message
  handle-marks msg resp c named forwarded new answer =
      rw (new, respond_to-forwarded data_service uuid publishes msg.kind msg c forwarded)
        (settle-marks msg resp (pass_on data_service uuid publishes msg c) named answer)

  -- A message with an identifier that is new, whose checks pass and which the data process answers
  -- is acted on once: when it comes again, after any further messages, it is acknowledged and
  -- changes nothing, also if its reply did not reach the gateway.
  pub handle-once :
      (msg resp : Envelope) (others : List Envelope) (c : Core)
      → is_empty msg.id ≡ false
      → is_forwarded msg.kind ≡ true
      → is_duplicate msg c ≡ false
      → (pass_on data_service uuid publishes msg c).0 ≡ passed resp
      → let later = handle_all (msg ∷ others) c in
        handle_gateway_message data_service uuid publishes msg later ≡ (true, later)
  unfolding handle_all handle_gateway_message
  handle-once msg resp others c named forwarded new answer =
      let seen =
        handle_all-contains msg.id others
          (handle_gateway_message data_service uuid publishes msg c).1
          (handle-marks msg resp c named forwarded new answer) in
      rw (named, seen) refl
