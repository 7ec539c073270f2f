-- ===== src/Async/Data/Replies.antt =====
-- cmd/data/main.go: what a message comes to, whatever its command.
use dataset_service.Base.{
  ℕ, ◌≡◌, refl, sym, ◌∙◌, subst, ◌⊎◌, inl, inr, Bool-cases, Bool, true, false, not, ◌&&◌, Option,
  none, some, ◌∷◌, ◌++◌, if◌then◌else◌, arith,
}
use dataset_service.Text.{Text, codes, is_empty}
use dataset_service.Errors.{Error}
use dataset_service.Async.Contracts.{
  Kind, health_request, category_list_request, dataset_list_request, dataset_get_request,
  versions_list_request, version_get_request, notifications_request, access_pending_request,
  access_find_request, access_update_request, notification_create_request,
  notification_mark_request, dataset_create_request, dataset_update_request, dataset_delete_request,
  version_add_request, version_delete_request, review_create_request, review_update_request,
  review_delete_request, subscription_create_request, subscription_delete_request,
  category_create_request, category_update_request, category_delete_request, user_create_request,
  user_update_request, user_delete_request, user_get_request, unlisted, kind_text, Fields, Envelope,
}
use dataset_service.Exec.{Result, ok, err}
use dataset_service.Async.Data.{Repos}
use dataset_service.Async.Data.Process.{
  DataProcess, run_command, reply, publish_reply, response_kind, handle_core_message, is_done,
}

-- The types whose commands only read.
abbrev pub is_read : Kind → Bool
is_read health_request = true
is_read category_list_request = true
is_read dataset_list_request = true
is_read dataset_get_request = true
is_read versions_list_request = true
is_read version_get_request = true
is_read notifications_request = true
is_read access_pending_request = true
is_read access_find_request = true
is_read user_get_request = true
is_read (unlisted t) = true
is_read _ = false

-- The type of the response to a type of request: `request` at its end is `response`. Another type
-- is sent back as it is.
abbrev IsResponseTo : Kind → Kind → Type 0
IsResponseTo (unlisted t) k = k ≡ unlisted t
IsResponseTo request k =
    (stem : Text) × (kind_text request ≡ stem ++ codes "request")
    × (k ≡ unlisted (stem ++ codes "response"))

response_kind-IsResponseTo : (k : Kind) → IsResponseTo k (unlisted (response_kind k))
unfolding response_kind kind_text
response_kind-IsResponseTo health_request = (codes "health.", refl, refl)
response_kind-IsResponseTo category_list_request = (codes "categories.list.", refl, refl)
response_kind-IsResponseTo dataset_list_request = (codes "datasets.list.", refl, refl)
response_kind-IsResponseTo dataset_get_request = (codes "datasets.get.", refl, refl)
response_kind-IsResponseTo versions_list_request = (codes "versions.list.", refl, refl)
response_kind-IsResponseTo version_get_request = (codes "versions.get.", refl, refl)
response_kind-IsResponseTo notifications_request = (codes "notifications.list.", refl, refl)
response_kind-IsResponseTo access_pending_request = (codes "access.pending.", refl, refl)
response_kind-IsResponseTo access_find_request = (codes "access.find.", refl, refl)
response_kind-IsResponseTo access_update_request = (codes "access.update.", refl, refl)
response_kind-IsResponseTo notification_create_request = (codes "notification.create.", refl, refl)
response_kind-IsResponseTo notification_mark_request = (codes "notification.mark.", refl, refl)
response_kind-IsResponseTo dataset_create_request = (codes "dataset.create.", refl, refl)
response_kind-IsResponseTo dataset_update_request = (codes "dataset.update.", refl, refl)
response_kind-IsResponseTo dataset_delete_request = (codes "dataset.delete.", refl, refl)
response_kind-IsResponseTo version_add_request = (codes "version.add.", refl, refl)
response_kind-IsResponseTo version_delete_request = (codes "version.delete.", refl, refl)
response_kind-IsResponseTo review_create_request = (codes "review.create.", refl, refl)
response_kind-IsResponseTo review_update_request = (codes "review.update.", refl, refl)
response_kind-IsResponseTo review_delete_request = (codes "review.delete.", refl, refl)
response_kind-IsResponseTo subscription_create_request = (codes "subscription.create.", refl, refl)
response_kind-IsResponseTo subscription_delete_request = (codes "subscription.delete.", refl, refl)
response_kind-IsResponseTo category_create_request = (codes "category.create.", refl, refl)
response_kind-IsResponseTo category_update_request = (codes "category.update.", refl, refl)
response_kind-IsResponseTo category_delete_request = (codes "category.delete.", refl, refl)
response_kind-IsResponseTo user_create_request = (codes "user.create.", refl, refl)
response_kind-IsResponseTo user_update_request = (codes "user.update.", refl, refl)
response_kind-IsResponseTo user_delete_request = (codes "user.delete.", refl, refl)
response_kind-IsResponseTo user_get_request = (codes "user.get.", refl, refl)
response_kind-IsResponseTo (unlisted t) = refl

module _ {S : Type 0} (repos : Repos S) (error_text : Error → Text)
    (publishes : Envelope → Bool) where
  abbrev handle : ℕ → ℕ → Envelope → DataProcess S → Bool × DataProcess S
  handle at now msg p = handle_core_message repos error_text publishes at now msg p

  pub run_command-read :
      (k : Kind) (payload : Option Fields) (at now : ℕ) (s : S)
      → is_read k ≡ true
      → (run_command repos error_text publishes k payload at now s).1 ≡ s
  unfolding run_command
  run_command-read health_request payload at now s h = refl
  run_command-read category_list_request payload at now s h = refl
  run_command-read dataset_list_request payload at now s h = refl
  run_command-read dataset_get_request payload at now s h = refl
  run_command-read versions_list_request payload at now s h = refl
  run_command-read version_get_request payload at now s h = refl
  run_command-read notifications_request payload at now s h = refl
  run_command-read access_pending_request payload at now s h = refl
  run_command-read access_find_request payload at now s h = refl
  run_command-read user_get_request payload at now s h = refl
  run_command-read (unlisted t) payload at now s h = refl
  run_command-read _ payload at now s h = absurd (cc)

  abbrev publish : Envelope → Envelope → DataProcess S → Bool × DataProcess S
  publish msg resp p = publish_reply repos error_text publishes msg resp p

  publish-store : (msg resp : Envelope) (p : DataProcess S) → (publish msg resp p).1.store ≡ p.store
  publish-store msg resp p = ground arith

  publish-published :
      (msg resp : Envelope) (p : DataProcess S)
      → (publish msg resp p).1.published
        ≡ (if publishes resp then resp ∷ p.published else p.published)
  publish-published msg resp p = ground arith

  publish-processed :
      (msg resp : Envelope) (p : DataProcess S)
      → (publish msg resp p).1.processed
        ≡ (if publishes resp && not (is_empty msg.id) then msg.id ∷ p.processed else p.processed)
  publish-processed msg resp p = ground arith

  handled :
      (at now : ℕ) (msg : Envelope) (p : DataProcess S)
      → is_done msg p ≡ false
      → let (result, s) =
          run_command repos error_text publishes msg.kind msg.payload at now p.store in
        handle at now msg p
        ≡ publish msg (reply repos error_text publishes msg result) (record p { store = s })
  unfolding handle_core_message
  handled at now msg p new = rw new refl

  -- An answer holds the fields of a result, or the text of its error.
  abbrev Tells : Result Fields → Envelope → Type 0
  Tells (ok fields) resp = (resp.payload ≡ some fields) × (resp.error ≡ none)
  Tells (err e) resp = (resp.payload ≡ none) × (resp.error ≡ some (error_text e))

  reply-Tells :
      (msg : Envelope) (result : Result Fields)
      → Tells result (reply repos error_text publishes msg result)
  reply-Tells msg (ok fields) = (refl, refl)
  reply-Tells msg (err e) = (refl, refl)

  -- What the handling of a message leaves: the database after its command, and one answer, which is
  -- published if the broker takes it; the message is done if it has an identifier and its answer
  -- was published.
  pub record Answered (at now : ℕ) (msg : Envelope) (p : DataProcess S) (x : Bool × DataProcess S)
      : Type 0 where
    pub stored :
        x.1.store ≡ (run_command repos error_text publishes msg.kind msg.payload at now p.store).1
    pub unchanged : is_read msg.kind ≡ true → x.1.store ≡ p.store
    pub resp : Envelope
    pub correlated : resp.correlation_id ≡ msg.correlation_id
    pub from_data : resp.source ≡ codes "data"
    pub in_kind : IsResponseTo msg.kind resp.kind
    pub tells :
        Tells (run_command repos error_text publishes msg.kind msg.payload at now p.store).0 resp
    pub sent : x.0 ≡ publishes resp
    pub published : x.1.published ≡ (if publishes resp then resp ∷ p.published else p.published)
    pub marked :
        x.1.processed
        ≡ (if publishes resp && not (is_empty msg.id) then msg.id ∷ p.processed else p.processed)

  publish-Answered :
      (at now : ℕ) (msg : Envelope) (p : DataProcess S)
      → let (result, s) =
          run_command repos error_text publishes msg.kind msg.payload at now p.store in
        Answered at now msg p
          (publish msg (reply repos error_text publishes msg result) (record p { store = s }))
  publish-Answered at now msg p =
      let (result, s) =
        run_command repos error_text publishes msg.kind msg.payload at now p.store in
      let resp = reply repos error_text publishes msg result in
      let kept = publish-store msg resp (record p { store = s }) in
      record {
        stored = kept;
        unchanged = λ reads. kept ∙ run_command-read msg.kind msg.payload at now p.store reads;
        resp = resp;
        correlated = refl;
        from_data = refl;
        in_kind = response_kind-IsResponseTo msg.kind;
        tells = reply-Tells msg result;
        sent = refl;
        published = publish-published msg resp (record p { store = s });
        marked = publish-processed msg resp (record p { store = s });
      }

  -- A message that is not done yet is answered with exactly one envelope: from the data process,
  -- with the correlation identifier of the message, of the response type that belongs to its
  -- request type, and with the fields or the error text that its command ends with. The answer is
  -- published if and only if the broker takes it, and only then the handling succeeds and the
  -- message counts as done, if it has an identifier. The database is left as the command leaves
  -- it, and as it was if the message only reads.
  pub handle-Answered :
      (at now : ℕ) (msg : Envelope) (p : DataProcess S)
      → is_done msg p ≡ false
      → Answered at now msg p (handle_core_message repos error_text publishes at now msg p)
  handle-Answered at now msg p new =
      subst (Answered at now msg p) (sym (handled at now msg p new)) (publish-Answered at now msg p)

  -- The database after a message is that after its command, or as it was if the message was done.
  pub handle-store :
      (at now : ℕ) (msg : Envelope) (p : DataProcess S)
      → ((handle at now msg p).1.store ≡ p.store)
        ⊎ ((handle at now msg p).1.store
            ≡ (run_command repos error_text publishes msg.kind msg.payload at now p.store).1)
  unfolding handle_core_message
  handle-store at now msg p = elim (Bool-cases (is_done msg p)) [
    | inl old ↦ inl (rw old refl)
    | inr new ↦ inr (handle-Answered at now msg p new).stored
  ]
