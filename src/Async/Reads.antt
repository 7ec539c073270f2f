-- ===== src/Async/Reads.antt =====
-- cmd/gateway/main.go with cmd/core/main.go: what becomes of the requests that only read.
use dataset_service.Base.{
  ℕ, ◌≡◌, refl, ap, ◌∙◌, ◌⊎◌, inl, inr, Bool, true, false, List, ◌∷◌, arith, if◌then◌else◌,
}
use dataset_service.Text.{Text, codes, trim_space}
use dataset_service.Async.Contracts.{Kind, health_request, unlisted, Envelope, Rpc, answered}
use dataset_service.Async.Gateway.{
  HttpRequest, Fresh, Handled, proceed, respond, stamp, with_trace, parse_uint_param,
}
use dataset_service.Async.Gateway.Routes.{
  Route, get_categories, get_datasets, get_dataset, get_versions, get_version, get_notifications,
  get_pending_access, get_access, get_user, is_get, serve, answer_for,
}
use dataset_service.Async.Gateway.Handlers.{owner_filter}
use dataset_service.Async.Core.{
  Core, refused, enforce_access, respond_to, settle, pass_on, handle_gateway_message, is_duplicate,
  error_reply, is_forwarded, require_actor,
}

abbrev IsAnonymous : Envelope → Type 0
IsAnonymous msg = (msg.actor_id ≡ 0) × (is_forwarded msg.kind ≡ true)

Handled-cases :
    {A : Type 0} (m : Handled A)
    → ((a : A) × (m ≡ proceed a)) ⊎ ((status : ℕ) × (body : Text) × (m ≡ respond status body))
Handled-cases (proceed a) = inl (a, refl)
Handled-cases (respond status body) = inr (status, body, refl)

get-IsAnonymous :
    (fresh : Fresh) (r : HttpRequest) (route : Route) (msg : Envelope)
    → is_get route ≡ true
    → serve fresh r route ≡ proceed msg
    → IsAnonymous msg
unfolding serve stamp with_trace
get-IsAnonymous fresh r get_categories msg g h = ground arith
get-IsAnonymous fresh r get_datasets msg g h =
    elim (Handled-cases (owner_filter fresh r (trim_space (r.query "owner_id")))) [
      | inl (a, e) ↦ ground arith
      | inr (status, body, e) ↦ absurd (ground arith)
    ]
get-IsAnonymous fresh r get_dataset msg g h =
    elim (Handled-cases (parse_uint_param (r.path "id") (codes "id"))) [
      | inl (a, e) ↦ ground arith
      | inr (status, body, e) ↦ absurd (ground arith)
    ]
get-IsAnonymous fresh r get_versions msg g h =
    elim (Handled-cases (parse_uint_param (r.path "id") (codes "id"))) [
      | inl (a, e) ↦ ground arith
      | inr (status, body, e) ↦ absurd (ground arith)
    ]
get-IsAnonymous fresh r get_version msg g h =
    elim (Handled-cases (parse_uint_param (r.path "id") (codes "id"))) [
      | inl (a, e) ↦ ground arith
      | inr (status, body, e) ↦ absurd (ground arith)
    ]
get-IsAnonymous fresh r get_user msg g h =
    elim (Handled-cases (parse_uint_param (r.path "id") (codes "id"))) [
      | inl (a, e) ↦ ground arith
      | inr (status, body, e) ↦ absurd (ground arith)
    ]
get-IsAnonymous fresh r get_notifications msg g h =
    elim (Handled-cases (parse_uint_param (r.path "userID") (codes "userID"))) [
      | inl (a, e) ↦ ground arith
      | inr (status, body, e) ↦ absurd (ground arith)
    ]
get-IsAnonymous fresh r get_pending_access msg g h =
    elim (Handled-cases (parse_uint_param (r.path "ownerID") (codes "ownerID"))) [
      | inl (a, e) ↦ ground arith
      | inr (status, body, e) ↦ absurd (ground arith)
    ]
get-IsAnonymous fresh r get_access msg g h =
    elim (Handled-cases (parse_uint_param (r.query "dataset_id") (codes "dataset_id"))) [
      | inl (a, e) ↦ elim (Handled-cases (parse_uint_param (r.query "user_id") (codes "user_id"))) [
        | inl (b, f) ↦ ground arith
        | inr (status, body, f) ↦ absurd (ground arith)
      ]
      | inr (status, body, e) ↦ absurd (ground arith)
    ]
get-IsAnonymous fresh r _ msg g h = absurd (cc)

-- A message whose type is passed on is settled after the checks.
pub respond_to-forwarded :
    (data_service : List Envelope → Envelope → Rpc) (uuid : List Envelope → ℕ → Text)
    (publishes : Envelope → Bool) (k : Kind) (msg : Envelope) (c : Core)
    → is_forwarded k ≡ true
    → respond_to data_service uuid publishes k msg c
      ≡ settle data_service uuid publishes msg (pass_on data_service uuid publishes msg c)
respond_to-forwarded data_service uuid publishes health_request msg c h = absurd (cc)
respond_to-forwarded data_service uuid publishes (unlisted t) msg c h = absurd (cc)
respond_to-forwarded data_service uuid publishes k msg c h = refl

no_actor :
    (msg : Envelope) → msg.actor_id ≡ 0 → require_actor msg ≡ refused (codes "actor required")
unfolding require_actor
no_actor msg anonymous = rw anonymous refl

-- A reply with an error gives the status 502 on every route.
error-502 :
    (route : Route) (msg : Envelope) (text : Text)
    → (answer_for route (answered (error_reply msg text))).status ≡ 502
unfolding answer_for
error-502 get_categories msg text = refl
error-502 _ msg text = refl

module _ (data_service : List Envelope → Envelope → Rpc) (uuid : List Envelope → ℕ → Text)
    (publishes : Envelope → Bool) where
  -- Whatever request one of the gateway's GET routes sends to the core, the core refuses it for
  -- want of an actor, without a message to the data process, unless it drops the message as one
  -- that it has handled before; and if that refusal reaches the gateway, the client is answered
  -- with the status 502.
  pub get-refused :
      (fresh : Fresh) (r : HttpRequest) (route : Route) (msg : Envelope) (c : Core)
      → is_get route ≡ true
      → serve fresh r route ≡ proceed msg
      → is_duplicate msg c ≡ false
      → let (nil, after) = handle_gateway_message data_service uuid publishes msg c in
        let refusal = error_reply msg (codes "actor required") in
        (after
          ≡ (if publishes refusal then record c { to_gateway = refusal ∷ c.to_gateway } else c))
        × (nil ≡ publishes refusal)
        × ((answer_for route (answered refusal)).status ≡ 502)
  unfolding handle_gateway_message enforce_access answer_for
  get-refused fresh r route msg c g sent new =
      let (anonymous, forwarded) = get-IsAnonymous fresh r route msg g sent in
      let settled = respond_to-forwarded data_service uuid publishes msg.kind msg c forwarded in
      let checked : require_actor msg ≡ refused (codes "actor required") = no_actor msg anonymous in
      let stopped : pass_on data_service uuid publishes msg c
          ≡ (refused (codes "actor required"), c) =
        rw checked refl in
      let handled : handle_gateway_message data_service uuid publishes msg c
          ≡ settle data_service uuid publishes msg (refused (codes "actor required"), c) =
        rw new (settled ∙ ap (settle data_service uuid publishes msg) stopped) in
      (
        ap (λ (x : Bool × Core). x.1) handled,
        ap (λ (x : Bool × Core). x.0) handled,
        error-502 route msg (codes "actor required"),
      )
