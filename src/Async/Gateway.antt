-- ===== src/Async/Gateway.antt =====
-- cmd/gateway/main.go: HTTP requests become messages for the core, and its replies HTTP responses.
pub mod Handlers
pub mod Routes
pub mod Uploads
pub mod Pending
use dataset_service.Base.{
  ℕ, ◌≡◌, ◌^◌, String, Bool, true, false, Option, none, some, List, [], ◌∷◌, ◌++◌, ltb, ◌==◌,
  if◌then◌else◌,
}
use dataset_service.Base.Time.{pos}
use dataset_service.Text.{Text, codes, is_empty, text_eq, trim_space, to_lower}
use dataset_service.Text.Decimal.{read_digits}
use dataset_service.Async.Contracts.{
  Kind, category_list_request, dataset_list_request, dataset_get_request, versions_list_request,
  version_get_request, notifications_request, access_pending_request, access_find_request,
  access_update_request, notification_create_request, notification_mark_request,
  dataset_create_request, dataset_update_request, dataset_delete_request, version_add_request,
  version_delete_request, review_create_request, review_update_request, review_delete_request,
  subscription_create_request, subscription_delete_request, category_create_request,
  category_update_request, category_delete_request, user_create_request, user_update_request,
  user_delete_request, user_get_request, Field, number, string, boolean, Fields, Schema, decode,
  set_field, Envelope, Rpc, answered, failed, category_create_fields, category_update_fields,
  user_create_fields, user_update_fields, dataset_create_fields, dataset_update_fields,
  review_create_fields, review_update_fields, subscription_fields, access_update_fields,
  notification_create_fields,
}

-- What a handler reads of an HTTP request; `body` is the JSON object of its body, if it is one.
pub record HttpRequest : Type 0 where
  pub path : String → Text
  pub query : String → Text
  pub header : String → Text
  pub body : Option Fields

-- The identifiers that a handler takes from uuid.
pub record Fresh : Type 0 where
  pub id : Text
  pub correlation : Text
  pub trace : Text

-- A handler goes on, or it answers at once with a status and a text.
pub data Handled (A : Type 0) : Type 0 where
  proceed : A → Handled A
  respond : ℕ → Text → Handled A

module _ {A B : Type 0} where
  infixl 10 ◌>>=◌
  abbrev pub ◌>>=◌ : Handled A → (A → Handled B) → Handled B
  proceed a >>= f = f a
  respond status body >>= f = respond status body

-- `strconv.ParseUint(v, 10, 64)`
abbrev in_64_bits : Option ℕ → Option ℕ
in_64_bits none = none
in_64_bits (some n) = if ltb n (2 ^ 64) then some n else none

unfoldable pub parse_uint : Text → Option ℕ
parse_uint v = if is_empty v then none else in_64_bits (read_digits 0 v)

abbrev parsed : Text → Option ℕ → Handled ℕ
parsed name none = respond 400 (codes "invalid " ++ name)
parsed name (some n) = proceed n

-- `parseUintParam`, whose error every handler answers with the status 400.
unfoldable pub parse_uint_param : Text → Text → Handled ℕ
parse_uint_param value name =
    let v = trim_space value in
    if is_empty v then respond 400 (name ++ codes " is required") else parsed name (parse_uint v)

abbrev valid_user : Option ℕ → Handled ℕ
valid_user none = respond 401 (codes "invalid X-User-ID")
valid_user (some n) = if n == 0 then respond 401 (codes "invalid X-User-ID") else proceed n

-- `userFromHeader`, whose error every handler answers with the status 401.
unfoldable pub user_from_header : HttpRequest → Handled ℕ
user_from_header r =
    let id = trim_space (r.header "X-User-ID") in
    if is_empty id then respond 401 (codes "missing X-User-ID") else valid_user (parse_uint id)

unfoldable pub role_from_header : HttpRequest → Text
role_from_header r =
    let role = to_lower (trim_space (r.header "X-User-Role")) in
    if is_empty role then codes "user" else role

-- The values that a context carries: `traceKey`, `actorKey` and `roleKey`.
pub record Context : Type 0 where
  pub trace : Text
  pub actor : Option ℕ
  pub role : Option Text

abbrev decoded : Option Fields → Handled Fields
decoded none = respond 400 (codes "invalid body")
decoded (some fields) = proceed fields

-- `json.NewDecoder(r.Body).Decode(&req)`
abbrev pub decode_body : Schema → Option Fields → Handled Fields
decode_body schema none = respond 400 (codes "invalid body")
decode_body schema (some fields) = decoded (decode schema fields)

-- `msg.ActorID = id` if the context has it, and the like.
abbrev actor_or : ℕ → Option ℕ → ℕ
actor_or n none = n
actor_or n (some id) = id

abbrev role_or : Text → Option Text → Text
role_or t none = t
role_or t (some role) = role

-- What `rpc` fills in before it publishes the message.
unfoldable pub stamp : Context → Envelope → Envelope
stamp ctx msg = record msg {
  trace_id = if is_empty msg.trace_id then ctx.trace else msg.trace_id;
  actor_id = actor_or msg.actor_id ctx.actor;
  actor_role = role_or msg.actor_role ctx.role;
}

module _ (fresh : Fresh) (r : HttpRequest) where
  -- `withTrace(r.Context(), r)`
  unfoldable pub with_trace : Context
  with_trace =
      let t = r.header "X-Request-ID" in
      record { trace = if is_empty t then fresh.trace else t; actor = none; role = none }

  abbrev with_actor : ℕ → Context
  with_actor id = record with_trace { actor = some id; role = some (role_from_header r) }

  -- `actorContext`, which also returns the user.
  unfoldable pub actor_context : Handled (Context × ℕ)
  unfolding with_trace
  actor_context = user_from_header r >>= λ id. proceed (with_actor id, id)

  -- The envelope of a request, as `rpc` publishes it.
  abbrev pub send : Context → Kind → Fields → Handled Envelope
  send ctx kind fields = proceed (
      stamp ctx (record {
        id = fresh.id;
        kind = kind;
        source = codes "gateway";
        correlation_id = fresh.correlation;
        trace_id = [];
        actor_id = 0;
        actor_role = [];
        payload = some fields;
        error = none;
      }))
