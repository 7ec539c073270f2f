-- ===== src/Async/Core.antt =====
-- cmd/core/main.go: messages from the gateway are checked and passed on to the data process.
use dataset_service.Base.{
  ℕ, String, Bool, true, false, ◌&&◌, ◌||◌, not, Option, none, some, List, [], ◌∷◌, ◌==◌,
  if◌then◌else◌,
}
use dataset_service.Base.Time.{pos}
use dataset_service.Text.{Text, codes, is_empty, text_eq, trim_space, to_lower}
use dataset_service.Entities.{Dataset, DatasetVersion, role_admin, role_guest}
use dataset_service.Async.Contracts.{
  Kind, dataset_get_request, version_get_request, access_update_request, dataset_update_request,
  dataset_delete_request, version_add_request, version_delete_request, subscription_create_request,
  subscription_delete_request, category_create_request, category_update_request,
  category_delete_request, user_create_request, user_update_request, user_delete_request, Field,
  number, dataset, version, null, Fields, Schema, decode_each, get_field, decode, get_number,
  Envelope, Rpc, answered, failed, dataset_update_fields, version_add_fields, version_delete_fields,
  subscription_fields, health_request, unlisted,
}

-- `processed` has the identifiers of messages that are done; `to_data` is what was handed to the broker
-- for the data process, whether it took it or not, and `to_gateway` what it took for the gateway,
-- the latest first.
pub record Core : Type 0 where
  pub processed : List Text
  pub to_data : List Envelope
  pub to_gateway : List Envelope

-- A step of a handler: it goes on, or it ends with the text of an error.
pub data Checked (A : Type 0) : Type 0 where
  passed : A → Checked A
  refused : Text → Checked A

abbrev pub Step : Type 0 → Type 0
Step A = Core → Checked A × Core

module _ {A B : Type 0} where
  abbrev pub go_on : Checked A → (A → Step B) → Step B
  go_on (passed a) f c = f a c
  go_on (refused t) f c = (refused t, c)

  infixl 10 ◌>>=◌
  abbrev pub ◌>>=◌ : Step A → (A → Step B) → Step B
  ◌>>=◌ m f c = let (r, c') = m c in go_on r f c'

abbrev pub check : {A : Type 0} → Checked A → Step A
check r c = (r, c)

abbrev pub contains : Text → List Text → Bool
contains id [] = false
contains id (x ∷ xs) = text_eq x id || contains id xs

-- The types that `handleGatewayMessage` passes on.
abbrev pub is_forwarded : Kind → Bool
is_forwarded health_request = false
is_forwarded (unlisted t) = false
is_forwarded _ = true

-- `strings.ToLower(strings.TrimSpace(msg.ActorRole))`
abbrev pub role_of : Envelope → Text
role_of msg = to_lower (trim_space msg.actor_role)

-- `requireActor`
unfoldable pub require_actor : Envelope → Checked (Unit {0})
require_actor msg =
    if msg.actor_id == 0
    then refused (codes "actor required")
    else if text_eq (role_of msg) role_guest
    then refused (codes "insufficient role")
    else passed tt

abbrev pub require_admin_role : Envelope → Checked (Unit {0})
require_admin_role msg =
    if text_eq (role_of msg) role_admin then passed tt else refused (codes "admin role required")

-- `json.Unmarshal` of a payload and the check that one of its numbers is not 0.
abbrev pub required : Text → String → Option Fields → Checked ℕ
required text key none = refused text
required text key (some fields) =
    if get_number key fields == 0 then refused text else passed (get_number key fields)

abbrev pub unmarshal : Schema → Option Fields → Option Fields
unmarshal schema none = none
unmarshal schema (some fields) = decode schema fields

abbrev reply_of : Text → Rpc → Checked Envelope
reply_of corr (answered resp) = passed (record resp { correlation_id = corr })
reply_of corr (failed text) = refused text

-- The entity of a response; a payload without it holds nil, another value cannot be decoded.
abbrev pub dataset_of : Field → Checked (Option Dataset)
dataset_of (dataset d) = passed (some d)
dataset_of null = passed none
dataset_of _ = refused (codes "json: cannot unmarshal")

abbrev pub version_of : Field → Checked (Option DatasetVersion)
version_of (version v) = passed (some v)
version_of null = passed none
version_of _ = refused (codes "json: cannot unmarshal")

abbrev pub content : {A : Type 0} → (Field → Checked A) → String → Envelope → Checked A
content read key resp = read_reply read key resp.error resp.payload
  where
    read_reply :
        {A : Type 0} → (Field → Checked A) → String → Option Text → Option Fields → Checked A
    read_reply read key (some text) payload = refused text
    read_reply read key none none = refused (codes "unexpected end of JSON input")
    read_reply read key none (some fields) = read (get_field key fields)

abbrev pub dataset_id_of : Option DatasetVersion → Checked ℕ
dataset_id_of none = refused (codes "version not found")
dataset_id_of (some v) = passed v.dataset_id

abbrev pub owner_check : Envelope → Option Dataset → Checked (Unit {0})
owner_check msg none = refused (codes "dataset not found")
owner_check msg (some ds) =
    if ds.owner_id == msg.actor_id || text_eq (role_of msg) role_admin
    then passed tt
    else refused (codes "forbidden: not owner")

-- The user that a payload names, whether the rest of it can be decoded or not; without one, 0.
abbrev pub user_of : Option Fields → ℕ
user_of none = 0
user_of (some fields) = get_number "user_id" (decode_each subscription_fields fields)

abbrev pub same_user : Envelope → Checked (Unit {0})
same_user msg =
    let user = user_of msg.payload in
    if user == 0 || user == msg.actor_id || text_eq (role_of msg) role_admin
    then passed tt
    else refused (codes "actor must match user")

abbrev pub error_reply : Envelope → Text → Envelope
error_reply msg text = record {
  id = [];
  kind = msg.kind;
  source = codes "core";
  correlation_id = msg.correlation_id;
  trace_id = msg.trace_id;
  actor_id = 0;
  actor_role = [];
  payload = none;
  error = some text;
}

abbrev health_reply : Envelope → Envelope
health_reply msg = record {
  id = [];
  kind = unlisted (codes "health.response");
  source = codes "core";
  correlation_id = msg.correlation_id;
  trace_id = [];
  actor_id = 0;
  actor_role = [];
  payload =
      some (("service", Field.string (codes "core")) ∷ ("status", Field.string (codes "ok")) ∷ []);
  error = none;
}

abbrev mark : Envelope → Core → Core
mark msg c = if is_empty msg.id then c else record c { processed = msg.id ∷ c.processed }

abbrev pub is_duplicate : Envelope → Core → Bool
is_duplicate msg c = not (is_empty msg.id) && contains msg.id c.processed

-- `data_service` is the data process behind the broker: what it answers after the messages before,
-- or how the request to it fails. `uuid` gives new identifiers. `publishes` says whether the broker
-- takes a message for the gateway.
module _ (data_service : List Envelope → Envelope → Rpc) (uuid : List Envelope → ℕ → Text)
    (publishes : Envelope → Bool) where
  -- `forwardToData`
  unfoldable pub forward_to_data : Envelope → Step Envelope
  forward_to_data msg c =
      let corr = if is_empty msg.correlation_id then uuid c.to_data 0 else msg.correlation_id in
      let sent = record msg { correlation_id = corr } in
      (reply_of corr (data_service c.to_data sent), record c { to_data = sent ∷ c.to_data })

  -- The envelope of a question that the core asks for itself; it names no actor.
  abbrev question : Kind → Fields → Text → List Envelope → Envelope
  question kind fields trace log = record {
    id = uuid log 1;
    kind = kind;
    source = codes "core";
    correlation_id = uuid log 2;
    trace_id = trace;
    actor_id = 0;
    actor_role = [];
    payload = some fields;
    error = none;
  }

  abbrev pub ask : Kind → Fields → Envelope → Step Envelope
  ask kind fields msg c = forward_to_data (question kind fields msg.trace_id c.to_data) c

  -- `fetchDataset`
  unfoldable pub fetch_dataset : Envelope → ℕ → Step (Option Dataset)
  unfolding forward_to_data
  fetch_dataset msg dataset_id =
      ask dataset_get_request (("id", number (pos dataset_id)) ∷ []) msg >>= λ resp.
      check (content dataset_of "dataset" resp)

  -- `fetchDatasetIDByVersion`
  unfoldable pub fetch_dataset_id_by_version : Envelope → ℕ → Step ℕ
  unfolding forward_to_data
  fetch_dataset_id_by_version msg version_id = do
    resp ← ask version_get_request (("version_id", number (pos version_id)) ∷ []) msg
    v ← check (content version_of "version" resp)
    check (dataset_id_of v)

  -- `ensureDatasetOwner`
  unfoldable pub ensure_dataset_owner : Envelope → ℕ → Step (Unit {0})
  unfolding fetch_dataset
  ensure_dataset_owner msg dataset_id =
      fetch_dataset msg dataset_id >>= λ ds. check (owner_check msg ds)

  abbrev pub own_dataset : Envelope → Step (Unit {0})
  own_dataset msg = do
    id ← check (
        required (codes "invalid dataset payload") "id"
          (unmarshal dataset_update_fields msg.payload))
    ensure_dataset_owner msg id

  abbrev pub own_version_target : Envelope → Step (Unit {0})
  own_version_target msg = do
    id ← check (
        required (codes "invalid version payload") "dataset_id"
          (unmarshal version_add_fields msg.payload))
    ensure_dataset_owner msg id

  abbrev pub own_version : Envelope → Step (Unit {0})
  own_version msg = do
    id ← check (
        required (codes "invalid version payload") "version_id"
          (unmarshal version_delete_fields msg.payload))
    ds ← fetch_dataset_id_by_version msg id
    ensure_dataset_owner msg ds

  -- The `switch` of `enforceAccess`.
  abbrev pub access_of : Kind → Envelope → Step (Unit {0})
  access_of category_create_request msg = check (require_admin_role msg)
  access_of category_update_request msg = check (require_admin_role msg)
  access_of category_delete_request msg = check (require_admin_role msg)
  access_of user_create_request msg = check (require_admin_role msg)
  access_of user_update_request msg = check (require_admin_role msg)
  access_of user_delete_request msg = check (require_admin_role msg)
  access_of dataset_update_request msg = own_dataset msg
  access_of dataset_delete_request msg = own_dataset msg
  access_of version_add_request msg = own_version_target msg
  access_of version_delete_request msg = own_version msg
  access_of subscription_create_request msg = check (same_user msg)
  access_of subscription_delete_request msg = check (same_user msg)
  access_of access_update_request msg = check (require_admin_role msg)
  access_of _ msg = check (passed tt)

  unfoldable pub enforce_access : Envelope → Step (Unit {0})
  unfolding ensure_dataset_owner fetch_dataset_id_by_version
  enforce_access msg = do seen ← check (require_actor msg); access_of msg.kind msg

  -- `bus.Publish(ctx, a.toGatewayQueue, resp)`: whether it succeeds, and the state after it.
  abbrev publish : Envelope → Core → Bool × Core
  publish resp c =
      (publishes resp, if publishes resp then record c { to_gateway = resp ∷ c.to_gateway } else c)

  abbrev pub settle : Envelope → Checked Envelope × Core → Bool × Core
  settle msg (refused text, c) = publish (error_reply msg text) c
  settle msg (passed resp, c) = publish resp (mark msg c)

  -- The checks, then the data process.
  abbrev pub pass_on : Envelope → Step Envelope
  pass_on msg = enforce_access msg >>= λ _. forward_to_data msg

  abbrev pub respond_to : Kind → Envelope → Core → Bool × Core
  respond_to health_request msg c = publish (health_reply msg) c
  respond_to (unlisted t) msg c = publish (error_reply msg (codes "unsupported message type")) c
  respond_to _ msg c = settle msg (pass_on msg c)

  -- `handleGatewayMessage`: whether it returns nil, and the state after it.
  unfoldable pub handle_gateway_message : Envelope → Core → Bool × Core
  unfolding enforce_access forward_to_data
  handle_gateway_message msg c = if is_duplicate msg c then (true, c) else respond_to msg.kind msg c
