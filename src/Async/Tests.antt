-- ===== src/Async/Tests.antt =====
-- Requests that pass through the gateway and the core.
use dataset_service.Base.{ℕ, ◌≡◌, ◌≢◌, refl, Bool, true, false, none, some, List, [], ◌∷◌, arith}
use dataset_service.Base.Dict.{lookup, insert, delete}
use dataset_service.Base.Time.{pos}
use dataset_service.Text.{
  Text, codes, text_eq, text_keys, trim_space, trim_left, trim_right, is_space, to_lower,
}
use dataset_service.Text.Decimal.{read_digits}
use dataset_service.Entities.{Dataset, role_guest}
use dataset_service.Async.Contracts.{
  dataset_update_request, dataset_get_request, kind_code, number, string, dataset, Envelope, Rpc,
  answered, decode, get_number,
}
use dataset_service.Async.Gateway.{
  HttpRequest, Fresh, proceed, stamp, with_trace, parse_uint, parse_uint_param,
}
use dataset_service.Async.Gateway.Routes.{get_dataset, serve, answer_for}
use dataset_service.Async.Gateway.Pending.{
  Pending, Event, begin, reply, end, drop, perform, perform_all, deliver, register_waiter, finish,
  finish-addressed, finish-deliver,
}
use dataset_service.Async.Core.{
  passed, pass_on, Core, handle_gateway_message, error_reply, role_of, enforce_access,
  require_actor, forward_to_data, fetch_dataset, ensure_dataset_owner,
}
use dataset_service.Async.Reads.{get-refused}
use dataset_service.Async.Granted.{Right}
use dataset_service.Async.Once.{handle_all, handle-once}
use dataset_service.Async.Rights.{count_kind, forwarded-Right}

abbrev fresh : Fresh
fresh = record { id = codes "m1"; correlation = codes "c1"; trace = codes "t1" }

-- `PUT /async/datasets/5` and `GET /async/datasets/5` of the user 7.
abbrev http_request : HttpRequest
http_request = record {
  path = λ key. codes "5";
  query = λ key. [];
  header = λ key. codes "7";
  body = some (("name", string (codes "n")) ∷ []);
}

abbrev idle : Core
idle = record { processed = []; to_data = []; to_gateway = [] }

abbrev five : Dataset
five = record {
  id = 5;
  name = codes "n";
  description = [];
  owner_id = 7;
  created_at = 0;
  category_id = 1;
  is_public = false;
}

abbrev blank : Envelope
blank = record {
  id = [];
  kind = dataset_get_request;
  source = codes "data";
  correlation_id = [];
  trace_id = [];
  actor_id = 0;
  actor_role = [];
  payload = some (("dataset", dataset five) ∷ []);
  error = none;
}

abbrev data_service : List Envelope → Envelope → Rpc
data_service log msg = answered blank

abbrev uuid : List Envelope → ℕ → Text
uuid log n = n ∷ []

abbrev publishes : Envelope → Bool
publishes msg = true

abbrev get_message : Envelope
get_message = record blank {
  id = codes "m1";
  source = codes "gateway";
  correlation_id = codes "c1";
  trace_id = codes "7";
  payload = some (("id", number (pos 5)) ∷ []);
}

get_sent : serve fresh http_request get_dataset ≡ proceed get_message
unfolding serve parse_uint_param parse_uint trim_space trim_left trim_right is_space read_digits
    stamp with_trace
get_sent = refl

get-refused_example :
    let (nil, after) = handle_gateway_message data_service uuid publishes get_message idle in
    let refusal = error_reply get_message (codes "actor required") in
    (after ≡ record idle { to_gateway = refusal ∷ [] })
    × (nil ≡ true)
    × ((answer_for get_dataset (answered refusal)).status ≡ 502)
get-refused_example =
    get-refused data_service uuid publishes fresh http_request get_dataset get_message idle refl
      get_sent refl

abbrev put_message : Envelope
put_message = record blank {
  id = codes "m1";
  kind = dataset_update_request;
  source = codes "gateway";
  correlation_id = codes "c1";
  trace_id = codes "7";
  actor_id = 7;
  actor_role = codes "user";
  payload = some (("id", number (pos 5)) ∷ ("name", string (codes "n")) ∷ []);
}

put_forwarded :
    count_kind
      (kind_code dataset_update_request)
      (handle_gateway_message data_service uuid publishes put_message idle).1.to_data
    ≢ count_kind (kind_code dataset_update_request) []
unfolding count_kind kind_code handle_gateway_message enforce_access require_actor forward_to_data
    fetch_dataset ensure_dataset_owner decode get_number trim_space trim_left trim_right is_space
    to_lower text_eq
put_forwarded e = omega arith

forwarded-Right_example :
    (put_message.actor_id ≢ 0)
    × (role_of put_message ≢ role_guest)
    × Right data_service uuid publishes dataset_update_request put_message idle
forwarded-Right_example = forwarded-Right data_service uuid publishes put_message idle put_forwarded

put_answered :
    (pass_on data_service uuid publishes put_message idle).0
    ≡ passed (record blank { correlation_id = codes "c1" })
unfolding enforce_access require_actor forward_to_data fetch_dataset ensure_dataset_owner decode
    get_number trim_space trim_left trim_right is_space to_lower text_eq
put_answered = refl

-- The data process changes the dataset once, also if the broker delivers the message twice.
handle-once_example :
    handle_gateway_message data_service uuid publishes put_message
      (handle_all data_service uuid publishes (put_message ∷ get_message ∷ []) idle)
    ≡ (true, handle_all data_service uuid publishes (put_message ∷ get_message ∷ []) idle)
handle-once_example =
    handle-once data_service uuid publishes put_message
      (record blank { correlation_id = codes "c1" }) (get_message ∷ []) idle refl refl refl
      put_answered

abbrev reply_to_c1 : Envelope
reply_to_c1 = record blank { correlation_id = codes "c1" }

abbrev history : List Event
history = begin (codes "c2") ∷ begin (codes "c1") ∷ reply reply_to_c1 ∷ end (codes "c2") ∷ []

history_answer : (finish (codes "c1") (perform_all history [])).0 ≡ answered reply_to_c1
unfolding perform_all perform deliver register_waiter finish lookup insert delete text_eq
history_answer = refl

finish-addressed_example : reply_to_c1.correlation_id ≡ codes "c1"
finish-addressed_example = finish-addressed history (codes "c1") reply_to_c1 history_answer

abbrev waiting : Pending
waiting = (codes "c1", none) ∷ []

waiting_c1 : lookup (codes "c1") waiting ≡ some none
unfolding lookup text_eq
waiting_c1 = refl

other_c2 : text_eq (codes "c2") (codes "c1") ≡ false
unfolding text_eq
other_c2 = refl

finish-deliver_example :
    (finish (codes "c1") (
      perform_all
        (begin (codes "c2") ∷ reply blank ∷ drop (codes "c2") ∷ [])
        (deliver reply_to_c1 waiting))).0
    ≡ answered reply_to_c1
finish-deliver_example =
    finish-deliver reply_to_c1 waiting (begin (codes "c2") ∷ reply blank ∷ drop (codes "c2") ∷ [])
      refl waiting_c1 (other_c2, (refl, (other_c2, tt)))
