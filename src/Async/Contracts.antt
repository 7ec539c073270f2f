-- ===== src/Async/Contracts.antt =====
-- internal/contracts/contracts.go: the messages between the gateway, the core and the data process,
-- and the part of encoding/json that reads and writes their payloads.
use dataset_service.Base.{
  ℕ, ◌^◌, String, Bool, false, Option, none, some, List, [], ◌∷◌, ltb, if◌then◌else◌,
}
use package.text.Mathlib.Text as StringTests
use dataset_service.Base.Time.{ℤ, pos, negsuc}
use dataset_service.Text.{Text, codes}
use dataset_service.Entities.{Dataset, DatasetVersion, User, AccessRequest, Category, Notification}

-- The types of messages that the core knows; `unlisted` has every other text, such as the type of a
-- response.
pub data Kind : Type 0 where
  health_request : Kind
  category_list_request dataset_list_request dataset_get_request versions_list_request : Kind
  version_get_request notifications_request access_pending_request access_find_request : Kind
  access_update_request notification_create_request notification_mark_request
        dataset_create_request :
      Kind
  dataset_update_request dataset_delete_request version_add_request version_delete_request : Kind
  review_create_request review_update_request review_delete_request subscription_create_request :
      Kind
  subscription_delete_request category_create_request category_update_request
        category_delete_request :
      Kind
  user_create_request user_update_request user_delete_request user_get_request : Kind
  unlisted : Text → Kind

-- The text of a type.
unfoldable pub kind_text : Kind → Text
kind_text health_request = codes "health.request"
kind_text category_list_request = codes "categories.list.request"
kind_text dataset_list_request = codes "datasets.list.request"
kind_text dataset_get_request = codes "datasets.get.request"
kind_text versions_list_request = codes "versions.list.request"
kind_text version_get_request = codes "versions.get.request"
kind_text notifications_request = codes "notifications.list.request"
kind_text access_pending_request = codes "access.pending.request"
kind_text access_find_request = codes "access.find.request"
kind_text access_update_request = codes "access.update.request"
kind_text notification_create_request = codes "notification.create.request"
kind_text notification_mark_request = codes "notification.mark.request"
kind_text dataset_create_request = codes "dataset.create.request"
kind_text dataset_update_request = codes "dataset.update.request"
kind_text dataset_delete_request = codes "dataset.delete.request"
kind_text version_add_request = codes "version.add.request"
kind_text version_delete_request = codes "version.delete.request"
kind_text review_create_request = codes "review.create.request"
kind_text review_update_request = codes "review.update.request"
kind_text review_delete_request = codes "review.delete.request"
kind_text subscription_create_request = codes "subscription.create.request"
kind_text subscription_delete_request = codes "subscription.delete.request"
kind_text category_create_request = codes "category.create.request"
kind_text category_update_request = codes "category.update.request"
kind_text category_delete_request = codes "category.delete.request"
kind_text user_create_request = codes "user.create.request"
kind_text user_update_request = codes "user.update.request"
kind_text user_delete_request = codes "user.delete.request"
kind_text user_get_request = codes "user.get.request"
kind_text (unlisted t) = t

-- The place of a type in its declaration, by which types are compared.
unfoldable pub kind_code : Kind → ℕ
kind_code health_request = 0
kind_code category_list_request = 1
kind_code dataset_list_request = 2
kind_code dataset_get_request = 3
kind_code versions_list_request = 4
kind_code version_get_request = 5
kind_code notifications_request = 6
kind_code access_pending_request = 7
kind_code access_find_request = 8
kind_code access_update_request = 9
kind_code notification_create_request = 10
kind_code notification_mark_request = 11
kind_code dataset_create_request = 12
kind_code dataset_update_request = 13
kind_code dataset_delete_request = 14
kind_code version_add_request = 15
kind_code version_delete_request = 16
kind_code review_create_request = 17
kind_code review_update_request = 18
kind_code review_delete_request = 19
kind_code subscription_create_request = 20
kind_code subscription_delete_request = 21
kind_code category_create_request = 22
kind_code category_update_request = 23
kind_code category_delete_request = 24
kind_code user_create_request = 25
kind_code user_update_request = 26
kind_code user_delete_request = 27
kind_code user_get_request = 28
kind_code (unlisted t) = 29

-- A value in a JSON object. Responses also carry records of entities and lists of them.
pub data Field : Type 0 where
  number : ℤ → Field
  string : Text → Field
  boolean : Bool → Field
  dataset : Dataset → Field
  version : DatasetVersion → Field
  user : User → Field
  request : AccessRequest → Field
  categories : List Category → Field
  datasets : List Dataset → Field
  versions : List DatasetVersion → Field
  notifications : List Notification → Field
  requests : List AccessRequest → Field
  null : Field
  other : Field

-- An object by its keys.
abbrev pub Fields : Type 0
Fields = List (String × Field)

-- The Go types of the fields of requests.
pub data Shape : Type 0 where
  uint64 optional_uint64 int8 text flag optional_flag : Shape

abbrev pub Schema : Type 0
Schema = List (String × Shape)

abbrev pub get_field : String → Fields → Field
get_field k [] = null
get_field k ((j, v) ∷ fields) = if StringTests.◌==◌ j k then v else get_field k fields

abbrev zero_field : Shape → Field
zero_field uint64 = number (pos 0)
zero_field optional_uint64 = null
zero_field int8 = number (pos 0)
zero_field text = string []
zero_field flag = boolean false
zero_field optional_flag = null

-- What `json.Unmarshal` stores in a field of the type: null leaves it at its zero value, and a value
-- that does not fit is an error.
abbrev pub fit : Shape → Field → Option Field
fit shape null = some (zero_field shape)
fit uint64 (number (pos n)) = if ltb n (2 ^ 64) then some (number (pos n)) else none
fit optional_uint64 (number (pos n)) = if ltb n (2 ^ 64) then some (number (pos n)) else none
fit int8 (number (pos n)) = if ltb n 128 then some (number (pos n)) else none
fit int8 (number (negsuc n)) = if ltb n 128 then some (number (negsuc n)) else none
fit text (string s) = some (string s)
fit flag (boolean b) = some (boolean b)
fit optional_flag (boolean b) = some (boolean b)
fit _ _ = none

abbrev add_field : String → Option Field → Option Fields → Option Fields
add_field k (some v) (some fields) = some ((k, v) ∷ fields)
add_field k _ _ = none

-- `json.Unmarshal` into a struct with the fields of the schema; other keys are skipped.
unfoldable pub decode : Schema → Fields → Option Fields
decode [] fields = some []
decode ((k, shape) ∷ schema) fields =
    add_field k (fit shape (get_field k fields)) (decode schema fields)

abbrev or_zero : Shape → Option Field → Field
or_zero shape none = zero_field shape
or_zero shape (some v) = v

-- What `json.Unmarshal` leaves in the struct, also when it returns an error: a value that does not
-- fit is skipped.
unfoldable pub decode_each : Schema → Fields → Fields
decode_each [] fields = []
decode_each ((k, shape) ∷ schema) fields =
    (k, or_zero shape (fit shape (get_field k fields))) ∷ decode_each schema fields

-- A field of the type uint64 after decoding, and fields of the other types.
abbrev number_of : Field → ℕ
number_of (number (pos n)) = n
number_of _ = 0

unfoldable pub get_number : String → Fields → ℕ
get_number k fields = number_of (get_field k fields)

abbrev int_of : Field → ℤ
int_of (number z) = z
int_of _ = pos 0

unfoldable pub get_int : String → Fields → ℤ
get_int k fields = int_of (get_field k fields)

abbrev text_of : Field → Text
text_of (string t) = t
text_of _ = []

unfoldable pub get_text : String → Fields → Text
get_text k fields = text_of (get_field k fields)

abbrev flag_of : Field → Bool
flag_of (boolean b) = b
flag_of _ = false

unfoldable pub get_flag : String → Fields → Bool
get_flag k fields = flag_of (get_field k fields)

abbrev pub uint : ℕ → Field
uint n = number (pos n)

-- `req.Field = v`
abbrev pub set_field : String → Field → Fields → Fields
set_field k v [] = []
set_field k v ((j, w) ∷ fields) =
    (j, (if StringTests.◌==◌ j k then v else w)) ∷ set_field k v fields

-- `Envelope`. `Payload` is empty or an object; of `Error` the message is kept. `OccurredAt` and
-- `ReplyTo` are not read by the programs.
pub record Envelope : Type 0 where
  pub id : Text
  pub kind : Kind
  pub source : Text
  pub correlation_id : Text
  pub trace_id : Text
  pub actor_id : ℕ
  pub actor_role : Text
  pub payload : Option Fields
  pub error : Option Text

-- What a request over the broker comes to: the reply, or the text of an error.
pub data Rpc : Type 0 where
  answered : Envelope → Rpc
  failed : Text → Rpc

abbrev pub category_create_fields : Schema
category_create_fields = ("name", text) ∷ ("description", text) ∷ []

abbrev pub category_update_fields : Schema
category_update_fields = ("id", uint64) ∷ ("name", text) ∷ ("description", text) ∷ []

abbrev pub user_create_fields : Schema
user_create_fields =
    ("username", text)
    ∷ ("email", text)
    ∷ ("password", text)
    ∷ ("country", text)
    ∷ ("role", text)
    ∷ []

abbrev pub user_update_fields : Schema
user_update_fields =
    ("id", uint64)
    ∷ ("username", text)
    ∷ ("email", text)
    ∷ ("country", text)
    ∷ ("role", text)
    ∷ ("block", optional_flag)
    ∷ []

abbrev pub dataset_create_fields : Schema
dataset_create_fields =
    ("name", text)
    ∷ ("description", text)
    ∷ ("category_id", uint64)
    ∷ ("owner_id", uint64)
    ∷ ("is_public", flag)
    ∷ []

abbrev pub dataset_update_fields : Schema
dataset_update_fields =
    ("id", uint64)
    ∷ ("name", text)
    ∷ ("description", text)
    ∷ ("category_id", uint64)
    ∷ ("is_public", flag)
    ∷ []

abbrev pub version_add_fields : Schema
version_add_fields =
    ("dataset_id", uint64) ∷ ("number", text) ∷ ("filepath", text) ∷ ("change_log", text) ∷ []

abbrev pub version_delete_fields : Schema
version_delete_fields = ("version_id", uint64) ∷ []

abbrev pub review_create_fields : Schema
review_create_fields =
    ("user_id", uint64) ∷ ("dataset_id", uint64) ∷ ("rating", int8) ∷ ("text", text) ∷ []

abbrev pub review_update_fields : Schema
review_update_fields = ("id", uint64) ∷ ("rating", int8) ∷ ("text", text) ∷ []

abbrev pub subscription_fields : Schema
subscription_fields = ("user_id", uint64) ∷ ("dataset_id", uint64) ∷ []

abbrev pub access_update_fields : Schema
access_update_fields = ("request_id", uint64) ∷ ("status", text) ∷ []

abbrev pub notification_create_fields : Schema
notification_create_fields = ("user_id", uint64) ∷ ("dataset_id", uint64) ∷ ("message", text) ∷ []

-- A struct with one number.
abbrev pub id_fields : String → Schema
id_fields k = (k, uint64) ∷ []

abbrev pub dataset_list_fields : Schema
dataset_list_fields = ("only_public", flag) ∷ ("owner_id", optional_uint64) ∷ []

abbrev pub access_find_fields : Schema
access_find_fields = ("dataset_id", uint64) ∷ ("user_id", uint64) ∷ []

abbrev pub notification_mark_fields : Schema
notification_mark_fields = ("notification_id", uint64) ∷ ("is_read", flag) ∷ []
