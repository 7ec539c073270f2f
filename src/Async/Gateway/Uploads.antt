-- ===== src/Async/Gateway/Uploads.antt =====
-- cmd/gateway/main.go: `handleAddVersion`, which stores a file and then sends a message about it.
use dataset_service.Base.{ℕ, Option, none, some, [], ◌∷◌, ◌++◌, map, ◌==◌, ◌||◌, if◌then◌else◌}
use dataset_service.Text.{Text, codes, is_empty, text_eq, trim_space}
use dataset_service.Text.Decimal.{format_uint}
use dataset_service.Errors.{Error}
use dataset_service.Exec.{Result, ok, err}
use dataset_service.Repositories.{Storage}
use dataset_service.Services.Dataset.Naming.{base, slash}
use dataset_service.Async.Contracts.{
  string, Fields, Envelope, version_add_request, version_add_fields, get_text, set_field, uint,
}
use dataset_service.Async.Gateway.{
  HttpRequest, Fresh, Handled, proceed, respond, parse_uint_param, actor_context, decode_body, send,
  Context,
}

-- What the handler reads of a form: the name and the size of its file, and two values.
pub record Form : Type 0 where
  pub file : Option (Text × ℕ)
  pub number : Text
  pub change_log : Text

-- The body by its Content-Type: a form, or the text of the error that reading it ends with, or JSON.
pub data VersionBody : Type 0 where
  form : Form → VersionBody
  unreadable : Text → VersionBody
  json : Option Fields → VersionBody

-- `strings.ReplaceAll(t, "/", "_")`
abbrev without_slashes : Text → Text
without_slashes t = map (λ c. if c == slash then b'_' else c) t

-- `buildObjectKey`
unfoldable pub build_object_key : ℕ → Text → Text → Text
build_object_key dataset_id version file_name =
    let given = base file_name in
    let name = if text_eq given (codes ".") || is_empty given then codes "file.bin" else given in
    codes "datasets"
    ++ slash
      ∷ (format_uint dataset_id ++ slash ∷ (without_slashes (trim_space version) ++ slash ∷ name))

abbrev pub number_or_first : Text → Text
number_or_first number = if is_empty number then codes "v0.1" else number

abbrev pub version_request : ℕ → Text → Text → Text → Fields
version_request dataset_id number path change_log =
    ("dataset_id", uint dataset_id)
    ∷ ("number", string number)
    ∷ ("filepath", string path)
    ∷ ("change_log", string change_log)
    ∷ []

abbrev with_path : ℕ → Fields → Handled Fields
with_path dataset_id req =
    if is_empty (trim_space (get_text "filepath" req))
    then respond 400 (codes "filepath is required")
    else proceed (set_field "dataset_id" (uint dataset_id) req)

-- The JSON branch of `parseVersionAddRequest`.
abbrev json_request : ℕ → Handled Fields → Handled Fields
json_request dataset_id (proceed req) = with_path dataset_id req
json_request dataset_id (respond status text) = respond status text

-- `storage` is nil when it is not configured; `error_text` is `Error()`.
module _ {T : Type 0} (storage : Option (Storage T)) (error_text : Error → Text) where
  abbrev uploaded : ℕ → Text → Text → Text → Result Text → Handled Fields
  uploaded dataset_id number key change_log (ok url) =
      proceed (version_request dataset_id number key change_log)
  uploaded dataset_id number key change_log (err e) =
      respond 400 (codes "upload file: " ++ error_text e)

  abbrev upload_form : Option (Storage T) → ℕ → Text × ℕ → Text → Text → T → Handled Fields × T
  upload_form none dataset_id file number change_log t =
      (respond 400 (codes "storage is not configured"), t)
  upload_form (some st) dataset_id (name, size) number change_log t =
      let key = build_object_key dataset_id number name in
      let (result, t') = st.upload key size t in
      (uploaded dataset_id number key change_log result, t')

  abbrev parse_form : ℕ → Option (Text × ℕ) → Form → T → Handled Fields × T
  parse_form dataset_id none f t = (respond 400 (codes "file is required"), t)
  parse_form dataset_id (some file) f t =
      upload_form storage dataset_id file (number_or_first (trim_space f.number)) f.change_log t

  -- `parseVersionAddRequest`, whose errors the handler answers with the status 400.
  unfoldable pub parse_version_add_request : ℕ → VersionBody → T → Handled Fields × T
  unfolding build_object_key
  parse_version_add_request dataset_id (form f) t = parse_form dataset_id f.file f t
  parse_version_add_request dataset_id (unreadable text) t =
      (respond 400 (codes "parse multipart: " ++ text), t)
  parse_version_add_request dataset_id (json body) t =
      (json_request dataset_id (decode_body version_add_fields body), t)

  module _ (fresh : Fresh) (r : HttpRequest) where
    abbrev send_version : Context → Handled Fields × T → Handled Envelope × T
    send_version ctx (proceed req, t) = (send fresh r ctx version_add_request req, t)
    send_version ctx (respond status text, t) = (respond status text, t)

    abbrev add_version_as : ℕ → VersionBody → Handled (Context × ℕ) → T → Handled Envelope × T
    add_version_as dataset_id body (respond status text) t = (respond status text, t)
    add_version_as dataset_id body (proceed who) t =
        send_version who.0 (parse_version_add_request dataset_id body t)

    abbrev add_version_to : Handled ℕ → VersionBody → T → Handled Envelope × T
    add_version_to (respond status text) body t = (respond status text, t)
    add_version_to (proceed dataset_id) body t =
        add_version_as dataset_id body (actor_context fresh r) t

    -- `handleAddVersion`: the message, or the answer, and the bucket after it.
    unfoldable pub handle_add_version : VersionBody → T → Handled Envelope × T
    unfolding parse_version_add_request
    handle_add_version body t = add_version_to (parse_uint_param (r.path "id") (codes "id")) body t
