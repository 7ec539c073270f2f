-- ===== src/Http/Policies.antt =====
-- internal/delivery/http/v2/auth_helpers.go: who may do what. The user of a request, if it carries
-- a valid token, is an argument.
use dataset_service.Base.{
  ℕ, ◌+◌, Bool, true, false, not, ◌&&◌, ◌||◌, Option, none, some, map, ◌==◌, leb, if◌then◌else◌,
}
use dataset_service.Text.{Text, text_eq}
use dataset_service.Errors.{service, invalid_credentials, request_forbidden}
use dataset_service.Exec.{Result, ok, err}
use dataset_service.Entities.{User, role_admin}

abbrev fold_rune : ℕ → ℕ
fold_rune c = if leb 65 c && leb c 90 then c + 32 else c

-- `strings.EqualFold` with a word of the letters a, d, i, m and n, which only their capitals equal.
unfoldable pub equal_fold : Text → Text → Bool
equal_fold s t = text_eq (map fold_rune s) (map fold_rune t)

-- `currentUserOrError`
abbrev pub current_user_or_error : Option User → Result User
current_user_or_error none = err (service invalid_credentials)
current_user_or_error (some user) = ok user

-- `isAdmin`
unfoldable pub is_admin : Option User → Bool
is_admin none = false
is_admin (some user) = equal_fold user.role role_admin

-- `requireAdmin`
unfoldable pub require_admin : Option User → Result User
require_admin none = err (service invalid_credentials)
require_admin (some user) =
    if is_admin (some user) then ok user else err (service request_forbidden)

-- `ensureUserOrAdmin`
unfoldable pub ensure_user_or_admin : Option User → ℕ → Result User
ensure_user_or_admin none target_id = err (service invalid_credentials)
ensure_user_or_admin (some user) target_id =
    if not (user.id == target_id) && not (is_admin (some user))
    then err (service request_forbidden)
    else ok user

-- `ensureDatasetReadable`
unfoldable pub ensure_dataset_readable : Option User → ℕ → Bool → Result (Unit {0})
ensure_dataset_readable actor owner_id true = ok tt
ensure_dataset_readable none owner_id false = err (service invalid_credentials)
ensure_dataset_readable (some user) owner_id false =
    if user.id == owner_id || is_admin (some user) then ok tt else err (service request_forbidden)

-- `ensureDatasetOwnerOrAdmin`
unfoldable pub ensure_dataset_owner_or_admin : Option User → ℕ → Result (Unit {0})
ensure_dataset_owner_or_admin none owner_id = err (service invalid_credentials)
ensure_dataset_owner_or_admin (some user) owner_id =
    if user.id == owner_id || is_admin (some user) then ok tt else err (service request_forbidden)
