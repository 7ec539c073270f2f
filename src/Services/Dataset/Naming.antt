-- ===== src/Services/Dataset/Naming.antt =====
-- dataset_service_impl.go: the numbers of versions and the keys of uploaded files.
pub mod Versions
pub mod Keys
use dataset_service.Base.{
  ℕ, zero, suc, ◌≡◌, Bool, true, false, Option, none, some, List, [], ◌∷◌, ◌++◌, ◌==◌, leb,
  if◌then◌else◌, ◌||◌, ◌&&◌,
}
use dataset_service.Base.Time.{ℤ, pos, negsuc}
use dataset_service.Text.{Text, codes, is_empty, trim_space, text_eq}
use dataset_service.Text.Split.{split}
use dataset_service.Text.Decimal.{atoi, format_uint, format_int, int_max}
use dataset_service.Entities.{DatasetVersion}

-- `initialDatasetVersion`
abbrev pub initial_dataset_version : Text
initial_dataset_version = codes "v0.1"

-- `strings.TrimPrefix(number, "v")`
abbrev pub trim_v : Text → Text
trim_v [] = []
trim_v (c ∷ s) = if c == b'v' then s else c ∷ s

abbrev last_part : Text → List Text → Text
last_part p [] = p
last_part p (q ∷ qs) = last_part q qs

abbrev both {ℓ} : {A B : Type ℓ} → Option A → Option B → Option (A × B)
both (some a) (some b) = some (a, b)
both _ _ = none

-- `parseVersion` on the parts between the dots.
abbrev parse_parts : List Text → Option (ℤ × ℤ)
parse_parts (major ∷ next ∷ rest) = both (atoi major) (atoi (last_part next rest))
parse_parts _ = none

-- `parseVersion`
unfoldable pub parse_version : Text → Option (ℤ × ℤ)
parse_version raw =
    let number = trim_space raw in
    if is_empty number then none else parse_parts (split b'.' (trim_v number))

-- `minor++`, which wraps at the end of `int`
abbrev pub increment : ℤ → ℤ
increment (pos n) = if leb int_max n then negsuc int_max else pos (suc n)
increment (negsuc zero) = pos 0
increment (negsuc (suc n)) = negsuc n

abbrev next_of : Text → Option (ℤ × ℤ) → Text
next_of latest none = latest ++ codes ".1"
next_of latest (some (major, minor)) =
    b'v' ∷ (format_int major ++ b'.' ∷ format_int (increment minor))

-- `nextVersionNumber`, on the versions with the newest first
unfoldable pub next_version_number : List DatasetVersion → Text
next_version_number [] = initial_dataset_version
next_version_number (newest ∷ older) =
    let latest = trim_space newest.number in next_of latest (parse_version latest)

abbrev pub slash : ℕ
slash = b'/'

-- The text up to its last character that is no slash.
unfoldable pub strip_slashes : Text → Text
strip_slashes [] = []
strip_slashes (c ∷ s) =
    let rest = strip_slashes s in if c == slash && is_empty rest then [] else c ∷ rest

-- `filepath.Base`
unfoldable pub base : Text → Text
unfolding strip_slashes
base path =
    if is_empty path
    then codes "."
    else let stripped = strip_slashes path in
      if is_empty stripped then codes "/" else last_part [] (split slash stripped)

-- `datasetObjectKey` without the folders
abbrev pub object_name : ℕ → Text → Text
object_name dataset_id file_name =
    let given = trim_space file_name in
    let name =
      base (if is_empty given then codes "dataset-" ++ format_uint dataset_id else given) in
    if text_eq name (codes ".") || text_eq name (codes "/")
    then codes "dataset-" ++ format_uint dataset_id ++ codes ".bin"
    else name

-- `datasetObjectKey`
unfoldable pub dataset_object_key : ℕ → Text → Text → Text
dataset_object_key dataset_id version file_name =
    codes "datasets"
    ++ slash
      ∷ (format_uint dataset_id ++ slash ∷ (version ++ slash ∷ object_name dataset_id file_name))
