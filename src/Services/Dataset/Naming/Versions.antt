-- ===== src/Services/Dataset/Naming/Versions.antt =====
-- `nextVersionNumber` counts up the minor number of the versions that it names itself.
use dataset_service.Base.{ℕ, zero, suc, ◌≤◌, ◌<◌, ◌≡◌, refl, some, List, [], ◌∷◌, ◌++◌, arith, ◌∙◌}
use dataset_service.Base.Time.{pos}
use dataset_service.Text.{Text, is_space}
use dataset_service.Text.Trim.{IsSolid, trim_space_of_IsSolid}
use dataset_service.Text.Digits.{digits-IsSolid, digits-Lacks, IsSolid-append}
use dataset_service.Text.Split.{split, split-Lacks, split-append}
use dataset_service.Text.Decimal.{
  format_uint, format_int, int_max, atoi-format_uint, format_uint-IsNumber,
}
use dataset_service.Entities.{DatasetVersion}
use dataset_service.Services.Dataset.Naming.{parse_version, next_version_number, increment}

-- The name of a version with these numbers.
abbrev pub version_name : ℕ → ℕ → Text
version_name major minor = b'v' ∷ (format_uint major ++ b'.' ∷ format_uint minor)

version_name-IsSolid : (major minor : ℕ) → IsSolid (version_name major minor)
unfolding is_space
version_name-IsSolid major minor = (
  refl,
  IsSolid-append (format_uint major) (b'.' ∷ format_uint minor)
      (digits-IsSolid _ (format_uint-IsNumber major).1)
      (refl, digits-IsSolid _ (format_uint-IsNumber minor).1),
)

split-version_name :
    (major minor : ℕ)
    → split b'.' (format_uint major ++ b'.' ∷ format_uint minor)
      ≡ format_uint major ∷ format_uint minor ∷ []
split-version_name major minor = rw (
  split-append b'.' (format_uint major) (format_uint minor)
      (digits-Lacks b'.' refl _ (format_uint-IsNumber major).1),
  split-Lacks b'.' (format_uint minor) (digits-Lacks b'.' refl _ (format_uint-IsNumber minor).1),
)

-- The numbers of such a name are read back.
parse_version-version_name :
    (major minor : ℕ)
    → major ≤ int_max
    → minor ≤ int_max
    → parse_version (version_name major minor) ≡ some (pos major, pos minor)
unfolding parse_version
parse_version-version_name major minor h k = ground (
  arith,
  trim_space_of_IsSolid (version_name major minor) (version_name-IsSolid major minor),
  split-version_name major minor,
  atoi-format_uint major h,
  atoi-format_uint minor k,
)

increment-pos : (n : ℕ) → n < int_max → increment (pos n) ≡ pos (suc n)
increment-pos n h = ground arith

-- After a newest version with the name `v<major>.<minor>`, both numbers in the range of `int` and
-- the minor one not its last, the next version has the same major number and the next minor one.
pub next_version_number-version_name :
    (newest : DatasetVersion) (older : List DatasetVersion) (major minor : ℕ)
    → newest.number ≡ version_name major minor
    → major ≤ int_max
    → minor < int_max
    → next_version_number (newest ∷ older) ≡ version_name major (suc minor)
unfolding next_version_number
next_version_number-version_name newest older major minor e h k =
    rw
      (
        e,
        trim_space_of_IsSolid _ (version_name-IsSolid major minor),
        parse_version-version_name major minor h (omega arith),
      )
      (rw (increment-pos minor k) (unfold format_int in refl))

-- The numbers that a dataset's versions get, each from the list of those before it.
abbrev pub uploads : ℕ → List DatasetVersion → (Text → DatasetVersion) → List DatasetVersion
uploads zero vers make = vers
uploads (suc n) vers make =
    let earlier = uploads n vers make in make (next_version_number earlier) ∷ earlier

-- When versions are only ever added under the number that is proposed, the one after `n` others is
-- named `v0.` and `n + 1`: the numbers are all different and in their order.
pub next_version_number-uploads :
    (n : ℕ) (make : Text → DatasetVersion)
    → ((number : Text) → (make number).number ≡ number)
    → n < int_max
    → next_version_number (uploads n [] make) ≡ version_name 0 (suc n)
next_version_number-uploads zero make keeps h = unfold next_version_number format_uint in refl
next_version_number-uploads (suc n) make keeps h =
    next_version_number-version_name _ (uploads n [] make) 0 (suc n)
      (keeps _ ∙ next_version_number-uploads n make keeps (omega arith)) (omega arith) h
