-- ===== src/Http/Query.antt =====
-- internal/delivery/http/v2/helpers.go: the numbers of a query and the pages of a list.
pub mod Pages
use dataset_service.Base.{
  ℕ, ◌+◌, ◌-◌, ◌*◌, ◌^◌, ◌≡◌, Option, none, some, List, ltb, ◌++◌, if◌then◌else◌, length, take,
  drop,
}
use dataset_service.Base.Time.{ℤ, pos, negsuc}
use dataset_service.Text.{Text, codes, is_empty}
use dataset_service.Text.Decimal.{atoi}
use dataset_service.Errors.{bad_input}
use dataset_service.Exec.{Result, ok, err}

-- `parsePositiveInt` on the number that was read; no bound of the program is negative.
abbrev within_bounds : Text → ℕ → ℕ → Option ℤ → Result ℕ
within_bounds key low high none = err (bad_input (key ++ codes " must be a number"))
within_bounds key low high (some (negsuc n)) = err (bad_input (key ++ codes " is below minimum"))
within_bounds key low high (some (pos n)) =
    if ltb n low
    then err (bad_input (key ++ codes " is below minimum"))
    else if ltb high n
    then ok high
    else ok n

-- `parsePositiveInt` on the value that the query has for the key
unfoldable pub parse_positive_int : Text → Text → ℕ → ℕ → ℕ → Result ℕ
parse_positive_int raw key default low high =
    if is_empty raw then ok default else within_bounds key low high (atoi raw)

abbrev with_offset : ℕ → Result ℕ → Result (ℕ × ℕ)
with_offset limit (err e) = err e
with_offset limit (ok offset) = ok (limit, offset)

abbrev with_limit : Result ℕ → Text → Result (ℕ × ℕ)
with_limit (err e) raw_offset = err e
with_limit (ok limit) raw_offset =
    with_offset limit (parse_positive_int raw_offset (codes "offset") 0 0 (10 ^ 7))

-- `parsePagination` on the values of the keys `limit` and `offset`
unfoldable pub parse_pagination : Text → Text → ℕ → ℕ → Result (ℕ × ℕ)
unfolding parse_positive_int
parse_pagination raw_limit raw_offset default_limit max_limit =
    with_limit (parse_positive_int raw_limit (codes "limit") default_limit 1 max_limit) raw_offset

-- `clamp`
abbrev pub clamp : ℕ → ℕ → ℕ → ℕ
clamp value low high = if ltb value low then low else if ltb high value then high else value

-- `start := clamp(offset, 0, total); end := clamp(offset+limit, start, total); xs[start:end]`
unfoldable pub page {ℓ} : {A : Type ℓ} → ℕ → ℕ → List A → List A
page limit offset xs =
    let total = length xs in
    let start = clamp offset 0 total in
    let end = clamp (offset + limit) start total in take (end - start) (drop start xs)
