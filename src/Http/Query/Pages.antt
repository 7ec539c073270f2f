-- ===== src/Http/Query/Pages.antt =====
-- helpers.go: pages lie in their list and cover it, and their numbers lie in their bounds.
use dataset_service.Base.{
  ℕ, zero, suc, ◌+◌, ◌-◌, ◌*◌, ◌^◌, ◌≤◌, ◌≡◌, refl, sym, ap, ◌∙◌, inl, inr, ◌⊎◌, List, [], ◌∷◌,
  ◌++◌, arith, length, length-drop, take, drop, ltb, Bool-cases, Option-cases,
}
use dataset_service.Base.Time.{pos, negsuc}
use dataset_service.Text.{Text, codes, is_empty}
use dataset_service.Text.Decimal.{atoi}
use dataset_service.Exec.{ok, Result-cases}
use dataset_service.Http.Query.{parse_positive_int, parse_pagination, clamp, page}

-- Where a page starts and how long it is, in a list of `total`.
page_span :
    (limit offset total : ℕ)
    → let start = clamp offset 0 total in
      let end = clamp (offset + limit) start total in
      ((start ≡ offset) × (end - start ≡ limit))
      ⊎ ((start ≡ offset) × (end - start ≡ total - offset) × (total - offset ≤ limit))
      ⊎ ((total ≤ offset) × (end - start ≡ 0))
page_span limit offset total = elim (Bool-cases (ltb total offset)) [
  | inl beyond ↦ inr (inr (ground arith, ground arith))
  | inr inside ↦ elim (Bool-cases (ltb total (offset + limit))) [
    | inl cut ↦ inr (inl (ground arith, ground arith, ground arith))
    | inr whole ↦ inl (ground arith, ground arith)
  ]
]

module _ {ℓ} {A : Type ℓ} where
  take_all : (n : ℕ) (xs : List A) → length xs ≤ n → take n xs ≡ xs
  take_all zero [] h = refl
  take_all zero (x ∷ xs) h = absurd (omega arith)
  take_all (suc n) [] h = refl
  take_all (suc n) (x ∷ xs) h = ap (λ r. x ∷ r) (take_all n xs (omega arith))

  drop_all : (n : ℕ) (xs : List A) → length xs ≤ n → drop n xs ≡ []
  drop_all zero [] h = refl
  drop_all zero (x ∷ xs) h = absurd (omega arith)
  drop_all (suc n) [] h = refl
  drop_all (suc n) (x ∷ xs) h = drop_all n xs (omega arith)

  -- A page is what a list has from its offset on, up to its limit.
  pub page-take-drop :
      (limit offset : ℕ) (xs : List A) → page limit offset xs ≡ take limit (drop offset xs)
  unfolding page
  page-take-drop limit offset xs = elim (page_span limit offset (length xs)) [
    | inl (start, whole) ↦ rw (whole, start) refl
    | inr (inl (start, cut, short)) ↦
        let rest = length-drop offset xs in
        rw (cut, start)
          (take_all (length xs - offset) (drop offset xs) (omega arith)
            ∙ sym (take_all limit (drop offset xs) (omega arith)))
    | inr (inr (beyond, nothing)) ↦
        rw (nothing, drop_all offset xs beyond) (sym (take_all limit [] (omega arith)))
  ]

  take-drop-append : (m n : ℕ) (xs : List A) → take m xs ++ take n (drop m xs) ≡ take (m + n) xs
  take-drop-append zero n xs = let e : 0 + n ≡ n = omega arith in rw e refl
  take-drop-append (suc m) n [] =
      take_all n [] (omega arith) ∙ sym (take_all (suc m + n) [] (omega arith))
  take-drop-append (suc m) n (x ∷ xs) =
      let e : suc m + n ≡ suc (m + n) = omega arith in
      rw e (ap (λ r. x ∷ r) (take-drop-append m n xs))

  -- The first pages of a list, one after the other.
  abbrev pub pages : ℕ → ℕ → List A → List A
  pages limit zero xs = []
  pages limit (suc n) xs = pages limit n xs ++ page limit (n * limit) xs

  -- The first pages of a list, put together, are its beginning.
  pub pages-take : (limit n : ℕ) (xs : List A) → pages limit n xs ≡ take (n * limit) xs
  pages-take limit zero xs = let e : 0 * limit ≡ 0 = omega arith in rw e refl
  pages-take limit (suc n) xs =
      let e : suc n * limit ≡ n * limit + limit = omega arith in
      rw (pages-take limit n xs, page-take-drop limit (n * limit) xs, e)
        (take-drop-append (n * limit) limit xs)

within-bounds :
    (raw key : Text) (default low high n : ℕ)
    → low ≤ default
    → default ≤ high
    → parse_positive_int raw key default low high ≡ ok n
    → (low ≤ n) × (n ≤ high)
unfolding parse_positive_int
within-bounds raw key default low high n least most h = elim (Bool-cases (is_empty raw)) [
  | inl absent ↦ (ground arith, ground arith)
  | inr given ↦ elim (Option-cases (atoi raw)) [
    | inl failed ↦ absurd (ground arith)
    | inr (pos m, read) ↦ (ground arith, ground arith)
    | inr (negsuc m, read) ↦ absurd (ground arith)
  ]
]

-- The limit and the offset that are read from a query lie in their bounds, if the default does.
pub parse_pagination-bounds :
    (raw_limit raw_offset : Text) (default_limit max_limit limit offset : ℕ)
    → 1 ≤ default_limit
    → default_limit ≤ max_limit
    → parse_pagination raw_limit raw_offset default_limit max_limit ≡ ok (limit, offset)
    → (1 ≤ limit) × (limit ≤ max_limit) × (offset ≤ 10 ^ 7)
unfolding parse_pagination
parse_pagination-bounds raw_limit raw_offset default_limit max_limit limit offset one most h =
    elim (Result-cases (parse_positive_int raw_limit (codes "limit") default_limit 1 max_limit)) [
      | inr (e, failed) ↦ absurd (ground arith)
      | inl (l, first) ↦
          elim (Result-cases (parse_positive_int raw_offset (codes "offset") 0 0 (10 ^ 7))) [
            | inr (e, failed) ↦ absurd (ground arith)
            | inl (o, second) ↦
                let (least, greatest) =
                  within-bounds raw_limit (codes "limit") default_limit 1 max_limit l one most
                    first in
                let (_, far) =
                  within-bounds raw_offset (codes "offset") 0 0 (10 ^ 7) o (omega arith)
                    (omega arith) second in
                (ground arith, ground arith, ground arith)
          ]
    ]
