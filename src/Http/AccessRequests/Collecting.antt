-- ===== src/Http/AccessRequests/Collecting.antt =====
-- access_requests.go: what `collectAccessRequests` puts together.
use dataset_service.Base.{ℕ, ◌≡◌, inl, inr, false, List, [], ◌∷◌, ◌++◌, arith, Bool-cases}
use dataset_service.Exec.{ok, Result-cases}
use dataset_service.Entities.{AccessRequest}
use dataset_service.Repositories.{AccessRequestRepository}
use dataset_service.Services.Access.{list_by_dataset_id}
use dataset_service.Services.Dataset.{Parts}
use dataset_service.Http.AccessRequests.{mem, keep_new, mark, collect_from}

-- No request has a number of `seen`, and no two have the same number.
abbrev pub AreNew : List ℕ → List AccessRequest → Type 0
AreNew seen [] = Unit
AreNew seen (req ∷ reqs) = (mem req.id seen ≡ false) × AreNew (req.id ∷ seen) reqs

AreNew-append :
    (seen : List ℕ) (xs ys : List AccessRequest)
    → AreNew seen xs
    → AreNew (mark seen xs) ys
    → AreNew seen (xs ++ ys)
AreNew-append seen [] ys hx hy = hy
AreNew-append seen (x ∷ xs) ys hx hy = (hx.0, AreNew-append (x.id ∷ seen) xs ys hx.1 hy)

keep_new-AreNew : (seen : List ℕ) (reqs : List AccessRequest) → AreNew seen (keep_new seen reqs)
unfolding keep_new
keep_new-AreNew seen [] = tt
keep_new-AreNew seen (req ∷ reqs) = elim (Bool-cases (mem req.id seen)) [
  | inl old ↦ rw old (keep_new-AreNew seen reqs)
  | inr new ↦ rw new (new, keep_new-AreNew (req.id ∷ seen) reqs)
]

module _ {S : Type 0} (parts : Parts S) (requests : AccessRequestRepository S) where
  open parts use {datasets}

  -- The requests that are collected from several datasets, after others that are left out, are none
  -- of those, and no two of them have the same number.
  pub collect_from-AreNew :
      (seen dataset_ids : List ℕ) (s : S) (reqs : List AccessRequest)
      → collect_from parts requests seen dataset_ids s ≡ ok reqs
      → AreNew seen reqs
  collect_from-AreNew seen [] s [] h = tt
  collect_from-AreNew seen [] s (req ∷ reqs) h = absurd (unfold collect_from in ground arith)
  collect_from-AreNew seen (d ∷ dataset_ids) s reqs h =
      elim (Result-cases (list_by_dataset_id datasets requests d s)) [
        | inr (e, failed) ↦ absurd (unfold collect_from in ground arith)
        | inl (listed, found) ↦
            let kept = keep_new seen listed in
            elim (Result-cases (collect_from parts requests (mark seen kept) dataset_ids s)) [
              | inr (e, failed) ↦ absurd (unfold collect_from in ground arith)
              | inl (later, rest) ↦
                  let sum : reqs ≡ kept ++ later = unfold collect_from in ground arith in
                  rw sum (
                    AreNew-append seen kept later (keep_new-AreNew seen listed)
                      (collect_from-AreNew (mark seen kept) dataset_ids s later rest))
            ]
      ]
