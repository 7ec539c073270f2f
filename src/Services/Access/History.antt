-- ===== src/Services/Access/History.antt =====
-- access_service_impl.go: what a sequence of calls can lead to.
use dataset_service.Base.{ℕ, ◌≡◌, ◌⊎◌, inl, inr, some, List, [], ◌∷◌, arith}
use dataset_service.Exec.{ok}
use dataset_service.Entities.{AccessRequest, approved, denied, Dataset}
use dataset_service.Repositories.{AccessRequestRepository, DatasetRepository}
use dataset_service.Services.Access.{RequestAccess, request, approve, deny}
use dataset_service.Services.Access.Changes.{
  LawfulRequests, unchanged, opened, reopened, request-rows, decide_request-rows,
}

-- A call of the service that may write.
pub data Call : Type 0 where
  ask : RequestAccess → ℕ → Call
  approve_as deny_as : ℕ → ℕ → Call

module _ {S : Type 0} (datasets : DatasetRepository S) (requests : AccessRequestRepository S)
    (laws : LawfulRequests requests) where
  open laws use {rows}

  abbrev pub perform : Call → S → S
  perform (ask cmd now) s = (request datasets requests cmd now s).1
  perform (approve_as request_id caller) s = (approve datasets requests request_id caller s).1
  perform (deny_as request_id caller) s = (deny datasets requests request_id caller s).1

  abbrev pub perform_all : List Call → S → S
  perform_all [] s = s
  perform_all (c ∷ cs) s = perform_all cs (perform c s)

  -- The call is an approval of request `j` by the owner of its dataset.
  abbrev pub ApprovesAsOwner : ℕ → Call → S → Type 0
  ApprovesAsOwner j (approve_as request_id caller) s =
      (ar : AccessRequest) × (ds : Dataset) × (request_id ≡ j)
      × (rows s j ≡ some ar)
      × (datasets.find_by_id ar.dataset_id s ≡ ok (some ds))
      × (ds.owner_id ≡ caller)
  ApprovesAsOwner j _ s = ⊥

  -- One of the calls is such an approval, in the state in which it is made.
  abbrev pub OwnerApproved : ℕ → List Call → S → Type 0
  OwnerApproved j [] s = ⊥
  OwnerApproved j (c ∷ cs) s = ApprovesAsOwner j c s ⊎ OwnerApproved j cs (perform c s)

  abbrev pub IsApproved : ℕ → S → Type 0
  IsApproved j s = (ar : AccessRequest) × (rows s j ≡ some ar) × (ar.status ≡ approved)

  perform-IsApproved :
      (c : Call) (s : S) (j : ℕ)
      → IsApproved j (perform c s)
      → IsApproved j s ⊎ ApprovesAsOwner j c s
  perform-IsApproved (ask cmd now) s j (ar, there, is) =
      elim (request-rows datasets requests laws cmd now s j) [
        | unchanged same ↦ inl (ar, ground arith, is)
        | opened new before after status d u ↦ absurd (ground arith)
        | reopened old before was d u after ↦ absurd (ground arith)
      ]
  perform-IsApproved (approve_as request_id caller) s j (ar, there, is) =
      elim (decide_request-rows datasets requests laws request_id caller approved s j) [
        | inl same ↦ inl (ar, unfold approve in ground arith, is)
        | inr (old, ds, here, was, of_request, owner, after) ↦
            inr (old, ds, here, was, of_request, owner)
      ]
  perform-IsApproved (deny_as request_id caller) s j (ar, there, is) =
      elim (decide_request-rows datasets requests laws request_id caller denied s j) [
        | inl same ↦ inl (ar, unfold deny in ground arith, is)
        | inr (old, ds, here, was, of_request, owner, after) ↦ absurd (unfold deny in ground arith)
      ]

  -- A request that is approved after some calls was approved before them, or one of the calls was
  -- an approval of it by the user who owned its dataset when the call was made.
  pub IsApproved-OwnerApproved :
      (cs : List Call) (s : S) (j : ℕ)
      → IsApproved j (perform_all cs s)
      → IsApproved j s ⊎ OwnerApproved j cs s
  IsApproved-OwnerApproved [] s j h = inl h
  IsApproved-OwnerApproved (c ∷ cs) s j h = elim (IsApproved-OwnerApproved cs (perform c s) j h) [
    | inr later ↦ inr (inr later)
    | inl after ↦ elim (perform-IsApproved c s j after) [
      | inl before ↦ inl before
      | inr here ↦ inr (inl here)
    ]
  ]
