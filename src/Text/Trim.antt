-- ===== src/Text/Trim.antt =====
-- `strings.TrimSpace` takes nothing off a second time, and what it leaves has no outer space.
use dataset_service.Base.{◌≡◌, refl, inl, inr, false, All, [], ◌∷◌, arith, Bool-cases}
use dataset_service.Text.{Text, is_space, trim_left, trim_right, trim_space}

-- The text is empty or begins with no space.
abbrev pub StartsSolid : Text → Type 0
StartsSolid [] = Unit
StartsSolid (c ∷ s) = is_space c ≡ false

trim_left-StartsSolid : (s : Text) → StartsSolid (trim_left s)
unfolding trim_left
trim_left-StartsSolid [] = tt
trim_left-StartsSolid (c ∷ s) = ground (arith, trim_left-StartsSolid s)

trim_left_of_StartsSolid : (s : Text) → StartsSolid s → trim_left s ≡ s
unfolding trim_left
trim_left_of_StartsSolid [] h = refl
trim_left_of_StartsSolid (c ∷ s) h = ground arith

trim_right-StartsSolid : (s : Text) → StartsSolid s → StartsSolid (trim_right s)
unfolding trim_right
trim_right-StartsSolid [] h = tt
trim_right-StartsSolid (c ∷ s) h = ground arith

trim_right_idem : (s : Text) → trim_right (trim_right s) ≡ trim_right s
unfolding trim_right
trim_right_idem [] = refl
trim_right_idem (c ∷ s) = elim (Bool-cases (is_space c)) [
  | inl sp ↦ ground (arith, trim_right_idem s)
  | inr solid ↦ ground (arith, trim_right_idem s)
]

-- Trimming twice is trimming once.
pub trim_space_idem : (s : Text) → trim_space (trim_space s) ≡ trim_space s
unfolding trim_space
trim_space_idem s =
    rw (trim_left_of_StartsSolid _ (trim_right-StartsSolid _ (trim_left-StartsSolid s)))
      (trim_right_idem (trim_left s))

-- A text without any space is left as it is.
abbrev pub IsSolid : Text → Type 0
IsSolid s = All (λ c. is_space c ≡ false) s

IsSolid-StartsSolid : (s : Text) → IsSolid s → StartsSolid s
IsSolid-StartsSolid [] h = tt
IsSolid-StartsSolid (c ∷ s) h = h.0

trim_right_of_IsSolid : (s : Text) → IsSolid s → trim_right s ≡ s
unfolding trim_right
trim_right_of_IsSolid [] h = refl
trim_right_of_IsSolid (c ∷ s) h = ground (arith, trim_right_of_IsSolid s h.1)

pub trim_space_of_IsSolid : (s : Text) → IsSolid s → trim_space s ≡ s
unfolding trim_space
trim_space_of_IsSolid s h =
    rw (trim_left_of_StartsSolid s (IsSolid-StartsSolid s h)) (trim_right_of_IsSolid s h)
