-- ===== src/Text/Digits.antt =====
-- Texts of digits hold no space and no separator.
use dataset_service.Base.{ℕ, ◌≡◌, true, false, [], ◌∷◌, ◌++◌, leb, arith, ◌&&◌, All}
use dataset_service.Text.{Text, is_space}
use dataset_service.Text.Trim.{IsSolid}
use dataset_service.Text.Split.{Lacks}

abbrev pub AllDigits : Text → Type 0
AllDigits t = All (λ c. (leb 48 c && leb c 57) ≡ true) t

is_space-digit : (c : ℕ) → (leb 48 c && leb c 57) ≡ true → is_space c ≡ false
unfolding is_space
is_space-digit c h = ground arith

pub digits-IsSolid : (t : Text) → AllDigits t → IsSolid t
digits-IsSolid [] h = tt
digits-IsSolid (c ∷ t) h = (is_space-digit c h.0, digits-IsSolid t h.1)

pub digits-Lacks :
    (sep : ℕ) → (leb 48 sep && leb sep 57) ≡ false → (t : Text) → AllDigits t → Lacks sep t
digits-Lacks sep other [] h = tt
digits-Lacks sep other (c ∷ t) h = (ground (arith, h.0), digits-Lacks sep other t h.1)

pub IsSolid-append : (t v : Text) → IsSolid t → IsSolid v → IsSolid (t ++ v)
IsSolid-append [] v ht hv = hv
IsSolid-append (c ∷ t) v ht hv = (ht.0, IsSolid-append t v ht.1 hv)
