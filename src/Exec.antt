-- ===== src/Exec.antt =====
-- Go functions that change the state and return `(value, error)`. What was written before an
-- error stays written, so the state comes back beside the error too.
use dataset_service.Base.{◌≡◌, refl, ◌⊎◌, inl, inr}
use dataset_service.Errors.{Error}

pub data Result {ℓ} (A : Type ℓ) : Type ℓ where
  ok : A → Result A
  err : Error → Result A

abbrev pub Exec {ℓ} : Type ℓ → Type ℓ → Type ℓ
Exec S A = S → Result A × S

abbrev pub map_error {ℓ} : {A : Type ℓ} → (Error → Error) → Result A → Result A
map_error f (ok a) = ok a
map_error f (err e) = err (f e)

module _ {ℓ} {S A : Type ℓ} where
  -- `return a, nil`
  abbrev pub pure : A → Exec S A
  pure a s = (ok a, s)

  -- `return zero, e`
  abbrev pub raise : Error → Exec S A
  raise e s = (err e, s)

  -- A call that only reads.
  abbrev pub read : (S → Result A) → Exec S A
  read f s = (f s, s)

  abbrev pub lift : Result A → Exec S A
  lift r s = (r, s)

  -- `r, err := m(); …` where the code goes on with both.
  abbrev pub attempt : Exec S A → Exec S (Result A)
  attempt m s = let (r, s') = m s in (ok r, s')

  -- `if err != nil { return zero, f(err) }`
  abbrev pub on_error : (Error → Error) → Exec S A → Exec S A
  on_error f m s = let (r, s') = m s in (map_error f r, s')

  -- `_ = m()`
  abbrev pub ignore : Exec S A → Exec S Unit
  ignore m s = (ok tt, (m s).1)

  -- `if err != nil { undo(); return zero, err }`
  abbrev pub on_failure : Exec S Unit → Exec S A → Exec S A
  on_failure undo m s =
      let (r, s') = m s in elim r [ ok a ↦ (ok a, s') | err e ↦ (err e, (undo s').1) ]

module _ {ℓ} {S A B : Type ℓ} where
  abbrev pub continue : Result A → (A → Exec S B) → Exec S B
  continue (ok a) f s = f a s
  continue (err e) f s = (err e, s)

  infixl 10 ◌>>=◌ ◌>>◌
  abbrev pub ◌>>=◌ : Exec S A → (A → Exec S B) → Exec S B
  ◌>>=◌ m f s = let (r, s') = m s in continue r f s'

  abbrev pub ◌>>◌ : Exec S A → Exec S B → Exec S B
  m >> k = m >>= λ _. k

pub Result-cases {ℓ} :
    {A : Type ℓ} (r : Result A) → ((a : A) × (r ≡ ok a)) ⊎ ((e : Error) × (r ≡ err e))
Result-cases (ok a) = inl (a, refl)
Result-cases (err e) = inr (e, refl)
