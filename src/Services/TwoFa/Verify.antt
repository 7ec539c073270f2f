-- ===== src/Services/TwoFa/Verify.antt =====
-- twofa_service.go: which codes `VerifyCode` accepts, and that an accepted code is used up.
use dataset_service.Base.{
  ℕ, zero, suc, ◌≤◌, ◌≡◌, ◌≢◌, ◌↔◌, inl, inr, false, Option, some, arith, Option-cases,
}
use dataset_service.Base.Dict.{lookup, delete, lookup-delete, lookup-insert}
use dataset_service.Base.Dict.{beq_refl}
use dataset_service.Base.{nat_eq}
use dataset_service.Base.Time.{add_duration}
use dataset_service.Text.Trim.{IsSolid, trim_space_of_IsSolid}
use dataset_service.Text.Decimal.{format_uint, format_uint-IsNumber}
use dataset_service.Text.Digits.{digits-IsSolid, IsSolid-append}
use dataset_service.Text.{Text, text_eq_iff, text_keys, trim_space}
use dataset_service.Errors.{service, two_fa_challenge_not_found}
use dataset_service.Exec.{ok, err}
use dataset_service.Entities.{User}
use dataset_service.Services.TwoFa.{
  TwoFaService, ChallengeState, is_locked, start_challenge, verify_code, fresh_state, digits_from,
  rounds, random_digit, generate_code,
}

module _ (id code : Text) (now : ℕ) (s : TwoFaService) where
  -- A code is accepted exactly when the trimmed identifier has a challenge of the returned user,
  -- that user is not locked out, the challenge has not expired, and the trimmed code is its code.
  pub verify_code-eq-ok :
      (u : User)
      → ((verify_code id code now s).0 ≡ ok u) ↔ (
          (st : ChallengeState) × (lookup (trim_space id) s.challenges ≡ some st)
          × (is_locked st.user.id now s ≡ false)
          × (now ≤ st.challenge.expires_at)
          × (trim_space code ≡ st.code)
          × (st.user ≡ u))
  unfolding verify_code
  verify_code-eq-ok u = elim (Option-cases (lookup (trim_space id) s.challenges)) [
    | inl missing ↦ (λ h. absurd (ground arith), λ h. absurd (ground arith))
    | inr (st, found) ↦ (
      λ h. (
        st,
        found,
        ground arith,
        ground arith,
        ground (arith, text_eq_iff (trim_space code) st.code),
        ground arith,
      ),
      λ h. ground (arith, text_eq_iff (trim_space code) st.code),
    )
  ]

  -- what acceptance does to the state
  accepted_state :
      (u : User)
      → (verify_code id code now s).0 ≡ ok u
      → (verify_code id code now s).1 ≡ record s { challenges = delete id s.challenges }
  unfolding verify_code
  accepted_state u h = ground arith

  -- An accepted code is used up: if its challenge was named without outer space, no second call
  -- finds the challenge, whatever the code and the time and however the identifier is padded.
  pub verify_code_once :
      (u : User) (again guess : Text) (later : ℕ)
      → (verify_code id code now s).0 ≡ ok u
      → trim_space id ≡ id
      → trim_space again ≡ id
      → (verify_code again guess later (verify_code id code now s).1).0
        ≡ err (service two_fa_challenge_not_found)
  verify_code_once u again guess later h bare same = rw (accepted_state u h) (
      unfold verify_code in
      ground (
        arith,
        lookup-delete id (trim_space again) s.challenges,
        text_eq_iff id (trim_space again),
      ))

  -- If the identifier was padded with space, an accepted code is not used up: at any later time up
  -- to the end of the challenge the same call succeeds again.
  pub verify_code_replay :
      (u : User) (st : ChallengeState) (later : ℕ)
      → (verify_code id code now s).0 ≡ ok u
      → trim_space id ≢ id
      → lookup (trim_space id) s.challenges ≡ some st
      → now ≤ later
      → later ≤ st.challenge.expires_at
      → (verify_code id code later (verify_code id code now s).1).0 ≡ ok u
  verify_code_replay u st later h padded found after in_time = rw (accepted_state u h) (
      unfold verify_code in
      ground (
        arith,
        lookup-delete id (trim_space id) s.challenges,
        text_eq_iff id (trim_space id),
        text_eq_iff (trim_space code) st.code,
      ))

digits_from-IsSolid : (draws : ℕ → Option ℕ × ℕ) (i left : ℕ) → IsSolid (digits_from draws i left)
unfolding digits_from
digits_from-IsSolid draws i zero = tt
digits_from-IsSolid draws i (suc left) =
    IsSolid-append (format_uint (random_digit (draws i))) (digits_from draws (suc i) left)
      (digits-IsSolid _ (format_uint-IsNumber (random_digit (draws i))).1)
      (digits_from-IsSolid draws (suc i) left)

generate_code-IsSolid :
    (draws : ℕ → Option ℕ × ℕ) (s : TwoFaService) → IsSolid (generate_code draws s)
unfolding generate_code
generate_code-IsSolid draws s = digits_from-IsSolid draws 0 (rounds s.cfg.code_length)

-- A challenge that is started for a user who is neither locked out nor blocked admits that user
-- with the code that was drawn, under the identifier that was drawn, until it expires, when the
-- identifier has no outer space.
pub verify_code-start_challenge :
    (u : User) (issued now : ℕ) (draws : ℕ → Option ℕ × ℕ) (id : Text) (s : TwoFaService)
    → is_locked u.id issued s ≡ false
    → u.is_blocked ≡ false
    → trim_space id ≡ id
    → now ≤ add_duration issued s.cfg.code_ttl
    → (verify_code id (generate_code draws s) now (start_challenge (some u) issued draws id s).1).0
      ≡ ok u
verify_code-start_challenge u issued now draws id s free unblocked bare in_time =
    let code = generate_code draws s in
    let same = trim_space_of_IsSolid code (generate_code-IsSolid draws s) in
    unfold verify_code start_challenge in
    ground (
      arith,
      same,
      beq_refl id,
      lookup-insert id (trim_space id) (fresh_state u issued id code s) s.challenges,
      lookup-delete u.id u.id s.lockouts,
      text_eq_iff id (trim_space id),
      text_eq_iff (trim_space code) code,
    )
