-- ===== src/Services/TwoFa/Attempts.antt =====
-- twofa_service.go: a challenge admits no more wrong codes than it has attempts, and the last of
-- them locks the user out.
use dataset_service.Base.{
  ℕ, suc, ◌+◌, ◌≤◌, ◌≡◌, refl, false, none, some, List, [], ◌∷◌, arith, ◌∙◌, length, All, nat_eq,
}
use dataset_service.Base.Dict.{lookup, insert, lookup-insert, lookup-delete, beq_refl}
use dataset_service.Base.Time.{pos, add_duration}
use dataset_service.Text.{Text, text_eq, text_eq_iff, text_keys, trim_space}
use dataset_service.Errors.{service, user_blocked, invalid_two_fa_code}
use dataset_service.Exec.{err}
use dataset_service.Services.TwoFa.{TwoFaService, ChallengeState, spend_attempt, verify_code}

-- The calls of `VerifyCode` for one identifier, each with its code and its time.
abbrev pub verify_all : Text → List (Text × ℕ) → TwoFaService → TwoFaService
verify_all id [] s = s
verify_all id ((code, now) ∷ rest) s = verify_all id rest (verify_code id code now s).1

-- The challenge that `id` names is `st`, and its user is not locked out at all.
pub record IsOpen (id : Text) (st : ChallengeState) (s : TwoFaService) : Type 0 where
  pub found : lookup id s.challenges ≡ some st
  pub free : lookup st.user.id s.lockouts ≡ none

-- A wrong code, tried before the challenge expires.
abbrev pub IsWrong : ChallengeState → Text × ℕ → Type 0
IsWrong st (code, now) =
    (text_eq (trim_space code) st.code ≡ false) × (now ≤ st.challenge.expires_at)

cfg-verify_code :
    (id code : Text) (now : ℕ) (s : TwoFaService) → (verify_code id code now s).1.cfg ≡ s.cfg
unfolding verify_code
cfg-verify_code id code now s = ground arith

module _ (id : Text) (bare : trim_space id ≡ id) where
  -- A wrong code that is not the last allowed one is refused and takes one attempt.
  wrong_code :
      (s : TwoFaService) (st : ChallengeState) (n : ℕ) (try : Text × ℕ)
      → IsOpen id st s
      → st.challenge.attempts_left ≡ pos (suc (suc n))
      → IsWrong st try
      → ((verify_code id try.0 try.1 s).0 ≡ err (service invalid_two_fa_code))
        × IsOpen id (spend_attempt st) (verify_code id try.0 try.1 s).1
  wrong_code s st n try o left w =
      let state = spend_attempt st in
      unfold verify_code in
      ground (
        arith,
        beq_refl id,
        text_eq_iff id (trim_space id),
        lookup-insert id id state (insert id state s.challenges),
      )

  -- The last allowed wrong code deletes the challenge and locks the user out.
  last_wrong_code :
      (s : TwoFaService) (st : ChallengeState) (try : Text × ℕ)
      → IsOpen id st s
      → st.challenge.attempts_left ≡ pos 1
      → IsWrong st try
      → let (r, t) = verify_code id try.0 try.1 s in
        (r ≡ err (service user_blocked))
        × (lookup id t.challenges ≡ none)
        × (lookup st.user.id t.lockouts ≡ some (add_duration try.1 s.cfg.block_duration))
  last_wrong_code s st try o left w =
      let state = spend_attempt st in
      unfold verify_code in
      ground (
        arith,
        beq_refl id,
        beq_refl st.user.id,
        text_eq_iff id (trim_space id),
        lookup-delete id id (insert id state s.challenges),
        lookup-insert st.user.id st.user.id (add_duration try.1 s.cfg.block_duration) s.lockouts,
      )

  -- What the earlier wrong codes leave: the challenge with the rest of its attempts.
  wrong_codes :
      (tries : List (Text × ℕ)) (s : TwoFaService) (st : ChallengeState) (n : ℕ)
      → IsOpen id st s
      → st.challenge.attempts_left ≡ pos (length tries + suc n)
      → All (IsWrong st) tries
      → (rest : ChallengeState) × IsOpen id rest (verify_all id tries s)
        × (rest.challenge.attempts_left ≡ pos (suc n))
        × (rest.user ≡ st.user)
        × (rest.code ≡ st.code)
        × (rest.challenge.expires_at ≡ st.challenge.expires_at)
        × ((verify_all id tries s).cfg ≡ s.cfg)
  wrong_codes [] s st n o left w = (st, o, ground arith, refl, refl, refl, refl)
  wrong_codes (try ∷ tries) s st n o left (now, later) =
      let t = (verify_code id try.0 try.1 s).1 in
      let next = wrong_code s st (length tries + n) try o (ground arith) now in
      let (rest, still, attempts, user, code, end, cfg) =
        wrong_codes tries t (spend_attempt st) n next.1 (ground arith) later in
      (rest, still, attempts, user, code, end, cfg ∙ cfg-verify_code id try.0 try.1 s)

  -- For an identifier without outer space (`trim_space id ≡ id`), wrong codes tried one after the
  -- other before the challenge expires, on behalf of a user who
  -- was not locked out: if they are as many as the challenge has attempts left, the last one is
  -- answered with a block, the challenge is gone, and the user is locked out from the time of
  -- that last try for the configured duration.
  pub attempts_run_out :
      (tries : List (Text × ℕ)) (last : Text × ℕ) (s : TwoFaService) (st : ChallengeState)
      → IsOpen id st s
      → st.challenge.attempts_left ≡ pos (length tries + 1)
      → All (IsWrong st) tries
      → IsWrong st last
      → let (r, t) = verify_code id last.0 last.1 (verify_all id tries s) in
        (r ≡ err (service user_blocked))
        × (lookup id t.challenges ≡ none)
        × (lookup st.user.id t.lockouts ≡ some (add_duration last.1 s.cfg.block_duration))
  attempts_run_out tries last s st o left w wl =
      let (rest, still, attempts, user, code, end, cfg) = wrong_codes tries s st 0 o left w in
      let done =
        last_wrong_code (verify_all id tries s) rest last still attempts
          (ground (arith, wl, code, end)) in
      ground (arith, done, user, cfg)
