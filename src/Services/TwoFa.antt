-- ===== src/Services/TwoFa.antt =====
-- internal/services/twofa_service.go: one-time codes with a bounded number of attempts and a
-- temporary lockout of the user. Every method holds the mutex to its end, so a history is a
-- sequence of calls. Times are arguments, and so are the identifier that `uuid` returns and what
-- `crypto/rand` yields.
pub mod Verify
pub mod Attempts
pub mod Lockout
mod Tests
use dataset_service.Base.{
  ℕ, zero, suc, ◌+◌, ◌*◌, ◌%◌, ◌≡◌, Bool, true, false, Option, none, some, List, [], ◌∷◌, ◌++◌, ltb,
  if◌then◌else◌,
}
use dataset_service.Base.Dict.{Dict, lookup, insert, delete}
use dataset_service.Base.Time.{ℤ, pos, negsuc, is_positive, add_duration, minute}
use dataset_service.Text.{Text, codes, is_empty, text_eq, text_keys, trim_space}
use dataset_service.Text.Decimal.{format_uint}
use dataset_service.Base.{nat_eq}
use dataset_service.Errors.{
  Error, service, nil_user, invalid_credentials, user_blocked, invalid_two_fa_code, two_fa_expired,
  two_fa_challenge_not_found, two_fa_debug_disabled,
}
use dataset_service.Exec.{Result, ok, err, Exec}
use dataset_service.Entities.{User}

-- `TwoFAConfig`
pub record Config : Type 0 where
  pub code_ttl : ℤ
  pub max_attempts : ℤ
  pub block_duration : ℤ
  pub code_length : ℤ
  pub delivery : Text
  pub debug_secret : Text

-- `normalizeTwoFACfg`
unfoldable pub normalize : Config → Config
normalize cfg = record {
  code_ttl = if is_positive cfg.code_ttl then cfg.code_ttl else pos (5 * minute);
  max_attempts = if is_positive cfg.max_attempts then cfg.max_attempts else pos 3;
  block_duration = if is_positive cfg.block_duration then cfg.block_duration else pos (2 * minute);
  code_length = if is_positive cfg.code_length then cfg.code_length else pos 6;
  delivery = if is_empty (trim_space cfg.delivery) then codes "email" else cfg.delivery;
  debug_secret = cfg.debug_secret;
}

-- `TwoFAChallenge`
pub record Challenge : Type 0 where
  pub id : Text
  pub user_id : ℕ
  pub expires_at : ℕ
  pub attempts_left : ℤ
  pub delivery : Text

-- `challengeState`
pub record ChallengeState : Type 0 where
  pub challenge : Challenge
  pub user : User
  pub code : Text

-- `twoFAService`. The map's values are pointers in the source; `verify_code` writes out where a
-- change through a pointer shows under the key that was looked up.
pub record TwoFaService : Type 0 where
  pub cfg : Config
  pub challenges : Dict Text ChallengeState
  pub lockouts : Dict ℕ ℕ

-- `NewTwoFAService`
unfoldable pub new_two_fa_service : Config → TwoFaService
new_two_fa_service cfg = record { cfg = normalize cfg; challenges = []; lockouts = [] }

-- `randomDigit`: the drawn digit, or one made of the clock's nanoseconds if the draw fails.
abbrev pub random_digit : Option ℕ × ℕ → ℕ
random_digit (some n, nanosecond) = n
random_digit (none, nanosecond) = nanosecond % 10

abbrev rounds : ℤ → ℕ
rounds (pos n) = n
rounds (negsuc n) = 0

-- The loop of `generateCode` from its round `i` on, with the rounds that are left.
digits_from : (ℕ → Option ℕ × ℕ) → ℕ → ℕ → Text
digits_from draws i zero = []
digits_from draws i (suc left) =
    format_uint (random_digit (draws i)) ++ digits_from draws (suc i) left

-- `generateCode`
unfoldable pub generate_code : (ℕ → Option ℕ × ℕ) → TwoFaService → Text
unfolding digits_from
generate_code draws s = digits_from draws 0 (rounds s.cfg.code_length)

-- `until, blocked := s.lockouts[id]; blocked && now.Before(until)`
abbrev pub is_locked : ℕ → ℕ → TwoFaService → Bool
is_locked user_id now s = elim (lookup user_id s.lockouts) [
  | none ↦ false
  | some until ↦ ltb now until
]

-- The challenge that `StartChallenge` enters.
abbrev pub fresh_state : User → ℕ → Text → Text → TwoFaService → ChallengeState
fresh_state user now id code s = record {
  challenge = record {
    id = id;
    user_id = user.id;
    expires_at = add_duration now s.cfg.code_ttl;
    attempts_left = s.cfg.max_attempts;
    delivery = s.cfg.delivery;
  };
  user = user;
  code = code;
}

-- `StartChallenge`; that the notifier fails is only logged.
unfoldable pub start_challenge :
    Option User → ℕ → (ℕ → Option ℕ × ℕ) → Text → Exec TwoFaService Challenge
start_challenge none now draws id s = (err (service nil_user), s)
start_challenge (some user) now draws id s =
    if is_locked user.id now s
    then (err (service user_blocked), s)
    else let unlocked = record s { lockouts = delete user.id s.lockouts } in
      if user.is_blocked
      then (err (service user_blocked), unlocked)
      else let state = fresh_state user now id (generate_code draws s) s in
        (ok state.challenge, record unlocked { challenges = insert id state unlocked.challenges })

-- `AttemptsLeft--`
abbrev pub decrement : ℤ → ℤ
decrement (pos zero) = negsuc 0
decrement (pos (suc n)) = pos n
decrement (negsuc n) = negsuc (suc n)

abbrev pub spend_attempt : ChallengeState → ChallengeState
spend_attempt state = record state {
  challenge = record (state.challenge) { attempts_left = decrement state.challenge.attempts_left };
}

-- The branch of `VerifyCode` for a wrong code. The state that was found under the trimmed
-- identifier is changed in place; then the identifier as it was given is deleted or stored.
abbrev reject_code : Text → ChallengeState → ℕ → TwoFaService → Result User × TwoFaService
reject_code challenge_id found now s =
    let state = spend_attempt found in
    let changed = insert (trim_space challenge_id) state s.challenges in
    if is_positive state.challenge.attempts_left
    then (
      err (service invalid_two_fa_code),
      record s { challenges = insert challenge_id state changed },
    )
    else (
      err (service user_blocked),
      record s {
        challenges = delete challenge_id changed;
        lockouts = insert state.user.id (add_duration now s.cfg.block_duration) s.lockouts;
      },
    )

-- `VerifyCode` once the challenge is found.
abbrev check_code : Text → Text → ℕ → ChallengeState → TwoFaService → Result User × TwoFaService
check_code challenge_id code now state s =
    if is_locked state.user.id now s
    then (err (service user_blocked), s)
    else if ltb state.challenge.expires_at now
    then (err (service two_fa_expired), record s { challenges = delete challenge_id s.challenges })
    else if text_eq (trim_space code) state.code
    then (ok state.user, record s { challenges = delete challenge_id s.challenges })
    else reject_code challenge_id state now s

-- `VerifyCode`
unfoldable pub verify_code : Text → Text → ℕ → Exec TwoFaService User
verify_code challenge_id code now s = elim (lookup (trim_space challenge_id) s.challenges) [
  | none ↦ (err (service two_fa_challenge_not_found), s)
  | some state ↦ check_code challenge_id code now state s
]

-- `DebugCode`
unfoldable pub debug_code : Text → Text → TwoFaService → Result Text
debug_code challenge_id secret s =
    if is_empty s.cfg.debug_secret
    then err (service two_fa_debug_disabled)
    else if text_eq (trim_space secret) s.cfg.debug_secret
    then elim (lookup (trim_space challenge_id) s.challenges) [
      | none ↦ err (service two_fa_challenge_not_found)
      | some state ↦ ok state.code
    ]
    else err (service invalid_credentials)
