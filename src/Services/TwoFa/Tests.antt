-- ===== src/Services/TwoFa/Tests.antt =====
-- twofa_service.go: the theorems at a concrete service with one open challenge of two attempts.
use dataset_service.Base.{
  ℕ, ◌+◌, ◌*◌, ◌≤◌, ◌≡◌, ◌↔◌, refl, false, Option, none, some, [], ◌∷◌, arith, nat_eq,
}
use dataset_service.Base.Dict.{lookup}
use dataset_service.Base.Time.{pos, second, minute}
use dataset_service.Text.{
  Text, codes, text_eq, text_keys, trim_space, trim_left, trim_right, is_space,
}
use dataset_service.Errors.{service, user_blocked, two_fa_challenge_not_found}
use dataset_service.Exec.{ok, err}
use dataset_service.Entities.{User, role_user}
use dataset_service.Services.TwoFa.{
  Config, ChallengeState, TwoFaService, fresh_state, generate_code, is_locked, new_two_fa_service,
  start_challenge, verify_code,
}
use dataset_service.Services.TwoFa.Verify.{
  verify_code-eq-ok, verify_code_once, verify_code_replay, verify_code-start_challenge,
}
use dataset_service.Services.TwoFa.Attempts.{attempts_run_out, verify_all}
use dataset_service.Services.TwoFa.Lockout.{
  start, verify, perform_all, lockout_holds, IsRefused, IsValid, reached-IsValid,
}

abbrev config : Config
config = record {
  code_ttl = pos (5 * minute);
  max_attempts = pos 2;
  block_duration = pos minute;
  code_length = pos 4;
  delivery = codes "email";
  debug_secret = [];
}

abbrev ann : User
ann = record {
  id = 3;
  username = codes "ann";
  email = codes "ann@x";
  password = codes "hash";
  registration_date = 0;
  country = [];
  is_blocked = false;
  role = role_user;
}

abbrev id : Text
id = codes "c1"

abbrev code : Text
code = codes "4444"

abbrev empty : TwoFaService
empty = record { cfg = config; challenges = []; lockouts = [] }

abbrev state : ChallengeState
state = fresh_state ann 0 id code empty

abbrev opened : TwoFaService
opened = record empty { challenges = (id, state) ∷ [] }

abbrev locked : TwoFaService
locked = record opened { lockouts = (3, 90 * second) ∷ [] }

abbrev draws : ℕ → Option ℕ × ℕ
draws i = (some 4, 0)

verify_code-eq-ok_example : ((verify_code id code second opened).0 ≡ ok ann) ↔ (
    (st : ChallengeState) × (lookup (trim_space id) opened.challenges ≡ some st)
    × (is_locked st.user.id second opened ≡ false)
    × (second ≤ st.challenge.expires_at)
    × (trim_space code ≡ st.code)
    × (st.user ≡ ann))
verify_code-eq-ok_example = verify_code-eq-ok id code second opened ann

accepted : (verify_code id code second opened).0 ≡ ok ann
unfolding verify_code lookup trim_space trim_left trim_right is_space text_eq
accepted = refl

bare : trim_space id ≡ id
unfolding trim_space trim_left trim_right is_space
bare = refl

verify_code_once_example :
    (verify_code id code second (verify_code id code second opened).1).0
    ≡ err (service two_fa_challenge_not_found)
verify_code_once_example =
    verify_code_once id code second opened ann id code second accepted bare bare

abbrev padded : Text
padded = codes " c1"

-- The padded identifier lets the same code in a second time.
verify_code_replay_example :
    (verify_code padded code (2 * second) (verify_code padded code second opened).1).0 ≡ ok ann
unfolding verify_code lookup trim_space trim_left trim_right is_space text_eq
verify_code_replay_example =
    verify_code_replay padded code second opened ann state (2 * second) refl (λ h. ground arith)
      refl (omega arith) (omega arith)

verify_code-start_challenge_example :
    (verify_code id
      (generate_code draws empty)
      second
      (start_challenge (some ann) 0 draws id empty).1).0
    ≡ ok ann
unfolding lookup
verify_code-start_challenge_example =
    verify_code-start_challenge ann 0 second draws id empty refl refl bare (omega arith)

abbrev wrong : Text × ℕ
wrong = (codes "1", second)

attempts_run_out_example :
    let (r, t) = verify_code id (codes "1") second (verify_all id (wrong ∷ []) opened) in
    (r ≡ err (service user_blocked))
    × (lookup id t.challenges ≡ none)
    × (lookup 3 t.lockouts ≡ some (second + minute))
unfolding lookup text_eq trim_space trim_left trim_right is_space
attempts_run_out_example =
    attempts_run_out id bare (wrong ∷ []) wrong opened state (record { found = refl; free = refl })
      refl ((refl, omega arith), tt) (refl, omega arith)

lockout_holds_example :
    (lookup 3 (perform_all (start ann second draws padded ∷ []) locked).lockouts
      ≡ some (90 * second))
    × IsRefused (verify id code second) (perform_all (start ann second draws padded ∷ []) locked)
unfolding lookup start_challenge trim_space trim_left trim_right is_space text_eq
lockout_holds_example =
    lockout_holds 3 (90 * second) (start ann second draws padded ∷ []) (verify id code second)
      locked refl (omega arith, tt) (omega arith) (state, refl, refl)

reached-IsValid_example : IsValid (
    perform_all
      (start ann 0 draws id ∷ verify id (codes "1") second ∷ [])
      (new_two_fa_service config))
reached-IsValid_example =
    reached-IsValid config (start ann 0 draws id ∷ verify id (codes "1") second ∷ [])
      (tt, (bare, tt))
