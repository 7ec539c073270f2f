-- ===== src/Services/TwoFa/Lockout.antt =====
-- twofa_service.go: a lockout holds to its end whatever is called, and what holds of every
-- challenge between two calls.
use dataset_service.Base.{
  ℕ, suc, ◌≤◌, ◌<◌, ◌≡◌, refl, inl, inr, ◌⊎◌, false, true, Option, none, some, List, [], ◌∷◌, arith,
  if◌then◌else◌, All, nat_eq, Option-cases, Bool-cases,
}
use dataset_service.Base.Dict.{lookup, insert, delete, lookup-insert, lookup-delete, dict_laws}
use dataset_service.Base.Time.{pos, is_positive, add_duration}
use dataset_service.Text.{Text, text_eq, text_eq_iff, text_keys, trim_space}
use dataset_service.Errors.{service, user_blocked}
use dataset_service.Exec.{err}
use dataset_service.Entities.{User}
use dataset_service.Services.TwoFa.{
  TwoFaService, ChallengeState, Config, normalize, new_two_fa_service, is_locked, generate_code,
  fresh_state, spend_attempt, start_challenge, verify_code,
}

-- A call of the service: a challenge is started for a user, or a code is checked.
pub data Call : Type 0 where
  start : User → ℕ → (ℕ → Option ℕ × ℕ) → Text → Call
  verify : Text → Text → ℕ → Call

abbrev pub perform : Call → TwoFaService → TwoFaService
perform (start u now draws id) s = (start_challenge (some u) now draws id s).1
perform (verify id code now) s = (verify_code id code now s).1

abbrev pub perform_all : List Call → TwoFaService → TwoFaService
perform_all [] s = s
perform_all (c ∷ cs) s = perform_all cs (perform c s)

abbrev pub time_of : Call → ℕ
time_of (start u now draws id) = now
time_of (verify id code now) = now

-- The call starts a challenge for the user `uid` or names a challenge of that user.
abbrev pub Concerns : ℕ → Call → TwoFaService → Type 0
Concerns uid (start u now draws id) s = u.id ≡ uid
Concerns uid (verify id code now) s =
    (st : ChallengeState) × (lookup (trim_space id) s.challenges ≡ some st) × (st.user.id ≡ uid)

-- The call is answered with a block.
abbrev pub IsRefused : Call → TwoFaService → Type 0
IsRefused (start u now draws id) s =
    (start_challenge (some u) now draws id s).0 ≡ err (service user_blocked)
IsRefused (verify id code now) s = (verify_code id code now s).0 ≡ err (service user_blocked)

module _ (uid until : ℕ) where
  perform_locked :
      (c : Call) (s : TwoFaService)
      → lookup uid s.lockouts ≡ some until
      → time_of c < until
      → lookup uid (perform c s).lockouts ≡ some until
  perform_locked (start u now draws id) s locked before =
      unfold start_challenge in ground (arith, lookup-delete u.id uid s.lockouts)
  perform_locked (verify id code now) s locked before =
      unfold verify_code in
      elim (Option-cases (lookup (trim_space id) s.challenges)) [
        | inl missing ↦ ground arith
        | inr (st, found) ↦
            ground (
              arith,
              lookup-insert st.user.id uid (add_duration now s.cfg.block_duration) s.lockouts,
            )
      ]

  call-IsRefused :
      (c : Call) (s : TwoFaService)
      → lookup uid s.lockouts ≡ some until
      → time_of c < until
      → Concerns uid c s
      → IsRefused c s
  call-IsRefused (start u now draws id) s locked before same =
      unfold start_challenge in ground arith
  call-IsRefused (verify id code now) s locked before (st, found, same) =
      unfold verify_code in ground arith

  perform_all_locked :
      (cs : List Call) (s : TwoFaService)
      → lookup uid s.lockouts ≡ some until
      → All (λ d. time_of d < until) cs
      → lookup uid (perform_all cs s).lockouts ≡ some until
  perform_all_locked [] s locked before = locked
  perform_all_locked (d ∷ cs) s locked before =
      perform_all_locked cs (perform d s) (perform_locked d s locked before.0) before.1

  -- While a user is locked out, calls made before the end of the lockout leave it in force, and
  -- a further such call that starts a challenge for that user or checks a code against a challenge
  -- of that user is answered with a block.
  pub lockout_holds :
      (cs : List Call) (c : Call) (s : TwoFaService)
      → lookup uid s.lockouts ≡ some until
      → All (λ d. time_of d < until) cs
      → time_of c < until
      → Concerns uid c (perform_all cs s)
      → (lookup uid (perform_all cs s).lockouts ≡ some until) × IsRefused c (perform_all cs s)
  lockout_holds cs c s locked before now concerns =
      let still = perform_all_locked cs s locked before in
      (still, call-IsRefused c (perform_all cs s) still now concerns)

-- What holds of the challenge that stands under a key.
pub record IsLive (cfg : Config) (key : Text) (st : ChallengeState) : Type 0 where
  pub own_key : st.challenge.id ≡ key
  pub own_user : st.challenge.user_id ≡ st.user.id
  pub some_left : is_positive st.challenge.attempts_left ≡ true
  pub at_most :
      (n : ℕ) → cfg.max_attempts ≡ pos n → (m : ℕ) → st.challenge.attempts_left ≡ pos m → m ≤ n
  pub unblocked : st.user.is_blocked ≡ false

-- The configuration is a normalised one, and every challenge is live.
pub record IsValid (s : TwoFaService) : Type 0 where
  pub may_try : is_positive s.cfg.max_attempts ≡ true
  pub live :
      (key : Text) (st : ChallengeState) → lookup key s.challenges ≡ some st → IsLive s.cfg key st

-- The identifier of a call has no outer space.
abbrev pub IsBare : Call → Type 0
IsBare (start u now draws id) = Unit
IsBare (verify id code now) = trim_space id ≡ id

new-IsValid : (cfg : Config) → IsValid (new_two_fa_service cfg)
unfolding new_two_fa_service normalize lookup
new-IsValid cfg = record { may_try = ground arith; live = λ key st found. absurd (ground arith) }

start-IsLive :
    (u : User) (now : ℕ) (id code : Text) (s : TwoFaService)
    → IsValid s
    → u.is_blocked ≡ false
    → IsLive s.cfg id (fresh_state u now id code s)
start-IsLive u now id code s v free = record {
  own_key = refl;
  own_user = refl;
  some_left = v.may_try;
  at_most = λ n e m f. ground arith;
  unblocked = free;
}

-- Where a challenge that is there after `StartChallenge` comes from.
lookup-start_challenge :
    (u : User) (now : ℕ) (draws : ℕ → Option ℕ × ℕ) (id : Text) (s : TwoFaService) (key : Text)
    {st : ChallengeState}
    → lookup key (start_challenge (some u) now draws id s).1.challenges ≡ some st
    → (lookup key s.challenges ≡ some st)
      ⊎ ((id ≡ key)
          × (u.is_blocked ≡ false)
          × (st ≡ fresh_state u now id (generate_code draws s) s))
unfolding start_challenge
lookup-start_challenge u now draws id s key found =
    let fresh = fresh_state u now id (generate_code draws s) s in
    elim (Bool-cases (text_eq id key)) [
      | inl same ↦ elim (Bool-cases u.is_blocked) [
        | inl blocked ↦ inl (ground arith)
        | inr free ↦ elim (Bool-cases (is_locked u.id now s)) [
          | inl locked ↦ inl (ground arith)
          | inr open_now ↦ inr (
            (text_eq_iff id key).0 same,
            free,
            ground (arith, lookup-insert id key fresh s.challenges),
          )
        ]
      ]
      | inr other ↦ inl (ground (arith, lookup-insert id key fresh s.challenges))
    ]

-- What the branches of `VerifyCode` leave under a key, for an identifier without outer space.
module _ (id : Text) (s : TwoFaService) (key : Text) (state : ChallengeState) where
  left_by_branches :
      trim_space id ≡ id
      → (lookup key (delete id s.challenges)
          ≡ (if text_eq id key then none else lookup key s.challenges))
        × (lookup key (delete id (insert (trim_space id) state s.challenges))
            ≡ (if text_eq id key then none else lookup key s.challenges))
        × (lookup key (insert id state (insert (trim_space id) state s.challenges))
            ≡ (if text_eq id key then some state else lookup key s.challenges))
  left_by_branches bare = rw bare (simp dict_laws (ground arith))

-- Where a challenge that is there after `VerifyCode` comes from.
lookup-verify_code :
    (id code : Text) (now : ℕ) (s : TwoFaService) (key : Text) {st : ChallengeState}
    → trim_space id ≡ id
    → lookup key (verify_code id code now s).1.challenges ≡ some st
    → (lookup key s.challenges ≡ some st)
      ⊎ ((old : ChallengeState) × (lookup key s.challenges ≡ some old)
          × (st ≡ spend_attempt old)
          × (is_positive st.challenge.attempts_left ≡ true))
unfolding verify_code
lookup-verify_code id code now s key bare found =
    elim (Option-cases (lookup (trim_space id) s.challenges)) [
      | inl missing ↦ inl (ground arith)
      | inr (old, was) ↦ elim (Bool-cases (is_locked old.user.id now s)) [
        | inl locked ↦ inl (ground arith)
        | inr free ↦ elim (Bool-cases (text_eq id key)) [
          | inl same ↦ inr (
            old,
            ground (arith, bare, (text_eq_iff id key).0 same),
            ground (arith, left_by_branches id s key (spend_attempt old) bare),
            ground (arith, left_by_branches id s key (spend_attempt old) bare),
          )
          | inr other ↦ inl (ground (arith, left_by_branches id s key (spend_attempt old) bare))
        ]
      ]
    ]

spend-IsLive :
    (cfg : Config) (key : Text) (st : ChallengeState)
    → IsLive cfg key st
    → is_positive (spend_attempt st).challenge.attempts_left ≡ true
    → IsLive cfg key (spend_attempt st)
spend-IsLive cfg key st h left = record {
  own_key = h.own_key;
  own_user = h.own_user;
  some_left = left;
  at_most = λ n e m f. ground (arith, h.at_most n e (suc m));
  unblocked = h.unblocked;
}

cfg-perform : (c : Call) (s : TwoFaService) → (perform c s).cfg ≡ s.cfg
unfolding start_challenge verify_code
cfg-perform (start u now draws id) s = ground arith
cfg-perform (verify id code now) s = ground arith

perform-IsLive :
    (c : Call) (s : TwoFaService) (key : Text) (st : ChallengeState)
    → IsBare c
    → IsValid s
    → lookup key (perform c s).challenges ≡ some st
    → IsLive s.cfg key st
perform-IsLive (start u now draws id) s key st bare v found =
    elim (lookup-start_challenge u now draws id s key found) [
      | inl old ↦ v.live key st old
      | inr (same, free, is_fresh) ↦
          rw (← same, is_fresh) (start-IsLive u now id (generate_code draws s) s v free)
    ]
perform-IsLive (verify id code now) s key st bare v found =
    elim (lookup-verify_code id code now s key bare found) [
      | inl old ↦ v.live key st old
      | inr (old, was, spent, left) ↦
          rw spent (spend-IsLive s.cfg key old (v.live key old was) (rw spent at left))
    ]

perform-IsValid : (c : Call) (s : TwoFaService) → IsBare c → IsValid s → IsValid (perform c s)
perform-IsValid c s bare v = record {
  may_try = rw cfg-perform v.may_try;
  live = λ key st found. rw cfg-perform (perform-IsLive c s key st bare v found);
}

perform_all-IsValid :
    (cs : List Call) (s : TwoFaService) → All IsBare cs → IsValid s → IsValid (perform_all cs s)
perform_all-IsValid [] s bare v = v
perform_all-IsValid (c ∷ cs) s bare v =
    perform_all-IsValid cs (perform c s) bare.1 (perform-IsValid c s bare.0 v)

-- From a new service, whatever is called with identifiers that have no outer space, every
-- challenge stands under its own identifier, names the user it was started for, who was not
-- blocked, and has at least one attempt left and at most the configured number, which is positive.
pub reached-IsValid :
    (cfg : Config) (cs : List Call)
    → All IsBare cs
    → IsValid (perform_all cs (new_two_fa_service cfg))
reached-IsValid cfg cs bare = perform_all-IsValid cs (new_two_fa_service cfg) bare (new-IsValid cfg)
