-- ===== src/Services/Token/Revocation.antt =====
-- token_service.go: what a revocation achieves, and for how long.
use dataset_service.Base.{
  ℕ, ◌≤◌, ◌≡◌, refl, inl, inr, ◌⊎◌, some, List, [], ◌∷◌, arith, sym, ◌∙◌, All, ◌||◌, not, ltb,
  if◌then◌else◌,
}
use dataset_service.Base.Dict.{lookup, lookup-insert, lookup-delete, beq_refl}
use dataset_service.Base.Time.{unix, from_unix}
use dataset_service.Text.Split.{split}
use dataset_service.Text.{Text, text_eq, text_eq_iff, text_keys}
use dataset_service.Errors.{service, token_invalid, token_not_found}
use dataset_service.Exec.{ok, err, Result-cases}
use dataset_service.Services.Token.{
  Claims, Codec, TokenService, dot, parse, parse_parts, revoke_token, get_token,
}

-- A request to the service: a token is looked up at two readings of the clock, or revoked.
pub data Request : Type 0 where
  get : Text → ℕ → ℕ → Request
  revoke : Text → Request

module _ (codec : Codec) where
  abbrev pub perform : Request → TokenService → TokenService
  perform (get token now later) s = (get_token codec token now later s).1
  perform (revoke token) s = (revoke_token codec token s).1

  abbrev pub perform_all : List Request → TokenService → TokenService
  perform_all [] s = s
  perform_all (q ∷ qs) s = perform_all qs (perform q s)

  abbrev token_of : Request → Text
  token_of (get token now later) = token
  token_of (revoke token) = token

  -- An invalid token cannot be revoked, and the attempt changes nothing; a valid one is entered
  -- under its identifier with its end, and no other entry changes.
  pub revoke_token-lookup :
      (s : TokenService) (token jti : Text)
      → (((revoke_token codec token s) ≡ (err (service token_invalid), s))
          ⊎ ((c : Claims) × (parse codec s token ≡ ok c)
              × ((revoke_token codec token s).0 ≡ ok tt)
              × (lookup jti (revoke_token codec token s).1.revoked
                  ≡ (if text_eq c.jti jti then some (from_unix c.exp) else lookup jti s.revoked))))
  unfolding revoke_token
  revoke_token-lookup s token jti = elim (Result-cases (parse codec s token)) [
    | inl (c, p) ↦
        inr
          (c, p, ground arith, ground (arith, lookup-insert c.jti jti (from_unix c.exp) s.revoked))
    | inr (e, p) ↦ inl (ground arith)
  ]

  -- The claims of a token depend on the secret alone.
  parse_parts-secret :
      (s t : TokenService) (parts : List Text)
      → s.secret ≡ t.secret
      → parse_parts codec s parts ≡ parse_parts codec t parts
  parse_parts-secret s t [] e = refl
  parse_parts-secret s t (x ∷ []) e = refl
  parse_parts-secret s t (x ∷ y ∷ []) e = refl
  parse_parts-secret s t (x ∷ y ∷ z ∷ []) e = rw e
  parse_parts-secret s t (x ∷ y ∷ z ∷ w ∷ l) e = refl

  parse-secret :
      (s t : TokenService) (token : Text)
      → s.secret ≡ t.secret
      → parse codec s token ≡ parse codec t token
  unfolding parse
  parse-secret s t token e = parse_parts-secret s t (split dot token) e

  -- The request is made while the claims `c` still run, and a token that it names and that has the
  -- identifier of `c` ends when `c` ends.
  abbrev BeforeEnd : ℕ → Request → Type 0
  BeforeEnd end (get token now later) = (unix now ≤ end) × (later ≤ from_unix end)
  BeforeEnd end (revoke token) = Unit

  pub record IsTimely (s : TokenService) (c : Claims) (q : Request) : Type 0 where
    pub in_time : BeforeEnd c.exp q
    pub same_end : (d : Claims) → parse codec s (token_of q) ≡ ok d → d.jti ≡ c.jti → d.exp ≡ c.exp

  secret-perform : (q : Request) (s : TokenService) → (perform q s).secret ≡ s.secret
  unfolding get_token revoke_token
  secret-perform (get token now later) s = ground arith
  secret-perform (revoke token) s = ground arith

  IsTimely-secret :
      (q : Request) (s t : TokenService) (c : Claims)
      → s.secret ≡ t.secret
      → IsTimely s c q
      → IsTimely t c q
  IsTimely-secret q s t c e h = record {
    in_time = h.in_time;
    same_end = λ d p. h.same_end d (parse-secret s t (token_of q) e ∙ p);
  }

  abbrev HasEntry : Claims → TokenService → Type 0
  HasEntry c s = lookup c.jti s.revoked ≡ some (from_unix c.exp)

  perform-HasEntry :
      (q : Request) (s : TokenService) (c : Claims)
      → IsTimely s c q
      → HasEntry c s
      → HasEntry c (perform q s)
  perform-HasEntry (get token now later) s c t h = elim (Result-cases (parse codec s token)) [
    | inl (d, p) ↦
        unfold get_token in
        ground (arith, t.same_end d p, text_eq_iff d.jti c.jti, lookup-delete d.jti c.jti s.revoked)
    | inr (e, p) ↦ unfold get_token in ground arith
  ]
  perform-HasEntry (revoke token) s c t h = elim (revoke_token-lookup s token c.jti) [
    | inl e ↦ ground arith
    | inr (d, p, _, l) ↦ ground (arith, t.same_end d p, text_eq_iff d.jti c.jti)
  ]

  perform_all-HasEntry :
      (qs : List Request) (s t : TokenService) (c : Claims)
      → s.secret ≡ t.secret
      → All (IsTimely s c) qs
      → HasEntry c t
      → HasEntry c (perform_all qs t) × ((perform_all qs t).secret ≡ s.secret)
  perform_all-HasEntry [] s t c e timely h = (h, sym e)
  perform_all-HasEntry (q ∷ qs) s t c e (now, rest) h =
      perform_all-HasEntry qs s (perform q t) c (e ∙ sym (secret-perform q t)) rest
        (perform-HasEntry q t c (IsTimely-secret q s t c e now) h)

  get_token_revoked :
      (s : TokenService) (token : Text) (now later : ℕ) (c : Claims)
      → parse codec s token ≡ ok c
      → lookup c.jti s.revoked ≡ some (from_unix c.exp)
      → (get_token codec token now later s).0 ≡ (
          if ltb c.exp (unix now) || not (ltb (from_unix c.exp) later)
          then err (service token_not_found)
          else ok (record { id = token; user_id = c.user_id; expires_at = from_unix c.exp }))
  unfolding get_token
  get_token_revoked s token now later c p h = ground arith

  revoke_token-HasEntry :
      (s : TokenService) (token : Text) (c : Claims)
      → parse codec s token ≡ ok c
      → HasEntry c (revoke_token codec token s).1
  revoke_token-HasEntry s token c p = elim (revoke_token-lookup s token c.jti) [
    | inl e ↦ absurd (unfold revoke_token in ground arith)
    | inr (d, q, _, l) ↦ ground (arith, beq_refl c.jti)
  ]

  -- After a successful revocation and any further requests made before the token ends, the token
  -- is refused at any time up to that end. The requests may name other tokens with the same
  -- identifier only if those end at the same second.
  pub revoked_stays_refused :
      (s : TokenService) (token : Text) (c : Claims) (qs : List Request) (now later : ℕ)
      → parse codec s token ≡ ok c
      → All (IsTimely s c) qs
      → later ≤ from_unix c.exp
      → (get_token codec token now later (perform_all qs (revoke_token codec token s).1)).0
        ≡ err (service token_not_found)
  revoked_stays_refused s token c qs now later p timely early =
      let revoked = (revoke_token codec token s).1 in
      let kept =
        perform_all-HasEntry qs s revoked c (sym (secret-perform (revoke token) s)) timely
          (revoke_token-HasEntry s token c p) in
      ground (
        arith,
        get_token_revoked (perform_all qs revoked) token now later c
            (parse-secret (perform_all qs revoked) s token kept.1 ∙ p) kept.0,
      )

  -- Directly after its revocation a token is refused if the first reading of the clock lies beyond
  -- the second of its end or the second reading is no later than that end; otherwise, in the
  -- fraction of a second after its end, it is accepted once more.
  pub get_token-revoke_token :
      (s : TokenService) (token : Text) (c : Claims) (now later : ℕ)
      → parse codec s token ≡ ok c
      → (get_token codec token now later (revoke_token codec token s).1).0 ≡ (
          if ltb c.exp (unix now) || not (ltb (from_unix c.exp) later)
          then err (service token_not_found)
          else ok (record { id = token; user_id = c.user_id; expires_at = from_unix c.exp }))
  get_token-revoke_token s token c now later p =
      get_token_revoked (revoke_token codec token s).1 token now later c
        (parse-secret _ s token (secret-perform (revoke token) s) ∙ p)
        (revoke_token-HasEntry s token c p)
