-- ===== src/Services/Token/Parsing.antt =====
-- token_service.go: what is issued is accepted, and what is accepted was signed.
use dataset_service.Base.{
  ℕ, ◌≤◌, ◌<◌, ◌≡◌, inl, inr, Option-cases, refl, false, none, some, List, [], ◌∷◌, ◌++◌, arith,
  ltb, ◌==◌, if◌then◌else◌,
}
use mathlib.Core.List.{append_assoc}
use dataset_service.Base.Dict.{lookup}
use dataset_service.Base.Time.{ℤ, is_positive, add_duration, unix, from_unix}
use dataset_service.Text.{Text, is_empty, text_eq_iff, text_keys}
use dataset_service.Text.Split.{Lacks, split, split-Lacks, split-append}
use dataset_service.Text.Decimal.{format_uint}
use dataset_service.Exec.{ok, Result-cases}
use dataset_service.Services.Token.{
  Claims, Codec, LawfulCodec, TokenRecord, TokenService, jwt_header_encoded, dot, sign, issue_token,
  parse, parse_parts, get_token,
}

header-Lacks : Lacks dot jwt_header_encoded
header-Lacks = ground arith

split-parts :
    (h p m : Text)
    → Lacks dot h
    → Lacks dot p
    → Lacks dot m
    → split dot ((h ++ dot ∷ p) ++ dot ∷ m) ≡ h ∷ p ∷ m ∷ []
split-parts h p m hh hp hm =
    rw (append_assoc, split-append dot h _ hh, split-append dot p m hp, split-Lacks dot m hm)

-- A token put together from parts without a dot has its claims read.
parse_parts_built :
    (codec : Codec) (s : TokenService) (h p b : Text) (claims : Claims)
    → Lacks dot h
    → Lacks dot p
    → Lacks dot (sign codec s (h ++ dot ∷ p))
    → codec.decode64 p ≡ some b
    → codec.unmarshal b ≡ some claims
    → (claims.exp == 0) ≡ false
    → is_empty claims.jti ≡ false
    → parse codec s ((h ++ dot ∷ p) ++ dot ∷ sign codec s (h ++ dot ∷ p)) ≡ ok claims
unfolding parse
parse_parts_built codec s h p b claims hh hp hm d u e j = ground (
  arith,
  split-parts h p (sign codec s (h ++ dot ∷ p)) hh hp hm,
  text_eq_iff (sign codec s (h ++ dot ∷ p)) (sign codec s (h ++ dot ∷ p)),
)

-- The claims that stand in an issued token.
abbrev issued_claims : ℕ → ℕ → ℕ → Text → Claims
issued_claims user_id expires_at issued jti = record {
  user_id = user_id;
  exp = unix expires_at;
  iat = unix issued;
  jti = jti;
  subject = format_uint user_id;
}

module _ (codec : Codec) (s : TokenService) where
  -- the token with this payload
  abbrev signed : Text → Text
  signed payload =
      let unsigned = jwt_header_encoded ++ dot ∷ codec.encode64 payload in
      unsigned ++ dot ∷ sign codec s unsigned

  issued_parts :
      (user_id : ℕ) (ttl : ℤ) (issued : ℕ) (jti : Text) (r : TokenRecord)
      → (issue_token codec user_id ttl issued jti s).0 ≡ ok r
      → (payload : Text) × (codec.marshal (issued_claims user_id r.expires_at issued jti)
          ≡ ok payload)
        × (r.id ≡ signed payload)
  unfolding issue_token
  issued_parts user_id ttl issued jti r h =
      let expires_at = add_duration issued (if is_positive ttl then ttl else s.default_ttl) in
      elim (Result-cases (codec.marshal (issued_claims user_id expires_at issued jti))) [
        | inl (payload, m) ↦ (payload, ground arith, ground arith)
        | inr (e, m) ↦ absurd (ground arith)
      ]

  -- A token whose claims are read is accepted if it has neither run out nor been revoked.
  pub get_token_accepts :
      (token : Text) (now later : ℕ) (c : Claims)
      → parse codec s token ≡ ok c
      → ltb c.exp (unix now) ≡ false
      → lookup c.jti s.revoked ≡ none
      → get_token codec token now later s
        ≡ (ok (record { id = token; user_id = c.user_id; expires_at = from_unix c.exp }), s)
  unfolding get_token
  get_token_accepts token now later c p n fresh = ground arith

module _ (codec : Codec) (laws : LawfulCodec codec) where
  parse_signed :
      (s : TokenService) (claims : Claims) (payload : Text)
      → codec.marshal claims ≡ ok payload
      → (claims.exp == 0) ≡ false
      → is_empty claims.jti ≡ false
      → let unsigned = jwt_header_encoded ++ dot ∷ codec.encode64 payload in
        parse codec s (unsigned ++ dot ∷ sign codec s unsigned) ≡ ok claims
  parse_signed s claims payload m e j =
      parse_parts_built codec s jwt_header_encoded (codec.encode64 payload) payload claims
        header-Lacks (laws.encode64-Lacks payload) (laws.mac-Lacks s.secret _)
        (laws.decode64-encode64 payload) (laws.unmarshal-marshal claims payload m) e j

  -- A token that the service issues, for a lifetime that ends after the first second of 1970 and
  -- with an identifier that is not empty, is accepted until the second in which it ends, unless
  -- its identifier is revoked. It names the user it was issued for and its end in whole seconds.
  -- The service needs a secret and claims that can be marshalled.
  pub get_token-issue_token :
      (s : TokenService) (user_id : ℕ) (ttl : ℤ) (issued now later : ℕ) (jti : Text)
      (r : TokenRecord)
      → (issue_token codec user_id ttl issued jti s).0 ≡ ok r
      → 0 < unix r.expires_at
      → is_empty jti ≡ false
      → lookup jti s.revoked ≡ none
      → unix now ≤ unix r.expires_at
      → get_token codec r.id now later s ≡ (
        ok (record { id = r.id; user_id = user_id; expires_at = from_unix (unix r.expires_at) }),
        s,
      )
  get_token-issue_token s user_id ttl issued now later jti r h pos_exp j fresh n =
      let (payload, m, i) = issued_parts codec s user_id ttl issued jti r h in
      let c = issued_claims user_id r.expires_at issued jti in
      get_token_accepts codec s r.id now later c
        (rw i (parse_signed s c payload m (ground arith) j)) (ground arith) fresh

-- The token has three parts, and the third is the signature of the first two.
abbrev pub IsSigned : Codec → TokenService → Text → Claims → Type 0
IsSigned codec s token c =
    (header : Text) × (payload : Text) × (b : Text) × (split dot token
      ≡ header ∷ payload ∷ sign codec s (header ++ dot ∷ payload) ∷ [])
    × (codec.decode64 payload ≡ some b)
    × (codec.unmarshal b ≡ some c)

parse_parts-IsSigned :
    (codec : Codec) (s : TokenService) (token : Text) (parts : List Text) (c : Claims)
    → split dot token ≡ parts
    → parse_parts codec s parts ≡ ok c
    → IsSigned codec s token c
parse_parts-IsSigned codec s token [] c e h = absurd (ground arith)
parse_parts-IsSigned codec s token (x ∷ []) c e h = absurd (ground arith)
parse_parts-IsSigned codec s token (x ∷ y ∷ []) c e h = absurd (ground arith)
parse_parts-IsSigned codec s token (x ∷ y ∷ z ∷ w ∷ l) c e h = absurd (ground arith)
parse_parts-IsSigned codec s token (x ∷ y ∷ z ∷ []) c e h = elim (Option-cases (codec.decode64 y)) [
  | inl fails ↦ absurd (ground arith)
  | inr (b, d) ↦
      (x, y, b, ground (arith, text_eq_iff z (sign codec s (x ++ dot ∷ y))), d, ground arith)
]

-- Whatever token is accepted, now and at the later reading of the clock, has three parts of which
-- the third is the service's own signature of the first two; its payload decodes to claims that
-- name the returned user and that have not run out, and the returned end is theirs.
pub get_token-IsSigned :
    (codec : Codec) (s : TokenService) (token : Text) (now later : ℕ) (r : TokenRecord)
    → (get_token codec token now later s).0 ≡ ok r
    → (c : Claims) × IsSigned codec s token c
      × (r ≡ record { id = token; user_id = c.user_id; expires_at = from_unix c.exp })
      × (unix now ≤ c.exp)
unfolding get_token
get_token-IsSigned codec s token now later r h = elim (Result-cases (parse codec s token)) [
  | inl (c, p) ↦ (
    c,
    parse_parts-IsSigned codec s token (split dot token) c refl (unfold parse in p),
    ground arith,
    ground arith,
  )
  | inr (e, p) ↦ absurd (ground arith)
]
