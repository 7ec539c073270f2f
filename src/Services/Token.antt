-- ===== src/Services/Token.antt =====
-- internal/services/token_service.go: tokens signed by an HMAC, with a list of revoked ones.
pub mod Parsing
pub mod Revocation
mod Tests
use dataset_service.Base.{
  ℕ, ◌≡◌, Bool, true, false, Option, none, some, List, [], ◌∷◌, ◌++◌, ltb, ◌==◌, ◌*◌, ◌||◌,
  if◌then◌else◌,
}
use dataset_service.Base.Dict.{Dict, lookup, insert, delete}
use dataset_service.Base.Time.{ℤ, pos, is_positive, add_duration, minute, unix, from_unix}
use dataset_service.Text.{Text, codes, is_empty, text_eq, text_keys}
use dataset_service.Text.Split.{Lacks, split}
use dataset_service.Text.Decimal.{format_uint}
use dataset_service.Errors.{Error, service, wrap, message, token_invalid, token_not_found}
use dataset_service.Exec.{Result, ok, err, Exec, pure, raise, lift, on_error, ◌>>=◌, ◌>>◌}

pub record Claims : Type 0 where
  pub user_id : ℕ
  pub exp : ℕ  -- Unix seconds
  pub iat : ℕ
  pub jti : Text
  pub subject : Text

-- HMAC-SHA256 with raw base64 after it, raw base64 and JSON are packages that the source calls.
pub record Codec : Type 0 where
  pub mac : Text → Text → Text
  pub encode64 : Text → Text
  pub decode64 : Text → Option Text
  pub marshal : Claims → Result Text
  pub unmarshal : Text → Option Claims

-- What those packages document: decoding undoes encoding, and no encoding has a dot.
pub record LawfulCodec (c : Codec) : Type 0 where
  pub decode64-encode64 : (b : Text) → c.decode64 (c.encode64 b) ≡ some b
  pub unmarshal-marshal :
      (claims : Claims) (b : Text) → c.marshal claims ≡ ok b → c.unmarshal b ≡ some claims
  pub encode64-Lacks : (b : Text) → Lacks b'.' (c.encode64 b)
  pub mac-Lacks : (key value : Text) → Lacks b'.' (c.mac key value)

pub record TokenRecord : Type 0 where
  pub id : Text
  pub user_id : ℕ
  pub expires_at : ℕ

-- `hmacTokenService`; `revoked` has the time of `revokedEntry` for each JTI.
pub record TokenService : Type 0 where
  pub secret : Text
  pub default_ttl : ℤ
  pub revoked : Dict Text ℕ

-- base64 of {"alg":"HS256","typ":"JWT"}
abbrev pub jwt_header_encoded : Text
jwt_header_encoded = codes "eyJhbGciOiJIUzI1NiIsInR5cCI6IkpXVCJ9"

abbrev pub dot : ℕ
dot = b'.'

-- `NewHMACTokenService`
unfoldable pub new_hmac_token_service : Text → ℤ → TokenService
new_hmac_token_service secret default_ttl = record {
  secret = secret;
  default_ttl = if is_positive default_ttl then default_ttl else pos (24 * 60 * minute);
  revoked = [];
}

module _ (codec : Codec) where
  abbrev pub sign : TokenService → Text → Text
  sign s value = codec.mac s.secret value

  -- `verify`
  abbrev pub verify : TokenService → Text → Text → Bool
  verify s value signature = text_eq signature (sign s value)

  unfoldable pub issue_token : ℕ → ℤ → ℕ → Text → Exec TokenService TokenRecord
  issue_token user_id ttl now jti s =
      if is_empty s.secret
      then raise (message "token secret is not configured" []) s
      else (do
        let lifetime = if is_positive ttl then ttl else s.default_ttl
        let expires_at = add_duration now lifetime
        let claims : Claims = record {
          user_id = user_id;
          exp = unix expires_at;
          iat = unix now;
          jti = jti;
          subject = format_uint user_id;
        }
        payload ← on_error (wrap "marshal claims: %w") (lift (codec.marshal claims))
        let unsigned = jwt_header_encoded ++ dot ∷ codec.encode64 payload
        let token = unsigned ++ dot ∷ sign s unsigned
        pure (record { id = token; user_id = user_id; expires_at = expires_at }))
          s

  abbrev check_claims : Option Claims → Result Claims
  check_claims none = err (service token_invalid)
  check_claims (some claims) =
      if claims.exp == 0 || is_empty claims.jti then err (service token_invalid) else ok claims

  abbrev decode_payload : Option Text → Result Claims
  decode_payload none = err (service token_invalid)
  decode_payload (some b) = check_claims (codec.unmarshal b)

  -- `parse` on the parts of the token.
  abbrev parse_parts : TokenService → List Text → Result Claims
  parse_parts s (header ∷ payload ∷ signature ∷ []) =
      if verify s (header ++ dot ∷ payload) signature
      then decode_payload (codec.decode64 payload)
      else err (service token_invalid)
  parse_parts s _ = err (service token_invalid)

  unfoldable pub parse : TokenService → Text → Result Claims
  parse s token = parse_parts s (split dot token)

  unfoldable pub revoke_token : Text → Exec TokenService Unit
  revoke_token token s = elim (parse s token) [
    | err _ ↦ (err (service token_invalid), s)
    | ok claims ↦ (ok tt, record s { revoked = insert claims.jti (from_unix claims.exp) s.revoked })
  ]

  -- `isRevoked` at a time of its own; an entry that has run out is dropped.
  unfoldable pub is_revoked : Text → ℕ → TokenService → Bool × TokenService
  is_revoked jti now s = elim (lookup jti s.revoked) [
    | none ↦ (false, s)
    | some expires_at ↦
        if ltb expires_at now
        then (false, record s { revoked = delete jti s.revoked })
        else (true, s)
  ]

  abbrev after_revoked : Text → Claims → Bool × TokenService → Result TokenRecord × TokenService
  after_revoked token claims (true, s) = (err (service token_not_found), s)
  after_revoked token claims (false, s) =
      (ok (record { id = token; user_id = claims.user_id; expires_at = from_unix claims.exp }), s)

  -- `GetToken`, which reads the clock twice.
  unfoldable pub get_token : Text → ℕ → ℕ → Exec TokenService TokenRecord
  unfolding is_revoked
  get_token token now later s = elim (parse s token) [
    | err _ ↦ (err (service token_invalid), s)
    | ok claims ↦
        if ltb claims.exp (unix now)
        then (err (service token_not_found), record s { revoked = delete claims.jti s.revoked })
        else after_revoked token claims (is_revoked claims.jti later s)
  ]
