-- ===== src/Services/Token/Tests.antt =====
-- token_service.go: the theorems at a concrete codec and service. The codec shifts every
-- character, so that no dot is left, and writes the claims one after the other.
use dataset_service.Base.{
  ℕ, ◌+◌, ◌-◌, ◌*◌, ◌≤◌, ◌≡◌, refl, Option, none, some, [], ◌∷◌, ◌++◌, arith, length, take, drop,
  ap,
}
use dataset_service.Base.Dict.{lookup}
use dataset_service.Base.Time.{pos, second, minute, unix, from_unix}
use dataset_service.Text.{Text, codes, text_eq, text_keys}
use dataset_service.Text.Split.{Lacks, split}
use dataset_service.Text.Decimal.{format_uint}
use dataset_service.Errors.{service, token_not_found}
use dataset_service.Exec.{Result, ok, err}
use dataset_service.Services.Token.{
  Claims, Codec, LawfulCodec, TokenRecord, TokenService, issue_token, parse, revoke_token,
  get_token,
}
use dataset_service.Services.Token.Parsing.{IsSigned, get_token-issue_token, get_token-IsSigned}
use dataset_service.Services.Token.Revocation.{
  get, IsTimely, perform_all, revoked_stays_refused, get_token-revoke_token,
}

abbrev shift : Text → Text
shift [] = []
shift (c ∷ s) = (c + 100) ∷ shift s

abbrev unshift : Text → Text
unshift [] = []
unshift (c ∷ s) = (c - 100) ∷ unshift s

abbrev write_claims : Claims → Text
write_claims c = c.user_id ∷ c.exp ∷ c.iat ∷ length c.jti ∷ (c.jti ++ c.subject)

abbrev read_claims : Text → Option Claims
read_claims (user_id ∷ exp ∷ iat ∷ n ∷ rest) =
    some
      (record { user_id = user_id; exp = exp; iat = iat; jti = take n rest; subject = drop n rest })
read_claims _ = none

abbrev codec : Codec
codec = record {
  mac = λ key value. shift (key ++ value);
  encode64 = shift;
  decode64 = λ t. some (unshift t);
  marshal = λ c. ok (write_claims c);
  unmarshal = read_claims;
}

unshift-shift : (s : Text) → unshift (shift s) ≡ s
unshift-shift [] = refl
unshift-shift (c ∷ s) = ground (arith, unshift-shift s, drop_offset c)
  where
    drop_offset : (c : ℕ) → c + 100 - 100 ≡ c
    drop_offset c = omega arith

shift-Lacks : (s : Text) → Lacks b'.' (shift s)
shift-Lacks [] = tt
shift-Lacks (c ∷ s) = (ground arith, shift-Lacks s)

take-append : (s t : Text) → take (length s) (s ++ t) ≡ s
take-append [] t = refl
take-append (c ∷ s) t = ap (λ r. c ∷ r) (take-append s t)

drop-append : (s t : Text) → drop (length s) (s ++ t) ≡ t
drop-append [] t = refl
drop-append (c ∷ s) t = drop-append s t

read-write_claims : (c : Claims) → read_claims (write_claims c) ≡ some c
read-write_claims c = rw (take-append, drop-append) refl

laws : LawfulCodec codec
laws = record {
  decode64-encode64 = λ b. ap some (unshift-shift b);
  unmarshal-marshal = λ c b m. ground (arith, read-write_claims c);
  encode64-Lacks = shift-Lacks;
  mac-Lacks = λ key value. shift-Lacks (key ++ value);
}

abbrev server : TokenService
server = record { secret = codes "key"; default_ttl = pos minute; revoked = [] }

abbrev jti : Text
jti = codes "id-1"

abbrev claims : Claims
claims = record { user_id = 7; exp = 70; iat = 10; jti = jti; subject = codes "7" }

abbrev record_of : Result TokenRecord → TokenRecord
record_of (ok r) = r
record_of (err e) = record { id = []; user_id = 0; expires_at = 0 }

abbrev accepted : Text → TokenRecord
accepted token = record { id = token; user_id = 7; expires_at = from_unix 70 }

abbrev issued : TokenRecord
unfolding issue_token
issued = record_of (issue_token codec 7 (pos minute) (10 * second) jti server).0

issued-claims : parse codec server issued.id ≡ ok claims
unfolding parse split issue_token format_uint text_eq
issued-claims = refl

get_token-issue_token_example :
    get_token codec issued.id (20 * second) (20 * second) server ≡ (ok (accepted issued.id), server)
unfolding issue_token lookup
get_token-issue_token_example =
    get_token-issue_token codec laws server 7 (pos minute) (10 * second) (20 * second) (20 * second)
      jti issued refl (omega arith) refl refl (omega arith)

get_token-IsSigned_example :
    (c : Claims) × IsSigned codec server issued.id c
    × (accepted issued.id
        ≡ (record { id = issued.id; user_id = c.user_id; expires_at = from_unix c.exp }))
    × (unix (20 * second) ≤ c.exp)
get_token-IsSigned_example =
    get_token-IsSigned codec server issued.id (20 * second) (20 * second) (accepted issued.id)
      (ap (λ r. r.0) get_token-issue_token_example)

get-IsTimely : IsTimely codec server claims (get issued.id (20 * second) (20 * second))
get-IsTimely = record {
  in_time = (omega arith, omega arith);
  same_end = λ d p same. ground (arith, issued-claims, p);
}

revoked_stays_refused_example :
    (get_token codec issued.id (30 * second) (30 * second) (
      perform_all codec
        (get issued.id (20 * second) (20 * second) ∷ [])
        (revoke_token codec issued.id server).1)).0
    ≡ err (service token_not_found)
revoked_stays_refused_example =
    revoked_stays_refused codec server issued.id claims
      (get issued.id (20 * second) (20 * second) ∷ []) (30 * second) (30 * second) issued-claims
      (get-IsTimely, tt) (omega arith)

-- Half a second after its end, the revoked token is accepted.
get_token-revoke_token_example :
    (get_token codec issued.id
      (70 * second + 5)
      (70 * second + 5)
      (revoke_token codec issued.id server).1).0
    ≡ ok (accepted issued.id)
get_token-revoke_token_example =
    get_token-revoke_token codec server issued.id claims (70 * second + 5) (70 * second + 5)
      issued-claims
