-- ===== src/Services/Subscription/Codes.antt =====
-- subscription_helpers.go: a user and a dataset with 32-bit numbers share one 64-bit number.
use dataset_service.Base.{
  ℕ, zero, suc, ◌+◌, ◌*◌, ◌/◌, ◌%◌, ◌^◌, ◌≤◌, ◌<◌, ◌≡◌, refl, arith, ap, ◌∙◌,
}
use native.Mathlib.Nat.{pow-suc}
use dataset_service.Services.Subscription.{
  or_bits, bit_or, encode_subscription_id, decode_subscription_id,
}

bit_or-zero : (n : ℕ) → n < 2 → bit_or 0 n ≡ n
bit_or-zero zero h = refl
bit_or-zero (suc n) h = omega arith

bit_or_zero : (n : ℕ) → n < 2 → bit_or n 0 ≡ n
bit_or_zero zero h = refl
bit_or_zero (suc n) h = omega arith

or_bits_zero : (bits a : ℕ) → a < 2 ^ bits → or_bits bits a 0 ≡ a
unfolding or_bits
or_bits_zero zero a h = omega arith
or_bits_zero (suc bits) a h =
    let half = or_bits_zero bits (a / 2) (let e = pow-suc 2 bits in omega arith) in
    let last = bit_or_zero (a % 2) (omega arith) in omega (arith, half, last)

mul_double : (a p : ℕ) → a * (2 * p) ≡ 2 * (a * p)
mul_double zero p = omega arith
mul_double (suc a) p = omega (arith, mul_double a p)

double_shift : (a k : ℕ) → a * 2 ^ suc k ≡ 2 * (a * 2 ^ k)
double_shift a k = ap (λ p. a * p) (pow_double k) ∙ mul_double a (2 ^ k)
  where
    pow_double : (k : ℕ) → 2 ^ suc k ≡ 2 * 2 ^ k
    pow_double k = let e = pow-suc 2 k in omega arith

-- A number without the last `k` bits and one with only those bits are put together by addition.
or_bits-add :
    (k bits a d : ℕ)
    → k ≤ bits
    → d < 2 ^ k
    → a * 2 ^ k < 2 ^ bits
    → or_bits bits (a * 2 ^ k) d ≡ a * 2 ^ k + d
unfolding or_bits
or_bits-add zero bits a zero fits h room =
    let one : a * 1 ≡ a = omega arith in rw one (or_bits_zero bits a (omega arith) ∙ omega arith)
or_bits-add zero bits a (suc d) fits h room = absurd (omega arith)
or_bits-add (suc k) zero a d fits h room = absurd (omega arith)
or_bits-add (suc k) (suc bits) a d fits h room =
    let ek = pow-suc 2 k in
    let eb = pow-suc 2 bits in
    let twice = double_shift a k in
    let half = or_bits-add k bits a (d / 2) (omega arith) (omega arith) (omega arith) in
    let last = bit_or-zero (d % 2) (omega arith) in
    let even : 2 * (a * 2 ^ k) % 2 ≡ 0 = omega arith in
    let rest : 2 * (a * 2 ^ k) / 2 ≡ a * 2 ^ k = omega arith in
    rw (twice, even, rest, half, last) (omega arith)

-- Users and datasets whose numbers fit in 32 bits are read back from their common number, which
-- fits in 64 bits.
pub decode-encode_subscription_id :
    (user_id dataset_id : ℕ)
    → user_id < 2 ^ 32
    → dataset_id < 2 ^ 32
    → (decode_subscription_id (encode_subscription_id user_id dataset_id) ≡ (user_id, dataset_id))
      × (encode_subscription_id user_id dataset_id < 2 ^ 64)
unfolding encode_subscription_id decode_subscription_id
decode-encode_subscription_id user_id dataset_id hu hd =
    let small : user_id * 2 ^ 32 % 2 ^ 64 ≡ user_id * 2 ^ 32 = omega arith in
    let sum = or_bits-add 32 64 user_id dataset_id (omega arith) hd (omega arith) in
    let high : (user_id * 2 ^ 32 + dataset_id) / 2 ^ 32 ≡ user_id = omega arith in
    let low : (user_id * 2 ^ 32 + dataset_id) % 2 ^ 32 ≡ dataset_id = omega arith in
    rw (small, sum) (rw (high, low) refl, omega arith)
