-- ===== src/Text/Decimal.antt =====
-- Decimal numbers: `strconv.FormatUint(n, 10)`, the verb `%d`, and `strconv.Atoi`.
use dataset_service.Base.{
  ℕ, zero, suc, ◌+◌, ◌-◌, ◌*◌, ◌/◌, ◌%◌, ◌^◌, ◌≤◌, ◌<◌, ◌≡◌, refl, true, false, ◌&&◌, Option, none,
  some, [], ◌∷◌, arith, ltb, leb, ◌==◌, if◌then◌else◌, ap, ◌∙◌, All,
}
use dataset_service.Base.Time.{ℤ, pos, negsuc}
use native.Mathlib.Nat.{pow-suc}
use dataset_service.Text.{Text, is_empty}

-- The digits of `n` before `out`; the fuel bounds their number.
print_digits : ℕ → ℕ → Text → Text
print_digits zero n out = out
print_digits (suc f) n out =
    let last = (48 + n % 10) ∷ out in
    let more = print_digits f (n / 10) last in if ltb n 10 then last else more

-- A 64-bit number has at most twenty digits.
unfoldable pub format_uint : ℕ → Text
unfolding print_digits
format_uint n = print_digits 20 n []

-- The value of a text of digits after a number that is read already.
unfoldable pub read_digits : ℕ → Text → Option ℕ
read_digits n [] = some n
read_digits n (c ∷ s) = if leb 48 c && leb c 57 then read_digits (n * 10 + (c - 48)) s else none

digit_step :
    (n d : ℕ) (s : Text) → d < 10 → read_digits n ((48 + d) ∷ s) ≡ read_digits (n * 10 + d) s
unfolding read_digits
digit_step n d s h = ground (arith, ap (λ k. read_digits (n * 10 + k) s) (drop_offset d))
  where
    drop_offset : (d : ℕ) → 48 + d - 48 ≡ d
    drop_offset d = omega arith

div_bound : (n f : ℕ) → n < 10 ^ suc (suc f) → n / 10 < 10 ^ suc f
div_bound n f h = let e = pow-suc 10 (suc f) in omega arith

print_step :
    (f n : ℕ) (out : Text)
    → print_digits (suc f) n out
      ≡ (if ltb n 10 then (48 + n % 10) ∷ out else print_digits f (n / 10) ((48 + n % 10) ∷ out))
unfolding print_digits
print_step f n out = refl

-- What `print_digits` writes before `out` reads as `n`.
read_digits-print_digits :
    (f n : ℕ) (out : Text)
    → n < 10 ^ suc f
    → read_digits 0 (print_digits (suc f) n out) ≡ read_digits n out
read_digits-print_digits zero n out h =
    unfold print_digits in ground (arith, digit_step 0 n out (omega arith))
read_digits-print_digits (suc f) n out h = ground (
  arith,
  print_step (suc f) n out,
  digit_step 0 (n % 10) out (omega arith),
  read_digits-print_digits f (n / 10) ((48 + n % 10) ∷ out) (div_bound n f h),
  digit_step (n / 10) (n % 10) out (omega arith),
)

abbrev pub int_max : ℕ
int_max = 2 ^ 63 - 1

-- One digit or more.
abbrev read_number : Text → Option ℕ
read_number [] = none
read_number (c ∷ s) = read_digits 0 (c ∷ s)

abbrev within_pos : Option ℕ → Option ℤ
within_pos none = none
within_pos (some n) = if leb n int_max then some (pos n) else none

abbrev negate : ℕ → ℤ
negate zero = pos zero
negate (suc n) = negsuc n

abbrev within_neg : Option ℕ → Option ℤ
within_neg none = none
within_neg (some n) = if leb n (2 ^ 63) then some (negate n) else none

-- `strconv.Atoi`, where `none` stands for its error: a sign or none, one digit or more, and a
-- value that fits in a 64-bit `int`.
unfoldable pub atoi : Text → Option ℤ
unfolding read_digits
atoi [] = none
atoi (c ∷ s) =
    if c == b'-'
    then within_neg (read_number s)
    else if c == b'+'
    then within_pos (read_number s)
    else within_pos (read_digits 0 (c ∷ s))

-- The verb `%d` at an `int`.
unfoldable pub format_int : ℤ → Text
format_int (pos n) = format_uint n
format_int (negsuc n) = b'-' ∷ format_uint (suc n)

-- Digits only, one at least.
abbrev pub IsNumber : Text → Type 0
IsNumber s = (is_empty s ≡ false) × All (λ c. (leb 48 c && leb c 57) ≡ true) s

print_digits-All :
    (f n : ℕ) (out : Text)
    → All (λ c. (leb 48 c && leb c 57) ≡ true) out
    → IsNumber (print_digits (suc f) n out)
print_digits-All zero n out h = unfold print_digits in ground arith
print_digits-All (suc f) n out h =
    rw print_step
      (ground (arith, print_digits-All f (n / 10) ((48 + n % 10) ∷ out) (ground arith, h)))

-- What is printed is one digit or more and nothing else.
pub format_uint-IsNumber : (n : ℕ) → IsNumber (format_uint n)
unfolding format_uint
format_uint-IsNumber n = print_digits-All 19 n [] tt

read_digits-format_uint : (n : ℕ) → n ≤ int_max → read_digits 0 (format_uint n) ≡ some n
read_digits-format_uint n h =
    unfold format_uint in
    (read_digits-print_digits 19 n [] (omega arith) ∙ unfold read_digits in refl)

atoi_of_IsNumber : (s : Text) → IsNumber s → atoi s ≡ within_pos (read_digits 0 s)
atoi_of_IsNumber [] h = ground arith
atoi_of_IsNumber (c ∷ s) h = unfold atoi in ground arith

-- A printed number is read back.
pub atoi-format_uint : (n : ℕ) → n ≤ int_max → atoi (format_uint n) ≡ some (pos n)
atoi-format_uint n h =
    ground (
      arith,
      atoi_of_IsNumber (format_uint n) (format_uint-IsNumber n),
      read_digits-format_uint n h,
    )
