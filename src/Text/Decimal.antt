-- ===== src/Text/Decimal.antt =====
-- `strconv.Itoa` and `strconv.Atoi` on numbers that are not negative.
use wol.Prelude.{
  All, Bool, Bool-cases, Option, [], arith, false, if◌then◌else◌, inl, inr, leb, ltb, negsuc, none,
  pos, refl, some, suc, true, zero, ℕ, ℤ, ◌%◌, ◌&&◌, ◌*◌, ◌+◌, ◌-◌, ◌/◌, ◌<◌, ◌∷◌, ◌≡◌,
}
use wol.Text.{Text, is_empty}

digits : ℕ → ℕ → Text → Text
digits zero n out = out
digits (suc f) n out =
    let rest = digits f (n / 10) ((b'0' + n % 10) ∷ out) in
    if ltb n 10 then (b'0' + n % 10) ∷ out else rest

-- The fuel is the number itself and one more.
unfoldable pub itoa : ℕ → Text
unfolding digits
itoa n = digits (suc n) n []

-- `%d`
unfoldable pub itoa_z : ℤ → Text
unfolding itoa
itoa_z (pos n) = itoa n
itoa_z (negsuc n) = b'-' ∷ itoa (suc n)

unfoldable pub is_digit : ℕ → Bool
is_digit c = leb b'0' c && leb c b'9'

unfoldable pub read_digits : ℕ → Text → Option ℕ
unfolding is_digit
read_digits n [] = some n
read_digits n (c ∷ s) = if is_digit c then read_digits (n * 10 + (c - b'0')) s else none

read-digits : (f n : ℕ) (out : Text) → n < f → read_digits 0 (digits f n out) ≡ read_digits n out
unfolding digits read_digits
read-digits zero n out h = absurd (omega arith)
read-digits (suc f) n out h = ground (arith, read-digits f (n / 10) ((b'0' + n % 10) ∷ out))

-- Reading a printed number gives the number back: the fuel of `itoa` is enough.
pub read_digits-itoa : (n : ℕ) → read_digits 0 (itoa n) ≡ some n
unfolding itoa read_digits
read_digits-itoa n = rw (read-digits (suc n) n [] (omega arith))

digits_ok :
    (f n : ℕ) (out : Text)
    → All (λ c. is_digit c ≡ true) out
    → All (λ c. is_digit c ≡ true) (digits f n out)
unfolding digits is_digit
digits_ok zero n out h = h
digits_ok (suc f) n out h = elim (Bool-cases (ltb n 10)) [
  | inl e ↦ rw e (ground arith, h)
  | inr e ↦ rw e (digits_ok f (n / 10) ((b'0' + n % 10) ∷ out) (ground arith, h))
]

pub itoa_digits : (n : ℕ) → All (λ c. is_digit c ≡ true) (itoa n)
unfolding itoa
itoa_digits n = digits_ok (suc n) n [] tt

digits_nonempty : (f n : ℕ) (c : ℕ) (out : Text) → is_empty (digits f n (c ∷ out)) ≡ false
unfolding digits is_empty
digits_nonempty zero n c out = refl
digits_nonempty (suc f) n c out =
    ground (arith, digits_nonempty f (n / 10) (b'0' + n % 10) (c ∷ out))

-- A printed number is not empty.
pub itoa_nonempty : (n : ℕ) → is_empty (itoa n) ≡ false
unfolding itoa digits is_empty
itoa_nonempty n = ground (arith, digits_nonempty n (n / 10) (b'0' + n % 10) [])
