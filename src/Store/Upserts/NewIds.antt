-- ===== src/Store/Upserts/NewIds.antt =====
-- The identifiers that `newID` of internal/store makes have no space in them.
use wol.Prelude.{
  All, All-append, All-map, List, [], arith, false, map, refl, true, ℕ, ◌%◌, ◌++◌, ◌/◌, ◌<◌, ◌∷◌,
  ◌≡◌,
}
use wol.Store.Db.{Env, new_id}
use wol.Text.{Text, concat, is_space, trim_space}
use wol.Text.Decimal.{is_digit, itoa, itoa_digits}
use wol.Text.Hex.{IsByte, hex_byte, hex_digit}
use wol.Text.Laws.{NoSpace, trim_space-NoSpace}

-- the random bytes of an identifier
abbrev pub Bytes : Env → Type 0
Bytes env = (k : ℕ) → All IsByte (env.suffix k)

hex_digit-no_space : (n : ℕ) → n < 16 → is_space (hex_digit n) ≡ false
unfolding hex_digit is_space
hex_digit-no_space n h = ground arith

hex-NoSpace : (bs : List ℕ) → All IsByte bs → NoSpace (concat (map hex_byte bs))
unfolding concat hex_byte
hex-NoSpace [] h = tt
hex-NoSpace (b ∷ bs) (p, h) = (
  hex_digit-no_space (b / 16) (ground arith),
  (hex_digit-no_space (b % 16) (ground arith), hex-NoSpace bs h),
)

digit-no_space : (c : ℕ) → is_digit c ≡ true → is_space c ≡ false
unfolding is_digit is_space
digit-no_space c h = ground arith

pub new_id-trim :
    (env : Env) (prefix : Text) (k : ℕ)
    → Bytes env
    → NoSpace prefix
    → trim_space (new_id env prefix k) ≡ new_id env prefix k
unfolding new_id is_space
new_id-trim env prefix k bytes h =
    let number : NoSpace (itoa (env.nanos k)) =
      All-map _ _ digit-no_space _ (itoa_digits (env.nanos k)) in
    let random : NoSpace (b'_' ∷ concat (map hex_byte (env.suffix k))) =
      (refl, hex-NoSpace (env.suffix k) (bytes k)) in
    let rest : NoSpace (b'_' ∷ itoa (env.nanos k)) = (refl, number) in
    trim_space-NoSpace (new_id env prefix k) (
      All-append (λ c. is_space c ≡ false) (prefix ++ (b'_' ∷ itoa (env.nanos k)))
        (b'_' ∷ concat (map hex_byte (env.suffix k)))
        (All-append (λ c. is_space c ≡ false) prefix (b'_' ∷ itoa (env.nanos k)) h rest) random)
