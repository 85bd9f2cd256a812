-- ===== src/Text/Hex.antt =====
-- `encoding/hex`: two digits for each byte, the high half first.
use wol.Prelude.{
  All, List, Option, [], ap, arith, if◌then◌else◌, leb, length, ltb, map, none, refl, some, ℕ, ◌%◌,
  ◌&&◌, ◌*◌, ◌+◌, ◌-◌, ◌/◌, ◌<◌, ◌∷◌, ◌≡◌,
}
use wol.Text.{Text, concat}

unfoldable pub hex_digit : ℕ → ℕ
hex_digit n = if ltb n 10 then b'0' + n else b'a' + (n - 10)

unfoldable pub hex_byte : ℕ → Text
unfolding hex_digit
hex_byte b = hex_digit (b / 16) ∷ hex_digit (b % 16) ∷ []

unfoldable pub hex_value : ℕ → Option ℕ
hex_value c =
    if leb b'0' c && leb c b'9'
    then some (c - b'0')
    else if leb b'a' c && leb c b'f'
    then some (c - b'a' + 10)
    else if leb b'A' c && leb c b'F'
    then some (c - b'A' + 10)
    else none

unfoldable pub hex_pair : Option ℕ → Option ℕ → Option (List ℕ) → Option (List ℕ)
hex_pair (some h) (some l) (some bs) = some ((h * 16 + l) ∷ bs)
hex_pair _ _ _ = none

-- `hex.DecodeString`: `none` on an odd length and on a byte that is no digit
unfoldable pub hex_decode : Text → Option (List ℕ)
hex_decode [] = some []
hex_decode (c ∷ []) = none
hex_decode (c ∷ d ∷ s) = hex_pair (hex_value c) (hex_value d) (hex_decode s)

abbrev pub IsByte : ℕ → Type 0
IsByte b = b < 256

hex_value-lt : (c : ℕ) {v : ℕ} → hex_value c ≡ some v → v < 16
unfolding hex_value
hex_value-lt c h = ground arith

pub hex_value-digit : (n : ℕ) → n < 16 → hex_value (hex_digit n) ≡ some n
unfolding hex_value hex_digit
hex_value-digit n h = ground arith

-- What a successful step of the decoder has read.
hex_pair-eq-some :
    (c d : Option ℕ) (o : Option (List ℕ)) (bs : List ℕ)
    → hex_pair c d o ≡ some bs
    → (h : ℕ) × (l : ℕ) × (r : List ℕ) × (c ≡ some h)
      × (d ≡ some l)
      × (o ≡ some r)
      × (bs ≡ (h * 16 + l) ∷ r)
unfolding hex_pair
hex_pair-eq-some (some h) (some l) (some r) bs e = (h, l, r, refl, refl, refl, cc)
hex_pair-eq-some none _ _ bs e = cc
hex_pair-eq-some (some h) none _ bs e = cc
hex_pair-eq-some (some h) (some l) none bs e = cc

byte_of_halves : (h l : ℕ) → h < 16 → l < 16 → h * 16 + l < 256
byte_of_halves h l p q = omega arith

-- Every decoded value is a byte, and two digits are read for each.
pub hex_decode_sound :
    (s : Text) (bs : List ℕ) → hex_decode s ≡ some bs → All IsByte bs × (length s ≡ 2 * length bs)
unfolding hex_decode
hex_decode_sound [] [] h = (tt, refl)
hex_decode_sound [] (b ∷ bs) h = cc
hex_decode_sound (c ∷ []) bs h = cc
hex_decode_sound (c ∷ d ∷ s) bs e =
    let (h, l, r, ec, ed, er, eb) =
      hex_pair-eq-some (hex_value c) (hex_value d) (hex_decode s) bs e in
    let (ih, len) = hex_decode_sound s r er in
    rw eb ((byte_of_halves h l (hex_value-lt c ec) (hex_value-lt d ed), ih), omega arith)

hex_decode_cons :
    (b : ℕ) (s : Text) (bs : List ℕ)
    → b < 256
    → hex_decode s ≡ some bs
    → hex_decode (hex_digit (b / 16) ∷ hex_digit (b % 16) ∷ s) ≡ some (b ∷ bs)
unfolding hex_decode hex_pair
hex_decode_cons b s bs hb e =
    rw (hex_value-digit (b / 16) (omega arith), hex_value-digit (b % 16) (omega arith), e)
      (ap (λ (x : ℕ). some (x ∷ bs)) (omega arith))

-- Decoding undoes encoding.
pub hex_decode-encode :
    (bs : List ℕ) → All IsByte bs → hex_decode (concat (map hex_byte bs)) ≡ some bs
unfolding hex_decode concat hex_byte
hex_decode-encode [] h = refl
hex_decode-encode (b ∷ bs) (hb, hs) =
    hex_decode_cons b (concat (map hex_byte bs)) bs hb (hex_decode-encode bs hs)
