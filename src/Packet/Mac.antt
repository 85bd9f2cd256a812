-- ===== src/Packet/Mac.antt =====
-- What `ParseMAC` accepts, and how it reads the printed forms of an address.
pub mod Parse
use wol.Prelude.{
  All, All-append, Bool-cases, List, [], ap, arith, false, inl, inr, length, map, refl, some, suc,
  sym, true, ℕ, ◌%◌, ◌*◌, ◌++◌, ◌+◌, ◌/◌, ◌<◌, ◌==◌, ◌∙◌, ◌∷◌, ◌≡◌, ◌≢◌, ◌⊎◌,
}
use wol.Packet.{colon, dash, digits_at, mac_digits, mac_string, pad_part}
use wol.Text.{Text, byte_len, concat, has_char, is_space, join, split, width}
use wol.Text.Hex.{IsByte, hex_byte, hex_decode, hex_decode-encode, hex_digit}
use wol.Text.Laws.{NoSpace, trim_space-NoSpace}
use wol.Text.Split.{Lacks, split-join}

-- facts about one digit
digit-no_space : (n : ℕ) → n < 16 → is_space (hex_digit n) ≡ false
unfolding is_space hex_digit
digit-no_space n h = ground arith

digit-width : (n : ℕ) → n < 16 → width (hex_digit n) ≡ 1
unfolding width hex_digit
digit-width n h = ground arith

-- a separator, which is no hexadecimal digit
abbrev pub IsSep : ℕ → Type 0
IsSep c = (c ≡ colon) ⊎ (c ≡ dash)

digit-ne-sep : (n c : ℕ) → n < 16 → IsSep c → hex_digit n ≢ c
unfolding hex_digit
digit-ne-sep n c h s = ground arith

-- facts about one byte
byte-NoSpace : (b : ℕ) → b < 256 → NoSpace (hex_byte b)
unfolding hex_byte
byte-NoSpace b h =
    (digit-no_space (b / 16) (omega arith), (digit-no_space (b % 16) (omega arith), tt))

byte-Lacks : (b c : ℕ) → b < 256 → IsSep c → Lacks c (hex_byte b)
unfolding hex_byte
byte-Lacks b c h s =
    (digit-ne-sep (b / 16) c (omega arith) s, (digit-ne-sep (b % 16) c (omega arith) s, tt))

byte-len : (b : ℕ) → b < 256 → byte_len (hex_byte b) ≡ 2
unfolding byte_len hex_byte
byte-len b h = omega (arith, digit-width (b / 16) (omega arith), digit-width (b % 16) (omega arith))

pad_part-byte : (b : ℕ) → b < 256 → pad_part (hex_byte b) ≡ hex_byte b
unfolding pad_part
pad_part-byte b h = rw (trim_space-NoSpace (hex_byte b) (byte-NoSpace b h), byte-len b h)

-- facts about all bytes
bytes-Lacks : (bs : List ℕ) (c : ℕ) → All IsByte bs → IsSep c → All (Lacks c) (map hex_byte bs)
bytes-Lacks [] c h s = tt
bytes-Lacks (b ∷ bs) c (hb, hs) s = (byte-Lacks b c hb s, bytes-Lacks bs c hs s)

bytes-pad_part : (bs : List ℕ) → All IsByte bs → map pad_part (map hex_byte bs) ≡ map hex_byte bs
bytes-pad_part [] h = refl
bytes-pad_part (b ∷ bs) (hb, hs) = cc (pad_part-byte b hb, bytes-pad_part bs hs)

byte_len-append : (s t : Text) → byte_len (s ++ t) ≡ byte_len s + byte_len t
unfolding byte_len
byte_len-append [] t = omega arith
byte_len-append (c ∷ s) t = omega (arith, byte_len-append s t)

pub bytes-len : (bs : List ℕ) → All IsByte bs → byte_len (concat (map hex_byte bs)) ≡ 2 * length bs
unfolding concat byte_len
bytes-len [] h = refl
bytes-len (b ∷ bs) (hb, hs) =
    omega (
      arith,
      byte_len-append (hex_byte b) (concat (map hex_byte bs)),
      byte-len b hb,
      bytes-len bs hs,
    )

sep-no_space : (c : ℕ) → IsSep c → is_space c ≡ false
unfolding is_space
sep-no_space c s = ground arith

join-NoSpace : (c : ℕ) (bs : List ℕ) → IsSep c → All IsByte bs → NoSpace (join c (map hex_byte bs))
unfolding join
join-NoSpace c [] s h = tt
join-NoSpace c (b ∷ []) s (hb, _) = byte-NoSpace b hb
join-NoSpace c (b ∷ d ∷ bs) s (hb, hs) =
    All-append _ (hex_byte b) _ (byte-NoSpace b hb) (sep-no_space c s, join-NoSpace c (d ∷ bs) s hs)

has_char-append : (c : ℕ) (s t : Text) → has_char c (s ++ (c ∷ t)) ≡ true
unfolding has_char
has_char-append c [] t = ground arith
has_char-append c (d ∷ s) t = ground (arith, has_char-append c s t)

has_char-Lacks : (c : ℕ) (s : Text) → Lacks c s → has_char c s ≡ false
unfolding has_char
has_char-Lacks c [] h = refl
has_char-Lacks c (d ∷ s) (hd, hs) = ground (arith, has_char-Lacks c s hs)

-- no digit and no other separator is the given separator
join-Lacks :
    (c d : ℕ) (bs : List ℕ) → c ≢ d → IsSep d → All IsByte bs → Lacks d (join c (map hex_byte bs))
unfolding join
join-Lacks c d [] ne s h = tt
join-Lacks c d (b ∷ []) ne s (hb, _) = byte-Lacks b d hb s
join-Lacks c d (b ∷ e ∷ bs) ne s (hb, hs) =
    All-append _ (hex_byte b) _ (byte-Lacks b d hb s) (ne, join-Lacks c d (e ∷ bs) ne s hs)

length-map : (bs : List ℕ) → length (map hex_byte bs) ≡ length bs
length-map [] = refl
length-map (b ∷ bs) = ap suc (length-map bs)

has_char-join :
    (c : ℕ) (mac : List ℕ) → length mac ≡ 6 → has_char c (join c (map hex_byte mac)) ≡ true
unfolding join
has_char-join c [] n = absurd (omega arith)
has_char-join c (b ∷ []) n = absurd (omega arith)
has_char-join c (b ∷ d ∷ bs) n = has_char-append c (hex_byte b) (join c (map hex_byte (d ∷ bs)))

split-join_bytes :
    (c : ℕ) (mac : List ℕ)
    → length mac ≡ 6
    → IsSep c
    → All IsByte mac
    → split c (join c (map hex_byte mac)) ≡ map hex_byte mac
split-join_bytes c [] n s h = absurd (omega arith)
split-join_bytes c (b ∷ bs) n s h =
    split-join c (hex_byte b) (map hex_byte bs) (bytes-Lacks (b ∷ bs) c h s)

digits_at_found :
    (c : ℕ) (seps t : Text) (ps : List Text)
    → has_char c t ≡ true
    → split c t ≡ ps
    → length ps ≡ 6
    → digits_at (c ∷ seps) t ≡ concat (map pad_part ps)
unfolding digits_at
digits_at_found c seps t ps found parts six =
    rw (found, parts)
      (elim (Bool-cases (length ps == 6)) [ inl e ↦ rw e | inr e ↦ absurd (ground arith) ])

digits_at_next :
    (c : ℕ) (seps t : Text) → has_char c t ≡ false → digits_at (c ∷ seps) t ≡ digits_at seps t
unfolding digits_at
digits_at_next c seps t e = rw e

-- The digits of an address printed with either separator are those of its bytes.
digits_at_sep :
    (c : ℕ) (seps mac : List ℕ)
    → IsSep c
    → length mac ≡ 6
    → All IsByte mac
    → digits_at (c ∷ seps) (join c (map hex_byte mac)) ≡ concat (map hex_byte mac)
digits_at_sep c seps mac s n h =
    digits_at_found c seps _ (map hex_byte mac) (has_char-join c mac n)
      (split-join_bytes c mac n s h) (length-map mac ∙ n)
    ∙ ap concat (bytes-pad_part mac h)

pub mac_digits-join :
    (c : ℕ) (mac : List ℕ)
    → IsSep c
    → length mac ≡ 6
    → All IsByte mac
    → mac_digits (join c (map hex_byte mac)) ≡ concat (map hex_byte mac)
unfolding mac_digits
mac_digits-join c mac (inl e) n h = rw e (
    rw (trim_space-NoSpace _ (join-NoSpace colon mac (inl refl) h))
      (digits_at_sep colon (dash ∷ []) mac (inl refl) n h))
mac_digits-join c mac (inr e) n h = rw e (
    rw
      (
        trim_space-NoSpace _ (join-NoSpace dash mac (inr refl) h),
        digits_at_next colon (dash ∷ []) _
            (has_char-Lacks colon _ (join-Lacks dash colon mac (omega arith) (inl refl) h)),
      )
      (digits_at_sep dash [] mac (inr refl) n h))

-- Two addresses of six bytes that print alike are one.
pub mac_string_injective :
    (m n : List ℕ)
    → All IsByte m
    → All IsByte n
    → length m ≡ 6
    → length n ≡ 6
    → mac_string m ≡ mac_string n
    → m ≡ n
unfolding mac_string
mac_string_injective m n hm hn lm ln e =
    let same : some m ≡ some n =
      sym (hex_decode-encode m hm)
      ∙ ap (λ (ps : List Text). hex_decode (concat ps))
          (sym (split-join_bytes colon m lm (inl refl) hm)
            ∙ ap (split colon) e
            ∙ split-join_bytes colon n ln (inl refl) hn)
      ∙ hex_decode-encode n hn in
    cc same
