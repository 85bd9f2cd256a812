-- ===== src/Rules/Remote/Addresses.antt =====
-- The IPv4 texts that `normalizeRemoteProfile` of internal/store puts in the place of an address.
use wol.Prelude.{
  ==_iff, All, All-append, All-map, Bool, Bool-cases, List, Option, Option-cases, [], all, arith,
  drop, false, inl, inr, leb, leb→le, length, none, ok, refl, some, suc, true, zero, ℕ, ◌++◌, ◌+◌,
  ◌-◌, ◌<◌, ◌==◌, ◌∷◌, ◌≡◌, ◌≤◌,
}
use wol.Net.{Ip, ipv4_string, looks_ipv6, mapped_prefix, octet, octets, parse_ip, parse_ipv4, to4}
use wol.Rules.Remote.{checked_host, local_ip}
use wol.Rules.Remote.Hosts.{HostChar, IsHost, to_lower-IsHost}
use wol.Text.{Text, byte_len, is_empty, join, split, to_lower, width}
use wol.Text.Decimal.{is_digit, itoa, itoa_digits, itoa_nonempty}

digit-HostChar : (c : ℕ) → is_digit c ≡ true → HostChar c
unfolding is_digit
digit-HostChar c h = ground arith

itoa-HostChar : (n : ℕ) → All HostChar (itoa n)
itoa-HostChar n = All-map (λ c. is_digit c ≡ true) HostChar digit-HostChar (itoa n) (itoa_digits n)

-- the numbers below a bound, to look at every byte
upto : ℕ → List ℕ
upto zero = []
upto (suc top) = top ∷ upto top

upto-all :
    (holds : ℕ → Bool) (bound byte : ℕ)
    → byte < bound
    → all holds (upto bound) ≡ true
    → holds byte ≡ true
unfolding upto
upto-all holds zero byte low checked = absurd (omega arith)
upto-all holds (suc top) byte low checked = ground (arith, upto-all holds top byte)

three_digits : all (λ b. leb (byte_len (itoa b)) 3) (upto 256) ≡ true
unfolding upto itoa byte_len width
three_digits = refl

byte_len-itoa : (b : ℕ) → b ≤ 255 → byte_len (itoa b) ≤ 3
byte_len-itoa b small =
    leb→le (byte_len (itoa b)) 3
      (upto-all (λ b. leb (byte_len (itoa b)) 3) 256 b (omega arith) three_digits)

byte_len-append : (s t : Text) → byte_len (s ++ t) ≡ byte_len s + byte_len t
unfolding byte_len
byte_len-append [] t = omega arith
byte_len-append (c ∷ s) t = omega (arith, byte_len-append s t)

abbrev pub ByteList : Ip → Type 0
ByteList = All (λ n. n ≤ 255)

is_empty-append : (s t : Text) → is_empty s ≡ false → is_empty (s ++ t) ≡ false
unfolding is_empty
is_empty-append [] t h = absurd (cc)
is_empty-append (c ∷ s) t h = refl

dotted_short :
    (a b c d : Text)
    → byte_len a ≤ 3
    → byte_len b ≤ 3
    → byte_len c ≤ 3
    → byte_len d ≤ 3
    → byte_len (a ++ b'.' ∷ (b ++ b'.' ∷ (c ++ b'.' ∷ d))) ≤ 253
unfolding byte_len width
dotted_short a b c d ha hb hc hd = omega (
  arith,
  byte_len-append a (b'.' ∷ (b ++ b'.' ∷ (c ++ b'.' ∷ d))),
  byte_len-append b (b'.' ∷ (c ++ b'.' ∷ d)),
  byte_len-append c (b'.' ∷ d),
)

ipv4_string-IsHost :
    (a b c d : ℕ) → ByteList (a ∷ b ∷ c ∷ d ∷ []) → IsHost (ipv4_string (a ∷ b ∷ c ∷ d ∷ []))
unfolding ipv4_string join
ipv4_string-IsHost a b c d (ha, (hb, (hc, (hd, _)))) = record {
  chars = All-append HostChar (itoa a) _ (itoa-HostChar a) (
    omega arith,
    All-append HostChar (itoa b) _ (itoa-HostChar b) (
      omega arith,
      All-append HostChar (itoa c) _ (itoa-HostChar c) (omega arith, itoa-HostChar d),
    ),
  );
  filled = is_empty-append (itoa a) _ (itoa_nonempty a);
  short =
      dotted_short (itoa a) (itoa b) (itoa c) (itoa d) (byte_len-itoa a ha) (byte_len-itoa b hb)
        (byte_len-itoa c hc) (byte_len-itoa d hd);
}

-- An address in four bytes has four fields.
four_fields : (ip : Ip) → length ip ≡ 4 → ByteList ip → IsHost (ipv4_string ip)
four_fields [] e h = absurd (omega (arith, e))
four_fields (a ∷ []) e h = absurd (omega (arith, e))
four_fields (a ∷ b ∷ []) e h = absurd (omega (arith, e))
four_fields (a ∷ b ∷ c ∷ []) e h = absurd (omega (arith, e))
four_fields (a ∷ b ∷ c ∷ d ∷ []) e h = ipv4_string-IsHost a b c d h
four_fields (a ∷ b ∷ c ∷ d ∷ x ∷ ip) e h = absurd (omega (arith, e))

drop-ByteList : (n : ℕ) (ip : Ip) → ByteList ip → ByteList (drop n ip)
drop-ByteList zero ip h = h
drop-ByteList (suc n) [] h = tt
drop-ByteList (suc n) (b ∷ ip) h = drop-ByteList n ip h.1

length-drop : (n : ℕ) (ip : Ip) → length (drop n ip) ≡ length ip - n
length-drop zero ip = omega arith
length-drop (suc n) [] = omega arith
length-drop (suc n) (b ∷ ip) = omega (arith, length-drop n ip)

to4-four : (ip v4 : Ip) → ByteList ip → to4 ip ≡ some v4 → (length v4 ≡ 4) × ByteList v4
unfolding to4
to4-four ip v4 h e = elim (Bool-cases (length ip == 4)) [
  | inl four ↦
      let same : ip ≡ v4 = ground arith in
      (rw (← same) ((==_iff (length ip) 4).0 four), rw (← same) h)
  | inr more ↦ elim (Bool-cases (length ip == 16)) [
    | inl long ↦
        let same : drop 12 ip ≡ v4 = ground arith in
        (
          rw (← same) (omega (arith, length-drop 12 ip, (==_iff (length ip) 16).0 long)),
          rw (← same) (drop-ByteList 12 ip h),
        )
    | inr none_fits ↦ absurd (ground arith)
  ]
]

octet-byte : (t : Text) (n : ℕ) → octet t ≡ some n → n ≤ 255
unfolding octet
octet-byte t n h = ground arith

octets-ByteList : (ts : List Text) (ip : Ip) → octets ts ≡ some ip → ByteList ip
unfolding octets
octets-ByteList [] ip h = let same : [] ≡ ip = ground arith in rw (← same) tt
octets-ByteList (t ∷ ts) ip h = elim (Option-cases (octet t)) [
  | inl bad ↦ absurd (ground arith)
  | inr (n, good) ↦ elim (Option-cases (octets ts)) [
    | inl bad ↦ absurd (ground arith)
    | inr (ns, rest) ↦
        let same : (n ∷ ns) ≡ ip = ground arith in
        rw (← same) (octet-byte t n good, octets-ByteList ts ns rest)
  ]
]

parse_ipv4-ByteList : (t : Text) (ip : Ip) → parse_ipv4 t ≡ some ip → ByteList ip
unfolding parse_ipv4
parse_ipv4-ByteList t ip h = octets-ByteList (split b'.' t) ip (ground arith)

prefix_bytes : ByteList mapped_prefix
prefix_bytes = omega arith

-- the parser of IPv6 texts gives bytes
abbrev pub GivesBytes : (Text → Option Ip) → Type 0
GivesBytes ipv6 = (t : Text) (ip : Ip) → ipv6 t ≡ some ip → ByteList ip

parse_ip-ByteList :
    (ipv6 : Text → Option Ip) (t : Text) (ip : Ip)
    → GivesBytes ipv6
    → parse_ip ipv6 t ≡ some ip
    → ByteList ip
unfolding parse_ip
parse_ip-ByteList ipv6 t ip bytes h = elim (Bool-cases (looks_ipv6 t)) [
  | inl y ↦ bytes t ip (ground arith)
  | inr n ↦ elim (Option-cases (parse_ipv4 t)) [
    | inl bad ↦ absurd (ground arith)
    | inr (v4, good) ↦
        let same : mapped_prefix ++ v4 ≡ ip = ground arith in
        rw (← same)
          (All-append (λ n. n ≤ 255) mapped_prefix v4 prefix_bytes (parse_ipv4-ByteList t v4 good))
  ]
]

local_ip-IsHost :
    (found : Option Ip) (host : Text)
    → ((ip : Ip) → found ≡ some ip → (length ip ≡ 4) × ByteList ip)
    → local_ip found ≡ ok host
    → IsHost host
unfolding local_ip
local_ip-IsHost none host f h = absurd (cc)
local_ip-IsHost (some ip) host f h =
    let (four, bytes) = f ip refl in
    let same : ipv4_string ip ≡ host = ground arith in rw (← same) (four_fields ip four bytes)

-- A host that passes the check is a host for the broker.
pub checked_host-IsHost :
    (ipv6 : Text → Option Ip) (host out : Text)
    → GivesBytes ipv6
    → is_empty host ≡ false
    → checked_host ipv6 host ≡ ok out
    → IsHost out
unfolding checked_host
checked_host-IsHost ipv6 host out bytes filled h = elim (Option-cases (parse_ip ipv6 host)) [
  | inr (ip, parsed) ↦
      local_ip-IsHost (to4 ip) out
        (λ v4. to4-four ip v4 (parse_ip-ByteList ipv6 host ip bytes parsed)) (ground arith)
  | inl name ↦
      let same : to_lower host ≡ out = ground arith in
      rw (← same) (to_lower-IsHost host filled (ground arith) (ground arith))
]
