-- ===== src/Rules/Remote/Hosts.antt =====
-- The hosts that `normalizeRemoteProfile` of internal/store lets through: no space, no mark of an
-- address, and at most 253 bytes.
use wol.Prelude.{
  All, Bool, Bool-cases, List, [], all, arith, false, inl, inr, refl, true, ℕ, ◌==◌, ◌||◌, ◌∷◌, ◌≡◌,
  ◌≤◌, ◌⊎◌,
}
use wol.Rules.Remote.{host_char, host_label, matches_hostname}
use wol.Text.{Text, byte_len, is_empty, is_space, lower, push_front, split, to_lower, width}

-- the characters of such a host: a dash or a dot, a digit, a small letter, or a long s
abbrev pub HostChar : ℕ → Type 0
HostChar c =
    ((45 ≤ c) × (c ≤ 46)) ⊎ (((48 ≤ c) × (c ≤ 57)) ⊎ (((97 ≤ c) × (c ≤ 122)) ⊎ (c ≡ 0x17f)))

pub HostChar-no_space : (c : ℕ) → HostChar c → is_space c ≡ false
unfolding is_space
HostChar-no_space c h = ground arith

abbrev plain_char : ℕ → Bool
plain_char c = host_char c || c == b'-' || c == b'.'

lower-HostChar : (c : ℕ) → plain_char c ≡ true → HostChar (lower c)
unfolding host_char lower
lower-HostChar c h = ground arith

width-lower : (c : ℕ) → width (lower c) ≤ width c
unfolding width lower
width-lower c = ground arith

byte_len-to_lower : (s : Text) → byte_len (to_lower s) ≤ byte_len s
unfolding to_lower byte_len
byte_len-to_lower [] = omega arith
byte_len-to_lower (c ∷ s) = omega (arith, width-lower c, byte_len-to_lower s)

to_lower-HostChar : (s : Text) → All (λ c. plain_char c ≡ true) s → All HostChar (to_lower s)
unfolding to_lower
to_lower-HostChar [] h = tt
to_lower-HostChar (c ∷ s) (h, hs) = (lower-HostChar c h, to_lower-HostChar s hs)

-- What all parts of a text consist of, the text consists of, beside the separator.
abbrev GoodParts : List Text → Type 0
GoodParts = All (All (λ c. plain_char c ≡ true))

push_front-parts :
    (c : ℕ) (parts : List Text)
    → GoodParts (push_front c parts)
    → (plain_char c ≡ true) × GoodParts parts
unfolding push_front
push_front-parts c [] h = (h.0.0, tt)
push_front-parts c (p ∷ ps) ((hc, hp), h) = (hc, (hp, h))

split-parts : (s : Text) → GoodParts (split b'.' s) → All (λ c. plain_char c ≡ true) s
unfolding split
split-parts [] h = tt
split-parts (c ∷ s) h = elim (Bool-cases (c == b'.')) [
  | inl dot ↦
      let tail : GoodParts ([] ∷ split b'.' s) = rw (dot, split) at h in
      (ground (arith, dot), split-parts s tail.1)
  | inr other ↦
      let pushed : GoodParts (push_front c (split b'.' s)) = rw (other, split) at h in
      let (hc, hs) = push_front-parts c (split b'.' s) pushed in (hc, split-parts s hs)
]

all-plain :
    (s : Text) → all (λ d. host_char d || d == b'-') s ≡ true → All (λ c. plain_char c ≡ true) s
all-plain [] h = tt
all-plain (c ∷ s) h = (ground arith, all-plain s (ground arith))

host_label-plain : (s : Text) → host_label s ≡ true → All (λ c. plain_char c ≡ true) s
unfolding host_label
host_label-plain [] h = tt
host_label-plain (c ∷ s) h = (ground arith, all-plain s (ground arith))

labels-plain : (parts : List Text) → all host_label parts ≡ true → GoodParts parts
labels-plain [] h = tt
labels-plain (p ∷ ps) h = (host_label-plain p (ground arith), labels-plain ps (ground arith))

-- a host that the broker takes
pub record IsHost (host : Text) : Type 0 where
  pub chars : All HostChar host
  pub filled : is_empty host ≡ false
  pub short : byte_len host ≤ 253

to_lower-filled : (s : Text) → is_empty s ≡ false → is_empty (to_lower s) ≡ false
unfolding to_lower is_empty
to_lower-filled [] h = h
to_lower-filled (c ∷ s) h = refl

pub to_lower-IsHost :
    (host : Text)
    → is_empty host ≡ false
    → matches_hostname host ≡ true
    → byte_len host ≤ 253
    → IsHost (to_lower host)
unfolding matches_hostname
to_lower-IsHost host filled fits short = record {
  chars = to_lower-HostChar host (split-parts host (labels-plain (split b'.' host) fits));
  filled = to_lower-filled host filled;
  short = omega (arith, byte_len-to_lower host);
}
