-- ===== src/Packet/Magic.antt =====
-- The layout of magic packets.
use wol.Prelude.{
  All, List, [], arith, false, get_or, is_ok, length, ok, refl, repeat, replicate, true, ℕ, ◌%◌,
  ◌++◌, ◌↔◌, ◌∷◌, ◌≡◌,
}
use wol.Packet.{build_magic_packet, fill_body, fill_header, is_group, packet_size}
use wol.Text.Hex.{IsByte}

-- an address that names one station: six bytes, and the group bit is clear
pub record IsStation (mac : List ℕ) : Type 0 where
  pub six : length mac ≡ 6
  pub bytes : All IsByte mac
  pub unicast : get_or mac 0 0 % 2 ≡ 0

-- the packet that the Wake-on-LAN format asks for
abbrev pub magic_packet : List ℕ → List ℕ
magic_packet mac = replicate 6 0xff ++ repeat 16 mac

filled :
    (a b c d e f : ℕ)
    → let mac = a ∷ b ∷ c ∷ d ∷ e ∷ f ∷ [] in
      fill_body packet_size 6 mac (fill_header 6 0 (replicate packet_size 0)) ≡ magic_packet mac
unfolding fill_body fill_header
filled a b c d e f = refl

-- The two loops write six bytes 0xff and then the address sixteen times, for every station address.
pub build_magic_packet-layout :
    (mac : List ℕ) → IsStation mac → build_magic_packet mac ≡ ok (magic_packet mac)
unfolding build_magic_packet
build_magic_packet-layout (a ∷ b ∷ c ∷ d ∷ e ∷ f ∷ []) s =
    ground (arith, filled a b c d e f, s.unicast)
build_magic_packet-layout mac s = absurd (omega (arith, s.six))

-- A packet is built exactly for six-byte addresses without the group bit.
pub build_magic_packet_exact :
    (mac : List ℕ)
    → (is_ok (build_magic_packet mac) ≡ true) ↔ ((length mac ≡ 6) × (is_group mac ≡ false))
unfolding build_magic_packet
build_magic_packet_exact mac = ground arith
