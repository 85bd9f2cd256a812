-- ===== src/Examples/Packets.antt =====
-- internal/wol at concrete inputs.
use wol.Prelude.{
  All, IsPort, List, [], ap, arith, err, false, get_or, if◌then◌else◌, inl, length, map, no_port,
  none, not, ok, pos, refl, replicate, some, true, ℕ, ◌+◌, ◌==◌, ◌∷◌, ◌≡◌, ◌≢◌, ◌≤◌, ◌⊎◌,
}
use wol.Net.{Ip, to4}
use wol.Packet.{
  bad_target, build_magic_packet, checked_mac, colon, mac_digits, mac_string, parse_mac,
}
use wol.Packet.Mac.Parse.{parse_mac-join, parse_mac_sound, zero_mac}
use wol.Packet.Magic.{IsStation, build_magic_packet-layout, magic_packet}
use wol.Packet.Send.{
  Network, SendRequest, count_packet, effective_repeat, local_ipv4, send, send_loop, send_on,
}
use wol.Packet.Send.Laws.{send_delivers, send_wire}
use wol.Packet.Verify.{Dialer, Ends, Waited, effective_timeout, wait_for_tcp, wait_for_tcp_total}
use wol.Text.{Text, codes, join}
use wol.Text.Hex.{hex_byte, hex_pair, hex_value}

abbrev pub desk : List ℕ
desk = 0x3c ∷ 0x52 ∷ 0x82 ∷ 0x0a ∷ 0x1b ∷ 0x2f ∷ []

abbrev pub desk_text : Text
desk_text = codes " 3C-52-82-A-1b-2f "

abbrev pub everyone : Ip
everyone = replicate 4 255

-- every socket opens, and every write takes the whole packet
abbrev calm : Network
calm = record {
  interfaces = λ _. none;
  listens = λ _. true;
  writes = λ _. some 102;
  done_before = λ _. false;
  done_waiting = λ _. false;
}

-- the second write fails
abbrev broken : Network
broken = record {
  interfaces = λ _. none;
  listens = λ _. true;
  writes = λ i. if i == 1 then none else some 102;
  done_before = λ _. false;
  done_waiting = λ _. false;
}

abbrev pub twice : SendRequest
twice = record {
  mac = desk;
  destination = everyone;
  port = pos 9;
  interface = [];
  repeats = pos 2;
  interval = pos 5;
}

desk-IsStation : IsStation desk
desk-IsStation = record { six = refl; bytes = omega arith; unicast = refl }

desk_nonzero : desk ≢ zero_mac
desk_nonzero e = absurd (omega (arith, ap (λ (m : List ℕ). get_or m 0 0) e))

pub desk_parsed : parse_mac desk_text ≡ ok desk
unfolding parse_mac mac_digits checked_mac hex_pair hex_value mac_string
desk_parsed = refl

everyone_v4 : to4 everyone ≡ some everyone
unfolding to4
everyone_v4 = refl

calm_sends : (send calm twice).failure ≡ none
unfolding send send_on send_loop local_ipv4 build_magic_packet effective_repeat no_port to4
calm_sends = refl

broken_sends : (send broken twice).result.packets ≡ 1
unfolding send send_on send_loop local_ipv4 build_magic_packet effective_repeat no_port to4
    count_packet
broken_sends = refl

send_wire_example :
    All (λ d. build_magic_packet desk ≡ ok d) (send broken twice).wire
    × (length (send broken twice).wire ≡ (send broken twice).result.packets)
    × ((send broken twice).result.packets ≤ effective_repeat (pos 2))
send_wire_example = send_wire broken twice

send_delivers_example :
    ((send calm twice).failure ≡ none)
    × ((send calm twice).result.packets ≡ effective_repeat (pos 2))
send_delivers_example =
    send_delivers calm twice everyone desk-IsStation everyone_v4 (omega arith, omega arith) refl
      (λ _. refl) (λ _. refl) (λ _. refl) (λ _ e. cc e)

parse_mac_sound_example : IsStation desk × (desk ≢ zero_mac)
parse_mac_sound_example = parse_mac_sound desk_text desk desk_parsed

parse_mac-join_example : parse_mac (join colon (map hex_byte desk)) ≡ ok desk
parse_mac-join_example = parse_mac-join colon desk (inl refl) desk-IsStation desk_nonzero

build_magic_packet-layout_example : build_magic_packet desk ≡ ok (magic_packet desk)
build_magic_packet-layout_example = build_magic_packet-layout desk desk-IsStation

-- the first attempt fails after a second, the next one connects
abbrev slow : Dialer
slow = record { dial = λ i _. (not (i == 0), 1000000000); lag = λ _. 3; done = λ _. false }

wait_for_tcp_total_example :
    (w : Waited) × (wait_for_tcp slow (codes "desk") (pos 22) (pos 5000000000) 7 ≡ some w)
    × (((w ≡ (err bad_target, 7)) × ((codes "desk" ≡ []) ⊎ ¬ (IsPort (pos 22))))
        ⊎ ((codes "desk" ≢ [])
            × IsPort (pos 22)
            × Ends slow (7 + effective_timeout (pos 5000000000)) w))
wait_for_tcp_total_example = wait_for_tcp_total slow (codes "desk") (pos 22) (pos 5000000000) 7
