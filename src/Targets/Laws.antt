-- ===== src/Targets/Laws.antt =====
-- What the check of internal/networkconfig lets through.
use wol.Prelude.{
  >>=-eq-ok, All, IsPort, List, [], any, arith, false, map, no_port, no_port-IsPort, ok, refl, true,
  ℕ, ◌+◌, ◌||◌, ◌∙◌, ◌∷◌, ◌≡◌, ◌⊎◌,
}
use wol.Broker.Requests.{usable}
use wol.Store.Rules.{given}
use wol.Store.Transfer.{known}
use wol.Targets.{
  NetworkTarget, address_of, known_type, relayed_target, trimmed_target, typed_target,
  validate_from, validate_network_targets, validate_target,
}
use wol.Text.{Text, is_empty, teq, trim_left, trim_right, trim_space}

-- A target that may be used.
pub record IsUsable (t : NetworkTarget) : Type 0 where
  pub named : is_empty t.name ≡ false
  pub hosted : is_empty t.host ≡ false
  pub port_in_range : IsPort t.port
  pub typed : known_type t.target_type ≡ true
  pub reached : (t.wol_relay ≡ false) ⊎ (is_empty t.ssh_host ≡ false)

-- No address is in the list, and none comes twice.
abbrev pub NoRepeat : List Text → List NetworkTarget → Type 0
NoRepeat seen [] = Unit
NoRepeat seen (t ∷ ts) = (any (teq (address_of t)) seen ≡ false) × NoRepeat (address_of t ∷ seen) ts

filled-trim_space : (s : Text) → is_empty (trim_space s) ≡ false → is_empty s ≡ false
unfolding trim_space trim_left trim_right is_empty
filled-trim_space [] h = h
filled-trim_space (c ∷ s) h = refl

relayed_target-reached :
    (t : NetworkTarget)
    → ((relayed_target t).wol_relay ≡ false) ⊎ (is_empty (relayed_target t).ssh_host ≡ false)
unfolding relayed_target is_empty
relayed_target-reached t = ground (arith, filled-trim_space t.ssh_host)

relayed_target-same :
    (t : NetworkTarget)
    → ((relayed_target t).name ≡ t.name)
      × ((relayed_target t).host ≡ t.host)
      × ((relayed_target t).port ≡ t.port)
      × ((relayed_target t).target_type ≡ t.target_type)
unfolding relayed_target
relayed_target-same t = ground arith

typed_target-same :
    (t : NetworkTarget)
    → ((typed_target t).name ≡ t.name)
      × ((typed_target t).host ≡ t.host)
      × ((typed_target t).port ≡ t.port)
unfolding typed_target
typed_target-same t = ground arith

-- the facts that the tests of a round leave
validate_target-tests :
    (index : ℕ) (seen : List Text) (t u : NetworkTarget)
    → validate_target index seen t ≡ ok u
    → (relayed_target (typed_target (trimmed_target t)) ≡ u)
      × ((is_empty (trimmed_target t).name || is_empty (trimmed_target t).host) ≡ false)
      × (no_port (trimmed_target t).port ≡ false)
      × (known_type u.target_type ≡ true)
      × (any (teq (address_of u)) seen ≡ false)
unfolding validate_target
validate_target-tests index seen t u h = ground arith

trimmed_target-port : (t : NetworkTarget) → (trimmed_target t).port ≡ t.port
unfolding trimmed_target
trimmed_target-port t = refl

validate_target-IsUsable :
    (index : ℕ) (seen : List Text) (t u : NetworkTarget)
    → validate_target index seen t ≡ ok u
    → IsUsable u × (any (teq (address_of u)) seen ≡ false) × (u.port ≡ t.port)
validate_target-IsUsable index seen t u h =
    let (made, given, port, known, fresh) = validate_target-tests index seen t u h in
    let v = typed_target (trimmed_target t) in
    let (name1, host1, port1) = typed_target-same (trimmed_target t) in
    let (name2, host2, port2, _) = relayed_target-same v in
    let same_port : u.port ≡ (trimmed_target t).port = rw (← made) (port2 ∙ port1) in
    (
      record {
        named = rw (← made) (rw (name2, name1) (ground (arith, given)));
        hosted = rw (← made) (rw (host2, host1) (ground (arith, given)));
        port_in_range = no_port-IsPort u.port (rw same_port port);
        typed = known;
        reached = rw (← made) (relayed_target-reached v);
      },
      fresh,
      same_port ∙ trimmed_target-port t,
    )

validate_from-IsUsable :
    (index : ℕ) (seen : List Text) (ts us : List NetworkTarget)
    → validate_from index seen ts ≡ ok us
    → All IsUsable us × NoRepeat seen us × (map (λ t. t.port) us ≡ map (λ t. t.port) ts)
unfolding validate_from
validate_from-IsUsable index seen [] us h =
    let none_left : [] ≡ us = ground arith in rw (← none_left) (tt, tt, refl)
validate_from-IsUsable index seen (t ∷ ts) us h =
    let (u, good, h') = >>=-eq-ok (validate_target index seen t) _ h in
    let (rest, goods, h'') = >>=-eq-ok (validate_from (index + 1) (address_of u ∷ seen) ts) _ h' in
    let (usable, fresh, port) = validate_target-IsUsable index seen t u good in
    let (all_usable, no_repeat, ports) =
      validate_from-IsUsable (index + 1) (address_of u ∷ seen) ts rest goods in
    let made : (u ∷ rest) ≡ us = ground arith in
    rw (← made) ((usable, all_usable), (fresh, no_repeat), ground (arith, port, ports))

-- The targets that `validateNetworkTargets` returns all have a name, a host, a port from 1 to
-- 65535, a known type, and an SSH host if they are to relay; no address, of host and port, comes
-- twice among them; and they have the ports of the given targets, in their order.
pub validate_network_targets-IsUsable :
    (ts us : List NetworkTarget)
    → validate_network_targets ts ≡ ok us
    → All IsUsable us × NoRepeat [] us × (map (λ t. t.port) us ≡ map (λ t. t.port) ts)
unfolding validate_network_targets
validate_network_targets-IsUsable ts us h = validate_from-IsUsable 0 [] ts us h
