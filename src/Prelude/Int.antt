-- ===== src/Prelude/Int.antt =====
-- Go's signed `int`, as an integer: `negsuc n` is -(n + 1). The program does no arithmetic near
-- the ends of the 64-bit range on the values that are modelled so.
use Prim.Native.Nat.{ℕ, ◌≤◌}
use mathlib.Core.Path.{◌≡◌}
use native.Mathlib.Omega.{arith}
use mathlib.Core.Bool.{Bool, true, false, ◌||◌}
use wol.Prelude.Tests.{ltb, leb, ◌==◌}

pub data ℤ : Type 0 where
  pos : ℕ → ℤ
  negsuc : ℕ → ℤ

abbrev pub ltz : ℤ → ℤ → Bool
ltz (pos a) (pos b) = ltb a b
ltz (pos a) (negsuc b) = false
ltz (negsuc a) (pos b) = true
ltz (negsuc a) (negsuc b) = ltb b a

abbrev pub lez : ℤ → ℤ → Bool
lez (pos a) (pos b) = leb a b
lez (pos a) (negsuc b) = false
lez (negsuc a) (pos b) = true
lez (negsuc a) (negsuc b) = leb b a

abbrev pub eqz : ℤ → ℤ → Bool
eqz (pos a) (pos b) = a == b
eqz (pos a) (negsuc b) = false
eqz (negsuc a) (pos b) = false
eqz (negsuc a) (negsuc b) = a == b

-- The natural number of an integer that is not negative, and 0 for the others.
abbrev pub to_nat : ℤ → ℕ
to_nat (pos a) = a
to_nat (negsuc a) = 0

-- `p < 1 || p > 65535`, the test that the program makes on ports in several places
unfoldable pub no_port : ℤ → Bool
no_port p = ltz p (pos 1) || ltz (pos 65535) p

abbrev pub IsPort : ℤ → Type 0
IsPort (pos n) = (1 ≤ n) × (n ≤ 65535)
IsPort (negsuc n) = ⊥

pub no_port-IsPort : (p : ℤ) → no_port p ≡ false → IsPort p
unfolding no_port
no_port-IsPort (pos n) h = ground arith
no_port-IsPort (negsuc n) h = cc

pub IsPort-no_port : (p : ℤ) → IsPort p → no_port p ≡ false
unfolding no_port
IsPort-no_port (pos n) h = ground arith
IsPort-no_port (negsuc n) h = absurd h
