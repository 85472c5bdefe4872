-- ===== src/Common/Int.antt =====
-- The integers, as far as the precedence of a status needs them; `negsuc n` is -(n + 1).
use Prim.Native.Nat.{ℕ}
use mathlib.Core.Bool.{Bool, true, false}
use mathlib.Core.Path.{◌≡◌}
use native.Mathlib.Omega.{arith}
use ringpop_node.Common.Tests.{ltb}

pub data ℤ : Type 0 where
  pos : ℕ → ℤ
  negsuc : ℕ → ℤ

-- `a < b`.
abbrev pub ltb_int : ℤ → ℤ → Bool
ltb_int (pos a) (pos b) = ltb a b
ltb_int (pos a) (negsuc b) = false
ltb_int (negsuc a) (pos b) = true
ltb_int (negsuc a) (negsuc b) = ltb b a

pub ltb_int_trans : (a b c : ℤ) → ltb_int a b ≡ true → ltb_int b c ≡ true → ltb_int a c ≡ true
ltb_int_trans (pos a) b c h k = ground arith
ltb_int_trans (negsuc a) b c h k = ground arith

pub ltb_int_irrefl : (a : ℤ) → ltb_int a a ≡ false
ltb_int_irrefl (pos a) = ground arith
ltb_int_irrefl (negsuc a) = ground arith

pub ltb_int_asymm : (a b : ℤ) → ltb_int a b ≡ true → ltb_int b a ≡ false
ltb_int_asymm (pos a) b h = ground arith
ltb_int_asymm (negsuc a) b h = ground arith

pub eq_of_ltb_int : (a b : ℤ) → ltb_int a b ≡ false → ltb_int b a ≡ false → a ≡ b
eq_of_ltb_int (pos a) b h k = ground arith
eq_of_ltb_int (negsuc a) b h k = ground arith

pub ltb_int_negtrans : (a b c : ℤ) → ltb_int a b ≡ false → ltb_int b c ≡ false → ltb_int a c ≡ false
ltb_int_negtrans (pos a) b c h k = ground arith
ltb_int_negtrans (negsuc a) b c h k = ground arith
