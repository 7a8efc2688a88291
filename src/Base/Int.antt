-- ===== src/Base/Int.antt =====
-- Signed integers over the native numbers, under the library's names.
use Prim.Native.Nat.{ℕ, suc, ◌+◌, ◌-◌, ◌≤◌}
use mathlib.Core.Path.{◌≡◌}
use mathlib.Core.Bool.{Bool}
use native.Mathlib.Omega.{arith}
use earth_network_chain.Base.Tests.{ltb, leb, if◌then◌else◌}

-- `negsuc n` is -(n + 1).
pub data ℤ : Type 0 where
  pos : ℕ → ℤ
  negsuc : ℕ → ℤ

abbrev pub pos_part : ℤ → ℕ
pos_part (pos n) = n
pos_part (negsuc n) = 0

abbrev pub neg_part : ℤ → ℕ
neg_part (pos n) = 0
neg_part (negsuc n) = suc n

-- a - b, as an integer.
abbrev pub sub_ℕ : ℕ → ℕ → ℤ
sub_ℕ a b = if leb b a then pos (a - b) else negsuc (b - a - 1)

infixl 65 ◌+ℤ◌ ◌-ℤ◌
infix 50 ◌≤ℤ◌
unfoldable pub ◌+ℤ◌ : ℤ → ℤ → ℤ
a +ℤ b = sub_ℕ (pos_part a + pos_part b) (neg_part a + neg_part b)

unfoldable pub ◌-ℤ◌ : ℤ → ℤ → ℤ
a -ℤ b = sub_ℕ (pos_part a + neg_part b) (neg_part a + pos_part b)

abbrev pub ◌≤ℤ◌ : ℤ → ℤ → Type 0
a ≤ℤ b = pos_part a + neg_part b ≤ pos_part b + neg_part a

abbrev pub ltb_ℤ : ℤ → ℤ → Bool
ltb_ℤ a b = ltb (pos_part a + neg_part b) (pos_part b + neg_part a)

pub +ℤ_parts :
    (a b : ℤ)
    → pos_part (a +ℤ b) + neg_part a + neg_part b ≡ neg_part (a +ℤ b) + pos_part a + pos_part b
unfolding ◌+ℤ◌
+ℤ_parts a b = ground arith

pub -ℤ_parts :
    (a b : ℤ)
    → pos_part (a -ℤ b) + neg_part a + pos_part b ≡ neg_part (a -ℤ b) + pos_part a + neg_part b
unfolding ◌-ℤ◌
-ℤ_parts a b = ground arith

pub eq_of_parts : (a b : ℤ) → pos_part a + neg_part b ≡ pos_part b + neg_part a → a ≡ b
eq_of_parts a b h = ground arith

pub ruleset int_laws = (arith, +ℤ_parts, -ℤ_parts, eq_of_parts)

-- Taking a natural from, and adding one to, an integer that is not negative.
pub -ℤ_pos :
    (a : ℤ) (n : ℕ)
    → neg_part a ≡ 0
    → n ≤ pos_part a
    → (neg_part (a -ℤ pos n) ≡ 0) × (pos_part (a -ℤ pos n) + n ≡ pos_part a)
unfolding ◌-ℤ◌
-ℤ_pos a n h le = ground arith

pub +ℤ_pos :
    (a : ℤ) (n : ℕ)
    → neg_part a ≡ 0
    → (neg_part (a +ℤ pos n) ≡ 0) × (pos_part (a +ℤ pos n) ≡ pos_part a + n)
unfolding ◌+ℤ◌
+ℤ_pos a n h = ground arith

-- Moving a running sum from one part to another.
pub +ℤ-sub_ℕ :
    (a : ℤ) (p c : ℕ)
    → neg_part a ≡ 0
    → p ≤ pos_part a
    → (neg_part (a +ℤ sub_ℕ c p) ≡ 0) × (pos_part (a +ℤ sub_ℕ c p) + p ≡ pos_part a + c)
unfolding ◌+ℤ◌
+ℤ-sub_ℕ a p c h le = ground arith

pub +ℤ-sub :
    (a p c : ℤ)
    → neg_part a ≡ 0
    → neg_part p ≡ 0
    → neg_part c ≡ 0
    → pos_part p ≤ pos_part a
    → (neg_part (a +ℤ (c -ℤ p)) ≡ 0)
      × (pos_part (a +ℤ (c -ℤ p)) + pos_part p ≡ pos_part a + pos_part c)
unfolding ◌+ℤ◌ ◌-ℤ◌
+ℤ-sub a p c h hp hc le = ground arith

pub -ℤ_nonneg :
    (a b : ℤ)
    → neg_part a ≡ 0
    → neg_part b ≡ 0
    → pos_part b ≤ pos_part a
    → (neg_part (a -ℤ b) ≡ 0) × (pos_part (a -ℤ b) + pos_part b ≡ pos_part a)
unfolding ◌-ℤ◌
-ℤ_nonneg a b ha hb le = ground arith
