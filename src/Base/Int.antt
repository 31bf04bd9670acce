-- ===== src/Base/Int.antt =====
-- Go's signed numbers: `int`, times in nanoseconds since the epoch, and durations in nanoseconds.
use Prim.Native.Nat.{ℕ, suc, ◌+◌, ◌-◌, ◌%◌, ◌^◌, ◌≤◌, ◌<◌}
use mathlib.Core.Path.{◌≡◌}
use mathlib.Core.Bool.{Bool}
use native.Mathlib.Omega.{arith}
use lymbo.Base.Tests.{ltb, leb, nat_eq, if◌then◌else◌}

-- `negsuc n` is -(n + 1).
pub data ℤ : Type 0 where
  pos : ℕ → ℤ
  negsuc : ℕ → ℤ

abbrev pub pos_part : ℤ → ℕ
pos_part (pos n) = n
pos_part (negsuc n) = 0

abbrev pub neg_part : ℤ → ℕ
neg_part (pos n) = 0
neg_part (negsuc n) = suc n

-- a - b, as an integer.
abbrev pub sub_ℕ : ℕ → ℕ → ℤ
sub_ℕ a b = if leb b a then pos (a - b) else negsuc (b - a - 1)

infixl 65 ◌+ℤ◌
infix 50 ◌≤ℤ◌ ◌<ℤ◌
unfoldable pub ◌+ℤ◌ : ℤ → ℤ → ℤ
a +ℤ b = sub_ℕ (pos_part a + pos_part b) (neg_part a + neg_part b)

abbrev pub ◌≤ℤ◌ : ℤ → ℤ → Type 0
a ≤ℤ b = pos_part a + neg_part b ≤ pos_part b + neg_part a

abbrev pub ◌<ℤ◌ : ℤ → ℤ → Type 0
a <ℤ b = pos_part a + neg_part b < pos_part b + neg_part a

abbrev pub ltb_ℤ : ℤ → ℤ → Bool
ltb_ℤ a b = ltb (pos_part a + neg_part b) (pos_part b + neg_part a)

abbrev pub leb_ℤ : ℤ → ℤ → Bool
leb_ℤ a b = leb (pos_part a + neg_part b) (pos_part b + neg_part a)

abbrev pub eqb_ℤ : ℤ → ℤ → Bool
eqb_ℤ a b = nat_eq (pos_part a + neg_part b) (pos_part b + neg_part a)

infixl 65 ◌-ℤ◌
unfoldable pub ◌-ℤ◌ : ℤ → ℤ → ℤ
a -ℤ b = sub_ℕ (pos_part a + neg_part b) (neg_part a + pos_part b)

-- One lemma for the sum lets `omega` work with it shut, at any depth.
pub +ℤ_parts :
    (a b : ℤ)
    → pos_part (a +ℤ b) + neg_part a + neg_part b ≡ neg_part (a +ℤ b) + pos_part a + pos_part b
unfolding ◌+ℤ◌
+ℤ_parts a b = ground arith

pub eq_of_parts : (a b : ℤ) → pos_part a + neg_part b ≡ pos_part b + neg_part a → a ≡ b
eq_of_parts a b h = ground arith

pub ruleset int_laws = (arith, +ℤ_parts, eq_of_parts)

-- The signed 64-bit number that a bit pattern stands for.
abbrev pub signed64 : ℕ → ℤ
signed64 w = if ltb w (2 ^ 63) then pos w else negsuc (2 ^ 64 - w - 1)

-- The two's complement bit pattern of an integer, modulo 2 ^ 64.
abbrev pub word64 : ℤ → ℕ
word64 (pos n) = n % 2 ^ 64
word64 (negsuc n) = 2 ^ 64 - 1 - n % 2 ^ 64

-- int64 addition, which wraps around.
unfoldable pub add64 : ℤ → ℤ → ℤ
add64 a b = signed64 (word64 (a +ℤ b))

-- Where the sum fits into an int64, the wrapping addition is the sum.
pub add64-+ℤ :
    (a b : ℤ) → negsuc (2 ^ 63 - 1) ≤ℤ a +ℤ b → a +ℤ b ≤ℤ pos (2 ^ 63 - 1) → add64 a b ≡ a +ℤ b
unfolding add64 ◌+ℤ◌
add64-+ℤ a b lo hi = ground arith

-- int32 arithmetic, which wraps around.
abbrev pub signed32 : ℕ → ℤ
signed32 w = if ltb w (2 ^ 31) then pos w else negsuc (2 ^ 32 - w - 1)

abbrev pub word32 : ℤ → ℕ
word32 (pos n) = n % 2 ^ 32
word32 (negsuc n) = 2 ^ 32 - 1 - n % 2 ^ 32

unfoldable pub wrap32 : ℤ → ℤ
wrap32 a = signed32 (word32 a)

-- int16(n), which wraps around.
unfoldable pub wrap16 : ℤ → ℤ
wrap16 (pos n) = let w = n % 2 ^ 16 in if ltb w (2 ^ 15) then pos w else negsuc (2 ^ 16 - w - 1)
wrap16 (negsuc n) =
    let w = 2 ^ 16 - 1 - n % 2 ^ 16 in if ltb w (2 ^ 15) then pos w else negsuc (2 ^ 16 - w - 1)

-- An integer that fits into an int16 is its own wrapping.
pub wrap16_lem : (a : ℤ) → negsuc (2 ^ 15 - 1) ≤ℤ a → a ≤ℤ pos (2 ^ 15 - 1) → wrap16 a ≡ a
unfolding wrap16
wrap16_lem (pos n) lo hi = ground arith
wrap16_lem (negsuc n) lo hi = ground arith

-- An integer that fits into an int32 is its own wrapping.
pub wrap32_lem : (a : ℤ) → negsuc (2 ^ 31 - 1) ≤ℤ a → a ≤ℤ pos (2 ^ 31 - 1) → wrap32 a ≡ a
unfolding wrap32
wrap32_lem a lo hi = ground arith

pub -ℤ_parts :
    (a b : ℤ)
    → pos_part (a -ℤ b) + neg_part a + pos_part b ≡ neg_part (a -ℤ b) + pos_part a + neg_part b
unfolding ◌-ℤ◌
-ℤ_parts a b = ground arith
