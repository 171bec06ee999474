-- ===== src/Prelude/Int.antt =====
-- Signed integers over the native numbers: Rust's `i64` values, and the integers of JSON.
use Prim.Native.Nat.{ℕ, suc, ◌+◌, ◌-◌, ◌*◌, ◌^◌, ◌≤◌, ◌<◌}
use mathlib.Core.Bool.{Bool, ◌&&◌}
use native.Mathlib.Decide.{ℕ_discrete}
use tekes_memory.Prelude.Tests.{ltb, leb, if◌then◌else◌}

-- `negsuc n` is -(n + 1).
pub data ℤ : Type 0 where
  pos : ℕ → ℤ
  negsuc : ℕ → ℤ

decide_int : Discrete ℤ
unfolding ℕ_discrete
decide_int = hlevel ℕ_discrete

unfoldable pub ℤ_discrete : Discrete ℤ
unfolding decide_int
ℤ_discrete = decide_int

abbrev pub pos_part : ℤ → ℕ
pos_part (pos n) = n
pos_part (negsuc n) = 0

abbrev pub neg_part : ℤ → ℕ
neg_part (pos n) = 0
neg_part (negsuc n) = suc n

infixl 65 ◌+ℤ◌
infixl 70 ◌*ℤ◌
infix 50 ◌≤ℤ◌ ◌<ℤ◌
-- The sum of two integers.
unfoldable pub ◌+ℤ◌ : ℤ → ℤ → ℤ
a +ℤ b =
    let p = pos_part a + pos_part b in
    let n = neg_part a + neg_part b in if leb n p then pos (p - n) else negsuc (n - p - 1)

-- Their product.
unfoldable pub ◌*ℤ◌ : ℤ → ℤ → ℤ
a *ℤ b =
    let p = pos_part a * pos_part b + neg_part a * neg_part b in
    let n = pos_part a * neg_part b + neg_part a * pos_part b in
    if leb n p then pos (p - n) else negsuc (n - p - 1)

abbrev pub ◌≤ℤ◌ : ℤ → ℤ → Type 0
a ≤ℤ b = pos_part a + neg_part b ≤ pos_part b + neg_part a

abbrev pub ◌<ℤ◌ : ℤ → ℤ → Type 0
a <ℤ b = pos_part a + neg_part b < pos_part b + neg_part a

abbrev pub lt_int : ℤ → ℤ → Bool
lt_int a b = ltb (pos_part a + neg_part b) (pos_part b + neg_part a)

abbrev pub le_int : ℤ → ℤ → Bool
le_int a b = leb (pos_part a + neg_part b) (pos_part b + neg_part a)

abbrev pub max_int : ℤ → ℤ → ℤ
max_int a b = if le_int a b then b else a

abbrev pub min_int : ℤ → ℤ → ℤ
min_int a b = if le_int a b then a else b

-- Whether an integer is an `i64`.
abbrev pub in_i64 : ℤ → Bool
in_i64 a = leb (pos_part a) (2 ^ 63 - 1) && leb (neg_part a) (2 ^ 63)
