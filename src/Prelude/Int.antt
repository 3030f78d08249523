-- ===== src/Prelude/Int.antt =====
-- Go's signed 64-bit `int`: the integers, and sums and differences that wrap around.
use Prim.Native.Nat.{ℕ, suc, ◌+◌, ◌-◌, ◌%◌, ◌^◌, ◌≤◌, ◌<◌}
use mathlib.Core.Path.{◌≡◌, refl, ap}
use mathlib.Core.Logic.{◌↔◌, ◌⊎◌, inl, inr}
use mathlib.Core.Bool.{Bool, true, false}
use native.Mathlib.Omega.{arith}
use loom.Prelude.Tests.{ltb, leb, eqb, if◌then◌else◌}

-- `negsuc n` is -(n + 1).
pub data ℤ : Type 0 where
  pos : ℕ → ℤ
  negsuc : ℕ → ℤ

abbrev pub pos_part : ℤ → ℕ
pos_part (pos n) = n
pos_part (negsuc n) = 0

abbrev pub neg_part : ℤ → ℕ
neg_part (pos n) = 0
neg_part (negsuc n) = suc n

abbrev pub sub_ℕ : ℕ → ℕ → ℤ
sub_ℕ a b = if leb b a then pos (a - b) else negsuc (b - a - 1)

infix 50 ◌≤ℤ◌ ◌<ℤ◌
abbrev pub ◌≤ℤ◌ : ℤ → ℤ → Type 0
a ≤ℤ b = pos_part a + neg_part b ≤ pos_part b + neg_part a

abbrev pub ◌<ℤ◌ : ℤ → ℤ → Type 0
a <ℤ b = pos_part a + neg_part b < pos_part b + neg_part a

abbrev pub ltb_ℤ : ℤ → ℤ → Bool
ltb_ℤ a b = ltb (pos_part a + neg_part b) (pos_part b + neg_part a)

abbrev pub leb_ℤ : ℤ → ℤ → Bool
leb_ℤ a b = leb (pos_part a + neg_part b) (pos_part b + neg_part a)

abbrev pub eqb_ℤ : ℤ → ℤ → Bool
eqb_ℤ (pos a) (pos b) = eqb a b
eqb_ℤ (pos a) (negsuc b) = false
eqb_ℤ (negsuc a) (pos b) = false
eqb_ℤ (negsuc a) (negsuc b) = eqb a b

pub eqb_ℤ_iff : (a b : ℤ) → (eqb_ℤ a b ≡ true) ↔ (a ≡ b)
eqb_ℤ_iff (pos a) (pos b) = ground arith
eqb_ℤ_iff (pos a) (negsuc b) = ground arith
eqb_ℤ_iff (negsuc a) (pos b) = ground arith
eqb_ℤ_iff (negsuc a) (negsuc b) = ground arith

pub eq_of_parts : (a b : ℤ) → pos_part a + neg_part b ≡ pos_part b + neg_part a → a ≡ b
eq_of_parts a b h = ground arith

-- The values that an `int` holds.
abbrev pub IsInt : ℤ → Type 0
IsInt z = (pos_part z < 2 ^ 63) × (neg_part z ≤ 2 ^ 63)

-- The `int` with the low 64 bits of p - n.
unfoldable pub wrap : ℕ → ℕ → ℤ
wrap p n =
    let bits = (p + (2 ^ 64 - n % 2 ^ 64)) % 2 ^ 64 in
    if ltb bits (2 ^ 63) then pos bits else negsuc (2 ^ 64 - 1 - bits)

pub wrap-IsInt : (p n : ℕ) → IsInt (wrap p n)
unfolding wrap
wrap-IsInt p n = ground arith

-- Within the range nothing wraps.
pub wrap_parts :
    (p n : ℕ) → p < n + 2 ^ 63 → n ≤ p + 2 ^ 63 → pos_part (wrap p n) + n ≡ neg_part (wrap p n) + p
unfolding wrap
wrap_parts p n h k = ground arith

infixl 65 ◌+ℤ◌ ◌-ℤ◌
-- `a + b` and `a - b` on `int`.
unfoldable pub ◌+ℤ◌ : ℤ → ℤ → ℤ
unfolding wrap
a +ℤ b = wrap (pos_part a + pos_part b) (neg_part a + neg_part b)

unfoldable pub ◌-ℤ◌ : ℤ → ℤ → ℤ
unfolding wrap
a -ℤ b = wrap (pos_part a + neg_part b) (neg_part a + pos_part b)

-- Numbers so far from the ends of the range that a sum or difference of two of them does not wrap.
abbrev pub IsSmall : ℤ → Type 0
IsSmall z = (pos_part z < 2 ^ 62) × (neg_part z < 2 ^ 62)

pub -ℤ_parts :
    (a b : ℤ)
    → pos_part a + neg_part b < neg_part a + pos_part b + 2 ^ 63
    → neg_part a + pos_part b ≤ pos_part a + neg_part b + 2 ^ 63
    → pos_part (a -ℤ b) + (neg_part a + pos_part b) ≡ neg_part (a -ℤ b) + (pos_part a + neg_part b)
unfolding ◌-ℤ◌
-ℤ_parts a b h k = wrap_parts (pos_part a + neg_part b) (neg_part a + pos_part b) h k

pub +ℤ_parts :
    (a b : ℤ)
    → pos_part a + pos_part b < neg_part a + neg_part b + 2 ^ 63
    → neg_part a + neg_part b ≤ pos_part a + pos_part b + 2 ^ 63
    → pos_part (a +ℤ b) + (neg_part a + neg_part b) ≡ neg_part (a +ℤ b) + (pos_part a + pos_part b)
unfolding ◌+ℤ◌
+ℤ_parts a b h k = wrap_parts (pos_part a + pos_part b) (neg_part a + neg_part b) h k

-- Of the two parts one is zero.
pub parts_apart : (a : ℤ) → (pos_part a ≡ 0) ⊎ (neg_part a ≡ 0)
parts_apart (pos n) = inr refl
parts_apart (negsuc n) = inl refl

-- `h - m - 1` as an index: it is i exactly when h is i + 1 beyond m.
pub offset_pos :
    (h m : ℤ) (i : ℕ)
    → IsSmall h
    → IsSmall m
    → (h -ℤ m -ℤ pos 1 ≡ pos i) ↔ (pos_part h + neg_part m ≡ neg_part h + pos_part m + (i + 1))
offset_pos h m i hh hm = (
  λ e. omega (
    arith,
    ap pos_part e,
    ap neg_part e,
    -ℤ_parts h m,
    -ℤ_parts (h -ℤ m) (pos 1),
    parts_apart (h -ℤ m),
  ),
  λ e. eq_of_parts _ _ (
      omega (
        arith,
        -ℤ_parts h m,
        -ℤ_parts (h -ℤ m) (pos 1),
        parts_apart (h -ℤ m),
        parts_apart (h -ℤ m -ℤ pos 1),
      )),
)

pub offset_neg : (h m : ℤ) (i : ℕ) → IsSmall h → IsSmall m → h -ℤ m -ℤ pos 1 ≡ negsuc i → h ≤ℤ m
offset_neg h m i hh hm e = omega (
  arith,
  ap pos_part e,
  ap neg_part e,
  -ℤ_parts h m,
  -ℤ_parts (h -ℤ m) (pos 1),
  parts_apart (h -ℤ m),
)
