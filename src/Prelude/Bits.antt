-- ===== src/Prelude/Bits.antt =====
-- `|` of disjoint fields and `&` with a mask of low bits, as arithmetic.
use Prim.Native.Nat.{
  ℕ, zero, suc, ◌+◌, ◌-◌, ◌*◌, ◌/◌, ◌%◌, ◌^◌, ◌<◌, ◌≤◌, min, max, bit_and, bit_or, digits,
  bit_and-bitwise, bit_or-bitwise,
}
use mathlib.Core.Path.{◌≡◌, refl, ap, ◌∙◌}
use native.Mathlib.Omega.{arith}
use native.Mathlib.Nat.{
  pow-suc, one-le-pow, div-add-mod, mod-lt, mod-eq_of_lt, add-mul-mod_self_right,
}

-- The digit recursion with its fuel apart from its argument.
abbrev or_rounds : ℕ → ℕ → ℕ → ℕ
or_rounds n a b = digits (λ d. d) max n a b

abbrev and_rounds : ℕ → ℕ → ℕ → ℕ
and_rounds n a b = digits (λ d. zero) min n a b

-- More fuel than the number has digits changes nothing.
or_rounds-more : (n m a b : ℕ) → a ≤ n → n ≤ m → or_rounds m a b ≡ or_rounds n a b
or_rounds-more zero zero zero b p q = refl
or_rounds-more zero (suc m) zero b p q = refl
or_rounds-more zero m (suc a) b p q = absurd (omega arith)
or_rounds-more (suc n) zero a b p q = absurd (omega arith)
or_rounds-more (suc n) (suc m) zero b p q = refl
or_rounds-more (suc n) (suc m) (suc a) b p q =
    omega (arith, or_rounds-more n m (suc a / 2) (b / 2) (omega arith) (omega arith))

and_rounds-more : (n m a b : ℕ) → a ≤ n → n ≤ m → and_rounds m a b ≡ and_rounds n a b
and_rounds-more zero zero zero b p q = refl
and_rounds-more zero (suc m) zero b p q = refl
and_rounds-more zero m (suc a) b p q = absurd (omega arith)
and_rounds-more (suc n) zero a b p q = absurd (omega arith)
and_rounds-more (suc n) (suc m) zero b p q = refl
and_rounds-more (suc n) (suc m) (suc a) b p q =
    omega (arith, and_rounds-more n m (suc a / 2) (b / 2) (omega arith) (omega arith))

-- The lowest digit splits off.
or_halves : (a b : ℕ) → bit_or a b ≡ 2 * bit_or (a / 2) (b / 2) + max (a % 2) (b % 2)
or_halves zero b = omega (arith, bit_or-bitwise 0 b, bit_or-bitwise 0 (b / 2))
or_halves (suc a) b = omega (
  arith,
  bit_or-bitwise (suc a) b,
  bit_or-bitwise (suc a / 2) (b / 2),
  or_rounds-more (suc a / 2) a (suc a / 2) (b / 2) (omega arith) (omega arith),
)

and_halves : (a b : ℕ) → bit_and a b ≡ 2 * bit_and (a / 2) (b / 2) + min (a % 2) (b % 2)
and_halves zero b = omega (arith, bit_and-bitwise 0 b, bit_and-bitwise 0 (b / 2))
and_halves (suc a) b = omega (
  arith,
  bit_and-bitwise (suc a) b,
  bit_and-bitwise (suc a / 2) (b / 2),
  and_rounds-more (suc a / 2) a (suc a / 2) (b / 2) (omega arith) (omega arith),
)

or_nothing : (n a : ℕ) → a ≤ n → bit_or a 0 ≡ a
or_nothing n zero h = omega (arith, bit_or-bitwise 0 0)
or_nothing zero (suc a) h = absurd (omega arith)
or_nothing (suc n) (suc a) h =
    omega (arith, or_halves (suc a) 0, or_nothing n (suc a / 2) (omega arith))

and_nothing : (n a : ℕ) → a ≤ n → bit_and a 0 ≡ 0
and_nothing n zero h = omega (arith, bit_and-bitwise 0 0)
and_nothing zero (suc a) h = absurd (omega arith)
and_nothing (suc n) (suc a) h =
    omega (arith, and_halves (suc a) 0, and_nothing n (suc a / 2) (omega arith))

-- `h << k | l` is a sum if `l` has at most `k` bits.
pub bit_or_shifted : (k h l : ℕ) → l < 2 ^ k → bit_or (h * 2 ^ k) l ≡ h * 2 ^ k + l
bit_or_shifted zero h l fits = grind (arith, or_nothing h h)
bit_or_shifted (suc k) h l fits =
    let twice : h * 2 ^ suc k ≡ 2 * (h * 2 ^ k) =
      omega (arith, ap (λ (t : ℕ). h * t) (pow-suc 2 k)) in
    let room : l / 2 < 2 ^ k = omega (arith, pow-suc 2 k) in
    ground (arith, twice, or_halves (h * 2 ^ suc k) l, bit_or_shifted k h (l / 2) room)

-- The remainder by `2^(k+1)` from that of the half.
mod-two-pow : (k a : ℕ) → a % 2 ^ suc k ≡ 2 * (a / 2 % 2 ^ k) + a % 2
mod-two-pow k a =
    let split = div-add-mod (a / 2) (2 ^ k) in
    let small : a / 2 % 2 ^ k < 2 ^ k = mod-lt (a / 2) (one-le-pow k 2 (omega arith)) in
    let q = a / 2 / 2 ^ k in
    let r = 2 * (a / 2 % 2 ^ k) + a % 2 in
    let fits : r < 2 ^ suc k = omega (arith, pow-suc 2 k, split, small) in
    let whole : a ≡ r + q * 2 ^ suc k =
      omega (arith, pow-suc 2 k, ap (λ (t : ℕ). q * t) (pow-suc 2 k), split) in
    ap (λ t. t % 2 ^ suc k) whole ∙ add-mul-mod_self_right r q (2 ^ suc k) ∙ mod-eq_of_lt fits

-- `a & (2^k - 1)` is the remainder by `2^k`.
pub bit_and_low : (k a : ℕ) → bit_and a (2 ^ k - 1) ≡ a % 2 ^ k
bit_and_low zero a = grind (arith, and_nothing a a)
bit_and_low (suc k) a = ground (
  arith,
  pow-suc 2 k,
  one-le-pow k 2,
  mod-two-pow k a,
  and_halves a (2 ^ suc k - 1),
  bit_and_low k (a / 2),
)
