-- ===== src/Common/Bits.antt =====
-- Flags: `or` and `and` of the binary digits, digit by digit.
use Prim.Native.Nat.{
  ℕ, zero, suc, ◌+◌, ◌-◌, ◌*◌, ◌/◌, ◌%◌, ◌^◌, ◌≤◌, ◌<◌, min, max, bit_and, bit_or, digits,
  bit_and-bitwise, bit_or-bitwise,
}
use mathlib.Core.Path.{◌≡◌, refl, sym, ap, ◌∙◌}
use native.Mathlib.Omega.{arith}
use native.Mathlib.Nat.{pow-suc}

-- An operation on binary digits: `f` on the digits, `z` for the rest once the first number is 0,
-- where the two are to agree on the last digit.
module _ (z : ℕ → ℕ) (f : ℕ → ℕ → ℕ) (rest : (b : ℕ) → z b ≡ z (b / 2) * 2 + f 0 (b % 2)) where
  spent : (n y : ℕ) → digits z f n 0 y ≡ z y
  spent zero y = refl
  spent (suc n) y = refl

  -- Fuel beyond the number is left over.
  left_over : (n x y k : ℕ) → x ≤ n → digits z f (n + k) x y ≡ digits z f n x y
  left_over n zero y k h = spent (n + k) y ∙ sym (spent n y)
  left_over (suc n) (suc x) y k h =
      let q = suc x / 2 in
      let shift : suc n + k ≡ suc (n + k) = omega arith in
      ap (λ m. digits z f m (suc x) y) shift
      ∙ ap (λ d. d * 2 + f (suc x % 2) (y % 2)) (left_over n q (y / 2) k (omega arith))
  left_over zero (suc x) y k h = absurd (omega arith)

  halved : (x y : ℕ) → digits z f x x y ≡ digits z f (x / 2) (x / 2) (y / 2) * 2 + f (x % 2) (y % 2)
  halved zero y = rest y
  halved (suc x) y =
      let q = suc x / 2 in
      let fits : q + (x - q) ≡ x = omega arith in
      let e = ap (λ n. digits z f n q (y / 2)) fits in
      let l = left_over q q (y / 2) (x - q) (omega arith) in
      ap (λ d. d * 2 + f (suc x % 2) (y % 2)) (sym e ∙ l)

or_halved : (x y : ℕ) → bit_or x y ≡ bit_or (x / 2) (y / 2) * 2 + max (x % 2) (y % 2)
or_halved x y =
    let h = halved (λ r. r) max (λ r. omega arith) x y in
    omega (arith, h, bit_or-bitwise x y, bit_or-bitwise (x / 2) (y / 2))

and_halved : (x y : ℕ) → bit_and x y ≡ bit_and (x / 2) (y / 2) * 2 + min (x % 2) (y % 2)
and_halved x y =
    let h = halved (λ r. 0) min (λ r. omega arith) x y in
    omega (arith, h, bit_and-bitwise x y, bit_and-bitwise (x / 2) (y / 2))

-- `a | b` has the bits of both, and is at most their sum.
bit_or_bounds_below :
    (k a b : ℕ) → a ≤ k → (a ≤ bit_or a b) × (b ≤ bit_or a b) × (bit_or a b ≤ a + b)
bit_or_bounds_below zero zero b h = omega (arith, bit_or-bitwise 0 b)
bit_or_bounds_below zero (suc a) b h = absurd (omega arith)
bit_or_bounds_below (suc k) zero b h = omega (arith, bit_or-bitwise 0 b)
bit_or_bounds_below (suc k) (suc a) b h =
    omega (arith, or_halved (suc a) b, bit_or_bounds_below k (suc a / 2) (b / 2) (omega arith))

pub bit_or_bounds : (a b : ℕ) → (a ≤ bit_or a b) × (b ≤ bit_or a b) × (bit_or a b ≤ a + b)
bit_or_bounds a b = bit_or_bounds_below a a b (omega arith)

pub bit_or-pow : (k a b : ℕ) → a < 2 ^ k → b < 2 ^ k → bit_or a b < 2 ^ k
bit_or-pow zero a b h l = omega (arith, bit_or_bounds a b)
bit_or-pow (suc k) a b h l =
    let p = pow-suc 2 k in
    omega
      (arith, or_halved a b, bit_or-pow k (a / 2) (b / 2) (omega (arith, p)) (omega (arith, p)), p)

-- Bit `k` of a number, 0 or 1.
abbrev pub bit : ℕ → ℕ → ℕ
bit zero a = a % 2
bit (suc k) a = bit k (a / 2)

pub bit-bit_or : (k a b : ℕ) → bit k (bit_or a b) ≡ max (bit k a) (bit k b)
bit-bit_or zero a b = omega (arith, or_halved a b)
bit-bit_or (suc k) a b =
    ap (bit k) (let e : bit_or a b / 2 ≡ bit_or (a / 2) (b / 2) = omega (arith, or_halved a b) in e)
    ∙ bit-bit_or k (a / 2) (b / 2)

-- Halving a bound on the first number.
and_none : (bound x : ℕ) → x < bound → bit_and x 0 ≡ 0
and_none (suc bound) zero h = omega (arith, bit_and-bitwise 0 0)
and_none (suc bound) (suc x) h =
    let half = and_none bound (suc x / 2) (omega arith) in omega (arith, and_halved (suc x) 0, half)
and_none zero x h = absurd (omega arith)

-- `a & (1 << k)` is bit `k` in its place.
pub bit_and-pow : (k a : ℕ) → bit_and a (2 ^ k) ≡ bit k a * 2 ^ k
bit_and-pow zero a = omega (arith, and_halved a 1, and_none (suc (a / 2)) (a / 2) (omega arith))
bit_and-pow (suc k) a =
    let double : 2 ^ suc k ≡ 2 ^ k * 2 = pow-suc 2 k in
    let halve : 2 ^ suc k / 2 ≡ 2 ^ k = omega (arith, double) in
    let even : bit_and a (2 ^ suc k) ≡ bit_and (a / 2) (2 ^ suc k / 2) * 2 =
      omega (arith, and_halved a (2 ^ suc k), double) in
    even ∙ ap (λ h. bit_and (a / 2) h * 2) halve ∙ grind (arith, bit_and-pow k (a / 2), double)
