-- ===== src/Prelude/Bits.antt =====
-- Laws of `&` and `|` on fields of a word: both work digit by digit, so they act on the high and the
-- low part of a number apart.
use Prim.Native.Nat.{
  ℕ, zero, suc, ◌+◌, ◌-◌, ◌*◌, ◌/◌, ◌%◌, ◌^◌, ◌≤◌, ◌<◌, min, max, bit_and, bit_or, digits, bitwise,
  bit_and-bitwise, bit_or-bitwise,
}
use mathlib.Core.Path.{◌≡◌, refl, ap, sym, ◌∙◌}
use native.Mathlib.Nat.{pow-suc, one-le-pow}
use native.Mathlib.Omega.{arith}

module _ (rest : ℕ → ℕ) (digit : ℕ → ℕ → ℕ) where
  digits-zero : (fuel b : ℕ) → digits rest digit fuel zero b ≡ rest b
  digits-zero zero b = refl
  digits-zero (suc fuel) b = refl

  -- Any two fuels of at least the number give the same digits.
  digits_same : (n m a b : ℕ) → a ≤ n → a ≤ m → digits rest digit n a b ≡ digits rest digit m a b
  digits_same n m zero b p q = digits-zero n b ∙ sym (digits-zero m b)
  digits_same zero m (suc a) b p q = absurd (omega arith)
  digits_same (suc n) zero (suc a) b p q = absurd (omega arith)
  digits_same (suc n) (suc m) (suc a) b p q =
      let half = suc a / 2 in
      ap (λ t. t * 2 + digit (suc a % 2) (b % 2))
        (digits_same n m half (b / 2) (omega arith) (omega arith))

  bitwise_last :
      (a b : ℕ)
      → bitwise rest digit (suc a) b
        ≡ bitwise rest digit (suc a / 2) (b / 2) * 2 + digit (suc a % 2) (b % 2)
  bitwise_last a b =
      ap (λ t. t * 2 + digit (suc a % 2) (b % 2))
        (digits_same a (suc a / 2) (suc a / 2) (b / 2) (omega arith) (omega arith))

-- The last digit of `a & b`, and of `a | b`.
bit_and_last : (a b : ℕ) → bit_and a b ≡ bit_and (a / 2) (b / 2) * 2 + min (a % 2) (b % 2)
bit_and_last zero b = omega (arith, bit_and-bitwise 0 b, bit_and-bitwise 0 (b / 2))
bit_and_last (suc a) b = omega (
  arith,
  bit_and-bitwise (suc a) b,
  bit_and-bitwise (suc a / 2) (b / 2),
  bitwise_last (λ y. 0) min a b,
)

bit_or_last : (a b : ℕ) → bit_or a b ≡ bit_or (a / 2) (b / 2) * 2 + max (a % 2) (b % 2)
bit_or_last zero b = omega (arith, bit_or-bitwise 0 b, bit_or-bitwise 0 (b / 2))
bit_or_last (suc a) b = omega (
  arith,
  bit_or-bitwise (suc a) b,
  bit_or-bitwise (suc a / 2) (b / 2),
  bitwise_last (λ y. y) max a b,
)

double : (q k : ℕ) → q * 2 ^ suc k ≡ 2 * (q * 2 ^ k)
double q k = omega (arith, ap (λ (t : ℕ). q * t) (pow-suc 2 k))

-- `&` and `|` of numbers that are cut at bit `k`.
pub bit_and_cut :
    (k a b c d : ℕ)
    → b < 2 ^ k
    → d < 2 ^ k
    → bit_and (a * 2 ^ k + b) (c * 2 ^ k + d) ≡ bit_and a c * 2 ^ k + bit_and b d
bit_and_cut zero a b c d hb hd =
    let eb : b ≡ 0 = omega arith in
    let ed : d ≡ 0 = omega arith in
    let ea : a * 2 ^ 0 + 0 ≡ a = omega arith in
    let ec : c * 2 ^ 0 + 0 ≡ c = omega arith in rw (eb, ed, ea, ec) (omega arith)
bit_and_cut (suc k) a b c d hb hd = ground (
  arith,
  double a k,
  double c k,
  double (bit_and a c) k,
  pow-suc 2 k,
  bit_and_last (a * 2 ^ suc k + b) (c * 2 ^ suc k + d),
  bit_and_last b d,
  bit_and_cut k a (b / 2) c (d / 2) (omega arith) (omega arith),
)

pub bit_or_cut :
    (k a b c d : ℕ)
    → b < 2 ^ k
    → d < 2 ^ k
    → bit_or (a * 2 ^ k + b) (c * 2 ^ k + d) ≡ bit_or a c * 2 ^ k + bit_or b d
bit_or_cut zero a b c d hb hd =
    let eb : b ≡ 0 = omega arith in
    let ed : d ≡ 0 = omega arith in
    let ea : a * 2 ^ 0 + 0 ≡ a = omega arith in
    let ec : c * 2 ^ 0 + 0 ≡ c = omega arith in rw (eb, ed, ea, ec) (omega arith)
bit_or_cut (suc k) a b c d hb hd = ground (
  arith,
  double a k,
  double c k,
  double (bit_or a c) k,
  pow-suc 2 k,
  bit_or_last (a * 2 ^ suc k + b) (c * 2 ^ suc k + d),
  bit_or_last b d,
  bit_or_cut k a (b / 2) c (d / 2) (omega arith) (omega arith),
)

-- Masks of zeros and of ones, below 2 ^ k.
pub bit_and_zeros : (k a : ℕ) → a < 2 ^ k → bit_and a 0 ≡ 0
bit_and_zeros zero a h = let e : a ≡ 0 = omega arith in rw e
bit_and_zeros (suc k) a h =
    omega
      (arith, pow-suc 2 k, bit_and_last a 0, bit_and_zeros k (a / 2) (omega (arith, pow-suc 2 k)))

pub bit_and_ones : (k a : ℕ) → a < 2 ^ k → bit_and a (2 ^ k - 1) ≡ a
bit_and_ones zero a h = let e : a ≡ 0 = omega arith in rw e
bit_and_ones (suc k) a h =
    let halves : (2 ^ suc k - 1) / 2 ≡ 2 ^ k - 1 = omega (arith, pow-suc 2 k, one-le-pow k 2) in
    let ih = bit_and_ones k (a / 2) (omega (arith, pow-suc 2 k)) in
    omega (
      arith,
      pow-suc 2 k,
      one-le-pow k 2,
      bit_and_last a (2 ^ suc k - 1),
      ap (bit_and (a / 2)) halves,
      ih,
    )

pub bit_or_zeros : (k a : ℕ) → a < 2 ^ k → bit_or a 0 ≡ a
bit_or_zeros zero a h = let e : a ≡ 0 = omega arith in rw e
bit_or_zeros (suc k) a h =
    omega (arith, pow-suc 2 k, bit_or_last a 0, bit_or_zeros k (a / 2) (omega (arith, pow-suc 2 k)))

pub zeros_bit_or : (a : ℕ) → bit_or 0 a ≡ a
zeros_bit_or a = bit_or-bitwise 0 a

pub bit_or_ones : (k a : ℕ) → a < 2 ^ k → bit_or a (2 ^ k - 1) ≡ 2 ^ k - 1
bit_or_ones zero a h = let e : a ≡ 0 = omega arith in rw e
bit_or_ones (suc k) a h =
    let halves : (2 ^ suc k - 1) / 2 ≡ 2 ^ k - 1 = omega (arith, pow-suc 2 k, one-le-pow k 2) in
    let ih = bit_or_ones k (a / 2) (omega (arith, pow-suc 2 k)) in
    omega (
      arith,
      pow-suc 2 k,
      one-le-pow k 2,
      bit_or_last a (2 ^ suc k - 1),
      ap (bit_or (a / 2)) halves,
      ih,
    )

pub bit_or_self : (k a : ℕ) → a < 2 ^ k → bit_or a a ≡ a
bit_or_self zero a h = let e : a ≡ 0 = omega arith in rw e
bit_or_self (suc k) a h =
    omega (arith, pow-suc 2 k, bit_or_last a a, bit_or_self k (a / 2) (omega (arith, pow-suc 2 k)))

-- The same for numbers that are given as such a sum.
module _ (k a b c d x y : ℕ) (ex : x ≡ a * 2 ^ k + b) (ey : y ≡ c * 2 ^ k + d) where
  pub bit_and_at : b < 2 ^ k → d < 2 ^ k → bit_and x y ≡ bit_and a c * 2 ^ k + bit_and b d
  bit_and_at hb hd = rw (ex, ey) (bit_and_cut k a b c d hb hd)

  pub bit_or_at : b < 2 ^ k → d < 2 ^ k → bit_or x y ≡ bit_or a c * 2 ^ k + bit_or b d
  bit_or_at hb hd = rw (ex, ey) (bit_or_cut k a b c d hb hd)
