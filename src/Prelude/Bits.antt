-- ===== src/Prelude/Bits.antt =====
-- Bits of a number, and what the native bit operations do to each of them.
use Prim.Native.Nat.{
  ℕ, zero, suc, ◌+◌, ◌-◌, ◌*◌, ◌/◌, ◌%◌, ◌^◌, ◌≤◌, ◌<◌, min, max, bit_and, bit_or, bit_xor, digits,
  bitwise, differ, bit_and-bitwise, bit_or-bitwise, bit_xor-bitwise,
}
use mathlib.Core.Path.{◌≡◌, refl, sym, ap, subst, ◌∙◌}
use native.Mathlib.Nat.{pow-suc}
use native.Mathlib.Omega.{arith}

-- Bit i of x, the lowest being bit 0.
abbrev pub bit : ℕ → ℕ → ℕ
bit x zero = x % 2
bit x (suc i) = bit (x / 2) i

-- `~x` on a w-bit word.
abbrev pub bit_not : ℕ → ℕ → ℕ
bit_not w x = 2 ^ w - 1 - x

-- The recursion `digits` of the library, which `bitwise` starts with fuel a, digit by digit.
module _ (z : ℕ → ℕ) (f : ℕ → ℕ → ℕ) where
  digits_more : (n a b : ℕ) → a ≤ n → digits z f (suc n) a b ≡ digits z f n a b
  digits_more zero zero b h = refl
  digits_more zero (suc a) b h = absurd (omega arith)
  digits_more (suc n) zero b h = refl
  digits_more (suc n) (suc a) b h = rw (digits_more n (suc a / 2) (b / 2) (omega arith)) refl

  digits_above : (k n a b : ℕ) → a ≤ n → digits z f (k + n) a b ≡ digits z f n a b
  digits_above zero n a b h = ap (λ m. digits z f m a b) (omega arith)
  digits_above (suc k) n a b h =
      let next : suc k + n ≡ suc (k + n) = omega arith in
      rw next (digits_more (k + n) a b (omega arith) ∙ digits_above k n a b h)

  lowest_digit :
      ((b : ℕ) → z b ≡ z (b / 2) * 2 + f 0 (b % 2))
      → (a b : ℕ) → bitwise z f a b ≡ bitwise z f (a / 2) (b / 2) * 2 + f (a % 2) (b % 2)
  lowest_digit start zero b = start b
  lowest_digit start (suc a) b =
      let high = suc a / 2 in
      let spare : a ≡ (a - high) + high = omega arith in
      let same : digits z f a high (b / 2) ≡ bitwise z f high (b / 2) =
        subst (λ n. digits z f n high (b / 2) ≡ bitwise z f high (b / 2)) (sym spare)
          (digits_above (a - high) high high (b / 2) (omega arith)) in
      omega (arith, same)

bit_and_step : (a b : ℕ) → min (a % 2) (b % 2) + bit_and (a / 2) (b / 2) * 2 ≡ bit_and a b
bit_and_step a b =
    simp bit_and-bitwise (omega (arith, lowest_digit (λ y. 0) min (λ y. omega arith) a b))

bit_or_step : (a b : ℕ) → max (a % 2) (b % 2) + bit_or (a / 2) (b / 2) * 2 ≡ bit_or a b
bit_or_step a b =
    simp bit_or-bitwise (omega (arith, lowest_digit (λ y. y) max (λ y. omega arith) a b))

differ_digits : (a b : ℕ) → a < 2 → b < 2 → differ a b ≡ (a + b) % 2
differ_digits zero b p q = omega arith
differ_digits (suc zero) zero p q = refl
differ_digits (suc zero) (suc zero) p q = refl
differ_digits (suc zero) (suc (suc b)) p q = absurd (omega arith)
differ_digits (suc (suc a)) b p q = absurd (omega arith)

bit_xor_step : (a b : ℕ) → (a % 2 + b % 2) % 2 + bit_xor (a / 2) (b / 2) * 2 ≡ bit_xor a b
bit_xor_step a b =
    let start : (y : ℕ) → y ≡ y / 2 * 2 + differ 0 (y % 2) =
      λ y. omega (arith, differ_digits 0 (y % 2) (omega arith) (omega arith)) in
    simp bit_xor-bitwise (
      omega (
        arith,
        lowest_digit (λ y. y) differ start a b,
        differ_digits (a % 2) (b % 2) (omega arith) (omega arith),
      ))

pub bit-lt : (x i : ℕ) → bit x i < 2
bit-lt x zero = omega arith
bit-lt x (suc i) = bit-lt (x / 2) i

pub bit-and : (a b i : ℕ) → bit (bit_and a b) i ≡ min (bit a i) (bit b i)
bit-and a b zero = omega (arith, bit_and_step a b)
bit-and a b (suc i) =
    let half : bit_and a b / 2 ≡ bit_and (a / 2) (b / 2) = omega (arith, bit_and_step a b) in
    rw half (bit-and (a / 2) (b / 2) i)

pub bit-or : (a b i : ℕ) → bit (bit_or a b) i ≡ max (bit a i) (bit b i)
bit-or a b zero = omega (arith, bit_or_step a b)
bit-or a b (suc i) =
    let half : bit_or a b / 2 ≡ bit_or (a / 2) (b / 2) = omega (arith, bit_or_step a b) in
    rw half (bit-or (a / 2) (b / 2) i)

pub bit-xor : (a b i : ℕ) → bit (bit_xor a b) i ≡ (bit a i + bit b i) % 2
bit-xor a b zero = omega (arith, bit_xor_step a b)
bit-xor a b (suc i) =
    let half : bit_xor a b / 2 ≡ bit_xor (a / 2) (b / 2) = omega (arith, bit_xor_step a b) in
    rw half (bit-xor (a / 2) (b / 2) i)

pub bit-not : (w x i : ℕ) → x < 2 ^ w → i < w → bit (bit_not w x) i ≡ 1 - bit x i
bit-not zero x i fits h = absurd (omega arith)
bit-not (suc w) x zero fits h = omega (arith, pow-suc 2 w)
bit-not (suc w) x (suc i) fits h =
    let half : bit_not (suc w) x / 2 ≡ bit_not w (x / 2) = omega (arith, pow-suc 2 w) in
    rw half (bit-not w (x / 2) i (omega (arith, pow-suc 2 w)) (omega arith))

pub zero-bit_and : (b : ℕ) → bit_and 0 b ≡ 0
zero-bit_and b = bit_and-bitwise 0 b

pub bit_and-lt : (w a b : ℕ) → a < 2 ^ w → bit_and a b < 2 ^ w
bit_and-lt zero a b h = let e : a ≡ 0 = omega arith in rw (e, zero-bit_and) (omega arith)
bit_and-lt (suc w) a b h = omega (
  arith,
  pow-suc 2 w,
  bit_and_step a b,
  bit_and-lt w (a / 2) (b / 2) (omega (arith, pow-suc 2 w)),
)

pub bit_xor-lt : (w a b : ℕ) → a < 2 ^ w → b < 2 ^ w → bit_xor a b < 2 ^ w
bit_xor-lt zero a b h k =
    let e : a ≡ 0 = omega arith in let f : b ≡ 0 = omega arith in rw (e, f) (omega arith)
bit_xor-lt (suc w) a b h k = omega (
  arith,
  pow-suc 2 w,
  bit_xor_step a b,
  bit_xor-lt w (a / 2) (b / 2) (omega (arith, pow-suc 2 w)) (omega (arith, pow-suc 2 w)),
)

-- A w-bit word is zero exactly when all its bits are.
pub zero_of_bits : (w x : ℕ) → x < 2 ^ w → ((i : ℕ) → i < w → bit x i ≡ 0) → x ≡ 0
zero_of_bits zero x fits h = omega arith
zero_of_bits (suc w) x fits h =
    let low : x % 2 ≡ 0 = h 0 (omega arith) in
    let high : x / 2 ≡ 0 =
      zero_of_bits w (x / 2) (omega (arith, pow-suc 2 w)) (λ i p. h (suc i) (omega arith)) in
    omega arith

pub bit-zero : (i : ℕ) → bit 0 i ≡ 0
bit-zero zero = refl
bit-zero (suc i) = bit-zero i
