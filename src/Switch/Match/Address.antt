-- ===== src/Switch/Match/Address.antt =====
-- What the tests on masked addresses and on hardware addresses decide (`strict_nw`, `nonstrict_nw`,
-- `pkt_nw` and the `dladdr` tests of examples/switch/flow.hh), bit by bit and byte by byte.
use libfluid.Prelude.{
  ℕ, zero, suc, ◌-◌, ◌^◌, ◌<◌, min, max, ◌≡◌, ap, ◌⊎◌, inl, inr, ◌↔◌, true, bit_and, bit_or,
  bit_xor, arith, ◌==◌, ==_iff, &&_iff, bit, bit_not, bit-lt, bit-and, bit-or, bit-xor, bit-not,
  bit_and-lt, bit_xor-lt, zero_of_bits, bit-zero,
}
use libfluid.Switch.Match.{EthAddress, strict_nw, nonstrict_nw, pkt_nw, low_word, high_half}

abbrev pub IsWord : ℕ → Type 0
IsWord x = x < 2 ^ 32

-- Every bit of a 32-bit word.
abbrev pub AllBits : (ℕ → Type 0) → Type 0
AllBits P = (i : ℕ) → i < 32 → P i

-- A masked word is zero exactly when each bit is.
masked_zero :
    (x y : ℕ)
    → x < 2 ^ 32
    → ((bit_and x y == 0) ≡ true) ↔ AllBits (λ i. min (bit x i) (bit y i) ≡ 0)
masked_zero x y h = (forth, back)
  where
    forth : (bit_and x y == 0) ≡ true → AllBits (λ i. min (bit x i) (bit y i) ≡ 0)
    forth e i p =
        let z : bit_and x y ≡ 0 = (==_iff _ _).0 e in
        omega (arith, bit-and x y i, ap (λ t. bit t i) z, bit-zero i)

    back : AllBits (λ i. min (bit x i) (bit y i) ≡ 0) → (bit_and x y == 0) ≡ true
    back all =
        (==_iff _ _).1
          (zero_of_bits 32 (bit_and x y) (bit_and-lt 32 x y h) (λ i p. rw bit-and (all i p)))

not-IsWord : (x : ℕ) → bit_not 32 x < 2 ^ 32
not-IsWord x = omega arith

-- A packet's address passes exactly when it has the flow's bits wherever the mask is 0.
pub pkt_nw_iff :
    (a b am : ℕ)
    → IsWord am
    → (pkt_nw a b am ≡ true) ↔ AllBits (λ i. (bit am i ≡ 1) ⊎ (bit a i ≡ bit b i))
unfolding pkt_nw
pkt_nw_iff a b am h = (forth, back)
  where
    zeros :
        ((bit_and (bit_not 32 am) (bit_xor a b) == 0) ≡ true)
        ↔ AllBits (λ i. min (bit (bit_not 32 am) i) (bit (bit_xor a b) i) ≡ 0)
    zeros = masked_zero (bit_not 32 am) (bit_xor a b) (not-IsWord am)

    forth : pkt_nw a b am ≡ true → AllBits (λ i. (bit am i ≡ 1) ⊎ (bit a i ≡ bit b i))
    forth e i p = ground (
      arith,
      zeros.0 e i p,
      bit-not 32 am i h p,
      bit-xor a b i,
      bit-lt am i,
      bit-lt a i,
      bit-lt b i,
    )

    back : AllBits (λ i. (bit am i ≡ 1) ⊎ (bit a i ≡ bit b i)) → pkt_nw a b am ≡ true
    back all = zeros.1 λ i p.
        ground
          (arith, all i p, bit-not 32 am i h p, bit-xor a b i, bit-lt am i, bit-lt a i, bit-lt b i)

-- Two masked addresses are strictly the same when the masks are and every bit outside them is.
pub strict_nw_iff :
    (a b am bm : ℕ)
    → IsWord a
    → IsWord am
    → IsWord b
    → (strict_nw a b am bm ≡ true)
      ↔ ((am ≡ bm) × AllBits (λ i. (bit am i ≡ 1) ⊎ (bit a i ≡ bit b i)))
unfolding strict_nw
strict_nw_iff a b am bm ha hm hb = (forth, back)
  where
    zeros :
        ((bit_and (bit_xor a b) (bit_not 32 am) == 0) ≡ true)
        ↔ AllBits (λ i. min (bit (bit_xor a b) i) (bit (bit_not 32 am) i) ≡ 0)
    zeros = masked_zero (bit_xor a b) (bit_not 32 am) (bit_xor-lt 32 a b ha hb)

    forth :
        strict_nw a b am bm ≡ true → (am ≡ bm) × AllBits (λ i. (bit am i ≡ 1) ⊎ (bit a i ≡ bit b i))
    forth e =
        let both = (&&_iff _ _).0 e in
        (
          (==_iff am bm).0 both.0,
          λ i p. ground (
            arith,
            zeros.0 both.1 i p,
            bit-not 32 am i hm p,
            bit-xor a b i,
            bit-lt am i,
            bit-lt a i,
            bit-lt b i,
          ),
        )

    back :
        (am ≡ bm) × AllBits (λ i. (bit am i ≡ 1) ⊎ (bit a i ≡ bit b i)) → strict_nw a b am bm ≡ true
    back (e, all) = (&&_iff _ _).1 (
      (==_iff am bm).1 e,
      zeros.1 λ i p. ground (
        arith,
        all i p,
        bit-not 32 am i hm p,
        bit-xor a b i,
        bit-lt am i,
        bit-lt a i,
        bit-lt b i,
      ),
    )

masked_digits :
    (m a b n : ℕ)
    → m < 2
    → a < 2
    → b < 2
    → n < 2
    → min (min (1 - m) (max (max (1 - a) (1 - b)) n)) (max (max a b) n) ≡ 0
    → (m ≡ 1) ⊎ ((n ≡ 0) × (a ≡ b))
masked_digits zero a b n p q r s e = inr (omega arith, omega arith)
masked_digits (suc m) a b n p q r s e = inl (omega arith)

-- Address `a` covers address `b` exactly when at each bit `a` is masked, or `b` is not and the two
-- agree.
pub nonstrict_nw_iff :
    (a b am bm : ℕ)
    → IsWord a
    → IsWord b
    → IsWord am
    → (nonstrict_nw a b am bm ≡ true)
      ↔ AllBits (λ i. (bit am i ≡ 1) ⊎ ((bit bm i ≡ 0) × (bit a i ≡ bit b i)))
unfolding nonstrict_nw
nonstrict_nw_iff a b am bm ha hb hm = (forth, back)
  where
    left : ℕ
    left = bit_and (bit_not 32 am) (bit_or (bit_or (bit_not 32 a) (bit_not 32 b)) bm)

    zeros :
        ((bit_and left (bit_or (bit_or a b) bm) == 0) ≡ true)
        ↔ AllBits (λ i. min (bit left i) (bit (bit_or (bit_or a b) bm) i) ≡ 0)
    zeros = masked_zero left (bit_or (bit_or a b) bm) (bit_and-lt 32 _ _ (not-IsWord am))

    left_bit :
        (i : ℕ)
        → i < 32
        → bit left i ≡ min (1 - bit am i) (max (max (1 - bit a i) (1 - bit b i)) (bit bm i))
    left_bit i p =
        rw
          (
            bit-and (bit_not 32 am),
            bit-or (bit_or (bit_not 32 a) (bit_not 32 b)),
            bit-or (bit_not 32 a),
          )
          (rw (bit-not 32 am i hm p, bit-not 32 a i ha p, bit-not 32 b i hb p))

    right_bit : (i : ℕ) → bit (bit_or (bit_or a b) bm) i ≡ max (max (bit a i) (bit b i)) (bit bm i)
    right_bit i = rw (bit-or (bit_or a b) bm i, bit-or a b i)

    forth :
        nonstrict_nw a b am bm ≡ true
        → AllBits (λ i. (bit am i ≡ 1) ⊎ ((bit bm i ≡ 0) × (bit a i ≡ bit b i)))
    forth e i p =
        masked_digits _ _ _ _ (bit-lt am i) (bit-lt a i) (bit-lt b i) (bit-lt bm i)
          (omega (arith, zeros.0 e i p, left_bit i p, right_bit i))

    back :
        AllBits (λ i. (bit am i ≡ 1) ⊎ ((bit bm i ≡ 0) × (bit a i ≡ bit b i)))
        → nonstrict_nw a b am bm ≡ true
    back all =
        zeros.1 λ i p. omega (arith, all i p, left_bit i p, right_bit i, bit-lt a i, bit-lt b i)

-- The bytes of an address, as 32 and 16 bits at a time.
abbrev pub IsEthAddress : EthAddress → Type 0
IsEthAddress a =
    (a.b0 < 256) × (a.b1 < 256) × (a.b2 < 256) × (a.b3 < 256) × (a.b4 < 256) × (a.b5 < 256)

pub words_injective :
    (a b : EthAddress)
    → IsEthAddress a
    → IsEthAddress b
    → low_word a ≡ low_word b
    → high_half a ≡ high_half b
    → a ≡ b
unfolding low_word high_half
words_injective a b ha hb lo hi = ground arith
