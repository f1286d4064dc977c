-- ===== src/Prelude/Bytes.antt =====
-- A byte buffer, and the loads of C on a little-endian host. `none` is a read out of the buffer.
use Prim.Native.Nat.{ℕ, ◌+◌, ◌*◌, ◌/◌, ◌%◌, ◌^◌, ◌≤◌, ◌<◌}
use mathlib.Core.Path.{◌≡◌}
use mathlib.Core.List.{List}
use mathlib.Core.Option.{Option, some}
use native.Mathlib.Omega.{arith}
use libfluid.Prelude.Lists.{length, get_elem?, get_elem?-lt}
use libfluid.Prelude.Maybe.{◌>>=◌}

-- `*(uint8_t *)`, `*(uint16_t *)` and `*(uint32_t *)` at an offset.
unfoldable pub load8 : List ℕ → ℕ → Option ℕ
load8 buf off = get_elem? buf off

unfoldable pub load16 : List ℕ → ℕ → Option ℕ
load16 buf off = do lo ← get_elem? buf off; hi ← get_elem? buf (off + 1); some (lo + hi * 2 ^ 8)

unfoldable pub load32 : List ℕ → ℕ → Option ℕ
load32 buf off = do
  a ← get_elem? buf off
  b ← get_elem? buf (off + 1)
  c ← get_elem? buf (off + 2)
  d ← get_elem? buf (off + 3)
  some (a + b * 2 ^ 8 + c * 2 ^ 16 + d * 2 ^ 24)

-- `ntohs` and `htons` on a little-endian host.
abbrev pub ntoh16 : ℕ → ℕ
ntoh16 x = x % 2 ^ 8 * 2 ^ 8 + x / 2 ^ 8 % 2 ^ 8

-- The buffer holds the bytes that a load reads.
pub load8_total : (buf : List ℕ) (off : ℕ) → off < length buf → (v : ℕ) × (load8 buf off ≡ some v)
unfolding load8
load8_total buf off h = get_elem?-lt buf off h

pub load16_total :
    (buf : List ℕ) (off : ℕ) → off + 2 ≤ length buf → (v : ℕ) × (load16 buf off ≡ some v)
unfolding load16
load16_total buf off h =
    let (lo, e) = get_elem?-lt buf off (omega arith) in
    let (hi, f) = get_elem?-lt buf (off + 1) (omega arith) in (lo + hi * 2 ^ 8, rw (e, f))

pub load32_total :
    (buf : List ℕ) (off : ℕ) → off + 4 ≤ length buf → (v : ℕ) × (load32 buf off ≡ some v)
unfolding load32
load32_total buf off h =
    let (a, p) = get_elem?-lt buf off (omega arith) in
    let (b, q) = get_elem?-lt buf (off + 1) (omega arith) in
    let (c, r) = get_elem?-lt buf (off + 2) (omega arith) in
    let (d, s) = get_elem?-lt buf (off + 3) (omega arith) in
    (a + b * 2 ^ 8 + c * 2 ^ 16 + d * 2 ^ 24, rw (p, q, r, s))
