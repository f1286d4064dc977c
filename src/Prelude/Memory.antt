-- ===== src/Prelude/Memory.antt =====
-- Values in the memory of a little-endian host, and `memcpy` between buffers. `none` is an access out of
-- a buffer.
use Prim.Native.Nat.{ℕ, zero, suc, ◌+◌, ◌*◌, ◌<◌, ◌/◌, ◌%◌, ◌^◌, ◌≤◌}
use mathlib.Core.Path.{◌≡◌, refl, ap, ◌∙◌}
use mathlib.Core.List.{List, [], ◌∷◌, ◌++◌}
use mathlib.Core.Option.{Option, none, some}
use native.Mathlib.Omega.{arith}
use libfluid.Prelude.Lists.{length}
use mathlib.Core.Logic.{inl, inr}
use libfluid.Prelude.Tests.{Option-cases}
use libfluid.Prelude.Maybe.{◌>>=◌}

-- A `uint16_t`, a `uint32_t` and a `uint64_t`.
abbrev pub half_bytes : ℕ → List ℕ
half_bytes v = v % 2 ^ 8 ∷ v / 2 ^ 8 % 2 ^ 8 ∷ []

abbrev pub word_bytes : ℕ → List ℕ
word_bytes v = v % 2 ^ 8 ∷ v / 2 ^ 8 % 2 ^ 8 ∷ v / 2 ^ 16 % 2 ^ 8 ∷ v / 2 ^ 24 % 2 ^ 8 ∷ []

abbrev pub long_bytes : ℕ → List ℕ
long_bytes v = word_bytes (v % 2 ^ 32) ++ word_bytes (v / 2 ^ 32)

-- What a load makes of them.
pub half_joined : (v : ℕ) → v < 2 ^ 16 → v % 2 ^ 8 + v / 2 ^ 8 % 2 ^ 8 * 2 ^ 8 ≡ v
half_joined v h = omega arith

pub word_joined :
    (v : ℕ)
    → v < 2 ^ 32
    → v % 2 ^ 8
        + v / 2 ^ 8 % 2 ^ 8 * 2 ^ 8
        + v / 2 ^ 16 % 2 ^ 8 * 2 ^ 16
        + v / 2 ^ 24 % 2 ^ 8 * 2 ^ 24
      ≡ v
word_joined v h = omega arith

-- `memset` to 0.
abbrev pub zeros : ℕ → List ℕ
zeros zero = []
zeros (suc n) = 0 ∷ zeros n

-- The first bytes of a buffer.
unfoldable pub prefix : ℕ → List ℕ → Option (List ℕ)
prefix zero buf = some []
prefix (suc n) [] = none
prefix (suc n) (b ∷ buf) = prefix n buf >>= λ bs. some (b ∷ bs)

-- `memcpy(buf, src, length src)`
unfoldable pub overwrite : List ℕ → List ℕ → Option (List ℕ)
overwrite buf [] = some buf
overwrite [] (x ∷ src) = none
overwrite (b ∷ buf) (x ∷ src) = overwrite buf src >>= λ bs. some (x ∷ bs)

-- `memcpy(buf + off, src, length src)`
unfoldable pub memcpy : List ℕ → ℕ → List ℕ → Option (List ℕ)
memcpy buf zero src = overwrite buf src
memcpy [] (suc off) src = none
memcpy (b ∷ buf) (suc off) src = memcpy buf off src >>= λ bs. some (b ∷ bs)

pub length-zeros : (n : ℕ) → length (zeros n) ≡ n
length-zeros zero = refl
length-zeros (suc n) = ap suc (length-zeros n)

-- The bytes that `prefix` reads exist, and it returns as many as asked for.
pub prefix_total :
    (n : ℕ) (buf : List ℕ) → n ≤ length buf → (bs : List ℕ) × (prefix n buf ≡ some bs)
unfolding prefix
prefix_total zero buf h = ([], refl)
prefix_total (suc n) [] h = absurd (omega arith)
prefix_total (suc n) (b ∷ buf) h =
    let (bs, e) = prefix_total n buf (omega arith) in (b ∷ bs, rw (e, prefix) refl)

pub prefix-length :
    (n : ℕ) (buf bs : List ℕ) → prefix n buf ≡ some bs → (n ≤ length buf) × (length bs ≡ n)
unfolding prefix
prefix-length zero buf bs e = (omega arith, ground (arith, e))
prefix-length (suc n) [] bs e = absurd (ground (arith, e))
prefix-length (suc n) (b ∷ buf) bs e = elim (Option-cases (prefix n buf)) [
  | inl missing ↦ absurd (ground (arith, missing, e))
  | inr (rest, found) ↦
      let (inside, measured) = prefix-length n buf rest found in
      (omega arith, ground (arith, found, e, measured))
]

-- A buffer of zeros with its head overwritten.
pub overwrite-zeros :
    (src : List ℕ) (k : ℕ) → overwrite (zeros (length src + k)) src ≡ some (src ++ zeros k)
unfolding overwrite
overwrite-zeros [] k = let whole : 0 + k ≡ k = omega arith in rw whole refl
overwrite-zeros (x ∷ src) k =
    let next : suc (length src) + k ≡ suc (length src + k) = omega arith in
    rw (next, overwrite-zeros src k) refl

-- What is in front of the offset stays.
pub memcpy-append :
    (pre buf src : List ℕ)
    → memcpy (pre ++ buf) (length pre) src ≡ (overwrite buf src >>= λ bs. some (pre ++ bs))
unfolding memcpy
memcpy-append [] buf src = elim (Option-cases (overwrite buf src)) [
  | inl missing ↦ rw missing refl
  | inr (bs, found) ↦ rw found refl
]
memcpy-append (b ∷ pre) buf src =
    rw (memcpy-append pre buf src) (elim (Option-cases (overwrite buf src)) [
      | inl missing ↦ rw missing refl
      | inr (bs, found) ↦ rw found refl
    ])

-- The next part of a buffer that is filled from its start.
pub memcpy-zeros :
    (pre src : List ℕ) (k : ℕ)
    → memcpy (pre ++ zeros (length src + k)) (length pre) src ≡ some (pre ++ (src ++ zeros k))
memcpy-zeros pre src k =
    memcpy-append pre (zeros (length src + k)) src ∙ rw (overwrite-zeros src k) refl

overwrite-length :
    (buf src out : List ℕ)
    → overwrite buf src ≡ some out
    → (length src ≤ length buf) × (length out ≡ length buf)
unfolding overwrite
overwrite-length buf [] out e = (omega arith, ground (arith, e))
overwrite-length [] (x ∷ src) out e = absurd (ground (arith, e))
overwrite-length (b ∷ buf) (x ∷ src) out e = elim (Option-cases (overwrite buf src)) [
  | inl missing ↦ absurd (ground (arith, missing, e))
  | inr (rest, found) ↦
      let (inside, measured) = overwrite-length buf src rest found in
      (omega arith, ground (arith, found, e, measured))
]

-- A `memcpy` that stays in its buffer had the room.
pub memcpy-length :
    (buf : List ℕ) (off : ℕ) (src out : List ℕ)
    → memcpy buf off src ≡ some out
    → (off + length src ≤ length buf) × (length out ≡ length buf)
unfolding memcpy
memcpy-length buf zero src out e =
    let (inside, measured) = overwrite-length buf src out e in (omega arith, measured)
memcpy-length [] (suc off) src out e = absurd (ground (arith, e))
memcpy-length (b ∷ buf) (suc off) src out e = elim (Option-cases (memcpy buf off src)) [
  | inl missing ↦ absurd (ground (arith, missing, e))
  | inr (rest, found) ↦
      let (inside, measured) = memcpy-length buf off src rest found in
      (omega arith, ground (arith, found, e, measured))
]
