-- ===== src/Switch/Flow/Table.antt =====
-- The flow table as an ordered list: what insertion and the two loops of erasure do to it.
use libfluid.Prelude.{
  inr, ◌-◌, ◌<◌, ◌∙◌, ap, if◌then◌else◌, Bool-cases, ℕ, suc, ℕ, ◌≤◌, ◌≡◌, refl, ◌⊎◌, inl, ◌↔◌, true,
  false, [], ◌∷◌, arith, All, In, length, suc,
}
use libfluid.Switch.Flow.{
  Flow, FlowTable, strict_match, non_strict_match, cmp_priority, insert, erase_strict,
  erase_matching,
}

-- Priorities do not fall along the table.
abbrev pub IsSorted : FlowTable → Type 0
IsSorted [] = Unit {0}
IsSorted (f ∷ fs) = All (λ g. f.priority ≤ g.priority) fs × IsSorted fs

-- A flow whose IP addresses are masked in every bit.
abbrev pub HasFullMasks : Flow → Type 0
HasFullMasks f = (f.nw_src_mask ≡ 0xffffffff) × (f.nw_dst_mask ≡ 0xffffffff)

pub All-insert :
    (P : Flow → Type 0) (f : Flow) (fs : FlowTable) → P f → All P fs → All P (insert f fs)
unfolding insert
All-insert P f [] p ps = (p, tt)
All-insert P f (g ∷ fs) p ps = ground (arith, All-insert P f fs p ps.1)

pub All-erase_strict :
    (P : Flow → Type 0) (f : Flow) (fs : FlowTable) → All P fs → All P (erase_strict f fs)
unfolding erase_strict
All-erase_strict P f [] ps = tt
All-erase_strict P f (g ∷ fs) ps = ground (arith, All-erase_strict P f fs ps.1)

pub All-erase_matching :
    (P : Flow → Type 0) (f : Flow) (fs : FlowTable) → All P fs → All P (erase_matching f fs)
unfolding erase_matching
All-erase_matching P f [] ps = tt
All-erase_matching P f (g ∷ fs) ps = ground (arith, All-erase_matching P f fs ps.1)

All-le_trans :
    (m n : ℕ) (fs : FlowTable) → m ≤ n → All (λ g. n ≤ g.priority) fs → All (λ g. m ≤ g.priority) fs
All-le_trans m n [] h ps = tt
All-le_trans m n (f ∷ fs) h ps = (omega arith, All-le_trans m n fs h ps.1)

pub insert-IsSorted : (f : Flow) (fs : FlowTable) → IsSorted fs → IsSorted (insert f fs)
unfolding insert cmp_priority
insert-IsSorted f [] s = (tt, tt)
insert-IsSorted f (g ∷ fs) s = ground (
  arith,
  insert-IsSorted f fs s.1,
  All-le_trans f.priority g.priority fs,
  All-insert (λ h. g.priority ≤ h.priority) f fs,
)

pub erase_strict-IsSorted : (f : Flow) (fs : FlowTable) → IsSorted fs → IsSorted (erase_strict f fs)
unfolding erase_strict
erase_strict-IsSorted f [] s = tt
erase_strict-IsSorted f (g ∷ fs) s = ground (
  arith,
  erase_strict-IsSorted f fs s.1,
  All-erase_strict (λ h. g.priority ≤ h.priority) f fs s.0,
)

pub erase_matching-IsSorted :
    (f : Flow) (fs : FlowTable) → IsSorted fs → IsSorted (erase_matching f fs)
unfolding erase_matching
erase_matching-IsSorted f [] s = tt
erase_matching-IsSorted f (g ∷ fs) s = ground (
  arith,
  erase_matching-IsSorted f fs s.1,
  All-erase_matching (λ h. g.priority ≤ h.priority) f fs s.0,
)

-- After an ADD with no buffered packet: what stands in the table.
In-insert : (f g : Flow) (fs : FlowTable) → In g (insert f fs) ↔ ((g ≡ f) ⊎ In g fs)
unfolding insert
In-insert f g [] = ((λ h. h), (λ h. h))
In-insert f g (x ∷ fs) =
    let ih = In-insert f g fs in ((λ h. ground (arith, ih.0)), (λ h. ground (arith, ih.1)))

-- Erasure of what a new flow replaces takes nothing but strict matches away,
In-erase_strict :
    (f g : Flow) (fs : FlowTable) → In g fs → In g (erase_strict f fs) ⊎ (strict_match g f ≡ true)
unfolding erase_strict
In-erase_strict f g [] h = absurd h
In-erase_strict f g (x ∷ fs) h = ground (arith, In-erase_strict f g fs)

-- and adds nothing.
In-of_erase_strict : (f g : Flow) (fs : FlowTable) → In g (erase_strict f fs) → In g fs
unfolding erase_strict
In-of_erase_strict f g [] h = h
In-of_erase_strict f g (x ∷ fs) h = ground (arith, In-of_erase_strict f g fs)

length-insert : (f : Flow) (fs : FlowTable) → length (insert f fs) ≡ suc (length fs)
unfolding insert
length-insert f [] = refl
length-insert f (x ∷ fs) = ground (arith, length-insert f fs)

-- The number of flows that an ADD would replace.
abbrev pub replaceable : Flow → FlowTable → ℕ
replaceable f [] = 0
replaceable f (g ∷ fs) = let rest = replaceable f fs in if strict_match g f then suc rest else rest

replaceable-erase_strict :
    (f : Flow) (fs : FlowTable) → replaceable f (erase_strict f fs) ≡ replaceable f fs - 1
unfolding erase_strict
replaceable-erase_strict f [] = omega arith
replaceable-erase_strict f (x ∷ fs) = elim (Bool-cases (strict_match x f)) [
  | inl hit ↦ ground (arith, hit)
  | inr miss ↦ ground (arith, miss, replaceable-erase_strict f fs)
]

length-erase_strict_exact :
    (f : Flow) (fs : FlowTable)
    → 0 < replaceable f fs
    → suc (length (erase_strict f fs)) ≡ length fs
unfolding erase_strict
length-erase_strict_exact f [] h = absurd (omega arith)
length-erase_strict_exact f (x ∷ fs) h = elim (Bool-cases (strict_match x f)) [
  | inl hit ↦ ground (arith, hit)
  | inr miss ↦ ground (arith, h, miss, length-erase_strict_exact f fs)
]

erase_strict-none : (f : Flow) (fs : FlowTable) → replaceable f fs ≡ 0 → erase_strict f fs ≡ fs
unfolding erase_strict
erase_strict-none f [] h = refl
erase_strict-none f (x ∷ fs) h = elim (Bool-cases (strict_match x f)) [
  | inl hit ↦ absurd (ground (arith, h, hit))
  | inr miss ↦ ground (arith, h, miss, erase_strict-none f fs)
]

-- After the table part of an ADD the new flow is in the table; a flow that was there still is, unless it
-- matches the new one strictly; nothing else came in; if there were flows that match the new one strictly,
-- one of them is gone, and the table is as long as before; and if there was none, every flow is kept, and
-- the table is longer by one.
pub insert-erase_strict :
    (f : Flow) (fs : FlowTable)
    → In f (insert f (erase_strict f fs))
      × ((g : Flow) → In g fs → In g (insert f (erase_strict f fs)) ⊎ (strict_match g f ≡ true))
      × ((g : Flow) → In g (insert f (erase_strict f fs)) → (g ≡ f) ⊎ In g fs)
      × (0 < replaceable f fs
          → (suc (replaceable f (erase_strict f fs)) ≡ replaceable f fs)
            × (length (insert f (erase_strict f fs)) ≡ length fs))
      × (replaceable f fs ≡ 0
          → ((g : Flow) → In g fs → In g (insert f (erase_strict f fs)))
            × (length (insert f (erase_strict f fs)) ≡ suc (length fs)))
insert-erase_strict f fs = (
  (In-insert f f _).1 (inl refl),
  (λ g h. ground (arith, In-erase_strict f g fs, (In-insert f g (erase_strict f fs)).1)),
  (λ g h. ground (arith, (In-insert f g (erase_strict f fs)).0 h, In-of_erase_strict f g fs)),
  (λ h. (
    omega (arith, h, replaceable-erase_strict f fs),
    omega (arith, length-insert f (erase_strict f fs), length-erase_strict_exact f fs h),
  )),
  (λ h.
      let same = erase_strict-none f fs h in
      (
        (λ g k. (In-insert f g (erase_strict f fs)).1 (inr (rw same k))),
        length-insert f (erase_strict f fs) ∙ ap (λ xs. suc (length xs)) same,
      )),
)

-- The loop of a DELETE keeps exactly the flows that the test does not select.
pub erase_matching_iff :
    (f g : Flow) (fs : FlowTable)
    → In g (erase_matching f fs) ↔ (In g fs × (non_strict_match f g ≡ false))
unfolding erase_matching
erase_matching_iff f g [] = ((λ h. absurd h), (λ h. h.0))
erase_matching_iff f g (x ∷ fs) =
    let ih = erase_matching_iff f g fs in ((λ h. ground (arith, ih.0)), (λ h. ground (arith, ih.1)))
