-- ===== src/Multicast/Membership/Members.antt =====
-- The member map of a session beside the list of buckets that its members index: the lemmas on
-- insertion, erasure and the shift of indices (examples/controller/mc-agent/MCApps.hh).
use libfluid.Prelude.{
  ℕ, zero, suc, ◌-◌, ◌≤◌, ◌<◌, ◌≡◌, refl, ap, false, some, List, [], ◌∷◌, ◌++◌, arith, ltb, ◌==◌,
  if◌then◌else◌, length, get_elem?, erase_idx, All,
}
use libfluid.Multicast.Types.{McGroupMember, Bucket}
use libfluid.Multicast.Context.{member_bucket}
use libfluid.Multicast.Membership.{MemberMap, find_member, erase_member, shift_indices}

-- The bucket at a member's index is the member's.
abbrev pub Indexes : List Bucket → ℕ × McGroupMember → Type 0
Indexes bs e = get_elem? bs e.1.bucket_index ≡ some (member_bucket e.1)

-- The index of an entry is not n.
abbrev pub Avoids : ℕ → ℕ × McGroupMember → Type 0
Avoids n e = (e.1.bucket_index == n) ≡ false

-- No two members have one index.
abbrev pub Apart : MemberMap → Type 0
Apart [] = Unit {0}
Apart (e ∷ rest) = All (Avoids e.1.bucket_index) rest × Apart rest

module _ {A : Type 0} where
  pub get_elem?-append :
      (xs ys : List A) (i : ℕ) (a : A) → get_elem? xs i ≡ some a → get_elem? (xs ++ ys) i ≡ some a
  get_elem?-append [] ys i a h = cc
  get_elem?-append (x ∷ xs) ys zero a h = h
  get_elem?-append (x ∷ xs) ys (suc i) a h = get_elem?-append xs ys i a h

  pub get_elem?-last : (xs : List A) (a : A) → get_elem? (xs ++ a ∷ []) (length xs) ≡ some a
  get_elem?-last [] a = refl
  get_elem?-last (x ∷ xs) a = get_elem?-last xs a

  pub get_elem?-bound : (xs : List A) (i : ℕ) (a : A) → get_elem? xs i ≡ some a → i < length xs
  get_elem?-bound [] i a h = cc
  get_elem?-bound (x ∷ xs) zero a h = omega arith
  get_elem?-bound (x ∷ xs) (suc i) a h = omega (arith, get_elem?-bound xs i a h)

  pub length-erase_idx :
      (xs : List A) (i : ℕ) → i < length xs → suc (length (erase_idx xs i)) ≡ length xs
  length-erase_idx [] i h = absurd (omega arith)
  length-erase_idx (x ∷ xs) zero h = refl
  length-erase_idx (x ∷ xs) (suc i) h = ap suc (length-erase_idx xs i (omega arith))

  erase_idx-below : (xs : List A) (r i : ℕ) → i < r → get_elem? (erase_idx xs r) i ≡ get_elem? xs i
  erase_idx-below [] r i h = refl
  erase_idx-below (x ∷ xs) zero i h = absurd (omega arith)
  erase_idx-below (x ∷ xs) (suc r) zero h = refl
  erase_idx-below (x ∷ xs) (suc r) (suc i) h = erase_idx-below xs r i (omega arith)

  erase_idx-above :
      (xs : List A) (r i : ℕ) → r ≤ i → get_elem? (erase_idx xs r) i ≡ get_elem? xs (suc i)
  erase_idx-above [] r i h = refl
  erase_idx-above (x ∷ xs) zero i h = refl
  erase_idx-above (x ∷ xs) (suc r) zero h = absurd (omega arith)
  erase_idx-above (x ∷ xs) (suc r) (suc i) h = erase_idx-above xs r i (omega arith)

-- The index that a member has after the removal of bucket r.
abbrev shifted : ℕ → McGroupMember → McGroupMember
shifted r m = if ltb r m.bucket_index then record m { bucket_index = m.bucket_index - 1 } else m

shifted_bucket : (r : ℕ) (m : McGroupMember) → member_bucket (shifted r m) ≡ member_bucket m
unfolding member_bucket
shifted_bucket r m = ground arith

shifted-Indexes :
    (bs : List Bucket) (r k : ℕ) (m : McGroupMember)
    → Avoids r (k, m)
    → Indexes bs (k, m)
    → Indexes (erase_idx bs r) (k, shifted r m)
shifted-Indexes bs r k m away h = ground (
  arith,
  erase_idx-above bs r (m.bucket_index - 1),
  erase_idx-below bs r m.bucket_index,
  shifted_bucket r m,
)

shifted-Avoids :
    (r k j : ℕ) (m n : McGroupMember)
    → Avoids r (k, m)
    → Avoids r (j, n)
    → Avoids m.bucket_index (j, n)
    → Avoids (shifted r m).bucket_index (j, shifted r n)
shifted-Avoids r k j m n p q h = ground arith

pub shift-Indexes :
    (bs : List Bucket) (r : ℕ) (ms : MemberMap)
    → All (Avoids r) ms
    → All (Indexes bs) ms
    → All (Indexes (erase_idx bs r)) (shift_indices r ms)
unfolding shift_indices
shift-Indexes bs r [] away h = tt
shift-Indexes bs r ((k, m) ∷ ms) away h =
    (shifted-Indexes bs r k m away.0 h.0, shift-Indexes bs r ms away.1 h.1)

shift-Avoids :
    (r k : ℕ) (m : McGroupMember) (ms : MemberMap)
    → Avoids r (k, m)
    → All (Avoids r) ms
    → All (Avoids m.bucket_index) ms
    → All (Avoids (shifted r m).bucket_index) (shift_indices r ms)
unfolding shift_indices
shift-Avoids r k m [] p away h = tt
shift-Avoids r k m ((j, n) ∷ ms) p away h =
    (shifted-Avoids r k j m n p away.0 h.0, shift-Avoids r k m ms p away.1 h.1)

pub shift_Apart :
    (r : ℕ) (ms : MemberMap) → All (Avoids r) ms → Apart ms → Apart (shift_indices r ms)
unfolding shift_indices
shift_Apart r [] away h = tt
shift_Apart r ((k, m) ∷ ms) away h =
    (shift-Avoids r k m ms away.0 away.1 h.0, shift_Apart r ms away.1 h.1)

pub length-shift_indices : (r : ℕ) (ms : MemberMap) → length (shift_indices r ms) ≡ length ms
unfolding shift_indices
length-shift_indices r [] = refl
length-shift_indices r ((k, m) ∷ ms) = ap suc (length-shift_indices r ms)

-- It does not matter whether an entry goes before or after the shift.
pub erase_member-shift_indices :
    (k r : ℕ) (ms : MemberMap)
    → erase_member k (shift_indices r ms) ≡ shift_indices r (erase_member k ms)
unfolding erase_member shift_indices
erase_member-shift_indices k r [] = refl
erase_member-shift_indices k r ((j, m) ∷ ms) = ground (arith, erase_member-shift_indices k r ms)

pub All-erase_member :
    (P : ℕ × McGroupMember → Type 0) (k : ℕ) (ms : MemberMap) → All P ms → All P (erase_member k ms)
unfolding erase_member
All-erase_member P k [] h = tt
All-erase_member P k ((j, m) ∷ ms) h = ground (arith, All-erase_member P k ms h.1)

pub erase_member-Apart : (k : ℕ) (ms : MemberMap) → Apart ms → Apart (erase_member k ms)
unfolding erase_member
erase_member-Apart k [] h = tt
erase_member-Apart k ((j, m) ∷ ms) h =
    ground (arith, erase_member-Apart k ms h.1, All-erase_member (Avoids m.bucket_index) k ms h.0)

pub length-erase_member :
    (k : ℕ) (ms : MemberMap) (m : McGroupMember)
    → find_member k ms ≡ some m
    → suc (length (erase_member k ms)) ≡ length ms
unfolding find_member erase_member
length-erase_member k [] m h = cc
length-erase_member k ((j, n) ∷ ms) m h = ground (arith, length-erase_member k ms m)

pub All-find_member :
    (P : McGroupMember → Type 0) (k : ℕ) (ms : MemberMap) (m : McGroupMember)
    → find_member k ms ≡ some m
    → All (λ e. P e.1) ms
    → P m
unfolding find_member
All-find_member P k [] m h all = cc
All-find_member P k ((j, n) ∷ ms) m h all = ground (arith, All-find_member P k ms m)

-- The members that stay have other indices than the one that leaves.
pub erase_member-Avoids :
    (k : ℕ) (ms : MemberMap) (m : McGroupMember)
    → find_member k ms ≡ some m
    → Apart ms
    → All (Avoids m.bucket_index) (erase_member k ms)
unfolding find_member erase_member
erase_member-Avoids k [] m h a = tt
erase_member-Avoids k ((j, n) ∷ ms) m h a = ground (
  arith,
  erase_member-Avoids k ms m,
  All-find_member (λ x. (x.bucket_index == n.bucket_index) ≡ false) k ms m,
)
