-- ===== src/Switch/Datapath/Triple.antt =====
-- Partial correctness of calls on the state of examples/switch/datapath.cc: rules for sequencing and
-- for branches. That a call returns is stated apart, where it is claimed.
use libfluid.Prelude.{◌≡◌, refl, Bool, true, false, Option, none, some, arith, if◌then◌else◌}
use libfluid.Switch.State.{Datapath, M, ◌>>=◌}

-- Started where P holds, a call that returns leaves a value and a state where Q holds.
abbrev pub Triple : {A : Type 0} → (Datapath → Type 0) → M A → (A → Datapath → Type 0) → Type 0
Triple {A} P m Q = (d : Datapath) → P d → (a : A) (d' : Datapath) → m d ≡ some (a, d') → Q a d'

-- A call keeps P.
abbrev pub Keeps : {A : Type 0} → (Datapath → Type 0) → M A → Type 0
Keeps P m = Triple P m (λ _ d. P d)

module _ {A B : Type 0} (P : Datapath → Type 0) (Q : A → Datapath → Type 0)
    (R : B → Datapath → Type 0) where
  pub bind_Triple :
      (m : M A) (k : A → M B)
      → Triple P m Q
      → ((a : A) → Triple (Q a) (k a) R)
      → Triple P (m >>= k) R
  bind_Triple m k first next d p b d'' = go (m d) refl
    where
      go :
          (r : Option (A × Datapath))
          → m d ≡ r
          → (elim r [ none ↦ none | some (a, d') ↦ k a d' ]) ≡ some (b, d'')
          → R b d''
      go none e h = cc
      go (some (a, d')) e h = next a d' (first d p a d' e) b d'' h

module _ {A : Type 0} (P : Datapath → Type 0) (Q : A → Datapath → Type 0) where
  pub pure_Triple : (x : A) → ((d : Datapath) → P d → Q x d) → Triple P (λ d. some (x, d)) Q
  pure_Triple x h d p a d' e = ground (arith, h d p)

  pub if_Triple :
      (b : Bool) (m n : M A)
      → (b ≡ true → Triple P m Q)
      → (b ≡ false → Triple P n Q)
      → Triple P (if b then m else n) Q
  if_Triple true m n p q = p refl
  if_Triple false m n p q = q refl
