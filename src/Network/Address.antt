-- ===== src/Network/Address.antt =====
-- The addresses at the head of a frame, as the controller keeps them (examples/controller/raw/RawApps.hh)
-- and as the switch does (examples/switch/flow.cc).
use libfluid.Prelude.{
  ℕ, zero, suc, ◌+◌, ◌*◌, ◌/◌, ◌%◌, ◌^◌, ◌<◌, ◌≡◌, refl, ap, ◌∙◌, some, List, [], ◌∷◌, arith, All,
  bind-some, get_elem?, load8,
}
use libfluid.Learning
use libfluid.Learning.Raw.FlowMod.{IsAddress}
use libfluid.Switch.Match.{EthAddress}
use libfluid.Switch.Extract
use libfluid.Network.{eth_address}

-- The values of a list of bytes.
abbrev pub IsByte : ℕ → Type 0
IsByte b = b < 256

get_elem?-IsByte :
    (bytes : List ℕ) (i b : ℕ) → All IsByte bytes → get_elem? bytes i ≡ some b → IsByte b
get_elem?-IsByte [] i b h e = cc
get_elem?-IsByte (x ∷ bytes) zero b h e = ground (arith, e, h.0)
get_elem?-IsByte (x ∷ bytes) (suc i) b h e = get_elem?-IsByte bytes i b h.1 e

-- The same six bytes.
pub record IsLoaded (bytes : List ℕ) (off a : ℕ) : Type 0 where
  pub is_address : IsAddress a
  pub switch_side : Extract.load_address bytes off ≡ some (eth_address a)

joined :
    (a b0 b1 b2 b3 b4 b5 : ℕ)
    → IsByte b0
    → IsByte b1
    → IsByte b2
    → IsByte b3
    → IsByte b4
    → IsByte b5
    → b0 * 2 ^ 16 + b1 * 2 ^ 24 + b2 * 2 ^ 32 + b3 * 2 ^ 40 + b4 * 2 ^ 48 + b5 * 2 ^ 56 ≡ a
    → IsAddress a
      × ((b0 ≡ a / 2 ^ 16 % 2 ^ 8)
          × (b1 ≡ a / 2 ^ 24 % 2 ^ 8)
          × (b2 ≡ a / 2 ^ 32 % 2 ^ 8)
          × (b3 ≡ a / 2 ^ 40 % 2 ^ 8)
          × (b4 ≡ a / 2 ^ 48 % 2 ^ 8)
          × (b5 ≡ a / 2 ^ 56 % 2 ^ 8))
joined a b0 b1 b2 b3 b4 b5 h0 h1 h2 h3 h4 h5 e =
    (record { low = omega arith; high = omega arith }, omega arith)

switch_load :
    (bytes : List ℕ) (off : ℕ) (r : EthAddress)
    → get_elem? bytes off ≡ some r.b0
    → get_elem? bytes (off + 1) ≡ some r.b1
    → get_elem? bytes (off + 2) ≡ some r.b2
    → get_elem? bytes (off + 3) ≡ some r.b3
    → get_elem? bytes (off + 4) ≡ some r.b4
    → get_elem? bytes (off + 5) ≡ some r.b5
    → Extract.load_address bytes off ≡ some r
unfolding Extract.load_address load8
switch_load bytes off r l0 l1 l2 l3 l4 l5 = rw (l0, l1, l2, l3, l4, l5) refl

pub load_address-IsLoaded :
    (bytes : List ℕ) (off a : ℕ)
    → All IsByte bytes
    → Learning.load_address bytes off ≡ some a
    → IsLoaded bytes off a
unfolding Learning.load_address load8
load_address-IsLoaded bytes off a all e =
    let (b0, l0, e0) = bind-some (get_elem? bytes off) _ e in
    let (b1, l1, e1) = bind-some (get_elem? bytes (off + 1)) _ e0 in
    let (b2, l2, e2) = bind-some (get_elem? bytes (off + 2)) _ e1 in
    let (b3, l3, e3) = bind-some (get_elem? bytes (off + 3)) _ e2 in
    let (b4, l4, e4) = bind-some (get_elem? bytes (off + 4)) _ e3 in
    let (b5, l5, e5) = bind-some (get_elem? bytes (off + 5)) _ e4 in
    let is_byte = λ (i b : ℕ) (l : get_elem? bytes i ≡ some b). get_elem?-IsByte bytes i b all l in
    let (address, same) =
      joined a b0 b1 b2 b3 b4 b5 (is_byte _ b0 l0) (is_byte _ b1 l1) (is_byte _ b2 l2)
        (is_byte _ b3 l3) (is_byte _ b4 l4) (is_byte _ b5 l5) (ground (arith, e5)) in
    record {
      is_address = address;
      switch_side =
          switch_load bytes off (eth_address a) (l0 ∙ ap some same.0) (l1 ∙ ap some same.1)
            (l2 ∙ ap some same.2) (l3 ∙ ap some same.3) (l4 ∙ ap some same.4) (l5 ∙ ap some same.5);
    }
