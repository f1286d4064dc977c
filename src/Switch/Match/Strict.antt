-- ===== src/Switch/Match/Strict.antt =====
-- What the test that finds the flow an ADD replaces decides (`match_std_strict` of
-- examples/switch/flow.hh).
use libfluid.Prelude.{ℕ, ◌≡◌, ◌⊎◌, ◌↔◌, true, arith, bit}
use libfluid.Switch.Ofpfw
use libfluid.Switch.Match.{
  EthAddress, Match, wc, compl, strict_wild, strict_nw, strict_dladdr, match_std_strict,
}
use libfluid.Switch.Match.Address.{IsWord, AllBits, IsEthAddress, words_injective, strict_nw_iff}
use libfluid.Switch.Match.Packet.{HasBytes, HasWords}

-- A field is wildcarded in both matches, or has one value in both.
abbrev pub AgreesBoth : {A : Type 0} → ℕ → ℕ → ℕ → A → A → Type 0
AgreesBoth aw bw field x y = ((wc aw field ≡ true) × (wc bw field ≡ true)) ⊎ (x ≡ y)

-- The masks are the same, and so is each bit outside them.
abbrev pub SameOutside : ℕ → ℕ → ℕ → ℕ → Type 0
SameOutside xm ym x y = (xm ≡ ym) × AllBits (λ i. (bit xm i ≡ 1) ⊎ (bit x i ≡ bit y i))

pub record IsSame (a b : Match) (src_a src_b dst_a dst_b : ℕ) : Type 0 where
  pub in_port : AgreesBoth a.wildcards b.wildcards Ofpfw.in_port a.in_port b.in_port
  pub dl_src : AgreesBoth a.wildcards b.wildcards Ofpfw.dl_src a.dl_src b.dl_src
  pub dl_dst : AgreesBoth a.wildcards b.wildcards Ofpfw.dl_dst a.dl_dst b.dl_dst
  pub dl_vlan : AgreesBoth a.wildcards b.wildcards Ofpfw.dl_vlan a.dl_vlan b.dl_vlan
  pub dl_vlan_pcp : AgreesBoth a.wildcards b.wildcards Ofpfw.dl_vlan_pcp a.dl_vlan_pcp b.dl_vlan_pcp
  pub dl_type : AgreesBoth a.wildcards b.wildcards Ofpfw.dl_type a.dl_type b.dl_type
  pub nw_tos : AgreesBoth a.wildcards b.wildcards Ofpfw.nw_tos a.nw_tos b.nw_tos
  pub nw_proto : AgreesBoth a.wildcards b.wildcards Ofpfw.nw_proto a.nw_proto b.nw_proto
  pub nw_src : SameOutside src_a src_b a.nw_src b.nw_src
  pub nw_dst : SameOutside dst_a dst_b a.nw_dst b.nw_dst
  pub tp_src : AgreesBoth a.wildcards b.wildcards Ofpfw.tp_src a.tp_src b.tp_src
  pub tp_dst : AgreesBoth a.wildcards b.wildcards Ofpfw.tp_dst a.tp_dst b.tp_dst

-- A field that one match wildcards and the other does not passes if the values are the same.
pub strict_wild_iff : (x y aw bw f : ℕ) → (strict_wild x y aw bw f ≡ true) ↔ AgreesBoth aw bw f x y
unfolding strict_wild compl
strict_wild_iff x y aw bw f = ground arith

pub strict_dladdr_iff :
    (x y : EthAddress) (aw bw f : ℕ)
    → IsEthAddress x
    → IsEthAddress y
    → (strict_dladdr x y aw bw f ≡ true) ↔ AgreesBoth aw bw f x y
unfolding strict_dladdr strict_wild compl
strict_dladdr_iff x y aw bw f hx hy =
    ((λ e. ground (arith, words_injective x y hx hy)), (λ e. ground arith))

IsSame_tests :
    (a b : Match) (sa sb da db : ℕ)
    → (match_std_strict a b sa sb da db ≡ true) ↔ (
        (strict_wild a.in_port b.in_port a.wildcards b.wildcards Ofpfw.in_port ≡ true)
        × (strict_dladdr a.dl_src b.dl_src a.wildcards b.wildcards Ofpfw.dl_src ≡ true)
        × (strict_dladdr a.dl_dst b.dl_dst a.wildcards b.wildcards Ofpfw.dl_dst ≡ true)
        × (strict_wild a.dl_vlan b.dl_vlan a.wildcards b.wildcards Ofpfw.dl_vlan ≡ true)
        × (strict_wild a.dl_vlan_pcp b.dl_vlan_pcp a.wildcards b.wildcards Ofpfw.dl_vlan_pcp ≡ true)
        × (strict_wild a.dl_type b.dl_type a.wildcards b.wildcards Ofpfw.dl_type ≡ true)
        × (strict_wild a.nw_tos b.nw_tos a.wildcards b.wildcards Ofpfw.nw_tos ≡ true)
        × (strict_wild a.nw_proto b.nw_proto a.wildcards b.wildcards Ofpfw.nw_proto ≡ true)
        × (strict_nw a.nw_src b.nw_src sa sb ≡ true)
        × (strict_nw a.nw_dst b.nw_dst da db ≡ true)
        × (strict_wild a.tp_src b.tp_src a.wildcards b.wildcards Ofpfw.tp_src ≡ true)
        × (strict_wild a.tp_dst b.tp_dst a.wildcards b.wildcards Ofpfw.tp_dst ≡ true))
unfolding match_std_strict
IsSame_tests a b sa sb da db = ground arith

-- Two matches are the same for `match_std_strict` exactly when each field is wildcarded in both or
-- has the same value in both, and the masks of the IP addresses are equal and so are the addresses
-- outside them.
pub match_std_strict_iff :
    (a b : Match) (sa sb da db : ℕ)
    → HasBytes a
    → HasBytes b
    → HasWords a
    → HasWords b
    → IsWord sa
    → IsWord da
    → (match_std_strict a b sa sb da db ≡ true) ↔ IsSame a b sa sb da db
match_std_strict_iff a b sa sb da db ha hb wa wb hs hd = (forth, back)
  where
    forth : match_std_strict a b sa sb da db ≡ true → IsSame a b sa sb da db
    forth e =
        let t = (IsSame_tests a b sa sb da db).0 e in
        record {
          in_port = (strict_wild_iff _ _ _ _ _).0 t.0;
          dl_src = (strict_dladdr_iff _ _ _ _ _ ha.0 hb.0).0 t.1;
          dl_dst = (strict_dladdr_iff _ _ _ _ _ ha.1 hb.1).0 t.2;
          dl_vlan = (strict_wild_iff _ _ _ _ _).0 t.3;
          dl_vlan_pcp = (strict_wild_iff _ _ _ _ _).0 t.4;
          dl_type = (strict_wild_iff _ _ _ _ _).0 t.5;
          nw_tos = (strict_wild_iff _ _ _ _ _).0 t.6;
          nw_proto = (strict_wild_iff _ _ _ _ _).0 t.7;
          nw_src = (strict_nw_iff _ _ sa sb wa.0 hs wb.0).0 t.8;
          nw_dst = (strict_nw_iff _ _ da db wa.1 hd wb.1).0 t.9;
          tp_src = (strict_wild_iff _ _ _ _ _).0 t.10;
          tp_dst = (strict_wild_iff _ _ _ _ _).0 t.11;
        }

    back : IsSame a b sa sb da db → match_std_strict a b sa sb da db ≡ true
    back m = (IsSame_tests a b sa sb da db).1 (
      (strict_wild_iff _ _ _ _ _).1 m.in_port,
      (strict_dladdr_iff _ _ _ _ _ ha.0 hb.0).1 m.dl_src,
      (strict_dladdr_iff _ _ _ _ _ ha.1 hb.1).1 m.dl_dst,
      (strict_wild_iff _ _ _ _ _).1 m.dl_vlan,
      (strict_wild_iff _ _ _ _ _).1 m.dl_vlan_pcp,
      (strict_wild_iff _ _ _ _ _).1 m.dl_type,
      (strict_wild_iff _ _ _ _ _).1 m.nw_tos,
      (strict_wild_iff _ _ _ _ _).1 m.nw_proto,
      (strict_nw_iff _ _ sa sb wa.0 hs wb.0).1 m.nw_src,
      (strict_nw_iff _ _ da db wa.1 hd wb.1).1 m.nw_dst,
      (strict_wild_iff _ _ _ _ _).1 m.tp_src,
      (strict_wild_iff _ _ _ _ _).1 m.tp_dst,
    )

-- A field of `a` passes what passes the field of `b`.
