-- ===== src/Switch/Match/Packet.antt =====
-- What it means that a packet passes the match of a flow (`match_std_pkt` of
-- examples/switch/flow.hh).
use libfluid.Prelude.{ℕ, ◌≡◌, ◌⊎◌, ◌↔◌, true, arith, bit}
use libfluid.Switch.Ofpfw
use libfluid.Switch.Match.{EthAddress, Match, wc, pkt_wild, pkt_nw, pkt_dladdr, match_std_pkt}
use libfluid.Switch.Match.Address.{IsWord, AllBits, IsEthAddress, words_injective, pkt_nw_iff}

-- A field is wildcarded, or has the flow's value.
abbrev pub Agrees : {A : Type 0} → ℕ → ℕ → A → A → Type 0
Agrees wildcards field x y = (wc wildcards field ≡ true) ⊎ (x ≡ y)

-- An address has the flow's bits outside the mask.
abbrev pub AgreesOutside : ℕ → ℕ → ℕ → Type 0
AgreesOutside mask x y = AllBits (λ i. (bit mask i ≡ 1) ⊎ (bit x i ≡ bit y i))

pub record IsMatched (a b : Match) (src_mask dst_mask : ℕ) : Type 0 where
  pub in_port : Agrees a.wildcards Ofpfw.in_port a.in_port b.in_port
  pub dl_src : Agrees a.wildcards Ofpfw.dl_src a.dl_src b.dl_src
  pub dl_dst : Agrees a.wildcards Ofpfw.dl_dst a.dl_dst b.dl_dst
  pub dl_vlan : Agrees a.wildcards Ofpfw.dl_vlan a.dl_vlan b.dl_vlan
  pub dl_vlan_pcp : Agrees a.wildcards Ofpfw.dl_vlan_pcp a.dl_vlan_pcp b.dl_vlan_pcp
  pub dl_type : Agrees a.wildcards Ofpfw.dl_type a.dl_type b.dl_type
  pub nw_tos : Agrees a.wildcards Ofpfw.nw_tos a.nw_tos b.nw_tos
  pub nw_proto : Agrees a.wildcards Ofpfw.nw_proto a.nw_proto b.nw_proto
  pub nw_src : AgreesOutside src_mask a.nw_src b.nw_src
  pub nw_dst : AgreesOutside dst_mask a.nw_dst b.nw_dst
  pub tp_src : Agrees a.wildcards Ofpfw.tp_src a.tp_src b.tp_src
  pub tp_dst : Agrees a.wildcards Ofpfw.tp_dst a.tp_dst b.tp_dst

pub pkt_wild_iff : (x y w f : ℕ) → (pkt_wild x y w f ≡ true) ↔ Agrees w f x y
unfolding pkt_wild
pkt_wild_iff x y w f = ground arith

pub pkt_dladdr_iff :
    (x y : EthAddress) (w f : ℕ)
    → IsEthAddress x
    → IsEthAddress y
    → (pkt_dladdr x y w f ≡ true) ↔ Agrees w f x y
unfolding pkt_dladdr pkt_wild
pkt_dladdr_iff x y w f hx hy =
    ((λ e. ground (arith, words_injective x y hx hy)), (λ e. ground arith))

pub IsMatched_tests :
    (a b : Match) (sm dm : ℕ)
    → (match_std_pkt a b sm dm ≡ true) ↔ (
        (pkt_wild a.in_port b.in_port a.wildcards Ofpfw.in_port ≡ true)
        × (pkt_dladdr a.dl_src b.dl_src a.wildcards Ofpfw.dl_src ≡ true)
        × (pkt_dladdr a.dl_dst b.dl_dst a.wildcards Ofpfw.dl_dst ≡ true)
        × (pkt_wild a.dl_vlan b.dl_vlan a.wildcards Ofpfw.dl_vlan ≡ true)
        × (pkt_wild a.dl_vlan_pcp b.dl_vlan_pcp a.wildcards Ofpfw.dl_vlan_pcp ≡ true)
        × (pkt_wild a.dl_type b.dl_type a.wildcards Ofpfw.dl_type ≡ true)
        × (pkt_wild a.nw_tos b.nw_tos a.wildcards Ofpfw.nw_tos ≡ true)
        × (pkt_wild a.nw_proto b.nw_proto a.wildcards Ofpfw.nw_proto ≡ true)
        × (pkt_nw a.nw_src b.nw_src sm ≡ true)
        × (pkt_nw a.nw_dst b.nw_dst dm ≡ true)
        × (pkt_wild a.tp_src b.tp_src a.wildcards Ofpfw.tp_src ≡ true)
        × (pkt_wild a.tp_dst b.tp_dst a.wildcards Ofpfw.tp_dst ≡ true))
unfolding match_std_pkt
IsMatched_tests a b sm dm = ground arith

-- The four hardware addresses of two matches are bytes.
abbrev pub HasBytes : Match → Type 0
HasBytes a = IsEthAddress a.dl_src × IsEthAddress a.dl_dst

-- The two IP addresses of a match are words.
abbrev pub HasWords : Match → Type 0
HasWords a = IsWord a.nw_src × IsWord a.nw_dst

-- A packet passes a flow's match exactly when each field is wildcarded or equal to the packet's
-- (hardware addresses in all six bytes), and the two IP addresses agree outside the flow's masks.
pub match_std_pkt_iff :
    (a b : Match) (src_mask dst_mask : ℕ)
    → HasBytes a
    → HasBytes b
    → IsWord src_mask
    → IsWord dst_mask
    → (match_std_pkt a b src_mask dst_mask ≡ true) ↔ IsMatched a b src_mask dst_mask
match_std_pkt_iff a b sm dm ha hb hs hd = (forth, back)
  where
    forth : match_std_pkt a b sm dm ≡ true → IsMatched a b sm dm
    forth e =
        let t = (IsMatched_tests a b sm dm).0 e in
        record {
          in_port = (pkt_wild_iff _ _ _ _).0 t.0;
          dl_src = (pkt_dladdr_iff _ _ _ _ ha.0 hb.0).0 t.1;
          dl_dst = (pkt_dladdr_iff _ _ _ _ ha.1 hb.1).0 t.2;
          dl_vlan = (pkt_wild_iff _ _ _ _).0 t.3;
          dl_vlan_pcp = (pkt_wild_iff _ _ _ _).0 t.4;
          dl_type = (pkt_wild_iff _ _ _ _).0 t.5;
          nw_tos = (pkt_wild_iff _ _ _ _).0 t.6;
          nw_proto = (pkt_wild_iff _ _ _ _).0 t.7;
          nw_src = (pkt_nw_iff _ _ sm hs).0 t.8;
          nw_dst = (pkt_nw_iff _ _ dm hd).0 t.9;
          tp_src = (pkt_wild_iff _ _ _ _).0 t.10;
          tp_dst = (pkt_wild_iff _ _ _ _).0 t.11;
        }

    back : IsMatched a b sm dm → match_std_pkt a b sm dm ≡ true
    back m = (IsMatched_tests a b sm dm).1 (
      (pkt_wild_iff _ _ _ _).1 m.in_port,
      (pkt_dladdr_iff _ _ _ _ ha.0 hb.0).1 m.dl_src,
      (pkt_dladdr_iff _ _ _ _ ha.1 hb.1).1 m.dl_dst,
      (pkt_wild_iff _ _ _ _).1 m.dl_vlan,
      (pkt_wild_iff _ _ _ _).1 m.dl_vlan_pcp,
      (pkt_wild_iff _ _ _ _).1 m.dl_type,
      (pkt_wild_iff _ _ _ _).1 m.nw_tos,
      (pkt_wild_iff _ _ _ _).1 m.nw_proto,
      (pkt_nw_iff _ _ sm hs).1 m.nw_src,
      (pkt_nw_iff _ _ dm hd).1 m.nw_dst,
      (pkt_wild_iff _ _ _ _).1 m.tp_src,
      (pkt_wild_iff _ _ _ _).1 m.tp_dst,
    )
