-- ===== src/Switch/Match/Nonstrict.antt =====
-- What the test that selects the flows of a DELETE decides (`match_std_nonstrict` and
-- `match_std_overlap` of examples/switch/flow.hh).
use libfluid.Prelude.{ℕ, ◌≡◌, ◌⊎◌, inl, inr, ◌↔◌, ◌∙◌, true, arith, bit}
use libfluid.Switch.Ofpfw
use libfluid.Switch.Match.{
  EthAddress, Match, wc, compl, nonstrict_wild, nonstrict_nw, nonstrict_dladdr, match_std_nonstrict,
  match_std_pkt,
}
use libfluid.Switch.Match.Address.{IsWord, AllBits, IsEthAddress, words_injective, nonstrict_nw_iff}
use libfluid.Switch.Match.Packet.{
  Agrees, AgreesOutside, IsMatched, HasBytes, HasWords, match_std_pkt_iff,
}

-- At each bit `x` is masked, or `y` is not and the two agree.
abbrev pub CoversOutside : ℕ → ℕ → ℕ → ℕ → Type 0
CoversOutside xm ym x y = AllBits (λ i. (bit xm i ≡ 1) ⊎ ((bit ym i ≡ 0) × (bit x i ≡ bit y i)))

pub record IsCovering (a b : Match) (src_a src_b dst_a dst_b : ℕ) : Type 0 where
  pub in_port : Agrees a.wildcards Ofpfw.in_port a.in_port b.in_port
  pub dl_src : Agrees a.wildcards Ofpfw.dl_src a.dl_src b.dl_src
  pub dl_dst : Agrees a.wildcards Ofpfw.dl_dst a.dl_dst b.dl_dst
  pub dl_vlan : Agrees a.wildcards Ofpfw.dl_vlan a.dl_vlan b.dl_vlan
  pub dl_vlan_pcp : Agrees a.wildcards Ofpfw.dl_vlan_pcp a.dl_vlan_pcp b.dl_vlan_pcp
  pub dl_type : Agrees a.wildcards Ofpfw.dl_type a.dl_type b.dl_type
  pub nw_tos : Agrees a.wildcards Ofpfw.nw_tos a.nw_tos b.nw_tos
  pub nw_proto : Agrees a.wildcards Ofpfw.nw_proto a.nw_proto b.nw_proto
  pub nw_src : CoversOutside src_a src_b a.nw_src b.nw_src
  pub nw_dst : CoversOutside dst_a dst_b a.nw_dst b.nw_dst
  pub tp_src : Agrees a.wildcards Ofpfw.tp_src a.tp_src b.tp_src
  pub tp_dst : Agrees a.wildcards Ofpfw.tp_dst a.tp_dst b.tp_dst

-- The wildcards of the second match have no say.
pub nonstrict_wild_iff : (x y aw bw f : ℕ) → (nonstrict_wild x y aw bw f ≡ true) ↔ Agrees aw f x y
unfolding nonstrict_wild compl
nonstrict_wild_iff x y aw bw f = ground arith

pub nonstrict_dladdr_iff :
    (x y : EthAddress) (aw bw f : ℕ)
    → IsEthAddress x
    → IsEthAddress y
    → (nonstrict_dladdr x y aw bw f ≡ true) ↔ Agrees aw f x y
unfolding nonstrict_dladdr nonstrict_wild compl
nonstrict_dladdr_iff x y aw bw f hx hy =
    ((λ e. ground (arith, words_injective x y hx hy)), (λ e. ground arith))

IsCovering_tests :
    (a b : Match) (sa sb da db : ℕ)
    → (match_std_nonstrict a b sa sb da db ≡ true) ↔ (
        (nonstrict_wild a.in_port b.in_port a.wildcards b.wildcards Ofpfw.in_port ≡ true)
        × (nonstrict_dladdr a.dl_src b.dl_src a.wildcards b.wildcards Ofpfw.dl_src ≡ true)
        × (nonstrict_dladdr a.dl_dst b.dl_dst a.wildcards b.wildcards Ofpfw.dl_dst ≡ true)
        × (nonstrict_wild a.dl_vlan b.dl_vlan a.wildcards b.wildcards Ofpfw.dl_vlan ≡ true)
        × (nonstrict_wild a.dl_vlan_pcp b.dl_vlan_pcp a.wildcards b.wildcards Ofpfw.dl_vlan_pcp
            ≡ true)
        × (nonstrict_wild a.dl_type b.dl_type a.wildcards b.wildcards Ofpfw.dl_type ≡ true)
        × (nonstrict_wild a.nw_tos b.nw_tos a.wildcards b.wildcards Ofpfw.nw_tos ≡ true)
        × (nonstrict_wild a.nw_proto b.nw_proto a.wildcards b.wildcards Ofpfw.nw_proto ≡ true)
        × (nonstrict_nw a.nw_src b.nw_src sa sb ≡ true)
        × (nonstrict_nw a.nw_dst b.nw_dst da db ≡ true)
        × (nonstrict_wild a.tp_src b.tp_src a.wildcards b.wildcards Ofpfw.tp_src ≡ true)
        × (nonstrict_wild a.tp_dst b.tp_dst a.wildcards b.wildcards Ofpfw.tp_dst ≡ true))
unfolding match_std_nonstrict
IsCovering_tests a b sa sb da db = ground arith

-- Match `a` selects match `b` exactly when each field is wildcarded in `a` or has the same value in
-- both, and for each IP address every bit is masked in `a`, or not masked in `b` and the same.
pub match_std_nonstrict_iff :
    (a b : Match) (sa sb da db : ℕ)
    → HasBytes a
    → HasBytes b
    → HasWords a
    → HasWords b
    → IsWord sa
    → IsWord da
    → (match_std_nonstrict a b sa sb da db ≡ true) ↔ IsCovering a b sa sb da db
match_std_nonstrict_iff a b sa sb da db ha hb wa wb hs hd = (forth, back)
  where
    forth : match_std_nonstrict a b sa sb da db ≡ true → IsCovering a b sa sb da db
    forth e =
        let t = (IsCovering_tests a b sa sb da db).0 e in
        record {
          in_port = (nonstrict_wild_iff _ _ _ _ _).0 t.0;
          dl_src = (nonstrict_dladdr_iff _ _ _ _ _ ha.0 hb.0).0 t.1;
          dl_dst = (nonstrict_dladdr_iff _ _ _ _ _ ha.1 hb.1).0 t.2;
          dl_vlan = (nonstrict_wild_iff _ _ _ _ _).0 t.3;
          dl_vlan_pcp = (nonstrict_wild_iff _ _ _ _ _).0 t.4;
          dl_type = (nonstrict_wild_iff _ _ _ _ _).0 t.5;
          nw_tos = (nonstrict_wild_iff _ _ _ _ _).0 t.6;
          nw_proto = (nonstrict_wild_iff _ _ _ _ _).0 t.7;
          nw_src = (nonstrict_nw_iff _ _ sa sb wa.0 wb.0 hs).0 t.8;
          nw_dst = (nonstrict_nw_iff _ _ da db wa.1 wb.1 hd).0 t.9;
          tp_src = (nonstrict_wild_iff _ _ _ _ _).0 t.10;
          tp_dst = (nonstrict_wild_iff _ _ _ _ _).0 t.11;
        }

    back : IsCovering a b sa sb da db → match_std_nonstrict a b sa sb da db ≡ true
    back m = (IsCovering_tests a b sa sb da db).1 (
      (nonstrict_wild_iff _ _ _ _ _).1 m.in_port,
      (nonstrict_dladdr_iff _ _ _ _ _ ha.0 hb.0).1 m.dl_src,
      (nonstrict_dladdr_iff _ _ _ _ _ ha.1 hb.1).1 m.dl_dst,
      (nonstrict_wild_iff _ _ _ _ _).1 m.dl_vlan,
      (nonstrict_wild_iff _ _ _ _ _).1 m.dl_vlan_pcp,
      (nonstrict_wild_iff _ _ _ _ _).1 m.dl_type,
      (nonstrict_wild_iff _ _ _ _ _).1 m.nw_tos,
      (nonstrict_wild_iff _ _ _ _ _).1 m.nw_proto,
      (nonstrict_nw_iff _ _ sa sb wa.0 wb.0 hs).1 m.nw_src,
      (nonstrict_nw_iff _ _ da db wa.1 wb.1 hd).1 m.nw_dst,
      (nonstrict_wild_iff _ _ _ _ _).1 m.tp_src,
      (nonstrict_wild_iff _ _ _ _ _).1 m.tp_dst,
    )

-- A field of `a` passes what passes the field of `b`.
Agrees_trans :
    {A : Type 0} (aw bw f : ℕ) (x y z : A)
    → (wc bw f ≡ true → wc aw f ≡ true)
    → Agrees aw f x y
    → Agrees bw f y z
    → Agrees aw f x z
Agrees_trans aw bw f x y z wild (inl w) q = inl w
Agrees_trans aw bw f x y z wild (inr e) (inl w) = inl (wild w)
Agrees_trans aw bw f x y z wild (inr e) (inr e') = inr (e ∙ e')

Outside_trans :
    (am bm x y z : ℕ) → CoversOutside am bm x y → AgreesOutside bm y z → AgreesOutside am x z
Outside_trans am bm x y z p q i h = ground (arith, p i h, q i h)

IsCovering-IsMatched :
    (a b p : Match) (sa sb da db : ℕ)
    → ((f : ℕ) → wc b.wildcards f ≡ true → wc a.wildcards f ≡ true)
    → IsCovering a b sa sb da db
    → IsMatched b p sb db
    → IsMatched a p sa da
IsCovering-IsMatched a b p sa sb da db wild c m = record {
  in_port = Agrees_trans _ _ _ _ _ _ (wild _) c.in_port m.in_port;
  dl_src = Agrees_trans _ _ _ _ _ _ (wild _) c.dl_src m.dl_src;
  dl_dst = Agrees_trans _ _ _ _ _ _ (wild _) c.dl_dst m.dl_dst;
  dl_vlan = Agrees_trans _ _ _ _ _ _ (wild _) c.dl_vlan m.dl_vlan;
  dl_vlan_pcp = Agrees_trans _ _ _ _ _ _ (wild _) c.dl_vlan_pcp m.dl_vlan_pcp;
  dl_type = Agrees_trans _ _ _ _ _ _ (wild _) c.dl_type m.dl_type;
  nw_tos = Agrees_trans _ _ _ _ _ _ (wild _) c.nw_tos m.nw_tos;
  nw_proto = Agrees_trans _ _ _ _ _ _ (wild _) c.nw_proto m.nw_proto;
  nw_src = Outside_trans _ _ _ _ _ c.nw_src m.nw_src;
  nw_dst = Outside_trans _ _ _ _ _ c.nw_dst m.nw_dst;
  tp_src = Agrees_trans _ _ _ _ _ _ (wild _) c.tp_src m.tp_src;
  tp_dst = Agrees_trans _ _ _ _ _ _ (wild _) c.tp_dst m.tp_dst;
}

-- If `a` selects `b` and wildcards every field that `b` wildcards, then each packet that passes `b`
-- passes `a`.
pub match_std_pkt-nonstrict :
    (a b p : Match) (sa sb da db : ℕ)
    → HasBytes a
    → HasBytes b
    → HasBytes p
    → HasWords a
    → HasWords b
    → IsWord sa
    → IsWord sb
    → IsWord da
    → IsWord db
    → ((f : ℕ) → wc b.wildcards f ≡ true → wc a.wildcards f ≡ true)
    → match_std_nonstrict a b sa sb da db ≡ true
    → match_std_pkt b p sb db ≡ true
    → match_std_pkt a p sa da ≡ true
match_std_pkt-nonstrict a b p sa sb da db ha hb hp wa wb hsa hsb hda hdb wild covers passes =
    let c = (match_std_nonstrict_iff a b sa sb da db ha hb wa wb hsa hda).0 covers in
    let m = (match_std_pkt_iff b p sb db hb hp hsb hdb).0 passes in
    (match_std_pkt_iff a p sa da ha hp hsa hda).1 (IsCovering-IsMatched a b p sa sb da db wild c m)
