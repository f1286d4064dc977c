-- ===== src/Network/Flow.antt =====
-- The flow that the controller installs (examples/controller/raw/RawApps.hh), in the switch
-- (examples/switch/flow.hh): the packets of Ethernet II with its two addresses pass it.
use libfluid.Prelude.{
  ℕ, ◌≤◌, ◌≡◌, refl, sym, ◌∙◌, ap, true, some, List, [], ◌∷◌, arith, leb, length, load16, ntoh16,
  All,
}
use mathlib.Core.List.{foldl}
use libfluid.Learning
use libfluid.Switch.Ofpfw
use libfluid.Switch.Match.{EthAddress, Match, wc, pkt_wild, pkt_dladdr, match_std_pkt}
use libfluid.Switch.Match.Packet.{IsMatched_tests}
use libfluid.Switch.Extract.{
  MatchField, in_port, dl_src, dl_dst, eth_type_ii_start, extract_flow_fields,
}
use libfluid.Switch.Extract.Addresses.{IsUpper, IsLinked, extract_flow_fields-IsLinked}
use libfluid.Switch.Flow.{Flow, pkt_match, MsgLib}
use libfluid.Switch.State.{Output}
use libfluid.Switch.Datapath.Priority.{match_of, pkt_nw-full}
use libfluid.Network.{eth_address, IsOpenFlow10}
use libfluid.Network.Address.{IsByte, load_address-IsLoaded}

pkt_wild-any : (x y w f : ℕ) → wc w f ≡ true → pkt_wild x y w f ≡ true
unfolding pkt_wild
pkt_wild-any x y w f h = ground arith

pkt_dladdr-same : (x y : EthAddress) (w f : ℕ) → x ≡ y → pkt_dladdr x y w f ≡ true
unfolding pkt_dladdr pkt_wild
pkt_dladdr-same x y w f e = ground arith

-- Of a flow that wildcards all fields but the two addresses, only those count.
match_std_pkt-addresses :
    (a b : Match)
    → a.wildcards ≡ 0x3ffff3
    → a.dl_src ≡ b.dl_src
    → a.dl_dst ≡ b.dl_dst
    → match_std_pkt a b 0xffffffff 0xffffffff ≡ true
unfolding wc
match_std_pkt-addresses a b e s d =
    let any = λ (x y f : ℕ) (h : wc 0x3ffff3 f ≡ true).
      pkt_wild-any x y a.wildcards f (ap (λ w. wc w f) e ∙ h) in
    (IsMatched_tests a b 0xffffffff 0xffffffff).1 (
      any _ _ Ofpfw.in_port refl,
      pkt_dladdr-same _ _ _ _ s,
      pkt_dladdr-same _ _ _ _ d,
      any _ _ Ofpfw.dl_vlan refl,
      any _ _ Ofpfw.dl_vlan_pcp refl,
      any _ _ Ofpfw.dl_type refl,
      any _ _ Ofpfw.nw_tos refl,
      any _ _ Ofpfw.nw_proto refl,
      pkt_nw-full _ _ _ refl,
      pkt_nw-full _ _ _ refl,
      any _ _ Ofpfw.tp_src refl,
      any _ _ Ofpfw.tp_dst refl,
    )

-- An Ethernet II frame of bytes from one address to another.
pub record IsFrame (bytes : List ℕ) (src dst : ℕ) : Type 0 where
  pub are_bytes : All IsByte bytes
  pub long : 14 ≤ length bytes
  pub from : Learning.load_address bytes 6 ≡ some src
  pub to : Learning.load_address bytes 0 ≡ some dst
  pub eth_type : ℕ
  pub type_at : load16 bytes 12 ≡ some eth_type
  pub version_ii : leb eth_type_ii_start (ntoh16 eth_type) ≡ true

module _ (lib : MsgLib) (pack : Output → List ℕ) (of10 : IsOpenFlow10 lib pack) where
  foldl-addresses :
      (m : Match) (fields : List MatchField)
      → All IsUpper fields
      → ((foldl (λ m f. lib.set_field f m) m fields).dl_src ≡ m.dl_src)
        × ((foldl (λ m f. lib.set_field f m) m fields).dl_dst ≡ m.dl_dst)
  foldl-addresses m [] h = (refl, refl)
  foldl-addresses m (f ∷ fields) h =
      let (src, dst) = foldl-addresses (lib.set_field f m) fields h.1 in
      let (src', dst') = of10.others_keep f m h.0 in (src ∙ src', dst ∙ dst')

  -- The match of the switch for a frame has the frame's addresses.
  match_of-addresses :
      (port_no : ℕ) (src dst : EthAddress) (fields : List MatchField)
      → IsLinked src dst fields
      → ((match_of lib port_no fields).dl_src ≡ src) × ((match_of lib port_no fields).dl_dst ≡ dst)
  match_of-addresses port_no src dst fields h =
      let start = lib.set_field (in_port port_no) lib.new_match in
      let first = lib.set_field (dl_src src) start in
      let (s, d) = foldl-addresses (lib.set_field (dl_dst dst) first) h.rest h.upper in
      rw h.split
        (s ∙ of10.dst_keeps_src dst first ∙ of10.sets_src src start, d ∙ of10.sets_dst dst first)

  -- A frame between the addresses that a flow names passes the flow.
  pub pkt_match-frame :
      (flow : Flow) (port_no : ℕ) (bytes : List ℕ) (src dst : ℕ) (fields : List MatchField)
      → IsFrame bytes src dst
      → extract_flow_fields bytes ≡ some fields
      → flow.nw_src_mask ≡ 0xffffffff
      → flow.nw_dst_mask ≡ 0xffffffff
      → flow.match.wildcards ≡ 0x3ffff3
      → flow.match.dl_src ≡ eth_address src
      → flow.match.dl_dst ≡ eth_address dst
      → pkt_match flow (match_of lib port_no fields) ≡ true
  unfolding pkt_match
  pkt_match-frame flow port_no bytes src dst fields frame e sm dm w s d =
      let from = load_address-IsLoaded bytes 6 src frame.are_bytes frame.from in
      let to = load_address-IsLoaded bytes 0 dst frame.are_bytes frame.to in
      let linked =
        extract_flow_fields-IsLinked bytes (eth_address src) (eth_address dst) frame.eth_type fields
          frame.long to.switch_side from.switch_side frame.type_at frame.version_ii e in
      let (src', dst') = match_of-addresses port_no _ _ fields linked in
      rw (sm, dm)
        (match_std_pkt-addresses flow.match (match_of lib port_no fields) w (s ∙ sym src')
          (d ∙ sym dst'))
