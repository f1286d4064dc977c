-- ===== src/Switch/Extract/Snap.antt =====
-- What is extracted from a frame of Ethernet 802.3 (examples/switch/flow.cc), with the LLC and SNAP headers
-- of examples/switch/packets.h.
use libfluid.Prelude.{
  ℕ, ◌<◌, ◌^◌, ◌≡◌, refl, ◌∙◌, Bool, false, ◌&&◌, some, List, [], ◌∷◌, ◌++◌, arith, ltb, leb, ◌==◌,
  if◌then◌else◌, inl, inr, Bool-cases, length, load8, load16, ntoh16, half_joined,
}
use libfluid.Switch.Packets.{EthHeader, eth_header, LlcHeader, llc_header, SnapHeader, snap_header}
use libfluid.Switch.Extract
use libfluid.Switch.Extract.{
  MatchField, dl_src, dl_type, dl_vlan, eth_type_ii_start, eth_type_ip, eth_type_arp, eth_type_vlan,
  ip_type_icmp, ip_type_tcp, ip_type_udp, load_address, transport, network, arp, vlan_tags, vlan,
  fuel_for, ethernet, extract_flow_fields,
}
use libfluid.Switch.Extract.Frames.{extract_flow_fields_long, vlan_untagged}

-- LLC announces SNAP, and SNAP an Ethernet type.
abbrev pub is_snap : LlcHeader → SnapHeader → Bool
is_snap l s =
    (l.llc_dsap == 0xaa && l.llc_ssap == 0xaa && l.llc_cntl == 3)
    && (s.snap_org0 == 0 && s.snap_org1 == 0 && s.snap_org2 == 0)

abbrev pub snap_frame : EthHeader → LlcHeader → SnapHeader → List ℕ → List ℕ
snap_frame e l s rest = eth_header e ++ (llc_header l ++ (snap_header s ++ rest))

-- A type below that of Ethernet II is neither IP nor ARP: nothing more is extracted.
arp_small :
    (pkt : List ℕ) (type off : ℕ) (out : List MatchField)
    → type < 0x0600
    → arp pkt type off out ≡ some out
unfolding arp network transport
arp_small pkt type off out h =
    let not_arp : (type == eth_type_arp) ≡ false = ground arith in
    let not_ip : (type == eth_type_ip) ≡ false = ground arith in rw (not_arp, not_ip) refl

llc_snap :
    (e : EthHeader) (l : LlcHeader) (s : SnapHeader) (rest : List ℕ) (type : ℕ)
    → type < 0x0600
    → Extract.llc (snap_frame e l s rest) e.eth_src e.eth_dst type ≡ (
        if is_snap l s
        then some (dl_src e.eth_src ∷ dl_src e.eth_dst ∷ dl_type type ∷ dl_vlan 0xffff ∷ [])
        else some [])
unfolding Extract.llc Extract.snap load8
llc_snap e l s rest type h =
    let out = dl_src e.eth_src ∷ dl_src e.eth_dst ∷ dl_type type ∷ [] in
    let untagged : (type == eth_type_vlan) ≡ false = ground arith in
    let upper =
      vlan_untagged (snap_frame e l s rest) type 22 out untagged
      ∙ arp_small (snap_frame e l s rest) type 22 (out ++ dl_vlan 0xffff ∷ []) h in
    let enough : ltb (length (snap_frame e l s rest)) 22 ≡ false = ground arith in
    elim (Bool-cases (l.llc_dsap == 0xaa && l.llc_ssap == 0xaa && l.llc_cntl == 3)) [
      | inr other ↦ rw other refl
      | inl announced ↦
          elim (Bool-cases (s.snap_org0 == 0 && s.snap_org1 == 0 && s.snap_org2 == 0)) [
            | inl ethernet_type ↦ rw (announced, enough, ethernet_type) upper
            | inr other ↦ rw (announced, enough, other) refl
          ]
    ]

-- A frame of Ethernet 802.3 that holds an LLC and a SNAP header: if they announce an Ethernet type, the
-- setter of the source is called with the source and then with the destination, that of the destination
-- never, and the length of the frame is taken for its type, so that nothing behind the headers is
-- extracted, whatever its type is; otherwise nothing is extracted.
pub extract_flow_fields-snap_frame :
    (e : EthHeader) (l : LlcHeader) (s : SnapHeader) (rest : List ℕ)
    → e.eth_type < 2 ^ 16
    → ntoh16 e.eth_type < 0x0600
    → extract_flow_fields (snap_frame e l s rest) ≡ (
        if is_snap l s
        then some (
            dl_src e.eth_src ∷ dl_src e.eth_dst ∷ dl_type (ntoh16 e.eth_type) ∷ dl_vlan 0xffff ∷ [])
        else some [])
unfolding ethernet load_address load8 load16
extract_flow_fields-snap_frame e l s rest fits small =
    let old : leb eth_type_ii_start (ntoh16 e.eth_type) ≡ false = ground arith in
    let enough : ltb (length (snap_frame e l s rest)) 17 ≡ false = ground arith in
    extract_flow_fields_long e (llc_header l ++ (snap_header s ++ rest))
    ∙ rw (half_joined e.eth_type fits)
        (rw (old, enough) (llc_snap e l s rest (ntoh16 e.eth_type) small))
