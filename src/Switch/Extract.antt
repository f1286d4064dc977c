-- ===== src/Switch/Extract.antt =====
-- `Flow::extract_flow_fields` of examples/switch/flow.cc over the layouts of
-- examples/switch/packets.h: which setters of the match it calls, in order, for the bytes of a
-- packet. Each function is the part of the body from one layer to the end, with its early returns;
-- `none` is a read outside the packet. The table `proto` of pointers is the offsets passed along.
pub mod Total
pub mod Frames
pub mod Tagged
pub mod Addresses
pub mod Snap
pub mod Tests
use libfluid.Prelude.{
  ℕ, zero, suc, ◌+◌, ◌-◌, ◌*◌, ◌/◌, ◌%◌, ◌^◌, Bool, true, false, not, ◌&&◌, Option, none, some,
  List, [], ◌∷◌, ◌++◌, bit_and, ltb, leb, ◌==◌, if◌then◌else◌, length, load8, load16, load32,
  ntoh16, ◌>>=◌,
}
use libfluid.Switch.Match.{EthAddress}

-- One call of a setter of `of10::Match`.
pub data MatchField : Type 0 where
  in_port dl_vlan dl_vlan_pcp dl_type nw_tos nw_proto nw_src nw_dst tp_src tp_dst : ℕ → MatchField
  dl_src dl_dst : EthAddress → MatchField

abbrev pub eth_type_ii_start : ℕ
eth_type_ii_start = 0x0600

abbrev pub eth_type_ip : ℕ
eth_type_ip = 0x0800

abbrev pub eth_type_arp : ℕ
eth_type_arp = 0x0806

abbrev pub eth_type_vlan : ℕ
eth_type_vlan = 0x8100

abbrev pub ip_type_icmp : ℕ
ip_type_icmp = 1

abbrev pub ip_type_tcp : ℕ
ip_type_tcp = 6

abbrev pub ip_type_udp : ℕ
ip_type_udp = 17

-- `IP_IS_FRAGMENT` on the field as it is loaded: `hton16(0x2000 | 0x1fff)` is 0xff3f.
abbrev pub is_fragment : ℕ → Bool
is_fragment ip_frag_off = not (bit_and ip_frag_off (ntoh16 0x3fff) == 0)

unfoldable pub load_address : List ℕ → ℕ → Option EthAddress
load_address pkt off = do
  a ← load8 pkt off
  b ← load8 pkt (off + 1)
  c ← load8 pkt (off + 2)
  d ← load8 pkt (off + 3)
  e ← load8 pkt (off + 4)
  f ← load8 pkt (off + 5)
  some (record { b0 = a; b1 = b; b2 = c; b3 = d; b4 = e; b5 = f })

-- The two ports at the head of a TCP or UDP header.
unfoldable pub ports : List ℕ → ℕ → List MatchField → Option (List MatchField)
ports pkt off out = do
  src ← load16 pkt off
  dst ← load16 pkt (off + 2)
  some (out ++ tp_src (ntoh16 src) ∷ tp_dst (ntoh16 dst) ∷ [])

unfoldable pub icmp : List ℕ → ℕ → List MatchField → Option (List MatchField)
icmp pkt off out = do
  type ← load8 pkt off
  code ← load8 pkt (off + 1)
  some (out ++ tp_src type ∷ tp_dst code ∷ [])

unfoldable pub transport : List ℕ → ℕ → ℕ → List MatchField → Option (List MatchField)
transport pkt next_proto off out =
    if next_proto == ip_type_icmp
    then (if ltb (length pkt) (off + 4) then some out else icmp pkt off out)
    else if next_proto == ip_type_tcp
    then (if ltb (length pkt) (off + 20) then some out else ports pkt off out)
    else if next_proto == ip_type_udp
    then (if ltb (length pkt) (off + 8) then some out else ports pkt off out)
    else some out

unfoldable pub ipv4 : List ℕ → ℕ → List MatchField → Option (List MatchField)
ipv4 pkt off out = do
  src ← load32 pkt (off + 12)
  dst ← load32 pkt (off + 16)
  proto ← load8 pkt (off + 9)
  tos ← load8 pkt (off + 1)
  frag_off ← load16 pkt (off + 6)
  let out' = out ++ nw_src src ∷ nw_dst dst ∷ nw_proto proto ∷ nw_tos (tos / 4) ∷ []
  if is_fragment frag_off then some out' else transport pkt proto (off + 20) out'

unfoldable pub network : List ℕ → ℕ → ℕ → List MatchField → Option (List MatchField)
network pkt eth_type off out =
    if eth_type == eth_type_ip
    then (if ltb (length pkt) (off + 20) then some out else ipv4 pkt off out)
    else transport pkt 0 off out

unfoldable pub arp_header : List ℕ → ℕ → List MatchField → Option (List MatchField)
arp_header pkt off out = do
  spa ← load32 pkt (off + 14)
  tpa ← load32 pkt (off + 24)
  op ← load16 pkt (off + 6)
  some (out ++ nw_src spa ∷ nw_dst tpa ∷ nw_proto (ntoh16 op % 2 ^ 8) ∷ [])

unfoldable pub arp : List ℕ → ℕ → ℕ → List MatchField → Option (List MatchField)
arp pkt eth_type off out =
    if eth_type == eth_type_arp
    then (if ltb (length pkt) (off + 28) then some out else arp_header pkt off out)
    else network pkt eth_type off out

-- `while (ntoh16(proto->eth->eth_type) == ETH_TYPE_VLAN)`, on fuel: neither the type that is tested
-- nor the tag whose next type is stored, the one at `vlan`, changes in the loop.
unfoldable pub vlan_tags : ℕ → List ℕ → ℕ → ℕ → ℕ → List MatchField → Option (List MatchField)
vlan_tags zero pkt eth_type vlan off out = none
vlan_tags (suc fuel) pkt eth_type vlan off out = elim (eth_type == eth_type_vlan) [
  | false ↦ arp pkt eth_type off out
  | true ↦ elim (ltb (length pkt) (off + 4)) [
    | true ↦ some out
    | false ↦ load16 pkt (vlan + 2) >>= λ next.
        vlan_tags fuel pkt eth_type vlan (off + 4) (out ++ dl_type (ntoh16 next) ∷ [])
  ]
]

-- The fuel of the loop: each round moves four bytes on.
abbrev pub fuel_for : List ℕ → ℕ
fuel_for pkt = suc (length pkt)

-- The first tag.
unfoldable pub vlan_header : List ℕ → ℕ → ℕ → List MatchField → Option (List MatchField)
vlan_header pkt eth_type off out = do
  tci ← load16 pkt off
  next ← load16 pkt (off + 2)
  let vlan_id = bit_and (ntoh16 tci) 0x0fff
  let vlan_pcp = bit_and (ntoh16 tci) 0xe000 / 2 ^ 13
  vlan_tags (fuel_for pkt) pkt eth_type off (off + 4)
      (out ++ dl_vlan vlan_id ∷ dl_vlan_pcp vlan_pcp ∷ dl_type (ntoh16 next) ∷ [])

unfoldable pub vlan : List ℕ → ℕ → ℕ → List MatchField → Option (List MatchField)
vlan pkt eth_type off out =
    if eth_type == eth_type_vlan
    then (if ltb (length pkt) (off + 4) then some out else vlan_header pkt eth_type off out)
    else vlan_tags (fuel_for pkt) pkt eth_type off off (out ++ dl_vlan 0xffff ∷ [])

-- `memcmp(snap_org, "\0\0", 3) != 0`, for the SNAP header at offset 17.
unfoldable pub snap : List ℕ → EthAddress → EthAddress → ℕ → Option (List MatchField)
snap pkt src dst eth_type = do
  org0 ← load8 pkt 17
  org1 ← load8 pkt 18
  org2 ← load8 pkt 19
  if not (org0 == 0 && org1 == 0 && org2 == 0)
      then some []
      else vlan pkt eth_type 22 (dl_src src ∷ dl_src dst ∷ dl_type eth_type ∷ [])

-- Ethernet 802.3 with LLC and SNAP headers. `snap` sets `dl_src` to both addresses, as the code does.
unfoldable pub llc : List ℕ → EthAddress → EthAddress → ℕ → Option (List MatchField)
llc pkt src dst eth_type = do
  dsap ← load8 pkt 14
  ssap ← load8 pkt 15
  cntl ← load8 pkt 16
  if not (dsap == 0xaa && ssap == 0xaa && cntl == 3)
      then some []
      else (if ltb (length pkt) 22 then some [] else snap pkt src dst eth_type)

unfoldable pub ethernet : List ℕ → Option (List MatchField)
ethernet pkt = do
  dst ← load_address pkt 0
  src ← load_address pkt 6
  raw_type ← load16 pkt 12
  let eth_type = ntoh16 raw_type
  if leb eth_type_ii_start eth_type
      then vlan pkt eth_type 14 (dl_src src ∷ dl_dst dst ∷ dl_type eth_type ∷ [])
      else (if ltb (length pkt) 17 then some [] else llc pkt src dst eth_type)

unfoldable pub extract_flow_fields : List ℕ → Option (List MatchField)
extract_flow_fields pkt = if ltb (length pkt) 14 then some [] else ethernet pkt
