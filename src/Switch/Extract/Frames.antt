-- ===== src/Switch/Extract/Frames.antt =====
-- What is extracted from frames whose headers are those of examples/switch/packets.h.
use libfluid.Prelude.{
  half_joined, word_joined, ℕ, ◌+◌, ◌/◌, ◌%◌, ◌^◌, ◌<◌, ◌≡◌, refl, ◌∙◌, ap, true, false, some, List,
  [], ◌∷◌, ◌++◌, arith, ltb, leb, Bool-cases, inl, inr, ◌==◌, if◌then◌else◌, length, load8, load16,
  load32, ntoh16,
}
use libfluid.Switch.Packets.{
  EthHeader, eth_header, IpHeader, ip_header, UdpHeader, udp_header, TcpHeader, tcp_header,
  IcmpHeader, icmp_header, ArpEthHeader, arp_eth_header,
}
use libfluid.Switch.Extract
use libfluid.Switch.Extract.{
  MatchField, tp_src, tp_dst, dl_src, dl_dst, dl_type, dl_vlan, nw_src, nw_dst, nw_proto, nw_tos,
  eth_type_ip, eth_type_arp, eth_type_vlan, ip_type_icmp, ip_type_tcp, ip_type_udp, is_fragment,
  load_address, ports, transport, ipv4, network, arp_header, arp, vlan_tags, vlan, ethernet,
  extract_flow_fields,
}

-- The setters for the headers up to the network layer, of a frame without a VLAN tag.
abbrev pub link_fields : EthHeader → List MatchField
link_fields e =
    dl_src e.eth_src ∷ dl_dst e.eth_dst ∷ dl_type (ntoh16 e.eth_type) ∷ dl_vlan 0xffff ∷ []

pub vlan_untagged :
    (pkt : List ℕ) (t off : ℕ) (out : List MatchField)
    → (t == eth_type_vlan) ≡ false
    → vlan pkt t off out ≡ arp pkt t off (out ++ dl_vlan 0xffff ∷ [])
unfolding vlan vlan_tags
vlan_untagged pkt t off out untagged = ground (arith, untagged)

-- Ethernet II without a tag: the rest is left to `arp`.
ethernet_untagged :
    (e : EthHeader) (rest : List ℕ)
    → e.eth_type < 2 ^ 16
    → leb 0x0600 (ntoh16 e.eth_type) ≡ true
    → (ntoh16 e.eth_type == eth_type_vlan) ≡ false
    → ethernet (eth_header e ++ rest)
      ≡ arp (eth_header e ++ rest) (ntoh16 e.eth_type) 14 (link_fields e)
unfolding ethernet load_address load8 load16
ethernet_untagged e rest fits ii untagged =
    rw (half_joined e.eth_type fits) (rw ii (vlan_untagged _ (ntoh16 e.eth_type) 14 _ untagged))

-- An ARP packet: the two protocol addresses, and the low byte of the operation.
abbrev pub arp_fields : ArpEthHeader → List MatchField
arp_fields a = nw_src a.ar_spa ∷ nw_dst a.ar_tpa ∷ nw_proto (ntoh16 a.ar_op % 2 ^ 8) ∷ []

abbrev arp_frame : EthHeader → ArpEthHeader → List ℕ → List ℕ
arp_frame e a pad = eth_header e ++ (arp_eth_header a ++ pad)

arp_extracted :
    (e : EthHeader) (a : ArpEthHeader) (pad : List ℕ) (out : List MatchField)
    → a.ar_op < 2 ^ 16
    → a.ar_spa < 2 ^ 32
    → a.ar_tpa < 2 ^ 32
    → arp (arp_frame e a pad) eth_type_arp 14 out ≡ some (out ++ arp_fields a)
unfolding arp arp_header load16 load32
arp_extracted e a pad out op spa tpa =
    let enough : ltb (length (arp_frame e a pad)) (14 + 28) ≡ false = ground arith in
    rw (enough, half_joined a.ar_op op, word_joined a.ar_spa spa, word_joined a.ar_tpa tpa) refl

-- The fields of an IP header; the type of service is without its two low bits.
abbrev pub ip_fields : IpHeader → List MatchField
ip_fields i = nw_src i.ip_src ∷ nw_dst i.ip_dst ∷ nw_proto i.ip_proto ∷ nw_tos (i.ip_tos / 4) ∷ []

ip_extracted :
    (e : EthHeader) (i : IpHeader) (rest : List ℕ) (out : List MatchField)
    → i.ip_src < 2 ^ 32
    → i.ip_dst < 2 ^ 32
    → i.ip_frag_off < 2 ^ 16
    → arp (eth_header e ++ (ip_header i ++ rest)) eth_type_ip 14 out ≡ (
        if is_fragment i.ip_frag_off
        then some (out ++ ip_fields i)
        else transport (eth_header e ++ (ip_header i ++ rest)) i.ip_proto 34 (out ++ ip_fields i))
unfolding arp network ipv4 load8 load16 load32
ip_extracted e i rest out src dst frag =
    let enough : ltb (length (eth_header e ++ (ip_header i ++ rest))) (14 + 20) ≡ false =
      ground arith in
    rw (enough, half_joined i.ip_frag_off frag, word_joined i.ip_src src, word_joined i.ip_dst dst)
      refl

-- A header of the layer above.
pub data Transport : Type 0 where
  tcp : TcpHeader → Transport
  udp : UdpHeader → Transport
  icmp : IcmpHeader → Transport

abbrev pub protocol : Transport → ℕ
protocol (tcp h) = ip_type_tcp
protocol (udp h) = ip_type_udp
protocol (icmp h) = ip_type_icmp

abbrev pub transport_header : Transport → List ℕ
transport_header (tcp h) = tcp_header h
transport_header (udp h) = udp_header h
transport_header (icmp h) = icmp_header h

abbrev pub transport_fields : Transport → List MatchField
transport_fields (tcp h) = tp_src (ntoh16 h.tcp_src) ∷ tp_dst (ntoh16 h.tcp_dst) ∷ []
transport_fields (udp h) = tp_src (ntoh16 h.udp_src) ∷ tp_dst (ntoh16 h.udp_dst) ∷ []
transport_fields (icmp h) = tp_src h.icmp_type ∷ tp_dst h.icmp_code ∷ []

-- Both ports are 16 bits.
abbrev pub HasPorts : Transport → Type 0
HasPorts (tcp h) = (h.tcp_src < 2 ^ 16) × (h.tcp_dst < 2 ^ 16)
HasPorts (udp h) = (h.udp_src < 2 ^ 16) × (h.udp_dst < 2 ^ 16)
HasPorts (icmp h) = Unit

abbrev pub ip_frame : EthHeader → IpHeader → Transport → List ℕ → List ℕ
ip_frame e i t rest = eth_header e ++ (ip_header i ++ (transport_header t ++ rest))

transport_extracted :
    (e : EthHeader) (i : IpHeader) (t : Transport) (rest : List ℕ) (out : List MatchField)
    → HasPorts t
    → transport (ip_frame e i t rest) (protocol t) 34 out ≡ some (out ++ transport_fields t)
unfolding transport ports load8 load16
transport_extracted e i (tcp h) rest out fits =
    let enough : ltb (length (ip_frame e i (tcp h) rest)) (34 + 20) ≡ false = ground arith in
    rw (enough, half_joined h.tcp_src fits.0, half_joined h.tcp_dst fits.1) refl
transport_extracted e i (udp h) rest out fits =
    let enough : ltb (length (ip_frame e i (udp h) rest)) (34 + 8) ≡ false = ground arith in
    rw (enough, half_joined h.udp_src fits.0, half_joined h.udp_dst fits.1) refl
transport_extracted e i (icmp h) rest out fits =
    let enough : ltb (length (ip_frame e i (icmp h) rest)) (34 + 4) ≡ false = ground arith in
    rw enough (unfold Extract.icmp in refl)

pub extract_flow_fields_long :
    (e : EthHeader) (rest : List ℕ)
    → extract_flow_fields (eth_header e ++ rest) ≡ ethernet (eth_header e ++ rest)
unfolding extract_flow_fields
extract_flow_fields_long e rest =
    let enough : ltb (length (eth_header e ++ rest)) 14 ≡ false = ground arith in rw enough refl

-- A frame that holds an IP packet for this header of the layer above, each field in its width.
pub record IsIpFrame (e : EthHeader) (i : IpHeader) (t : Transport) : Type 0 where
  pub typed : ntoh16 e.eth_type ≡ eth_type_ip
  pub proto : i.ip_proto ≡ protocol t
  pub ports : HasPorts t
  pub type_fits : e.eth_type < 2 ^ 16
  pub frag_fits : i.ip_frag_off < 2 ^ 16
  pub src_fits : i.ip_src < 2 ^ 32
  pub dst_fits : i.ip_dst < 2 ^ 32

ip_frame_extracted :
    (e : EthHeader) (i : IpHeader) (t : Transport) (rest : List ℕ)
    → IsIpFrame e i t
    → extract_flow_fields (ip_frame e i t rest)
      ≡ some (
          link_fields e
          ++ ip_fields i
          ++ (if is_fragment i.ip_frag_off then [] else transport_fields t))
ip_frame_extracted e i t rest h =
    let ii : leb 0x0600 (ntoh16 e.eth_type) ≡ true = rw h.typed refl in
    let untagged : (ntoh16 e.eth_type == eth_type_vlan) ≡ false = rw h.typed refl in
    let body = transport_header t ++ rest in
    extract_flow_fields_long e (ip_header i ++ body)
    ∙ ethernet_untagged e (ip_header i ++ body) h.type_fits ii untagged
    ∙ ap (λ n. arp (ip_frame e i t rest) n 14 (link_fields e)) h.typed
    ∙ ip_extracted e i body (link_fields e) h.src_fits h.dst_fits h.frag_fits
    ∙ elim (Bool-cases (is_fragment i.ip_frag_off)) [
      | inl fragment ↦ rw fragment refl
      | inr whole ↦ rw whole (
          ap (λ n. transport (ip_frame e i t rest) n 34 (link_fields e ++ ip_fields i)) h.proto
          ∙ transport_extracted e i t rest (link_fields e ++ ip_fields i) h.ports)
    ]

-- A frame that holds an ARP packet, each field in its width.
pub record IsArpFrame (e : EthHeader) (a : ArpEthHeader) : Type 0 where
  pub typed : ntoh16 e.eth_type ≡ eth_type_arp
  pub type_fits : e.eth_type < 2 ^ 16
  pub op_fits : a.ar_op < 2 ^ 16
  pub spa_fits : a.ar_spa < 2 ^ 32
  pub tpa_fits : a.ar_tpa < 2 ^ 32

arp_frame_extracted :
    (e : EthHeader) (a : ArpEthHeader) (pad : List ℕ)
    → IsArpFrame e a
    → extract_flow_fields (arp_frame e a pad) ≡ some (link_fields e ++ arp_fields a)
arp_frame_extracted e a pad h =
    let ii : leb 0x0600 (ntoh16 e.eth_type) ≡ true = rw h.typed refl in
    let untagged : (ntoh16 e.eth_type == eth_type_vlan) ≡ false = rw h.typed refl in
    extract_flow_fields_long e (arp_eth_header a ++ pad)
    ∙ ethernet_untagged e (arp_eth_header a ++ pad) h.type_fits ii untagged
    ∙ ap (λ n. arp (arp_frame e a pad) n 14 (link_fields e)) h.typed
    ∙ arp_extracted e a pad (link_fields e) h.op_fits h.spa_fits h.tpa_fits

-- What an Ethernet frame carries.
pub data Network : Type 0 where
  arp_packet : ArpEthHeader → Network
  ip_packet : IpHeader → Transport → Network

abbrev pub frame : EthHeader → Network → List ℕ → List ℕ
frame e (arp_packet a) rest = arp_frame e a rest
frame e (ip_packet i t) rest = ip_frame e i t rest

-- The type of the frame names what it carries, and each field is in its width.
abbrev pub IsFrame : EthHeader → Network → Type 0
IsFrame e (arp_packet a) = IsArpFrame e a
IsFrame e (ip_packet i t) = IsIpFrame e i t

abbrev pub network_fields : Network → List MatchField
network_fields (arp_packet a) = arp_fields a
network_fields (ip_packet i t) =
    ip_fields i ++ (if is_fragment i.ip_frag_off then [] else transport_fields t)

-- From the bytes of an untagged Ethernet frame with an ARP header, or with an IP header and a TCP, UDP or
-- ICMP header, and any bytes behind, the extraction gives back the fields that were put there, in their
-- order; from a fragment, those of the first two headers.
pub extract_flow_fields-frame :
    (e : EthHeader) (n : Network) (rest : List ℕ)
    → IsFrame e n
    → extract_flow_fields (frame e n rest) ≡ some (link_fields e ++ network_fields n)
extract_flow_fields-frame e (arp_packet a) rest h = arp_frame_extracted e a rest h
extract_flow_fields-frame e (ip_packet i t) rest h = ip_frame_extracted e i t rest h
