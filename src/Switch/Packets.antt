-- ===== src/Switch/Packets.antt =====
-- The headers of examples/switch/packets.h and the bytes that hold them: a field is the value that the
-- code loads, so one in network order is what `ntoh16` is applied to.
use libfluid.Prelude.{ℕ, List, [], ◌∷◌, ◌++◌, half_bytes, word_bytes}
use libfluid.Switch.Match.{EthAddress}

abbrev pub address_bytes : EthAddress → List ℕ
address_bytes a = a.b0 ∷ a.b1 ∷ a.b2 ∷ a.b3 ∷ a.b4 ∷ a.b5 ∷ []

pub record EthHeader : Type 0 where
  pub eth_dst : EthAddress
  pub eth_src : EthAddress
  pub eth_type : ℕ

abbrev pub eth_header : EthHeader → List ℕ
eth_header h = address_bytes h.eth_dst ++ address_bytes h.eth_src ++ half_bytes h.eth_type

pub record IpHeader : Type 0 where
  pub ip_ihl_ver : ℕ
  pub ip_tos : ℕ
  pub ip_tot_len : ℕ
  pub ip_id : ℕ
  pub ip_frag_off : ℕ
  pub ip_ttl : ℕ
  pub ip_proto : ℕ
  pub ip_csum : ℕ
  pub ip_src : ℕ
  pub ip_dst : ℕ

abbrev pub ip_header : IpHeader → List ℕ
ip_header h =
    (h.ip_ihl_ver ∷ h.ip_tos ∷ half_bytes h.ip_tot_len)
    ++ half_bytes h.ip_id
    ++ half_bytes h.ip_frag_off
    ++ (h.ip_ttl ∷ h.ip_proto ∷ half_bytes h.ip_csum)
    ++ word_bytes h.ip_src
    ++ word_bytes h.ip_dst

pub record UdpHeader : Type 0 where
  pub udp_src : ℕ
  pub udp_dst : ℕ
  pub udp_len : ℕ
  pub udp_csum : ℕ

abbrev pub udp_header : UdpHeader → List ℕ
udp_header h =
    half_bytes h.udp_src ++ half_bytes h.udp_dst ++ half_bytes h.udp_len ++ half_bytes h.udp_csum

pub record TcpHeader : Type 0 where
  pub tcp_src : ℕ
  pub tcp_dst : ℕ
  pub tcp_seq : ℕ
  pub tcp_ack : ℕ
  pub tcp_ctl : ℕ
  pub tcp_winsz : ℕ
  pub tcp_csum : ℕ
  pub tcp_urg : ℕ

abbrev pub tcp_header : TcpHeader → List ℕ
tcp_header h =
    half_bytes h.tcp_src
    ++ half_bytes h.tcp_dst
    ++ word_bytes h.tcp_seq
    ++ word_bytes h.tcp_ack
    ++ half_bytes h.tcp_ctl
    ++ half_bytes h.tcp_winsz
    ++ half_bytes h.tcp_csum
    ++ half_bytes h.tcp_urg

pub record IcmpHeader : Type 0 where
  pub icmp_type : ℕ
  pub icmp_code : ℕ
  pub icmp_csum : ℕ

abbrev pub icmp_header : IcmpHeader → List ℕ
icmp_header h = h.icmp_type ∷ h.icmp_code ∷ half_bytes h.icmp_csum

pub record ArpEthHeader : Type 0 where
  pub ar_hrd : ℕ
  pub ar_pro : ℕ
  pub ar_hln : ℕ
  pub ar_pln : ℕ
  pub ar_op : ℕ
  pub ar_sha : EthAddress
  pub ar_spa : ℕ
  pub ar_tha : EthAddress
  pub ar_tpa : ℕ

abbrev pub arp_eth_header : ArpEthHeader → List ℕ
arp_eth_header h =
    half_bytes h.ar_hrd
    ++ half_bytes h.ar_pro
    ++ (h.ar_hln ∷ h.ar_pln ∷ half_bytes h.ar_op)
    ++ address_bytes h.ar_sha
    ++ word_bytes h.ar_spa
    ++ address_bytes h.ar_tha
    ++ word_bytes h.ar_tpa

pub record LlcHeader : Type 0 where
  pub llc_dsap : ℕ
  pub llc_ssap : ℕ
  pub llc_cntl : ℕ

abbrev pub llc_header : LlcHeader → List ℕ
llc_header h = h.llc_dsap ∷ h.llc_ssap ∷ h.llc_cntl ∷ []

-- The three bytes of `snap_org` are fields here.
pub record SnapHeader : Type 0 where
  pub snap_org0 : ℕ
  pub snap_org1 : ℕ
  pub snap_org2 : ℕ
  pub snap_type : ℕ

abbrev pub snap_header : SnapHeader → List ℕ
snap_header h = (h.snap_org0 ∷ h.snap_org1 ∷ h.snap_org2 ∷ []) ++ half_bytes h.snap_type
