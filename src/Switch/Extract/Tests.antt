-- ===== src/Switch/Extract/Tests.antt =====
-- The theorems on the extraction of fields from frames (examples/switch/flow.cc) at concrete inputs.
use libfluid.Prelude.{ℕ, ◌≡◌, refl, some, [], ◌∷◌, ◌++◌, arith}
use libfluid.Switch.Match.{EthAddress}
use libfluid.Switch.Packets.{EthHeader, eth_header, IpHeader, ArpEthHeader}
use libfluid.Switch.Extract.{dl_src, dl_type, dl_vlan, extract_flow_fields}
use libfluid.Switch.Extract.Snap.{snap_frame, extract_flow_fields-snap_frame}
use libfluid.Switch.Extract.Frames.{
  udp, Transport, IsIpFrame, arp_packet, ip_packet, frame, link_fields, network_fields,
  extract_flow_fields-frame,
}
use libfluid.Switch.Extract.Tagged.{LinkOnly, extract_flow_fields-LinkOnly}

abbrev address : ℕ → EthAddress
address n = record { b0 = 0; b1 = 0; b2 = 0; b3 = 0; b4 = 0; b5 = n }

-- From address 1 to address 2, for a type as it is loaded.
abbrev typed : ℕ → EthHeader
typed type = record { eth_dst = address 2; eth_src = address 1; eth_type = type }

-- A UDP packet from 10.0.0.1, port 53, to 10.0.0.2, port 80.
abbrev ip : IpHeader
ip = record {
  ip_ihl_ver = 0x45;
  ip_tos = 8;
  ip_tot_len = 0x1c00;
  ip_id = 0;
  ip_frag_off = 0;
  ip_ttl = 64;
  ip_proto = 17;
  ip_csum = 0;
  ip_src = 0x0100000a;
  ip_dst = 0x0200000a;
}

abbrev datagram : Transport
datagram = udp (record { udp_src = 0x3500; udp_dst = 0x5000; udp_len = 0x0800; udp_csum = 0 })

datagram-IsIpFrame : IsIpFrame (typed 0x0008) ip datagram
datagram-IsIpFrame = record {
  typed = refl;
  proto = refl;
  ports = (omega arith, omega arith);
  type_fits = omega arith;
  frag_fits = omega arith;
  src_fits = omega arith;
  dst_fits = omega arith;
}

extract_flow_fields-frame_example :
    extract_flow_fields (frame (typed 0x0008) (ip_packet ip datagram) (7 ∷ []))
    ≡ some (link_fields (typed 0x0008) ++ network_fields (ip_packet ip datagram))
extract_flow_fields-frame_example =
    extract_flow_fields-frame (typed 0x0008) (ip_packet ip datagram) (7 ∷ []) datagram-IsIpFrame

abbrev request : ArpEthHeader
request = record {
  ar_hrd = 0x0100;
  ar_pro = 0x0008;
  ar_hln = 6;
  ar_pln = 4;
  ar_op = 0x0100;
  ar_sha = address 1;
  ar_spa = 0x0100000a;
  ar_tha = address 0;
  ar_tpa = 0x0200000a;
}

request_extracted :
    extract_flow_fields (frame (typed 0x0608) (arp_packet request) [])
    ≡ some (link_fields (typed 0x0608) ++ network_fields (arp_packet request))
request_extracted = extract_flow_fields-frame (typed 0x0608) (arp_packet request) [] (record {
  typed = refl;
  type_fits = omega arith;
  op_fits = omega arith;
  spa_fits = omega arith;
  tpa_fits = omega arith;
})

-- A tag for VLAN 5 of an IP packet.
extract_flow_fields-LinkOnly_example :
    LinkOnly
      (extract_flow_fields (eth_header (typed 0x0081) ++ (0 ∷ 5 ∷ 8 ∷ 0 ∷ 69 ∷ 0 ∷ 0 ∷ 28 ∷ [])))
extract_flow_fields-LinkOnly_example =
    extract_flow_fields-LinkOnly (typed 0x0081) (0 ∷ 5 ∷ 8 ∷ 0 ∷ 69 ∷ 0 ∷ 0 ∷ 28 ∷ []) (omega arith)
      refl

-- A frame of length 46 that SNAP says to hold an IP packet.
extract_flow_fields-snap_frame_example :
    extract_flow_fields (
      snap_frame
        (typed 0x2e00)
        (record { llc_dsap = 0xaa; llc_ssap = 0xaa; llc_cntl = 3 })
        (record { snap_org0 = 0; snap_org1 = 0; snap_org2 = 0; snap_type = 0x0008 })
        (0x45 ∷ []))
    ≡ some (dl_src (address 1) ∷ dl_src (address 2) ∷ dl_type 46 ∷ dl_vlan 0xffff ∷ [])
extract_flow_fields-snap_frame_example =
    extract_flow_fields-snap_frame (typed 0x2e00)
      (record { llc_dsap = 0xaa; llc_ssap = 0xaa; llc_cntl = 3 })
      (record { snap_org0 = 0; snap_org1 = 0; snap_org2 = 0; snap_type = 0x0008 }) (0x45 ∷ [])
      (omega arith) (omega arith)
