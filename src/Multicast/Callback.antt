-- ===== src/Multicast/Callback.antt =====
-- `event_callback` of examples/controller/mc-agent/MCApps.hh: from the events of the controller, and
-- the bytes of a packet, to the handlers. What it prints is left out.
pub mod Deliver
use libfluid.Prelude.{
  ℕ, ◌+◌, ◌*◌, ◌/◌, ◌%◌, ◌^◌, ◌==◌, ◌||◌, not, if◌then◌else◌, Option, none, some, List, load8,
  load16, load32, ntoh16, ◌>>=◌,
}
use libfluid.Learning.{PacketIn, load_address}
use libfluid.Multicast.Types.{PacketInDataHeader, GroupModLib}
use libfluid.Multicast.Membership.{
  ConnectionPointer, null, stray, connection, App, handle_packet_in, send_role_request_equal_msg,
  protocol_type_igmp, protocol_type_udp,
}

-- What the callback takes from libfluid_msg: `of13::FeaturesReply::unpack` and `datapath_id`, and
-- `of13::PacketIn::unpack`.
pub record AgentLib : Type 0 where
  pub group : GroupModLib
  pub datapath_id : List ℕ → ℕ
  pub unpack : List ℕ → PacketIn

-- The events of Controller.hh, by the connection, its version and the message that came.
pub data AgentEvent : Type 0 where
  packet_in switch_up : (ofconn version : ℕ) (message : List ℕ) → AgentEvent
  switch_down : (ofconn version : ℕ) → AgentEvent

abbrev pub eth_hlen : ℕ
eth_hlen = 14

-- The UDP ports of a packet, source first. The read of the code behind the header can run out of the
-- packet too; its value is lost, since `be64toh` of 32 bits leaves its low 32 bits zero.
unfoldable pub udp_ports : List ℕ → ℕ → Option (ℕ × ℕ)
udp_ports bytes ip_header_len = do
  src ← load16 bytes (eth_hlen + ip_header_len)
  dst ← load16 bytes (eth_hlen + ip_header_len + 2)
  code ← load32 bytes (eth_hlen + ip_header_len + 8)
  some (ntoh16 src, ntoh16 dst)

-- `match().in_port()`, which may be missing, in a `uint16_t`.
unfoldable pub in_intf : PacketIn → ℕ
in_intf pi = elim pi.in_port [ none ↦ 0 | some port ↦ port % 2 ^ 16 ]

-- The PacketInDataHeader that the callback makes.
unfoldable pub new_header :
    PacketIn → (dmac smac dip sip udst usrc protocol : ℕ) → PacketInDataHeader
new_header pi dmac smac dip sip udst usrc protocol = record {
  dmac = dmac;
  smac = smac;
  dip = dip;
  sip = sip;
  in_intf = in_intf pi;
  udst_port = udst;
  usrc_port = usrc;
  protocol = protocol;
  membership_code = 0;
  xid = pi.xid;
  buffer_id = pi.buffer_id;
  frame = pi.bytes;
}

-- The part for IGMP and UDP.
unfoldable pub handle_datagram :
    AgentLib → PacketIn → (dmac smac ip_header_len protocol : ℕ) → App → Option App
handle_datagram lib pi dmac smac ip_header_len protocol a = do
  sip ← load32 pi.bytes 26
  dip ← load32 pi.bytes 30
  (src, dst) ←
      (if protocol == protocol_type_udp then udp_ports pi.bytes ip_header_len else some (0, 0))
  handle_packet_in lib.group (new_header pi dmac smac dip sip dst src protocol) a

-- The part for IP frames.
unfoldable pub handle_ip : AgentLib → PacketIn → (dmac smac : ℕ) → App → Option App
handle_ip lib pi dmac smac a = do
  version_ihl ← load8 pi.bytes 14
  protocol ← load8 pi.bytes 23
  if protocol == protocol_type_igmp || protocol == protocol_type_udp
      then handle_datagram lib pi dmac smac (version_ihl % 16 * 4) protocol a
      else some a

unfoldable pub handle_message : AgentLib → PacketIn → App → Option App
handle_message lib pi a = do
  dmac ← load_address pi.bytes 0
  smac ← load_address pi.bytes 6
  eth_type ← load16 pi.bytes 12
  if ntoh16 eth_type == 0x0800 then handle_ip lib pi dmac smac a else some a

-- The callback; `none` is a read outside the packet, `ofconn` followed where it points to no connection, or
-- what `leave_member_from_group` does with an erased entry.
unfoldable pub event_callback : AgentLib → AgentEvent → App → Option App
event_callback lib (switch_up ofconn version message) a =
    if version == 4
    then (elim a.ofconn [
      | null ↦ some (
          send_role_request_equal_msg
            (record a { ofconn = connection ofconn; dpid = lib.datapath_id message }))
      | stray ↦ some a
      | connection c ↦ some a
    ])
    else some a
event_callback lib (switch_down ofconn version) a = some a
event_callback lib (packet_in ofconn version message) a = elim a.ofconn [
  | null ↦ none
  | stray ↦ none
  | connection c ↦
      if c == ofconn
      then (if version == 4 then handle_message lib (lib.unpack message) a else some a)
      else some a
]

-- CBench::event_callback of the same file, by its count of packets: the value of the port is read if there
-- is no port.
unfoldable pub cbench_callback : AgentLib → AgentEvent → (pin_count : ℕ) → Option ℕ
cbench_callback lib (packet_in ofconn version message) pin_count =
    if version == 4
    then (load_address (lib.unpack message).bytes 0 >>= λ dst.
        load_address (lib.unpack message).bytes 6 >>= λ src.
        (lib.unpack message).in_port >>= λ port. some ((pin_count + 1) % 2 ^ 32))
    else some pin_count
cbench_callback lib (switch_up ofconn version message) pin_count = some pin_count
cbench_callback lib (switch_down ofconn version) pin_count = some pin_count
