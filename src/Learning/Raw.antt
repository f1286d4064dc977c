-- ===== src/Learning/Raw.antt =====
-- class RawLearningSwitch of examples/controller/raw/RawApps.hh, over BaseLearningSwitch: it reads the
-- bytes of a packet in at the offsets of `struct ofp_packet_in`, and builds its answers as the bytes of
-- the structures of OpenFlow 1.0, on a little-endian host. Also class RawCBench.
pub mod Flood
pub mod FlowMod
pub mod PacketOut
pub mod Answers
pub mod Refines
pub mod Total
pub mod Tests
use libfluid.Prelude.{
  ℕ, ◌+◌, ◌*◌, ◌/◌, ◌%◌, ◌^◌, Option, none, some, List, [], ◌∷◌, ◌++◌, ◌>>=◌, length, set,
  get_elem?, load16, load32, ntoh16, half_bytes, word_bytes, long_bytes, zeros, prefix, memcpy,
  overwrite,
}
use libfluid.Learning.{
  L2Table, find, assign, LearningSwitch, new_switch, ControllerEvent, packet_in, switch_down,
  switch_up, get_l2table, base_event_callback, load_address,
}

-- The base class, and the bytes that were sent on each connection.
pub record RawSwitch : Type 0 where
  pub base : LearningSwitch
  pub sent : List (ℕ × List ℕ)

unfoldable pub new_raw_switch : RawSwitch
new_raw_switch = record { base = new_switch; sent = [] }

abbrev pub send : ℕ → List ℕ → RawSwitch → RawSwitch
send ofconn raw st = record st { sent = st.sent ++ (ofconn, raw) ∷ [] }

-- `offsetof` of `total_len`, `in_port` and `data` in `struct ofp_packet_in`.
abbrev pub total_len_at : ℕ
total_len_at = 12

abbrev pub in_port_at : ℕ
in_port_at = 14

abbrev pub data_at : ℕ
data_at = 18

-- `struct ofp_header`, for a length in host order and an xid as it was loaded.
unfoldable pub header_bytes : (type len xid : ℕ) → List ℕ
header_bytes type len xid = (0x01 ∷ type ∷ half_bytes (ntoh16 len)) ++ word_bytes xid

-- `memcpy(dst, ((uint8_t*) &a) + 2, 6)`
unfoldable pub address_bytes : ℕ → List ℕ
address_bytes a =
    a / 2 ^ 16 % 2 ^ 8
    ∷ a / 2 ^ 24 % 2 ^ 8
    ∷ a / 2 ^ 32 % 2 ^ 8
    ∷ a / 2 ^ 40 % 2 ^ 8
    ∷ a / 2 ^ 48 % 2 ^ 8
    ∷ a / 2 ^ 56 % 2 ^ 8
    ∷ []

-- `struct ofp_match`: only the two addresses are set. The wildcards are
-- `htonl(OFPFW_ALL & ~OFPFW_DL_SRC & ~OFPFW_DL_DST)`.
unfoldable pub match_bytes : (src dst : ℕ) → List ℕ
match_bytes src dst =
    (0x00 ∷ 0x3f ∷ 0xff ∷ 0xf3 ∷ [])
    ++ half_bytes 0
    ++ address_bytes src
    ++ address_bytes dst
    ++ zeros 22

-- `struct ofp_action_output`; the port is in host order.
unfoldable pub output_bytes : ℕ → List ℕ
output_bytes port =
    half_bytes 0 ++ half_bytes (ntoh16 8) ++ half_bytes (ntoh16 port) ++ half_bytes 0

-- `struct ofp_flow_mod`; the buffer's id is as it was loaded, and the cookie is not put in network order.
unfoldable pub flow_mod_bytes : (xid buffer_id src dst : ℕ) → List ℕ
flow_mod_bytes xid buffer_id src dst =
    header_bytes 14 80 xid
    ++ match_bytes src dst
    ++ long_bytes 123
    ++ half_bytes 0
    ++ half_bytes (ntoh16 5)
    ++ half_bytes (ntoh16 10)
    ++ half_bytes (ntoh16 100)
    ++ word_bytes buffer_id
    ++ half_bytes 0
    ++ half_bytes 0

unfoldable pub install_flow_mod : ℕ → List ℕ → (src dst out_port : ℕ) → RawSwitch → Option RawSwitch
install_flow_mod ofconn message src dst out_port st = do
  xid ← load32 message 4
  buffer_id ← load32 message 8
  raw ← memcpy (zeros 80) 0 (flow_mod_bytes xid buffer_id src dst)
  raw' ← memcpy raw 72 (output_bytes out_port)
  some (send ofconn raw' st)

-- `struct ofp_packet_out`; the port is as it was loaded.
unfoldable pub packet_out_bytes : (len xid buffer_id in_port : ℕ) → List ℕ
packet_out_bytes len xid buffer_id in_port =
    header_bytes 13 len xid ++ word_bytes buffer_id ++ half_bytes in_port ++ half_bytes (ntoh16 8)

-- The length of the buffer on the stack, a `uint16_t`.
abbrev pub flood_len : ℕ → ℕ
flood_len total_len = (16 + 8 + total_len) % 2 ^ 16

-- The bytes that are sent: what is copied behind the action is the head of the whole message.
unfoldable pub flood_bytes : List ℕ → Option (List ℕ)
flood_bytes message = do
  raw_len ← load16 message total_len_at
  let total_len = ntoh16 raw_len
  xid ← load32 message 4
  buffer_id ← load32 message 8
  in_port ← load16 message in_port_at
  raw ←
      memcpy (zeros (flood_len total_len)) 0
        (packet_out_bytes (flood_len total_len) xid buffer_id in_port)
  raw' ← memcpy raw 16 (output_bytes 0xfffb)
  content ← prefix total_len message
  memcpy raw' (16 + 8) content

unfoldable pub flood : ℕ → List ℕ → RawSwitch → Option RawSwitch
flood ofconn message st = flood_bytes message >>= λ raw. some (send ofconn raw st)

-- The reply to a packet in, by what the table has for its destination.
unfoldable pub reply : ℕ → List ℕ → (src dst : ℕ) → Option ℕ → RawSwitch → Option RawSwitch
reply ofconn message src dst none st = flood ofconn message st
reply ofconn message src dst (some out_port) st =
    install_flow_mod ofconn message src dst out_port st

-- The handler once the table is found.
unfoldable pub handle_packet_in : ℕ → List ℕ → ℕ → RawSwitch → Option RawSwitch
handle_packet_in ofconn message i st = do
  dst ← load_address message data_at
  src ← load_address message (data_at + 6)
  in_port ← load16 message in_port_at
  table ← get_elem? st.base.l2tables i
  let table' = assign src (ntoh16 in_port) table
  let learned = record st.base { l2tables = set st.base.l2tables i table' }
  reply ofconn message src dst (find dst table') (record st { base = learned })

-- RawLearningSwitch::event_callback; `none` is undefined behaviour.
unfoldable pub event_callback : ControllerEvent → RawSwitch → Option RawSwitch
event_callback (packet_in ofconn version message) st = elim (get_l2table ofconn st.base) [
  | none ↦ some st
  | some i ↦ handle_packet_in ofconn message i st
]
event_callback (switch_up ofconn version) st =
    some (record st { base = base_event_callback (switch_up ofconn version) st.base })
event_callback (switch_down ofconn version) st =
    some (record st { base = base_event_callback (switch_down ofconn version) st.base })

-- The events so far, the newest first.
unfoldable pub run : List ControllerEvent → Option RawSwitch
run [] = some new_raw_switch
run (e ∷ es) = run es >>= event_callback e

-- RawCBench::event_callback: what it sends to the connection of an event.
unfoldable pub cbench_callback : ControllerEvent → List (ℕ × List ℕ)
cbench_callback (packet_in ofconn version message) = (ofconn, header_bytes 14 72 0 ++ zeros 64) ∷ []
cbench_callback (switch_up ofconn version) = []
cbench_callback (switch_down ofconn version) = []
