-- ===== src/Learning.antt =====
-- class MultiLearningSwitch of examples/controller/msg/MsgApps.hh, over BaseLearningSwitch and the
-- events of examples/controller/Controller.hh.
pub mod Tables
pub mod Seen
pub mod Forwarding
pub mod Raw
pub mod Loci
pub mod Tests
use libfluid.Prelude.{
  ℕ, ◌+◌, ◌*◌, ◌/◌, ◌%◌, ◌^◌, Option, none, some, List, [], ◌∷◌, ◌++◌, ◌==◌, if◌then◌else◌, length,
  load8, get_elem?, set, ◌>>=◌,
}

-- L2TABLE: ports by hardware address.
abbrev pub L2Table : Type 0
L2Table = List (ℕ × ℕ)

unfoldable pub find : ℕ → List (ℕ × ℕ) → Option ℕ
find k [] = none
find k ((j, v) ∷ m) = if j == k then some v else find k m

-- `(*l2table)[k] = v`
unfoldable pub assign : ℕ → ℕ → L2Table → L2Table
assign k v [] = (k, v) ∷ []
assign k v ((j, u) ∷ m) = if j == k then (k, v) ∷ m else (j, u) ∷ assign k v m

-- What `unpack` leaves in a PacketIn; the port is none for a match of OpenFlow 1.3 without it.
pub record PacketIn : Type 0 where
  pub xid : ℕ
  pub buffer_id : ℕ
  pub in_port : Option ℕ
  pub bytes : List ℕ

-- `of10::PacketIn::unpack`, whose packets always name a port, and `of13::PacketIn::unpack`.
pub record PacketInLib : Type 0 where
  pub unpack10 : List ℕ → PacketIn
  pub unpack13 : List ℕ → PacketIn

pub data OutPort : Type 0 where
  flood controller any : OutPort
  number : ℕ → OutPort

-- What is sent, as the values given to the objects of libfluid_msg. Addresses are their six bytes.
pub data Message : Type 0 where
  flow_mod10 :
      (xid cookie idle_timeout hard_timeout priority buffer_id out_port flags dl_src dl_dst : ℕ)
      (port : OutPort) (max_len : ℕ)
      → Message
  flow_mod13 :
      (xid cookie cookie_mask table_id idle_timeout hard_timeout priority buffer_id out_port
        out_group flags : ℕ)
      (eth_src_dst : Option (ℕ × ℕ)) (port : OutPort) (max_len : ℕ)
      → Message
  packet_out :
      (xid buffer_id in_port : ℕ) (payload : Option (List ℕ)) (port : OutPort) (max_len : ℕ)
      → Message
  multipart_request_flow :
      (xid flags table_id : ℕ) (out_port out_group : OutPort) (cookie cookie_mask : ℕ) → Message

-- A connection is its id. `application_data` holds the index of its table in `l2tables`, and what was
-- sent is listed with the connection it went to.
pub record LearningSwitch : Type 0 where
  pub l2tables : List L2Table
  pub application_data : List (ℕ × ℕ)
  pub sent : List (ℕ × Message)

unfoldable pub new_switch : LearningSwitch
new_switch = record { l2tables = []; application_data = []; sent = [] }

pub data ControllerEvent : Type 0 where
  packet_in : (ofconn version : ℕ) (message : List ℕ) → ControllerEvent
  switch_down switch_up : (ofconn version : ℕ) → ControllerEvent

abbrev pub no_buffer : ℕ
no_buffer = 0xffffffff

abbrev pub send : ℕ → Message → LearningSwitch → LearningSwitch
send ofconn m st = record st { sent = st.sent ++ (ofconn, m) ∷ [] }

unfoldable pub get_l2table : ℕ → LearningSwitch → Option ℕ
get_l2table ofconn st = find ofconn st.application_data

-- BaseLearningSwitch::event_callback.
unfoldable pub base_event_callback : ControllerEvent → LearningSwitch → LearningSwitch
base_event_callback (switch_up ofconn version) st = record st {
  l2tables = st.l2tables ++ [] ∷ [];
  application_data = (ofconn, length st.l2tables) ∷ st.application_data;
}
base_event_callback (switch_down ofconn version) st = elim (get_l2table ofconn st) [
  | none ↦ st
  | some i ↦ record st { l2tables = set st.l2tables i [] }
]
base_event_callback (packet_in ofconn version message) st = st

-- ~BaseLearningSwitch: the list is emptied; the connections keep their pointers.
unfoldable pub delete_switch : LearningSwitch → LearningSwitch
delete_switch st = record st { l2tables = [] }

-- `memcpy(((uint8_t*) &a) + 2, bytes + off, 6)` into a `uint64_t` that was 0.
unfoldable pub load_address : List ℕ → ℕ → Option ℕ
load_address bytes off = do
  b0 ← load8 bytes off
  b1 ← load8 bytes (off + 1)
  b2 ← load8 bytes (off + 2)
  b3 ← load8 bytes (off + 3)
  b4 ← load8 bytes (off + 4)
  b5 ← load8 bytes (off + 5)
  some (b0 * 2 ^ 16 + b1 * 2 ^ 24 + b2 * 2 ^ 32 + b3 * 2 ^ 40 + b4 * 2 ^ 48 + b5 * 2 ^ 56)

-- What the handler reads from a packet in.
pub record Frame : Type 0 where
  pub dst : ℕ
  pub src : ℕ
  pub pi : PacketIn

-- The two branches on the version; for another version the code reads variables it never set.
unfoldable pub read_frame : PacketInLib → ℕ → List ℕ → Option Frame
read_frame lib version message = do
  pi ←
      (if version == 1
        then some (lib.unpack10 message)
        else if version == 4
        then some (lib.unpack13 message)
        else none)
  dst ← load_address pi.bytes 0
  src ← load_address pi.bytes 6
  some (record { dst = dst; src = src; pi = pi })

abbrev pub payload : PacketIn → Option (List ℕ)
payload pi = if pi.buffer_id == no_buffer then some pi.bytes else none

-- `flood10` and `flood13`.
unfoldable pub flood_packet : ℕ → PacketIn → ℕ → LearningSwitch → LearningSwitch
flood_packet ofconn pi in_port st =
    send ofconn (packet_out pi.xid pi.buffer_id in_port (payload pi) flood 1024) st

unfoldable pub install_flow_mod10 :
    ℕ → PacketIn → (src dst out_port : ℕ) → LearningSwitch → LearningSwitch
install_flow_mod10 ofconn pi src dst out_port st =
    send ofconn
      (flow_mod10 pi.xid 123 5 10 100 pi.buffer_id 0 0 (src / 2 ^ 16) (dst / 2 ^ 16)
        (number out_port) 1024)
      st

unfoldable pub install_flow_mod13 :
    ℕ → PacketIn → (src dst out_port : ℕ) → LearningSwitch → LearningSwitch
install_flow_mod13 ofconn pi src dst out_port st =
    send ofconn (multipart_request_flow 2 0 0 any any 0 0) (
      send ofconn
        (flow_mod13 pi.xid 123 0xffffffffffffffff 0 5 10 100 pi.buffer_id 0 0 0
          (some (src / 2 ^ 16, dst / 2 ^ 16)) (number out_port) 1024)
        st)

unfoldable pub install_default_flow13 : ℕ → LearningSwitch → LearningSwitch
install_default_flow13 ofconn st =
    send ofconn (flow_mod13 42 0 0xffffffffffffffff 0 0 0 0 no_buffer 0 0 0 none controller 0xffff)
      st

-- The reply to a packet in, by what the table has for its destination.
unfoldable pub reply : ℕ → ℕ → Frame → ℕ → Option ℕ → LearningSwitch → LearningSwitch
reply ofconn version f in_port none st = flood_packet ofconn f.pi in_port st
reply ofconn version f in_port (some out_port) st =
    if version == 1
    then install_flow_mod10 ofconn f.pi f.src f.dst out_port st
    else install_flow_mod13 ofconn f.pi f.src f.dst out_port st

-- The handler once the connection's pointer to a table is found: it learns the source, then looks for the
-- destination. A pointer to no table is undefined behaviour.
unfoldable pub handle_frame : ℕ → ℕ → Frame → ℕ → LearningSwitch → Option LearningSwitch
handle_frame ofconn version f i st = elim f.pi.in_port [
  | none ↦ some st
  | some port ↦ elim (get_elem? st.l2tables i) [
    | none ↦ none
    | some table ↦
        let table' = assign f.src (port % 2 ^ 16) table in
        some (
          reply ofconn version f (port % 2 ^ 16) (find f.dst table')
            (record st { l2tables = set st.l2tables i table' }))
  ]
]

-- MultiLearningSwitch::event_callback; `none` is undefined behaviour.
unfoldable pub event_callback :
    PacketInLib → ControllerEvent → LearningSwitch → Option LearningSwitch
event_callback lib (packet_in ofconn version message) st = elim (get_l2table ofconn st) [
  | none ↦ some st
  | some i ↦ read_frame lib version message >>= λ f. handle_frame ofconn version f i st
]
event_callback lib (switch_up ofconn version) st =
    let st' = base_event_callback (switch_up ofconn version) st in
    some (if version == 4 then install_default_flow13 ofconn st' else st')
event_callback lib (switch_down ofconn version) st =
    some (base_event_callback (switch_down ofconn version) st)

-- The events so far, the newest first.
unfoldable pub run : PacketInLib → List ControllerEvent → Option LearningSwitch
run lib [] = some new_switch
run lib (e ∷ es) = run lib es >>= event_callback lib e

-- CBench::event_callback, with the packed FlowMod whose command is ADD: what it sends for an event.
unfoldable pub cbench_callback : (flow_mod : List ℕ) → ControllerEvent → List (ℕ × List ℕ)
cbench_callback flow_mod (packet_in ofconn version message) = (ofconn, flow_mod) ∷ []
cbench_callback flow_mod (switch_up ofconn version) = []
cbench_callback flow_mod (switch_down ofconn version) = []
