-- ===== src/Switch/Datapath.antt =====
-- The handlers of class Datapath of examples/switch/datapath.cc, the message dispatch of
-- examples/switch/Switch.hh, and the packet handler of examples/switch/port.cc.
pub mod Triple
pub mod Actions
pub mod Invariant
pub mod Handlers
pub mod Priority
pub mod Buffers
pub mod Flooding
pub mod Forwarding
pub mod Stable
pub mod Parked
pub mod Released
pub mod Installed
pub mod Safe
pub mod Served
pub mod Total
pub mod Tests
use mathlib.Core.List.{foldl}
use libfluid.Prelude.{
  ℕ, zero, suc, ◌+◌, ◌%◌, ◌^◌, Bool, true, false, Option, none, some, List, [], ◌∷◌, ◌++◌, ◌||◌,
  ltb, ◌==◌, if◌then◌else◌, length, get_elem?, set, take,
}
use libfluid.Switch.Match.{Match}
use libfluid.Switch.Extract.{MatchField, in_port, extract_flow_fields}
use libfluid.Switch.Flow.{
  Action, output, other, Flow, FlowTable, new_flow, pkt_match, insert, erase_strict, erase_matching,
  Command, add, modify, modify_strict, delete, delete_strict, FlowMod, PacketOut, MsgLib,
}
use libfluid.Switch.State.{
  Packet, Reason, no_match, Output, inject, packet_in, barrier_reply, Datapath, M, ◌>>=◌, ◌>>◌,
  pure, fault, send, allocate, deref, read_data, free, find, insert_buffer, buffered, port_at,
  send_controller, buffer,
}

abbrev pub no_buffer : ℕ
no_buffer = 0xffffffff

abbrev pub ofpp_in_port : ℕ
ofpp_in_port = 0xfff8

abbrev pub ofpp_flood : ℕ
ofpp_flood = 0xfffb

abbrev pub ofpp_all : ℕ
ofpp_all = 0xfffc

abbrev pub ofpp_controller : ℕ
ofpp_controller = 0xfffd

-- The loop of OFPP_FLOOD and OFPP_ALL.
unfoldable pub flood : List ℕ → ℕ → M (Unit {0})
flood [] p = pure tt
flood (port_no ∷ ports) p = do
  pkt ← deref p
  if port_no == pkt.in_port
      then pure tt
      else (do bytes ← read_data pkt; send (inject port_no bytes))
  flood ports p

unfoldable pub to_controller : ℕ → Packet → ℕ → M (Unit {0})
to_controller p pkt max_len = do
  id ← buffer p
  let len = length pkt.bytes
  let max_len' = (if ltb max_len len then max_len else len)
  bytes ← read_data pkt
  send_controller
      (packet_in 21 no_buffer pkt.in_port (len % 2 ^ 16) Reason.action (take max_len' bytes))

-- One output action.
unfoldable pub output_packet : ℕ → ℕ → ℕ → M (Unit {0})
output_packet port max_len p =
    if port == ofpp_in_port
    then (do
      pkt ← deref p
      port_no ← port_at pkt.in_port
      bytes ← read_data pkt
      send (inject port_no bytes))
    else if port == ofpp_flood || port == ofpp_all
    then (λ d. flood d.ports p d)
    else if port == ofpp_controller
    then (do pkt ← deref p; to_controller p pkt max_len)
    else (do
      port_no ← port_at port
      pkt ← deref p
      bytes ← read_data pkt
      send (inject port_no bytes))

unfoldable pub action_handler : Action → ℕ → M (Unit {0})
action_handler (output port max_len) p = output_packet port max_len p
action_handler (other type) p = pure tt

-- The loop over an action list.
unfoldable pub run_actions : List Action → ℕ → M (Unit {0})
run_actions [] p = pure tt
run_actions (a ∷ rest) p = do action_handler a p; run_actions rest p

-- `pkt_match.in_port(pkt->in_port)` and the extraction of the packet's fields.
unfoldable pub packet_fields : MsgLib → Packet → M Match
packet_fields lib pkt = do
  bytes ← read_data pkt
  λ d. elim (extract_flow_fields bytes) [
    | none ↦ none
    | some fields ↦ some (
      foldl (λ m f. lib.set_field f m) (lib.set_field (in_port pkt.in_port) lib.new_match) fields,
      d,
    )
  ]

-- A packet that waits in the buffer goes through the actions of the flow that it passes, and is
-- deleted.
unfoldable pub release_buffered : MsgLib → Flow → ℕ → M (Unit {0})
release_buffered lib flow id = do
  p ← buffered id
  pkt ← deref p
  pkt_fields ← packet_fields lib pkt
  if pkt_match flow pkt_fields then (do run_actions flow.actions p; free p) else pure tt

abbrev pub set_table : (FlowTable → FlowTable) → M (Unit {0})
set_table f d = some (tt, record d { flow_table = f d.flow_table })

unfoldable pub add_flow : MsgLib → FlowMod → M (Unit {0})
add_flow lib fm = do
  let flow = new_flow fm.priority fm.match fm.actions
  set_table (λ table. insert flow (erase_strict flow table))
  if fm.buffer_id == no_buffer then pure tt else release_buffered lib flow fm.buffer_id

-- The priority and the actions of the flow that a deletion compares with are never read.
unfoldable pub delete_flows : FlowMod → M (Unit {0})
delete_flows fm = set_table (erase_matching (new_flow 0 fm.match []))

-- The switch on `fm.command()`: three of the commands have no case.
unfoldable pub flow_mod : MsgLib → Command → FlowMod → M (Unit {0})
flow_mod lib add fm = add_flow lib fm
flow_mod lib delete fm = delete_flows fm
flow_mod lib modify fm = pure tt
flow_mod lib modify_strict fm = pure tt
flow_mod lib delete_strict fm = pure tt

unfoldable pub handle_flow_mod : MsgLib → List ℕ → M (Unit {0})
handle_flow_mod lib msg = let fm = lib.unpack_flow_mod msg in flow_mod lib fm.command fm

unfoldable pub packet_to_send : PacketOut → M ℕ
packet_to_send po =
    if po.buffer_id == no_buffer
    then allocate (record { in_port = po.in_port; readable = true; bytes = po.payload })
    else buffered po.buffer_id

unfoldable pub handle_packet_out : MsgLib → List ℕ → M (Unit {0})
handle_packet_out lib msg = do
  let po = lib.unpack_packet_out msg
  p ← packet_to_send po
  run_actions po.actions p
  free p

unfoldable pub handle_barrier_request : MsgLib → List ℕ → M (Unit {0})
handle_barrier_request lib msg = send_controller (barrier_reply (lib.unpack_xid msg))

-- `Switch::message_callback` of examples/switch/Switch.hh, by the OpenFlow type of the message.
unfoldable pub message_callback : MsgLib → ℕ → List ℕ → M (Unit {0})
message_callback lib type msg = do
  if type == 18 then handle_barrier_request lib msg else pure tt
  if type == 13 then handle_packet_out lib msg else pure tt
  if type == 14 then handle_flow_mod lib msg else pure tt

-- `~Datapath`: every buffered packet is deleted.
unfoldable pub destroy : List (ℕ × ℕ) → M (Unit {0})
destroy [] = pure tt
destroy ((id, p) ∷ rest) = do free p; destroy rest

-- The first flow of the table that the packet passes.
unfoldable pub first_match : FlowTable → Match → Option Flow
first_match [] pkt = none
first_match (f ∷ fs) pkt = if pkt_match f pkt then some f else first_match fs pkt

-- A packet that no flow takes is buffered, and reported if there is a connection. `wire_len` is
-- `pkthdr->len`, its length on the wire.
unfoldable pub packet_miss : ℕ → Packet → ℕ → M (Unit {0})
packet_miss p pkt wire_len = do
  id ← buffer p
  λ d.
      if d.conn
      then send (packet_in 21 id pkt.in_port (wire_len % 2 ^ 16) no_match pkt.bytes) d
      else some (tt, d)

-- `SwPort::packet_handler` for the bytes captured on a port.
unfoldable pub packet_handler : MsgLib → ℕ → List ℕ → ℕ → M (Unit {0})
packet_handler lib port_no bytes wire_len = do
  let pkt : Packet = record { in_port = port_no; readable = true; bytes = bytes }
  p ← allocate pkt
  pkt_fields ← packet_fields lib pkt
  λ d. elim (first_match d.flow_table pkt_fields) [
    | some flow ↦ run_actions flow.actions p d
    | none ↦ packet_miss p pkt wire_len d
  ]
