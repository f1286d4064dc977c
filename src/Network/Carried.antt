-- ===== src/Network/Carried.antt =====
-- The switch's part (examples/switch/datapath.cc and examples/switch/port.cc): how it carries out a
-- FLOW_MOD for a packet that it has just buffered, and what it does with a packet that passes the first
-- flow.
use libfluid.Prelude.{
  suc, none, Option, ◌++◌, get_elem?, ℕ, ◌≤◌, ◌<◌, ◌≡◌, refl, ◌∙◌, ap, inr, true, some, List, [],
  ◌∷◌, arith, length, get_elem?-snoc_same, All,
}
use libfluid.Switch.Match.{Match}
use libfluid.Switch.Extract.{MatchField, extract_flow_fields}
use libfluid.Switch.Flow.{Flow, FlowTable, output, pkt_match, insert, cmp_priority, MsgLib}
use libfluid.Switch.State.{Packet, Memory, lend, lend_at, find, inject, Datapath, port_numbers}
use libfluid.Switch.Datapath.{
  run_actions, first_match, handle_flow_mod, message_callback, packet_handler,
}
use libfluid.Switch.Datapath.Flooding.{emit}
use libfluid.Switch.Datapath.Forwarding.{IsPort, forward_all, physical_tests, run_actions-emit}
use libfluid.Switch.Datapath.Priority.{captured_packet, match_of, arrived, pointer, handler_hit}
use libfluid.Switch.Datapath.Released.{deref-Live}
use libfluid.Switch.Datapath.Parked.{Live, next_id, find-insert_buffer_new}
use libfluid.Network.Loop.{held, waiting}

lend_at-last :
    (memory : Memory) (pkt : Packet) (heap : List (Option Packet))
    → ◌≡◌ {A = Option (Option Packet)}
        (get_elem? (lend_at (length heap) true memory (heap ++ some pkt ∷ [])) (length heap))
        (some (some (captured_packet pkt.in_port (held memory pkt.bytes))))
unfolding lend_at lend
lend_at-last memory pkt [] = refl
lend_at-last memory pkt (p ∷ heap) = lend_at-last memory pkt heap

-- A packet sent out of one port of the switch.
pub forward_all-port :
    (n q max_len : ℕ) (ports : List ℕ) (pkt : Packet)
    → n < 0xff00
    → IsPort n q
    → forward_all ports pkt (output q max_len ∷ []) ≡ inject q pkt.bytes ∷ []
forward_all-port n q max_len ports pkt fits h =
    let (t, u, v) = physical_tests n q fits h in ground (arith, t, u)

-- A new flow stands before those whose priority number is not less.
pub insert-first :
    (flow : Flow) (table : FlowTable)
    → All (λ (f : Flow). flow.priority ≤ f.priority) table
    → insert flow table ≡ flow ∷ table
unfolding insert cmp_priority
insert-first flow [] h = refl
insert-first flow (f ∷ table) h = ground (arith, h.0)

pub message_callback-flow_mod :
    (lib : MsgLib) (raw : List ℕ) (d : Datapath)
    → message_callback lib 14 raw d ≡ handle_flow_mod lib raw d
unfolding message_callback
message_callback-flow_mod lib raw d = refl

first_match-head :
    (flow : Flow) (table fs : FlowTable) (p : Match)
    → table ≡ flow ∷ fs
    → pkt_match flow p ≡ true
    → first_match table p ≡ some flow
unfolding first_match
first_match-head flow table fs p e h = rw e (ground (arith, h))

-- A captured packet that passes the first flow of the table, which sends to port q.
pub packet_handler-first :
    (lib : MsgLib) (n q : ℕ) (flow : Flow) (fs : FlowTable) (d : Datapath) (port_no : ℕ)
    (bytes : List ℕ) (wire_len : ℕ) (fields : List MatchField)
    → n < 0xff00
    → IsPort n q
    → d.ports ≡ port_numbers n
    → d.flow_table ≡ flow ∷ fs
    → flow.actions ≡ output q 0 ∷ []
    → extract_flow_fields bytes ≡ some fields
    → pkt_match flow (match_of lib port_no fields) ≡ true
    → packet_handler lib port_no bytes wire_len d
      ≡ some (tt, emit (arrived port_no bytes d) (inject q bytes ∷ []))
packet_handler-first lib n q flow fs d port_no bytes wire_len fields fits h same table actions e
      passes =
    let pkt : Packet = record { in_port = port_no; readable = true; bytes = bytes } in
    let at = arrived port_no bytes d in
    let live = deref-Live (length d.heap) pkt at (get_elem?-snoc_same d.heap (some pkt)) in
    handler_hit lib port_no bytes wire_len d fields flow e
      (first_match-head flow d.flow_table fs _ table passes)
    ∙ ap (λ acts. run_actions acts (pointer d) at) actions
    ∙ run_actions-emit n (pointer d) pkt fits refl (output q 0 ∷ []) at same live (inr (inr h), tt)
    ∙ ap (λ out. some (tt, emit at out)) (forward_all-port n q 0 d.ports pkt fits h)

-- The packet that was buffered last, when its memory may have been reused.
pub waiting-Live :
    (port_no : ℕ) (bytes : List ℕ) (wire_len : ℕ) (memory : Memory) (d : Datapath)
    → Live
        (length d.heap)
        (captured_packet port_no (held memory bytes))
        (waiting port_no bytes wire_len memory d)
waiting-Live port_no bytes wire_len memory d =
    lend_at-last memory (captured_packet port_no bytes) d.heap

pub waiting-found :
    (port_no : ℕ) (bytes : List ℕ) (wire_len : ℕ) (memory : Memory) (d : Datapath)
    → find (next_id d) d.pkt_buffer ≡ none
    → find (next_id d) (waiting port_no bytes wire_len memory d).pkt_buffer
      ≡ some (suc (length d.heap))
waiting-found port_no bytes wire_len memory d free_id =
    find-insert_buffer_new (next_id d) (pointer d) d.pkt_buffer free_id
