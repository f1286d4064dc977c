-- ===== src/Switch/Datapath/Handlers.antt =====
-- The handlers of examples/switch keep the invariant, and so it holds after any history of messages,
-- captured packets and connection changes. The capture threads and the event loop take turns here:
-- each handler runs to its end.
use libfluid.Prelude.{true, ℕ, ◌%◌, ◌^◌, ◌≡◌, Bool, Option, none, some, List, arith, ◌==◌}
use libfluid.Switch.Match.{Match}
use libfluid.Switch.Flow.{
  Flow, new_flow, Command, add, modify, modify_strict, delete, delete_strict, FlowMod, MsgLib,
  pkt_match,
}
use libfluid.Switch.Flow.Table.{
  HasFullMasks, All-insert, All-erase_strict, All-erase_matching, insert-IsSorted,
  erase_strict-IsSorted, erase_matching-IsSorted,
}
use libfluid.Switch.State.{Packet, no_match, packet_in, Datapath, pure, send, init, Memory, reuse}
use libfluid.Switch.Datapath.{
  no_buffer, run_actions, release_buffered, add_flow, delete_flows, flow_mod, handle_flow_mod,
  packet_to_send, handle_packet_out, handle_barrier_request, message_callback, first_match,
  packet_miss, packet_handler,
}
use libfluid.Switch.Datapath.Triple.{Keeps, bind_Triple, pure_Triple, if_Triple}
use libfluid.Switch.Datapath.Actions.{deref-Keeps, packet_fields-Keeps}
use libfluid.Switch.Datapath.Invariant.{
  Inv, Holds, length-lend_at, send-Keeps, free-Keeps, run_actions-Holds, buffered_Triple,
  allocate_Triple, set_table-Keeps, new_flow_masks, send_controller-Holds, buffer-Keeps,
}

module _ (lib : MsgLib) where
  release_buffered-Keeps : (flow : Flow) (id : ℕ) → Keeps Inv (release_buffered lib flow id)
  unfolding release_buffered
  release_buffered-Keeps flow id = bind_Triple _ Holds _ _ _ (buffered_Triple id) λ p.
      bind_Triple _ (λ _. Holds p) _ _ _ (deref-Keeps (Holds p) p)
        λ pkt.
          bind_Triple _ (λ _. Holds p) _ _ _ (packet_fields-Keeps (Holds p) lib pkt)
            λ fields.
              if_Triple _ _ (pkt_match flow fields) _ _
                (λ _.
                  bind_Triple _ (λ _. Holds p) _ _ _ (run_actions-Holds p flow.actions)
                    λ _ d h a d' e. (free-Keeps p p d h a d' e).0)
                (λ _. pure_Triple _ _ tt (λ d h. h.0))

  add_flow-Keeps : (fm : FlowMod) → Keeps Inv (add_flow lib fm)
  unfolding add_flow
  add_flow-Keeps fm =
      let flow = new_flow fm.priority fm.match fm.actions in
      bind_Triple _ (λ _. Inv) _ _ _
        (set_table-Keeps _ (λ t s. insert-IsSorted flow _ (erase_strict-IsSorted flow t s))
          (λ t m.
            All-insert HasFullMasks flow _ (new_flow_masks _ _ _)
              (All-erase_strict HasFullMasks flow t m)))
        λ _.
          if_Triple _ _ (fm.buffer_id == no_buffer) _ _ (λ _. pure_Triple _ _ tt (λ d h. h))
            (λ _. release_buffered-Keeps flow fm.buffer_id)

  flow_mod-Keeps : (c : Command) (fm : FlowMod) → Keeps Inv (flow_mod lib c fm)
  unfolding flow_mod delete_flows
  flow_mod-Keeps add fm = add_flow-Keeps fm
  flow_mod-Keeps delete fm =
      set_table-Keeps _ (erase_matching-IsSorted _) (All-erase_matching HasFullMasks _)
  flow_mod-Keeps modify fm = pure_Triple _ _ tt (λ d h. h)
  flow_mod-Keeps modify_strict fm = pure_Triple _ _ tt (λ d h. h)
  flow_mod-Keeps delete_strict fm = pure_Triple _ _ tt (λ d h. h)

  handle_packet_out-Keeps : (msg : List ℕ) → Keeps Inv (handle_packet_out lib msg)
  unfolding handle_packet_out packet_to_send
  handle_packet_out-Keeps msg =
      let po = lib.unpack_packet_out msg in
      bind_Triple _ Holds _ _ _
        (if_Triple _ _ (po.buffer_id == no_buffer) _ _ (λ _. allocate_Triple _)
          (λ _. buffered_Triple po.buffer_id))
        λ p.
          bind_Triple _ (λ _. Holds p) _ _ _ (run_actions-Holds p po.actions)
            λ _ d h a d' e. (free-Keeps p p d h a d' e).0

  handle_barrier_request-Keeps : (msg : List ℕ) → Keeps Inv (handle_barrier_request lib msg)
  unfolding handle_barrier_request
  handle_barrier_request-Keeps msg d h a d' e =
      (send_controller-Holds 0 _ d (h, omega arith) a d' e).0

  message_callback-Keeps : (type : ℕ) (msg : List ℕ) → Keeps Inv (message_callback lib type msg)
  unfolding message_callback handle_flow_mod
  message_callback-Keeps type msg =
      bind_Triple _ (λ _. Inv) _ _ _
        (if_Triple _ _ (type == 18) _ _ (λ _. handle_barrier_request-Keeps msg)
          (λ _. pure_Triple _ _ tt (λ d h. h)))
        λ _.
          bind_Triple _ (λ _. Inv) _ _ _
            (if_Triple _ _ (type == 13) _ _ (λ _. handle_packet_out-Keeps msg)
              (λ _. pure_Triple _ _ tt (λ d h. h)))
            λ _.
              if_Triple _ _ (type == 14) _ _ (λ _. flow_mod-Keeps _ (lib.unpack_flow_mod msg))
                (λ _. pure_Triple _ _ tt (λ d h. h))

  packet_miss-Keeps :
      (p : ℕ) (pkt : Packet) (wire_len : ℕ) → Keeps (Holds p) (packet_miss p pkt wire_len)
  unfolding packet_miss
  packet_miss-Keeps p pkt wire_len =
      bind_Triple _ (λ _. Holds p) _ _ _ (buffer-Keeps p)
        λ id d h a d' e.
          if_Triple (Holds p) (λ _. Holds p) d.conn
            (send (packet_in 21 id pkt.in_port (wire_len % 2 ^ 16) no_match pkt.bytes)) (pure tt)
            (λ _. send-Keeps p _) (λ _. pure_Triple _ _ tt (λ d h. h)) d h a d' (ground arith)

  packet_handler-Keeps :
      (port_no : ℕ) (bytes : List ℕ) (wire_len : ℕ)
      → Keeps Inv (packet_handler lib port_no bytes wire_len)
  unfolding packet_handler
  packet_handler-Keeps port_no bytes wire_len = bind_Triple _ Holds _ _ _ (allocate_Triple _) λ p.
      bind_Triple _ (λ _. Holds p) _ _ _ (packet_fields-Keeps (Holds p) lib _)
        λ fields d h a d' e. go p fields d h a d' (first_match d.flow_table fields) e
    where
      go :
          (p : ℕ) (fields : Match) (d : Datapath)
          → Holds p d
          → (a : Unit {0}) (d' : Datapath) (r : Option Flow)
          → (elim r [
            | some flow ↦ run_actions flow.actions p d
            | none ↦
                packet_miss p
                  (record { in_port = port_no; readable = true; bytes = bytes })
                  wire_len
                  d
          ])
            ≡ some (a, d')
          → Inv d'
      go p fields d h a d' (some flow) e = (run_actions-Holds p flow.actions d h a d' e).0
      go p fields d h a d' none e = (packet_miss-Keeps p _ wire_len d h a d' e).0

-- One event: a message from the controller, a packet captured on a port, a change of the connection, or
-- one of the memory that libpcap lent for a packet. A handler whose behaviour is undefined makes no step.
pub data Step (lib : MsgLib) (d : Datapath) : Datapath → Type 0 where
  message :
      {d' : Datapath} (type : ℕ) (msg : List ℕ)
      → message_callback lib type msg d ≡ some (tt, d')
      → Step lib d d'
  capture :
      {d' : Datapath} (port_no : ℕ) (bytes : List ℕ) (wire_len : ℕ)
      → packet_handler lib port_no bytes wire_len d ≡ some (tt, d')
      → Step lib d d'
  connection : (up : Bool) → Step lib d (record d { conn = up })
  reused : (i : ℕ) (readable : Bool) (memory : Memory) → Step lib d (reuse i readable memory d)

-- What a switch can come to from a state.
pub data Reach (lib : MsgLib) (d : Datapath) : Datapath → Type 0 where
  here : Reach lib d d
  next : {e f : Datapath} → Reach lib d e → Step lib e f → Reach lib d f

Step-Inv : (lib : MsgLib) {d d' : Datapath} → Step lib d d' → Inv d → Inv d'
Step-Inv lib {d} (message {d'} type msg e) h = message_callback-Keeps lib type msg d h tt d' e
Step-Inv lib {d} (capture {d'} port_no bytes wire_len e) h =
    packet_handler-Keeps lib port_no bytes wire_len d h tt d' e
Step-Inv lib (connection up) h = record {
  sorted = h.sorted;
  masked = h.masked;
  counted = h.counted;
  known = h.known;
}
Step-Inv lib {d} (reused i readable memory) h = record {
  sorted = h.sorted;
  masked = h.masked;
  counted = h.counted;
  known = rw (length-lend_at i readable memory d.heap) h.known;
}

Reach-Inv : (lib : MsgLib) {d d' : Datapath} → Inv d → Reach lib d d' → Inv d'
Reach-Inv lib h here = h
Reach-Inv lib h (next r s) = Step-Inv lib s (Reach-Inv lib h r)

-- The switch as it starts, with some number of ports.
init-Inv : (n : ℕ) → Inv (init n)
unfolding init
init-Inv n = record { sorted = tt; masked = tt; counted = omega arith; known = tt }

-- In every state that a new switch reaches by messages, captured packets, connection changes and
-- reuses of libpcap's memory, in any order, the flow table is in order of priority, every flow in it masks
-- both IP addresses whole, the buffer id fits 32 bits, and each pointer of the buffer is NULL or that of a
-- packet that was allocated, which may have been deleted since.
pub Reach-init-Inv : (lib : MsgLib) (n : ℕ) {d : Datapath} → Reach lib (init n) d → Inv d
Reach-init-Inv lib n r = Reach-Inv lib (init-Inv n) r
