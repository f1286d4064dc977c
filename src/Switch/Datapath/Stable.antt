-- ===== src/Switch/Datapath/Stable.antt =====
-- A property of the state of examples/switch/datapath.cc that the calls of the handlers keep is kept by
-- every event, and so by every history.
use libfluid.Prelude.{ℕ, ◌%◌, ◌^◌, Bool, Option, none, some, List, arith, ◌==◌}
use libfluid.Switch.Flow.{
  Action, Flow, FlowTable, new_flow, Command, add, modify, modify_strict, delete, delete_strict,
  FlowMod, MsgLib, pkt_match,
}
use libfluid.Switch.State.{
  Packet, Memory, reuse, Output, no_match, packet_in, Datapath, pure, send, allocate, free,
  buffered, buffer,
}
use libfluid.Switch.Datapath.{
  set_table, no_buffer, run_actions, release_buffered, add_flow, delete_flows, flow_mod,
  handle_flow_mod, packet_to_send, handle_packet_out, handle_barrier_request, message_callback,
  first_match, packet_miss, packet_handler,
}
use libfluid.Switch.Datapath.Triple.{Keeps, bind_Triple, pure_Triple, if_Triple}
use libfluid.Switch.Datapath.Actions.{
  deref-Keeps, packet_fields-Keeps, run_actions-Keeps, send_controller-Keeps,
}
use libfluid.Switch.Datapath.Handlers.{
  Step, message, capture, connection, reused, Reach, here, next,
}

-- The packets whose memory is reused in an event, and in a history.
abbrev pub StepReuses : (ℕ → Type 0) → {lib : MsgLib} {d d' : Datapath} → Step lib d d' → Type 0
StepReuses A (message type msg e) = Unit
StepReuses A (capture port_no bytes wire_len e) = Unit
StepReuses A (connection up) = Unit
StepReuses A (reused i readable memory) = A i

abbrev pub Reuses : (ℕ → Type 0) → {lib : MsgLib} {d d' : Datapath} → Reach lib d d' → Type 0
Reuses A here = Unit
Reuses A (next r s) = Reuses A r × StepReuses A s

StepReuses-any : {lib : MsgLib} {d d' : Datapath} (s : Step lib d d') → StepReuses (λ i. Unit) s
StepReuses-any (message type msg e) = tt
StepReuses-any (capture port_no bytes wire_len e) = tt
StepReuses-any (connection up) = tt
StepReuses-any (reused i readable memory) = tt

pub Reuses-any : {lib : MsgLib} {d d' : Datapath} (r : Reach lib d d') → Reuses (λ i. Unit) r
Reuses-any here = tt
Reuses-any (next r s) = (Reuses-any r, StepReuses-any s)

-- What the calls that change the state keep, and the reuse of the memory of the packets in A.
pub record IsStable (A : ℕ → Type 0) (P : Datapath → Type 0) : Type 0 where
  pub sends : (o : Output) → Keeps P (send o)
  pub buffers : (p : ℕ) → Keeps P (buffer p)
  pub frees : (p : ℕ) → Keeps P (free p)
  pub allocates : (pkt : Packet) → Keeps P (allocate pkt)
  pub looks_up : (id : ℕ) → Keeps P (buffered id)
  pub sets_table : (f : FlowTable → FlowTable) → Keeps P (set_table f)
  pub connects : (up : Bool) (d : Datapath) → P d → P (record d { conn = up })
  pub reuses :
      (i : ℕ) (readable : Bool) (memory : Memory) (d : Datapath)
      → A i
      → P d
      → P (reuse i readable memory d)

module _ (lib : MsgLib) (A : ℕ → Type 0) (P : Datapath → Type 0) (stable : IsStable A P) where
  actions-Keeps : (p : ℕ) (actions : List Action) → Keeps P (run_actions actions p)
  actions-Keeps p = run_actions-Keeps P p stable.sends (stable.buffers p)

  release-Keeps : (flow : Flow) (id : ℕ) → Keeps P (release_buffered lib flow id)
  unfolding release_buffered
  release-Keeps flow id =
      bind_Triple _ (λ _. P) _ _ _ (stable.looks_up id)
        λ p.
          bind_Triple _ (λ _. P) _ _ _ (deref-Keeps P p)
            λ pkt.
              bind_Triple _ (λ _. P) _ _ _ (packet_fields-Keeps P lib pkt)
                λ fields.
                  if_Triple _ _ (pkt_match flow fields) _ _
                    (λ _.
                      bind_Triple _ (λ _. P) _ _ _ (actions-Keeps p flow.actions)
                        (λ _. stable.frees p))
                    (λ _. pure_Triple _ _ tt (λ d h. h))

  add_flow-Keeps : (fm : FlowMod) → Keeps P (add_flow lib fm)
  unfolding add_flow
  add_flow-Keeps fm =
      let flow = new_flow fm.priority fm.match fm.actions in
      bind_Triple _ (λ _. P) _ _ _ (stable.sets_table _)
        λ _.
          if_Triple _ _ (fm.buffer_id == no_buffer) _ _ (λ _. pure_Triple _ _ tt (λ d h. h))
            (λ _. release-Keeps flow fm.buffer_id)

  flow_mod-Keeps : (c : Command) (fm : FlowMod) → Keeps P (flow_mod lib c fm)
  unfolding flow_mod delete_flows
  flow_mod-Keeps add fm = add_flow-Keeps fm
  flow_mod-Keeps delete fm = stable.sets_table _
  flow_mod-Keeps modify fm = pure_Triple _ _ tt (λ d h. h)
  flow_mod-Keeps modify_strict fm = pure_Triple _ _ tt (λ d h. h)
  flow_mod-Keeps delete_strict fm = pure_Triple _ _ tt (λ d h. h)

  packet_out-Keeps : (msg : List ℕ) → Keeps P (handle_packet_out lib msg)
  unfolding handle_packet_out packet_to_send
  packet_out-Keeps msg =
      let po = lib.unpack_packet_out msg in
      bind_Triple _ (λ _. P) _ _ _
        (if_Triple _ _ (po.buffer_id == no_buffer) _ _ (λ _. stable.allocates _)
          (λ _. stable.looks_up po.buffer_id))
        λ p. bind_Triple _ (λ _. P) _ _ _ (actions-Keeps p po.actions) (λ _. stable.frees p)

  message-Keeps : (type : ℕ) (msg : List ℕ) → Keeps P (message_callback lib type msg)
  unfolding message_callback handle_flow_mod handle_barrier_request
  message-Keeps type msg =
      bind_Triple _ (λ _. P) _ _ _
        (if_Triple _ _ (type == 18) _ _
          (λ _. send_controller-Keeps P 0 stable.sends (stable.buffers 0) _)
          (λ _. pure_Triple _ _ tt (λ d h. h)))
        λ _.
          bind_Triple _ (λ _. P) _ _ _
            (if_Triple _ _ (type == 13) _ _ (λ _. packet_out-Keeps msg)
              (λ _. pure_Triple _ _ tt (λ d h. h)))
            λ _.
              if_Triple _ _ (type == 14) _ _ (λ _. flow_mod-Keeps _ (lib.unpack_flow_mod msg))
                (λ _. pure_Triple _ _ tt (λ d h. h))

  miss-Keeps : (p : ℕ) (pkt : Packet) (wire_len : ℕ) → Keeps P (packet_miss p pkt wire_len)
  unfolding packet_miss
  miss-Keeps p pkt wire_len =
      bind_Triple _ (λ _. P) _ _ _ (stable.buffers p)
        λ id d h a d' e.
          if_Triple P (λ _. P) d.conn
            (send (packet_in 21 id pkt.in_port (wire_len % 2 ^ 16) no_match pkt.bytes)) (pure tt)
            (λ _. stable.sends _) (λ _. pure_Triple _ _ tt (λ d h. h)) d h a d' (ground arith)

  taken-Keeps :
      (p : ℕ) (pkt : Packet) (wire_len : ℕ) (taker : Option Flow)
      → Keeps P (λ d. elim taker [
        | some flow ↦ run_actions flow.actions p d
        | none ↦ packet_miss p pkt wire_len d
      ])
  taken-Keeps p pkt wire_len none = miss-Keeps p pkt wire_len
  taken-Keeps p pkt wire_len (some flow) = actions-Keeps p flow.actions

  capture-Keeps :
      (port_no : ℕ) (bytes : List ℕ) (wire_len : ℕ)
      → Keeps P (packet_handler lib port_no bytes wire_len)
  unfolding packet_handler
  capture-Keeps port_no bytes wire_len =
      bind_Triple _ (λ _. P) _ _ _ (stable.allocates _)
        λ p.
          bind_Triple _ (λ _. P) _ _ _ (packet_fields-Keeps P lib _)
            λ fields d. taken-Keeps p _ wire_len (first_match d.flow_table fields) d

  pub Step-Keeps : {d d' : Datapath} (s : Step lib d d') → StepReuses A s → P d → P d'
  Step-Keeps {d} (message {d'} type msg e) u h = message-Keeps type msg d h tt d' e
  Step-Keeps {d} (capture {d'} port_no bytes wire_len e) u h =
      capture-Keeps port_no bytes wire_len d h tt d' e
  Step-Keeps {d} (connection up) u h = stable.connects up d h
  Step-Keeps {d} (reused i readable memory) u h = stable.reuses i readable memory d u h

  -- What the calls keep, every history keeps.
  pub Reach-Keeps : {d d' : Datapath} (r : Reach lib d d') → Reuses A r → P d → P d'
  Reach-Keeps here u h = h
  Reach-Keeps (next r s) u h = Step-Keeps s u.1 (Reach-Keeps r u.0 h)
