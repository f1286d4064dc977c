-- ===== src/Switch/Datapath/Actions.antt =====
-- What the actions of examples/switch/datapath.cc keep: anything that a message to a port or to the
-- controller keeps, and that buffering the packet at hand keeps.
use libfluid.Prelude.{ℕ, zero, suc, ◌≡◌, subst, ◌||◌, List, [], ◌∷◌, arith, ◌==◌}
use libfluid.Switch.Flow.{Action, output, other, MsgLib}
use libfluid.Switch.State.{
  Packet, Output, Datapath, send, deref, read_data, port_at, send_controller, buffer,
}
use libfluid.Switch.Datapath.{
  ofpp_in_port, ofpp_flood, ofpp_all, ofpp_controller, flood, to_controller, output_packet,
  action_handler, run_actions, packet_fields,
}
use libfluid.Switch.Datapath.Triple.{Keeps, bind_Triple, pure_Triple, if_Triple}

-- Reads change nothing.
pub deref-Keeps : (P : Datapath → Type 0) (q : ℕ) → Keeps P (deref q)
unfolding deref
deref-Keeps P zero d h a d' e = cc
deref-Keeps P (suc i) d h a d' e = let same : d ≡ d' = ground arith in subst P same h

port_at-Keeps : (P : Datapath → Type 0) (n : ℕ) → Keeps P (port_at n)
unfolding port_at
port_at-Keeps P zero d h a d' e = cc
port_at-Keeps P (suc i) d h a d' e = let same : d ≡ d' = ground arith in subst P same h

read_data-Keeps : (P : Datapath → Type 0) (pkt : Packet) → Keeps P (read_data pkt)
unfolding read_data
read_data-Keeps P pkt d h a d' e = let same : d ≡ d' = ground arith in subst P same h

-- A read of the packet's fields changes nothing.
pub packet_fields-Keeps :
    (P : Datapath → Type 0) (lib : MsgLib) (pkt : Packet) → Keeps P (packet_fields lib pkt)
unfolding packet_fields
packet_fields-Keeps P lib pkt =
    bind_Triple _ (λ _. P) _ _ _ (read_data-Keeps P pkt)
      λ bytes d h a d' e. let same : d ≡ d' = ground arith in subst P same h

module _ (P : Datapath → Type 0) (p : ℕ) (send-Keeps : (o : Output) → Keeps P (send o))
    (buffer-Keeps : Keeps P (buffer p)) where
  pub send_controller-Keeps : (o : Output) → Keeps (P) (send_controller o)
  unfolding send_controller
  send_controller-Keeps o d h a d' e = send-Keeps o d h a d' (ground arith)

  flood-Keeps : (ports : List ℕ) → Keeps (P) (flood ports p)
  unfolding flood
  flood-Keeps [] = pure_Triple _ _ tt (λ d h. h)
  flood-Keeps (port_no ∷ ports) =
      bind_Triple _ (λ _. P) _ _ _ (deref-Keeps P p)
        λ pkt.
          bind_Triple _ (λ _. P) _ _ _
            (if_Triple _ _ (port_no == pkt.in_port) _ _ (λ _. pure_Triple _ _ tt (λ d h. h))
              (λ _. bind_Triple _ (λ _. P) _ _ _ (read_data-Keeps P pkt) (λ bytes. send-Keeps _)))
            (λ _. flood-Keeps ports)

  to_controller-Keeps : (pkt : Packet) (max_len : ℕ) → Keeps (P) (to_controller p pkt max_len)
  unfolding to_controller
  to_controller-Keeps pkt max_len =
      bind_Triple _ (λ _. P) _ _ _ buffer-Keeps
        λ id.
          bind_Triple _ (λ _. P) _ _ _ (read_data-Keeps P pkt) (λ bytes. send_controller-Keeps _)

  output_packet-Keeps : (port max_len : ℕ) → Keeps (P) (output_packet port max_len p)
  unfolding output_packet
  output_packet-Keeps port max_len =
      if_Triple _ _ (port == ofpp_in_port) _ _
        (λ _.
          bind_Triple _ (λ _. P) _ _ _ (deref-Keeps P p)
            λ pkt.
              bind_Triple _ (λ _. P) _ _ _ (port_at-Keeps P pkt.in_port)
                λ n. bind_Triple _ (λ _. P) _ _ _ (read_data-Keeps P pkt) (λ bytes. send-Keeps _))
        λ _.
          if_Triple _ _ (port == ofpp_flood || port == ofpp_all) _ _
            (λ _ d h. flood-Keeps d.ports d h)
            λ _.
              if_Triple _ _ (port == ofpp_controller) _ _
                (λ _.
                  bind_Triple _ (λ _. P) _ _ _ (deref-Keeps P p)
                    λ pkt. to_controller-Keeps pkt max_len)
                λ _.
                  bind_Triple _ (λ _. P) _ _ _ (port_at-Keeps P port)
                    λ n.
                      bind_Triple _ (λ _. P) _ _ _ (deref-Keeps P p)
                        λ pkt.
                          bind_Triple _ (λ _. P) _ _ _ (read_data-Keeps P pkt)
                            (λ bytes. send-Keeps _)

  action_handler-Keeps : (a : Action) → Keeps (P) (action_handler a p)
  unfolding action_handler
  action_handler-Keeps (output port max_len) = output_packet-Keeps port max_len
  action_handler-Keeps (other type) = pure_Triple _ _ tt (λ d h. h)

  pub run_actions-Keeps : (actions : List Action) → Keeps (P) (run_actions actions p)
  unfolding run_actions
  run_actions-Keeps [] = pure_Triple _ _ tt (λ d h. h)
  run_actions-Keeps (a ∷ rest) =
      bind_Triple _ (λ _. P) _ _ _ (action_handler-Keeps a) (λ _. run_actions-Keeps rest)
