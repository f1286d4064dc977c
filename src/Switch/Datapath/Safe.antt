-- ===== src/Switch/Datapath/Safe.antt =====
-- The handlers of examples/switch have defined behaviour for a controller that sends packets to ports of the
-- switch only, and names no buffered packet that is not there, or whose bytes libpcap has taken back.
use libfluid.Prelude.{
  refl, true, ℕ, suc, ◌<◌, ◌≡◌, ◌≢◌, ◌∙◌, ◌⊎◌, inl, inr, some, List, [], ◌∷◌, arith, length,
  get_elem?-snoc_same, Option-cases, All,
}
use libfluid.Switch.Extract.Total.{extract_flow_fields_total}
use libfluid.Switch.Flow.{Action, output, other, Flow, FlowMod, PacketOut, MsgLib}
use libfluid.Switch.State.{Packet, Datapath, M, allocate, find, port_numbers}
use libfluid.Switch.Datapath.{
  no_buffer, ofpp_in_port, ofpp_flood, ofpp_all, packet_to_send, handle_packet_out, first_match,
  packet_handler,
}
use libfluid.Switch.Datapath.Flooding.{emit}
use libfluid.Switch.Datapath.Forwarding.{IsPort, IsForward, forward_all, run_actions-emit}
use libfluid.Switch.Datapath.Priority.{
  All-In, first_match-In, match_of, arrived, pointer, missed, handler_hit, handler_miss,
}
use libfluid.Switch.Datapath.Parked.{Live}
use libfluid.Switch.Datapath.Released.{deref-Live, free-Live, released, handle_packet_out-Live}

-- An action that sends a packet of one of the ports to ports only, or does nothing.
abbrev pub IsSafe : ℕ → Action → Type 0
IsSafe n (output port max_len) =
    (port ≡ ofpp_in_port) ⊎ ((port ≡ ofpp_flood) ⊎ (port ≡ ofpp_all)) ⊎ IsPort n port
IsSafe n (other type) = Unit

abbrev pub IsSafeFlow : ℕ → Flow → Type 0
IsSafeFlow n f = All (IsSafe n) f.actions

-- The ports are those that the switch started with, and every flow of the table is safe.
pub record IsTame (n : ℕ) (d : Datapath) : Type 0 where
  pub ports : d.ports ≡ port_numbers n
  pub flows : All (IsSafeFlow n) d.flow_table

-- A call returns, and leaves the state tame.
pub record Serves (n : ℕ) (m : M (Unit {0})) (d : Datapath) : Type 0 where
  pub after : Datapath
  pub returns : m d ≡ some (tt, after)
  pub tame : IsTame n after

-- A buffer id names a packet that is there, was captured on a port, and has bytes that may be read.
pub record NamesLive (n id : ℕ) (d : Datapath) : Type 0 where
  pub i : ℕ
  pub pkt : Packet
  pub found : find id d.pkt_buffer ≡ some (suc i)
  pub live : Live i pkt d
  pub readable : pkt.readable ≡ true
  pub captured : IsPort n pkt.in_port

-- What a PACKET_OUT and an ADD may ask for.
abbrev pub IsFitPacketOut : ℕ → PacketOut → Datapath → Type 0
IsFitPacketOut n po d =
    ((po.buffer_id ≡ no_buffer)
      × All (IsForward n (record { in_port = po.in_port; readable = true; bytes = po.payload }))
          po.actions)
    ⊎ ((po.buffer_id ≢ no_buffer) × NamesLive n po.buffer_id d × All (IsSafe n) po.actions)

abbrev pub IsFitAdd : ℕ → FlowMod → Datapath → Type 0
IsFitAdd n fm d =
    All (IsSafe n) fm.actions
    × ((fm.buffer_id ≡ no_buffer) ⊎ ((fm.buffer_id ≢ no_buffer) × NamesLive n fm.buffer_id d))

IsSafe-IsForward :
    (n : ℕ) (pkt : Packet) (a : Action) → IsPort n pkt.in_port → IsSafe n a → IsForward n pkt a
IsSafe-IsForward n pkt (output port max_len) own (inl e) = inl (e, own)
IsSafe-IsForward n pkt (output port max_len) own (inr h) = inr h
IsSafe-IsForward n pkt (other type) own h = tt

pub All-IsForward :
    (n : ℕ) (pkt : Packet) (actions : List Action)
    → IsPort n pkt.in_port
    → All (IsSafe n) actions
    → All (IsForward n pkt) actions
All-IsForward n pkt [] own h = tt
All-IsForward n pkt (a ∷ actions) own h =
    (IsSafe-IsForward n pkt a own h.0, All-IsForward n pkt actions own h.1)

module _ (lib : MsgLib) (n : ℕ) (fits : n < 0xff00) where
  pub capture-Serves :
      (d : Datapath) (port_no : ℕ) (bytes : List ℕ) (wire_len : ℕ)
      → IsTame n d
      → IsPort n port_no
      → Serves n (packet_handler lib port_no bytes wire_len) d
  capture-Serves d port_no bytes wire_len t own =
      let (fields, e) = extract_flow_fields_total bytes in
      let pkt : Packet = record { in_port = port_no; readable = true; bytes = bytes } in
      elim (Option-cases (first_match d.flow_table (match_of lib port_no fields))) [
        | inl m ↦ record {
          after = missed port_no bytes wire_len d;
          returns = handler_miss lib port_no bytes wire_len d fields e m;
          tame = record { ports = t.ports; flows = t.flows };
        }
        | inr (f, m) ↦
            let present = (first_match-In f d.flow_table _ m).0 in
            let safe = All-In (IsSafeFlow n) f d.flow_table t.flows present in
            let at = arrived port_no bytes d in
            let live = deref-Live (length d.heap) pkt at (get_elem?-snoc_same d.heap (some pkt)) in
            record {
              after = emit at (forward_all d.ports pkt f.actions);
              returns =
                  handler_hit lib port_no bytes wire_len d fields f e m
                  ∙ run_actions-emit n (pointer d) pkt fits refl f.actions at t.ports live
                      (All-IsForward n pkt f.actions own safe);
              tame = record { ports = t.ports; flows = t.flows };
            }
      ]

  -- A packet that comes with the PACKET_OUT.
  packet_out-fresh :
      (d : Datapath) (msg : List ℕ)
      → IsTame n d
      → (lib.unpack_packet_out msg).buffer_id ≡ no_buffer
      → All
          (IsForward n (record {
            in_port = (lib.unpack_packet_out msg).in_port;
            readable = true;
            bytes = (lib.unpack_packet_out msg).payload;
          }))
          (lib.unpack_packet_out msg).actions
      → Serves n (handle_packet_out lib msg) d
  unfolding handle_packet_out packet_to_send allocate
  packet_out-fresh d msg t b fwd =
      let po = lib.unpack_packet_out msg in
      let pkt : Packet = record { in_port = po.in_port; readable = true; bytes = po.payload } in
      let at = arrived po.in_port po.payload d in
      let live = get_elem?-snoc_same d.heap (some pkt) in
      let out = forward_all d.ports pkt po.actions in
      let sent =
        run_actions-emit n (pointer d) pkt fits refl po.actions at t.ports
          (deref-Live (length d.heap) pkt at live) fwd in
      let freed = free-Live (length d.heap) pkt (emit at out) live in
      record {
        after = released (length d.heap) out at;
        returns = ground (arith, b, sent, freed);
        tame = record { ports = t.ports; flows = t.flows };
      }

  pub packet_out-Serves :
      (d : Datapath) (msg : List ℕ)
      → IsTame n d
      → IsFitPacketOut n (lib.unpack_packet_out msg) d
      → Serves n (handle_packet_out lib msg) d
  packet_out-Serves d msg t (inl (b, fwd)) = packet_out-fresh d msg t b fwd
  packet_out-Serves d msg t (inr (b, names, safe)) =
      let actions = (lib.unpack_packet_out msg).actions in
      record {
        after = released names.i (forward_all d.ports names.pkt actions) d;
        returns =
            handle_packet_out-Live lib n names.i names.pkt d fits names.readable t.ports names.live
              msg b names.found (All-IsForward n names.pkt actions names.captured safe);
        tame = record { ports = t.ports; flows = t.flows };
      }
