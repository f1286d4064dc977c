-- ===== src/Switch/Datapath/Tests.antt =====
-- The theorems on buffered packets of examples/switch/datapath.cc at concrete inputs.
use libfluid.Prelude.{true, ◌≢◌, ◌≡◌, refl, List, sym, ◌∙◌, subst, inl, inr, some, [], ◌∷◌, arith}
use libfluid.Switch.Extract.{extract_flow_fields}
use libfluid.Switch.Flow.{output, Command, MsgLib}
use libfluid.Switch.State.{Datapath, reuse, insert_buffer, inject, deref, find, init, port_numbers}
use libfluid.Switch.Datapath.{run_actions, packet_handler}
use libfluid.Switch.Datapath.Handlers.{Reach, here, next, reused}
use libfluid.Switch.Datapath.Stable.{Reuses}
use libfluid.Switch.Datapath.Flooding.{emit}
use libfluid.Switch.Datapath.Forwarding.{run_actions-emit}
use libfluid.Switch.Datapath.Priority.{missed}
use libfluid.Switch.Datapath.Released.{packet_handler-IsUntaken}
use libfluid.Switch.Datapath.Installed.{IsReleasedOrGone, flow_mod-captured}
use libfluid.Switch.Datapath.Safe.{Serves, NamesLive}
use libfluid.Switch.Datapath.Served.{DatapathEvent, message, capture, packet_out}
use libfluid.Switch.Datapath.Total.{History, done, then_event, handle_all, handle_all_total}
use libfluid.Switch.Datapath.Invariant.{state_eq}
use libfluid.Switch.Tests.{from_port, lib, one_flow, waiting}

run_actions-emit_example :
    run_actions (output 0xfff8 0 ∷ output 0xfffb 64 ∷ output 1 0 ∷ []) 1 waiting
    ≡ some (tt, emit waiting (inject 2 (7 ∷ []) ∷ inject 1 (7 ∷ []) ∷ inject 1 (7 ∷ []) ∷ []))
unfolding deref port_numbers
run_actions-emit_example =
    run_actions-emit 2 1 (record { in_port = 2; readable = true; bytes = 7 ∷ [] }) (omega arith)
      refl (output 0xfff8 0 ∷ output 0xfffb 64 ∷ output 1 0 ∷ []) waiting refl refl
      (inl (refl, omega arith), (inr (inl (inl refl)), (inr (inr (omega arith)), tt)))

-- After it, libpcap overwrites the byte.
abbrev overwritten :
    Reach lib (missed 2 (7 ∷ []) 5 one_flow) (reuse 0 true (λ k. 8) (missed 2 (7 ∷ []) 5 one_flow))
overwritten = next here (reused 0 true (λ k. 8))

-- A libfluid_msg whose FLOW_MOD names buffer 1.
abbrev naming : MsgLib
naming = record lib {
  unpack_flow_mod = λ msg. record {
    command = Command.add;
    match = from_port;
    priority = 7;
    buffer_id = 1;
    actions = output 2 64 ∷ [];
  };
}

abbrev kept : Reach naming (missed 1 (7 ∷ []) 5 (init 2)) (missed 1 (7 ∷ []) 5 (init 2))
kept = here

flow_mod-captured_example :
    IsReleasedOrGone naming [] 0
      (Reuses (λ i. i ≢ 0) kept)
      (record { in_port = 1; readable = true; bytes = 7 ∷ [] })
      (missed 1 (7 ∷ []) 5 (init 2))
unfolding init find extract_flow_fields
flow_mod-captured_example =
    flow_mod-captured naming 2 (init 2) 1 (7 ∷ []) 5 [] (omega arith) here refl (λ e. omega arith)
      kept refl refl (inr (inr (omega arith)), tt)

-- A packet is captured on port 1, and the controller sends it out of the buffer.
abbrev captured_then_sent : List DatapathEvent
captured_then_sent = capture 1 (7 ∷ []) 1 ∷ message 13 [] ∷ []

buffered_names :
    (d : Datapath) → packet_handler lib 1 (7 ∷ []) 1 (init 2) ≡ some (tt, d) → NamesLive 2 1 d
unfolding init find insert_buffer
buffered_names d e =
    let does = packet_handler-IsUntaken lib (init 2) 1 (7 ∷ []) 1 (λ fields e g h. absurd h) in
    let same : missed 1 (7 ∷ []) 1 (init 2) ≡ d = state_eq (sym does ∙ e) in
    subst (NamesLive 2 1) same (record {
      i = 0;
      pkt = record { in_port = 1; readable = true; bytes = 7 ∷ [] };
      found = refl;
      live = refl;
      readable = refl;
      captured = omega arith;
    })

sent-History : History lib 2 captured_then_sent (init 2)
sent-History = then_event (omega arith) λ d e.
    then_event
      (packet_out (inr ((λ e. omega arith), buffered_names d e, (inr (inr (omega arith)), tt))))
      (λ d' e'. done)

handle_all_total_example : Serves 2 (handle_all lib captured_then_sent) (init 2)
handle_all_total_example = handle_all_total lib 2 captured_then_sent (omega arith) sent-History
