-- ===== src/Controller/Tests.antt =====
-- The theorems on examples/controller/Controller.hh at concrete inputs.
use libfluid.Prelude.{ℕ, true, ◌*◌, ◌^◌, ◌≡◌, refl, none, some, List, [], ◌∷◌, ◌++◌, load8}
use libfluid.Learning.{
  PacketInLib, LearningSwitch, find, assign, get_l2table, base_event_callback, new_switch,
  event_callback, load_address, read_frame, handle_frame, reply, flood_packet, packet_out, flood,
}
use libfluid.Learning.Seen.{seen}
use libfluid.Controller
use libfluid.Controller.{
  Input, register, message, connection, stopped, dead, listeners, push_back, register_for_event,
  handle, dispatch_event, delete_event, call_listeners, message_callback, connection_callback,
  new_controller, stop,
}
use libfluid.Controller.Dispatch.{Reached, run-Reached}
use libfluid.Controller.Main.{
  runs, l2, agent, Libc, pos, msg_main, is_port, parse_ports, parse_address, parse_commandline_args,
  mc_main,
}
use libfluid.Controller.Apps.{serve, registrations, events, serve-seen}

abbrev lib : PacketInLib
lib = record {
  unpack10 = λ m. record { xid = 9; buffer_id = 8; in_port = some 3; bytes = m };
  unpack13 = λ m. record { xid = 9; buffer_id = 8; in_port = some 3; bytes = m };
}

abbrev packet : List ℕ
packet = 0 ∷ 0 ∷ 0 ∷ 0 ∷ 0 ∷ 5 ∷ 0 ∷ 0 ∷ 0 ∷ 0 ∷ 0 ∷ 6 ∷ []

-- The newest first: a features reply, an echo request that no application takes, and a packet in.
abbrev traffic : List Input
traffic = message 1 1 10 102 packet ∷ message 1 1 2 101 [] ∷ message 1 1 6 100 [] ∷ []

-- After it the connection dies, the controller stops, and another packet comes in.
abbrev history : List Input
history = message 1 1 10 103 packet ∷ stopped ∷ connection 1 1 dead ∷ (traffic ++ registrations 7)

run-Reached_example : Reached history (Controller.run history)
run-Reached_example = run-Reached history

history_freed : (Controller.run history).freed ≡ 100 ∷ 102 ∷ 103 ∷ []
history_freed = run-Reached_example.freed

abbrev reached : LearningSwitch
reached = record {
  l2tables = ((6 * 2 ^ 56, 3) ∷ []) ∷ [];
  application_data = (1, 0) ∷ [];
  sent = (1, packet_out 9 8 3 none flood 1024) ∷ [];
}

traffic_served :
    serve lib 7 (Controller.run (traffic ++ registrations 7)).calls new_switch ≡ some reached
unfolding serve Controller.run handle register_for_event push_back listeners message_callback
    dispatch_event delete_event call_listeners new_controller new_switch event_callback
    base_event_callback get_l2table find read_frame load_address load8 handle_frame assign reply
    flood_packet
traffic_served = refl

first_table : get_l2table 1 reached ≡ some 0
unfolding get_l2table find
first_table = refl

serve-seen_example :
    find (6 * 2 ^ 56) ((6 * 2 ^ 56, 3) ∷ []) ≡ seen lib 1 (6 * 2 ^ 56) (events traffic)
serve-seen_example =
    serve-seen lib 7 traffic reached 1 0 ((6 * 2 ^ 56, 3) ∷ []) (6 * 2 ^ 56) (tt, (tt, (tt, tt)))
      traffic_served first_table refl

abbrev libc : Libc
libc = record { atoi = λ s. pos 6653; inet_aton = λ s. true }

l2_chosen : msg_main ("msg_controller" ∷ "l2" ∷ []) ≡ runs (registrations l2)
unfolding msg_main
l2_chosen = refl

-- Any first argument is taken for the agent's.
agent_chosen :
    mc_main libc ("mc" ∷ "other" ∷ "10.0.0.1" ∷ "7000" ∷ "6653" ∷ [])
    ≡ some (runs (registrations agent))
unfolding mc_main parse_commandline_args parse_address parse_ports is_port
agent_chosen = refl

address_missing : mc_main libc ("mc" ∷ "other" ∷ []) ≡ none
unfolding mc_main parse_commandline_args parse_address
address_missing = refl
