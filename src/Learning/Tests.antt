-- ===== src/Learning/Tests.antt =====
-- The theorems on examples/controller/msg at concrete inputs, with a libfluid_msg that takes a
-- message for its packet, come in on port 3.
use libfluid.Prelude.{
  ℕ, ◌*◌, ◌^◌, ◌≡◌, refl, inl, inr, none, some, List, [], ◌∷◌, arith, load8, All,
}
use libfluid.Learning.{
  Message, find, assign, PacketInLib, Frame, LearningSwitch, ControllerEvent, packet_in, switch_up,
  get_l2table, load_address, read_frame, reply, handle_frame, event_callback, run, new_switch,
  base_event_callback, flow_mod13, packet_out, controller, flood, flood_packet,
  install_default_flow13,
}
use libfluid.Learning.Seen.{seen}
use libfluid.Learning.Forwarding.{
  IsDelivery, HasSent, find-seen, event_callback-seen, IsReadable, run_total,
}

abbrev lib : PacketInLib
lib = record {
  unpack10 = λ m. record { xid = 9; buffer_id = 8; in_port = some 3; bytes = m };
  unpack13 = λ m. record { xid = 9; buffer_id = 8; in_port = some 3; bytes = m };
}

-- A packet from one address to another, each of which has zeros but in its last byte.
abbrev from_to : ℕ → ℕ → List ℕ
from_to src dst = 0 ∷ 0 ∷ 0 ∷ 0 ∷ 0 ∷ dst ∷ 0 ∷ 0 ∷ 0 ∷ 0 ∷ 0 ∷ src ∷ []

abbrev mac : ℕ → ℕ
mac n = n * 2 ^ 56

-- Connections 1 and 2 come up, and a packet comes in on each; the newest event is first.
abbrev events : List ControllerEvent
events =
    packet_in 2 1 (from_to 7 5) ∷ packet_in 1 4 (from_to 6 5) ∷ switch_up 2 1 ∷ switch_up 1 4 ∷ []

events-IsReadable : All (IsReadable lib) events
events-IsReadable = (inl (refl, omega arith), (inr (refl, omega arith), (tt, (tt, tt))))

abbrev reached : LearningSwitch
reached = record {
  l2tables = ((mac 6, 3) ∷ []) ∷ ((mac 7, 3) ∷ []) ∷ [];
  application_data = (2, 1) ∷ (1, 0) ∷ [];
  sent =
      (1, flow_mod13 42 0 0xffffffffffffffff 0 0 0 0 0xffffffff 0 0 0 none controller 0xffff)
      ∷ (1, packet_out 9 8 3 none flood 1024)
      ∷ (2, packet_out 9 8 3 none flood 1024)
      ∷ [];
}

events-run : run lib events ≡ some reached
unfolding run new_switch event_callback base_event_callback get_l2table find install_default_flow13
    read_frame load_address load8 handle_frame assign reply flood_packet
events-run = refl

first_table : get_l2table 1 reached ≡ some 0
unfolding get_l2table find
first_table = refl

find-seen_example : find (mac 6) ((mac 6, 3) ∷ []) ≡ seen lib 1 (mac 6) events
find-seen_example =
    find-seen lib events reached 1 0 ((mac 6, 3) ∷ []) (mac 6) events-run first_table refl

-- The answer to the first packet.
abbrev answer : Frame
answer = record { dst = mac 6; src = mac 5; pi = lib.unpack13 (from_to 5 6) }

answer_read : read_frame lib 4 (from_to 5 6) ≡ some answer
unfolding read_frame load_address load8
answer_read = refl

event_callback-seen_example :
    (ms : List Message) × IsDelivery answer 3 4
      (seen lib 1 (mac 6) (packet_in 1 4 (from_to 5 6) ∷ events))
      ms
    × ((st' : LearningSwitch) × (event_callback lib (packet_in 1 4 (from_to 5 6)) reached
          ≡ some st')
        × HasSent 1 ms reached st')
event_callback-seen_example =
    event_callback-seen lib events reached 1 0 4 3 (from_to 5 6) answer events-run first_table
      answer_read refl

run_total_example : (st : LearningSwitch) × (run lib events ≡ some st)
run_total_example = run_total lib events events-IsReadable
