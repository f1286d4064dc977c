-- ===== src/Network/Flooded.antt =====
-- The loop between a switch (examples/switch) and the raw learning controller
-- (examples/controller/raw/RawApps.hh) for a packet to a destination that the controller does not know.
use libfluid.Prelude.{ℕ, ◌≡◌, some, List, [], ◌∷◌, ◌++◌, length}
use libfluid.Learning
use libfluid.Learning.{L2Table, assign}
use libfluid.Learning.Raw.{RawSwitch}
use libfluid.Switch.Flow.{MsgLib}
use libfluid.Switch.State.{Memory, Output, Datapath}
use libfluid.Switch.Datapath.{message_callback, packet_handler}
use libfluid.Switch.Datapath.Flooding.{copies}
use libfluid.Switch.Datapath.Priority.{captured_packet, missed}
use libfluid.Switch.Datapath.Parked.{next_id}
use libfluid.Switch.Datapath.Released.{released}
use libfluid.Network.Loop.{report_of, held, waiting}
use libfluid.Network.Reply.{IsAskedToFlood}

-- The loop: the switch buffers and reports, the controller answers with one message, and the switch sends
-- the packet, with the bytes that its memory holds by then, out of every port but its own, and deletes it.
pub record IsFlooded (lib : MsgLib) (pack : Output → List ℕ) (d : Datapath) (r : RawSwitch)
    (o version i src : ℕ) (port_no : ℕ) (bytes : List ℕ) (wire_len : ℕ) (table : L2Table)
    : Type 0 where
  pub missed_first :
      packet_handler lib port_no bytes wire_len d ≡ some (tt, missed port_no bytes wire_len d)
  pub reported :
      (missed port_no bytes wire_len d).sent ≡ d.sent ++ report_of port_no bytes wire_len d ∷ []
  pub answered :
      IsAskedToFlood o version i
        (next_id d)
        port_no
        (assign src port_no table)
        (pack (report_of port_no bytes wire_len d))
        r
  pub carried_out :
      (memory : Memory)
      → message_callback lib 13 answered.raw (waiting port_no bytes wire_len memory d)
        ≡ some (
          tt,
          released
              (length d.heap)
              (copies d.ports (captured_packet port_no (held memory bytes)))
              (waiting port_no bytes wire_len memory d),
        )
