-- ===== src/Network/Exchange.antt =====
-- A frame to a host that the raw learning controller (examples/controller/raw/RawApps.hh) does not know, and
-- the answer of that host, over a switch of examples/switch.
use libfluid.Prelude.{ℕ, List, length}
use libfluid.Learning
use libfluid.Learning.{L2Table, assign}
use libfluid.Learning.Raw.{RawSwitch, send}
use libfluid.Switch.Flow.{Flow, MsgLib}
use libfluid.Switch.State.{Memory, Output, Datapath}
use libfluid.Switch.Datapath.Flooding.{copies}
use libfluid.Switch.Datapath.Priority.{captured_packet}
use libfluid.Switch.Datapath.Released.{released}
use libfluid.Network.Loop.{held, waiting, IsForwarded}
use libfluid.Network.Reply.{learned}
use libfluid.Network.Flooded.{IsFlooded}

-- The switch once it has flooded the frame.
abbrev pub flooded_state : ℕ → List ℕ → ℕ → Memory → Datapath → Datapath
flooded_state port_no bytes wire_len memory d =
    released (length d.heap) (copies d.ports (captured_packet port_no (held memory bytes)))
      (waiting port_no bytes wire_len memory d)

-- The frame is flooded, and the answer is forwarded to the port that the frame came from, as are the
-- frames that follow it.
pub record IsExchanged (lib : MsgLib) (pack : Output → List ℕ) (d : Datapath) (r : RawSwitch)
    (o version i src dst p q : ℕ) (bytes bytes' : List ℕ) (wire_len wire_len' : ℕ) (memory : Memory)
    (table : L2Table) : Type 0 where
  pub there : IsFlooded lib pack d r o version i src p bytes wire_len table
  pub back :
      IsForwarded lib pack
        (flooded_state p bytes wire_len memory d)
        (send o there.answered.raw (learned i (assign src p table) r))
        o
        version
        i
        p
        dst
        src
        q
        bytes'
        wire_len'
        (assign src p table)
