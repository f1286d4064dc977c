-- ===== src/Network/Reactive.antt =====
-- Reactive forwarding over the whole loop: a packet that no flow takes (examples/switch/port.cc), the
-- controller's answer (examples/controller/raw/RawApps.hh), and the switch that carries it out
-- (examples/switch/datapath.cc).
use libfluid.Learning
use libfluid.Switch.Flow.{Flow}
use libfluid.Switch.State.{Datapath}
