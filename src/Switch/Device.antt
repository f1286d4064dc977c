-- ===== src/Switch/Device.antt =====
-- class Switch of examples/switch/Switch.hh: an OFClient whose callbacks work on a Datapath, and the ports
-- that capture packets.
pub mod Whole
pub mod Tests
use libfluid.Prelude.{
  ℕ, zero, suc, ◌+◌, ◌*◌, ◌/◌, ◌%◌, ◌^◌, Bool, true, false, Option, none, some, List, [], ◌∷◌, ◌++◌,
  map, bit_and, bit_xor, ◌>>=◌,
}
use libfluid.Client
use libfluid.Client.{
  Settings, Libfluid, OfConnection, Action, send, close, start_echoes, delete_connection,
  connection_callback, message_callback, free_data, Event, started, established, failed_negotiation,
  closed, dead, Client, new_client, Input,
}
use libfluid.Switch.Flow.{MsgLib}
use libfluid.Switch.State.{Datapath, init, Memory, reuse}
use libfluid.Switch.Datapath
use libfluid.Switch.Datapath.{packet_handler, destroy}

-- What the switch calls: what its client does, the start of a new connection, the end of its ports and of
-- the event loop.
pub data Call : Type 0 where
  of_client : Action → Call
  start_conn stop_loop : Call
  close_port : ℕ → Call

pub record Device : Type 0 where
  pub client : Client
  pub datapath : Datapath
  pub calls : List Call

-- `generate_dp_id`, by four results of `rand`.
unfoldable pub generate_dp_id : (a b c d : ℕ) → ℕ
generate_dp_id a b c d =
    bit_xor
      (bit_xor (bit_xor (bit_and a 0xffff) (bit_and (b * 2 ^ 16 % 2 ^ 64) 0xffff0000))
        (bit_and (c * 2 ^ 32 % 2 ^ 64) 0xffff00000000))
      (bit_and (d * 2 ^ 48 % 2 ^ 64) 0xffff000000000000)

-- The constructor, with a datapath id and some number of ports.
unfoldable pub new_device : (dp_id n_ports : ℕ) → Device
new_device dp_id n_ports = record { client = new_client dp_id; datapath = init n_ports; calls = [] }

abbrev pub is_up : Option OfConnection → Bool
is_up none = false
is_up (some cc) = true

-- `stop_conn` of OFClient: the connection is closed if there is one.
unfoldable pub stop_conn : Option OfConnection → List Call
stop_conn none = []
stop_conn (some cc) = of_client close ∷ []

abbrev pub emit : List Call → Device → Device
emit more d = record d { calls = d.calls ++ more }

-- Switch::connection_callback
unfoldable pub on_event : Event → Device → Device
on_event closed d = emit (stop_conn d.client.conn ++ start_conn ∷ []) d
on_event started d = d
on_event established d = d
on_event failed_negotiation d = d
on_event dead d = d

-- What an action of the client does: its callbacks are those of the switch.
unfoldable pub react : MsgLib → Action → Device → Option Device
react lib (message_callback type bytes) d =
    Datapath.message_callback lib type bytes d.datapath >>= λ r. some (record d { datapath = r.1 })
react lib (connection_callback e) d =
    some (on_event e (emit (of_client (connection_callback e) ∷ []) d))
react lib (send bytes) d = some (emit (of_client (send bytes) ∷ []) d)
react lib close d = some (emit (of_client close ∷ []) d)
react lib start_echoes d = some (emit (of_client start_echoes ∷ []) d)
react lib delete_connection d = some (emit (of_client delete_connection ∷ []) d)
react lib (free_data pointer) d = some (emit (of_client (free_data pointer) ∷ []) d)

unfoldable pub react_all : MsgLib → List Action → Device → Option Device
react_all lib [] d = some d
react_all lib (a ∷ rest) d = react lib a d >>= react_all lib rest

-- The connection that the datapath sends on is the client's, through a pointer.
abbrev pub connected : Device → Device
connected d = record d { datapath = record d.datapath { conn = is_up d.client.conn } }

-- What happens to a switch: the inputs of its client, packets that its ports capture, and what becomes of the
-- memory of those.
pub data DeviceInput : Type 0 where
  client_input : Input → DeviceInput
  captured : (port_no : ℕ) (bytes : List ℕ) (wire_len : ℕ) → DeviceInput
  reused : (i : ℕ) (readable : Bool) (memory : Memory) → DeviceInput

unfoldable pub step : Libfluid → Settings → MsgLib → DeviceInput → Device → Option Device
step fluid s lib (client_input i) d = do
  c ← Client.handle fluid s i (record d.client { actions = [] })
  react_all lib c.actions (connected (record d { client = c }))
step fluid s lib (captured port_no bytes wire_len) d =
    packet_handler lib port_no bytes wire_len d.datapath >>= λ r. some (record d { datapath = r.1 })
step fluid s lib (reused i readable memory) d =
    some (record d { datapath = reuse i readable memory d.datapath })

-- The inputs so far, the newest first.
unfoldable pub run :
    Libfluid → Settings → MsgLib → (dp_id n_ports : ℕ) → List DeviceInput → Option Device
run fluid s lib dp_id n_ports [] = some (new_device dp_id n_ports)
run fluid s lib dp_id n_ports (i ∷ is) = run fluid s lib dp_id n_ports is >>= step fluid s lib i

-- Switch::stop: each port is closed and its thread joined, then the connection and the event loop.
unfoldable pub stop : Device → Device
stop d = emit (map close_port d.datapath.ports ++ stop_conn d.client.conn ++ stop_loop ∷ []) d

-- The destructor: the ports, and the datapath with its packets.
unfoldable pub delete_device : Device → Option Device
delete_device d = destroy d.datapath.pkt_buffer (record d.datapath { ports = [] }) >>= λ r.
    some (record d { datapath = r.1 })
