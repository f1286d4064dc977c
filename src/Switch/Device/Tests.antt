-- ===== src/Switch/Device/Tests.antt =====
-- The theorem on a whole switch (examples/switch/Switch.hh) at concrete inputs.
use libfluid.Prelude.{false, ℕ, ◌≡◌, refl, true, some, List, [], ◌∷◌, load8, ◌>>=◌}
use libfluid.Client
use libfluid.Client.{
  send, connection_callback, message_callback, free_data, started, up, down, close, closed, Client,
  new_client, message, base_event, finish, header_bytes, base_message_callback,
  base_connection_callback,
}
use libfluid.Client.Tests as ClientTests
use libfluid.Client.Tests.{settings, connected}
use libfluid.Switch.Tests as SwitchTests
use libfluid.Switch.Tests.{from_port}
use libfluid.Switch.Flow.{output, new_flow, erase_strict, insert}
use libfluid.Switch.State.{init, port_numbers}
use libfluid.Switch.Datapath
use libfluid.Switch.Datapath.{handle_flow_mod, flow_mod, add_flow}
use libfluid.Switch.Datapath.Invariant.{Inv}
use libfluid.Switch.Device.{
  Device, new_device, of_client, start_conn, client_input, stop_conn, on_event, react, react_all,
  step, run, generate_dp_id,
}
use libfluid.Switch.Main
use libfluid.Switch.Main.{starts, start_with, split_ports}
use libfluid.Switch.Device.Whole.{run-Inv}

-- A FLOW_MOD for the library of the switch's tests, whose priority is the length of the message.
abbrev request : List ℕ
request = 1 ∷ 14 ∷ 0 ∷ 8 ∷ 0 ∷ 0 ∷ 0 ∷ 1 ∷ []

abbrev reached : Device
reached = record {
  client = record {
    datapath_id = 6;
    conn = some connected;
    base_deleted = false;
    actions = message_callback 14 request ∷ free_data 30 ∷ [];
  };
  datapath = record {
    flow_table = new_flow 8 from_port (output 2 64 ∷ []) ∷ [];
    pkt_buffer = [];
    ports = 1 ∷ 2 ∷ [];
    conn = true;
    buffer_id = 0;
    heap = [];
    sent = [];
  };
  calls =
      of_client (send (header_bytes 1 0 8 5))
      ∷ of_client (connection_callback started)
      ∷ of_client (free_data 30)
      ∷ [];
}

switched :
    run ClientTests.lib settings SwitchTests.lib 6 2
      (client_input (message 30 request) ∷ client_input (base_event up) ∷ [])
    ≡ some reached
unfolding run new_device new_client init port_numbers step Client.handle Client.respond
    base_connection_callback base_message_callback finish load8 header_bytes react_all react
    on_event Datapath.message_callback handle_flow_mod flow_mod add_flow new_flow erase_strict
    insert
switched = refl

run-Inv_example : Inv reached.datapath
run-Inv_example =
    run-Inv ClientTests.lib settings SwitchTests.lib 6 2
      (client_input (message 30 request) ∷ client_input (base_event up) ∷ []) reached switched

-- When the connection goes down, it is closed and another is started.
reconnected :
    (step ClientTests.lib settings SwitchTests.lib (client_input (base_event down)) (new_device 6 2)
      >>= λ d. some d.calls)
    ≡ some (of_client (connection_callback closed) ∷ start_conn ∷ [])
unfolding step new_device new_client Client.handle Client.respond base_connection_callback react_all
    react on_event stop_conn
reconnected = refl

generate_dp_id_bits : generate_dp_id 0x12345678 0x2345 0x3456 0x4567 ≡ 0x4567345623455678
unfolding generate_dp_id
generate_dp_id_bits = refl

-- Two ports and a datapath id, for a `strtoull` that finds 5.
arguments_read :
    Main.main (λ s. 5) ("switch" ∷ "-i" ∷ "eth0" ∷ "eth1" ∷ "-d" ∷ "0x5" ∷ [])
    ≡ starts ("eth0" ∷ "eth1" ∷ []) (some 5)
unfolding Main.main start_with split_ports
arguments_read = refl
