-- ===== src/Network/Loop.antt =====
-- What the loop between a switch (examples/switch) and the raw learning controller
-- (examples/controller/raw/RawApps.hh) does with a packet that no flow takes, as one record.
use libfluid.Prelude.{true, ℕ, ◌%◌, ◌^◌, ◌≡◌, some, List, [], ◌∷◌, ◌++◌, length, All, map}
use libfluid.Learning.{L2Table, assign}
use libfluid.Learning.Raw.{RawSwitch}
use libfluid.Switch.Flow.{Flow, output, MsgLib}
use libfluid.Switch.State.{
  Memory, read_at, reuse, Output, inject, packet_in, no_match, Datapath, M, ◌>>◌, pure,
}
use libfluid.Switch.Datapath.{message_callback, packet_handler}
use libfluid.Switch.Datapath.Priority.{missed}
use libfluid.Switch.Datapath.Parked.{next_id}
use libfluid.Switch.Datapath.Released.{released}
use libfluid.Switch.Datapath.Installed.{installed}
use libfluid.Network.Flow.{IsFrame}
use libfluid.Network.Reply.{IsAnswered}

-- The report of a miss, and the state of the switch once the flow is there.
abbrev pub report_of : ℕ → List ℕ → ℕ → Datapath → Output
report_of port_no bytes wire_len d =
    packet_in 21 (next_id d) port_no (wire_len % 2 ^ 16) no_match bytes

-- The bytes at the packet when the answer comes, in libpcap's memory.
abbrev pub held : Memory → List ℕ → List ℕ
held memory bytes = read_at memory 0 (length bytes)

-- The switch when the answer comes.
abbrev pub waiting : ℕ → List ℕ → ℕ → Memory → Datapath → Datapath
waiting port_no bytes wire_len memory d =
    reuse (length d.heap) true memory (missed port_no bytes wire_len d)

abbrev pub settled : ℕ → List ℕ → ℕ → Memory → ℕ → Flow → Datapath → Datapath
settled port_no bytes wire_len memory q flow d =
    released (length d.heap) (inject q (held memory bytes) ∷ [])
      (installed flow (waiting port_no bytes wire_len memory d))

-- Packets that the ports capture, one after the other.
pub record Capture : Type 0 where
  pub port_no : ℕ
  pub bytes : List ℕ
  pub wire_len : ℕ

abbrev pub capture_all : MsgLib → List Capture → M (Unit {0})
capture_all lib [] = pure tt
capture_all lib (c ∷ captures) =
    packet_handler lib c.port_no c.bytes c.wire_len >> capture_all lib captures

-- The loop, from a switch and a controller that knows that the destination is behind port q.
pub record IsForwarded (lib : MsgLib) (pack : Output → List ℕ) (d : Datapath) (r : RawSwitch)
    (o version i q src dst port_no : ℕ) (bytes : List ℕ) (wire_len : ℕ) (table : L2Table)
    : Type 0 where
  -- The switch buffers the packet and reports it.
  pub missed_first :
      packet_handler lib port_no bytes wire_len d ≡ some (tt, missed port_no bytes wire_len d)
  pub reported :
      (missed port_no bytes wire_len d).sent ≡ d.sent ++ report_of port_no bytes wire_len d ∷ []
  -- The controller learns where the source is, and answers with one message.
  pub answered :
      IsAnswered o version i q src dst
        (next_id d)
        (assign src port_no table)
        (pack (report_of port_no bytes wire_len d))
        r
  -- The switch installs the flow of that message, and sends the packet out of q, with the bytes that its
  -- memory holds by then, if those are a frame of the same two addresses.
  pub flow : Flow
  pub sends_to : flow.actions ≡ output q 0 ∷ []
  pub carried_out :
      (memory : Memory)
      → IsFrame (held memory bytes) src dst
      → message_callback lib 14 answered.raw (waiting port_no bytes wire_len memory d)
        ≡ some (tt, settled port_no bytes wire_len memory q flow d)
  -- The frames between the two that are captured next all go there, in order, and nothing else is sent.
  pub follows :
      (memory : Memory) (captures : List Capture)
      → All (λ (c : Capture). IsFrame c.bytes src dst) captures
      → (d' : Datapath) × (capture_all lib captures (settled port_no bytes wire_len memory q flow d)
          ≡ some (tt, d'))
        × (d'.sent
            ≡ (settled port_no bytes wire_len memory q flow d).sent
              ++ map (λ c. inject q c.bytes) captures)
