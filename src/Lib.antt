-- ===== src/Lib.antt =====
-- The examples of libfluid: an OpenFlow 1.0 switch, a multicast membership agent and a learning switch.
--
-- The repository holds programs that use the libraries libfluid_base and libfluid_msg, which are
-- submodules. What the programs take from them is a parameter here: MsgLib (Switch/Flow) is the
-- unpacking of messages and the setters of a match, GroupModLib (Multicast/Types) the bucket list of
-- a GROUP_MOD, AgentLib (Multicast/Callback) and PacketInLib (Learning) the unpacking of packets.
--
-- examples/switch is Switch. A packet comes from libpcap to `packet_handler` (port.cc), which extracts
-- its fields (`extract_flow_fields`, flow.cc), looks for a flow and runs the flow's actions
-- (datapath.cc), or buffers the packet and reports it. A message from the controller comes to
-- `message_callback` (Switch.hh), which calls the handlers of the datapath.
--   Switch/Match     flow.hh: of10::Match as a record, and the three tests of matches
--   Switch/Ofpfw     the wildcard flags of controller/raw/of10.hh that the tests use
--   Switch/Extract   flow.cc and packets.h: the fields of a packet, from its bytes
--   Switch/Flow      flow.hh, flow.cc: class Flow, and the set of flows as a list in its order
--   Switch/State     datapath.hh: the state of a Datapath, with the memory of its packets
--   Switch/Datapath  datapath.cc, port.cc, Switch.hh: the handlers
--   Switch/Packets   packets.h: the headers that are read, with their bytes
--   Switch/Device    Switch.hh: class Switch, a Client whose callbacks work on a Datapath
--   Switch/Main      Switch.cc, port.cc: the arguments, and the opening of ports
-- A handler is a function from a state to a state or to `none`, which is undefined behaviour: a NULL
-- or freed pointer that is followed or freed, an index outside a vector. The objects of `struct
-- packet` are cells of a heap, so that a pointer that outlives its packet can be seen. The bytes of a
-- packet are in memory that libpcap lent it and may take back or reuse once the callback has returned:
-- between the handlers the bytes of any packet may change, or stop being readable (`reuse`).
--
-- examples/controller/mc-agent is Multicast. Packets come to `event_callback` (MCApps.hh), which parses
-- them, and to `handle_packet_in`, which finds the session of a group by the packet's address, and
-- joins the sender to it or takes it off; a session sends what its switch should hold (MCGroup.cc).
--   Multicast/Types       MCGroupMember.hh, MCGroup.hh, and the OpenFlow 1.3 messages as values
--   Multicast/Context     MCGroup.cc: MCGroupOpenFlowContext
--   Multicast/Membership  MCApps.hh: the sessions of MulticastGroupMembershipApp
--   Multicast/Callback    MCApps.hh: its event_callback
--   Multicast/Command     MCNWClient.hh: the commands that create groups
-- A message is the values that the code gives to the objects of libfluid_msg, and a send appends it to
-- the list of what was sent. `none` is undefined behaviour: a read outside a packet, a pointer `ofconn`
-- that points to no connection, and what a leave of a member does last, to delete the member through an
-- erased entry; `remove_member` is the leave up to there. Membership/GroupTable is what OpenFlow 1.3 has
-- the switch at the other end do with a GROUP_MOD; Callback/Deliver runs the application over a list of
-- inputs.
--
-- examples/controller/msg is Learning. An event comes to `event_callback` of MultiLearningSwitch
-- (msg/MsgApps.hh), which calls that of BaseLearningSwitch (Controller.hh) when a connection comes up
-- or goes down, and for a packet learns where its source is and sends it to where its destination is.
--   Learning             Controller.hh, msg/MsgApps.hh: the tables, the events and the handlers
--   Learning/Seen        where an address was last seen, by recursion on the events
-- A connection is its id; its table is found through a pointer, the index of a table in the list of
-- all, so that the tables of different connections are apart by a theorem. The packets of libfluid_msg
-- are a parameter (PacketInLib); `none` is a version that the code does not read, a packet too short, or
-- a pointer to no table.
--
-- examples/controller/raw is Learning/Raw: the same switch for OpenFlow 1.0, which reads the bytes of a
-- packet in at the offsets of its structure and builds its answers byte by byte. `none` is an access out
-- of a buffer: of the message, or of the array on the stack that the answer is built in.
--   Learning/Raw         raw/RawApps.hh: RawLearningSwitch and RawCBench
--   Learning/Raw/FlowMod, PacketOut  what an OpenFlow 1.0 switch reads in its messages
--
-- examples/controller/loci is Learning/Loci: the same switch with messages that LOCI builds, as the values
-- that are given to it.
--
-- examples/controller/Controller.hh is Controller: OFServer calls `message_callback` and
-- `connection_callback`, which make events for the applications that are registered; Controller/Apps puts
-- the learning switch of Learning under it, and Controller/Main is the arguments of the main programs msg,
-- raw and mc-agent, Controller/Programs the servers of loci, secure and the Android application (their
-- copies of Controller.hh and MsgApps.hh differ in one constructor). The version of a
-- connection is given with each callback.
--
-- examples/switch/client is Client: the handshake and the echoes of OFClient (OFClient.cc) and the loop
-- that connects (base/BaseOFClient.cc); Client/Lifecycle is its start, stop and deletion. A run is a list
-- of inputs, messages and events of the connection and runs of the timer, and what the client calls is a
-- list of actions. A close deletes the connection of the base, and what follows it afterwards is `none`.
-- The settings, the constants and the messages of libfluid are parameters (Settings, Libfluid).
--
-- Network is a switch and the raw learning controller at the two ends of a connection, with libfluid_msg
-- between them as a parameter (IsOpenFlow10).
--   Network/Reply    what the controller answers to the report of a packet
--   Network/Carried  what the switch does with the answer
--   Network/Loop     what the loop does with a packet that no flow takes
--   Network/Reactive that it does so, where the destination is known
--   Network/Flooded  the loop where the destination is not known
--   Network/Exchange a frame that is flooded, and its answer
--   Network/Sample   a libfluid_msg that lays the messages out so, for the tests
--
-- Sizes: an integer of the source is a natural number below 2 ^ w, and where the code can pass that
-- the wrap is written out (counters, bitwise complements, the interface of a member). Bytes are
-- numbers in a list; loads are those of a little-endian host. The loop over VLAN tags in Extract runs
-- on fuel, one more than the bytes of the packet, and each round moves four bytes on.
--
-- Not modelled: threads and the interleaving of handlers, signals, what is printed, and the loops of
-- libevent and libpcap; the test program of the agent; the vendored header of10.hh, of which only constants
-- and layouts are used; the Java and Python examples.
pub mod Prelude
pub mod Switch
pub mod Multicast
pub mod Client
pub mod Controller
pub mod Learning
pub mod Network
