-- ===== src/Multicast/Tests.antt =====
-- The theorems on examples/controller/mc-agent at concrete inputs, with a GroupMod that appends and
-- erases buckets.
use libfluid.Prelude.{
  ℕ, ◌^◌, ◌*◌, some, load8, load16, load32, List, arith, ◌≡◌, refl, false, [], ◌∷◌, ◌++◌, erase_idx,
  inl, All,
}
use libfluid.Multicast.Types.{PacketInDataHeader, McGroup, GroupModLib, Wire, mcgroup_lt}
use libfluid.Multicast.Context.{
  new_group, create_downstream_flow_mod_for_group, create_group_hook_flow_mod,
  insert_downstream_flow_mod_for_group,
}
use libfluid.Multicast.Membership.{
  null, connection, new_app, through, send_role_request_equal_msg, App, create_group,
  create_group_of, handle_packet_in, handle_udp_packet, find_session, replace_session, request,
  serve, find_member, Session, create_session, new_context, create_at_root, join_member_to_group,
  remove_member,
}
use libfluid.Multicast.Membership.Buckets.{IsConsistent, join_member_to_group-IsConsistent}
use libfluid.Multicast.Membership.GroupTable.{Follows}
use libfluid.Multicast.Membership.Requests.{
  join_member_to_group-Follows, leave_member_from_group-Follows,
}
use libfluid.Multicast.Membership.Others.{IsServed}
use libfluid.Learning.{load_address}
use libfluid.Multicast.Callback.{
  AgentLib, AgentEvent, event_callback, handle_message, handle_ip, handle_datagram, new_header,
  udp_ports, in_intf,
}
use libfluid.Multicast.Callback.Deliver.{Input, deliver, deliver-IsServed}

abbrev lib : GroupModLib
lib = record {
  add_bucket = λ b bs. bs ++ b ∷ [];
  del_bucket = λ i bs. erase_idx bs i;
  add_bucket_lem = λ b bs. refl;
  del_bucket_lem = λ i bs h. refl;
}

abbrev quiet : Wire
quiet = record { xid_gen = 0; group_id_gen = 1; cookie_gen = 0; sent = [] }

abbrev group : McGroup
group = record {
  groupip = 0x0a000001;
  sudpport = 5000;
  dudpport = 6000;
  upstream_intf = 1;
  is_classd = false;
  groupid = 1;
  is_root = false;
}

-- A request from port 3 to join the group, or to leave it.
abbrev packet : PacketInDataHeader
packet = record {
  dmac = 0;
  smac = 0x0000aabbccddeeff;
  dip = 0x0a000001;
  sip = 0x0a000002;
  in_intf = 3;
  udst_port = 6000;
  usrc_port = 5000;
  protocol = 17;
  membership_code = 0;
  xid = 7;
  buffer_id = 0xffffffff;
  frame = 1 ∷ 2 ∷ 3 ∷ [];
}

abbrev opened : Session
opened = (create_session group quiet).0

abbrev joined : Session
joined = (join_member_to_group lib packet opened quiet).0

opened-IsConsistent : IsConsistent opened
unfolding create_session create_at_root create_downstream_flow_mod_for_group
    create_group_hook_flow_mod new_context insert_downstream_flow_mod_for_group
opened-IsConsistent = record {
  mirrored = refl;
  counted = refl;
  indexed = tt;
  apart = tt;
  named = inl refl;
}

join_member_to_group-Follows_example :
    Follows opened joined quiet (join_member_to_group lib packet opened quiet).1
join_member_to_group-Follows_example =
    join_member_to_group-Follows lib packet opened quiet opened-IsConsistent

leave_member_from_group-Follows_example :
    Follows joined
      (remove_member lib packet joined quiet).0
      quiet
      (remove_member lib packet joined quiet).1
leave_member_from_group-Follows_example =
    leave_member_from_group-Follows lib packet joined quiet
      (join_member_to_group-IsConsistent lib packet opened quiet opened-IsConsistent)

abbrev agent : AgentLib
agent = record {
  group = lib;
  datapath_id = λ m. 7;
  unpack = λ m. record { xid = 7; buffer_id = 0xffffffff; in_port = some 3; bytes = m };
}

-- A UDP packet to 1.0.0.10, from port 5000 to port 6000: a request to join the group.
abbrev request_bytes : List ℕ
request_bytes =
    (0 ∷ 0 ∷ 0 ∷ 0 ∷ 0 ∷ 1 ∷ 0 ∷ 0 ∷ 0 ∷ 0 ∷ 0 ∷ 2 ∷ 8 ∷ 0 ∷ [])
    ++ (0x45 ∷ 0 ∷ 0 ∷ 32 ∷ 0 ∷ 0 ∷ 0 ∷ 0 ∷ 64 ∷ 17 ∷ 0 ∷ 0 ∷ 2 ∷ 0 ∷ 0 ∷ 10 ∷ 1 ∷ 0 ∷ 0 ∷ 10 ∷ [])
    ++ (19 ∷ 136 ∷ 23 ∷ 112 ∷ 0 ∷ 12 ∷ 0 ∷ 0 ∷ 0 ∷ 0 ∷ 0 ∷ 0 ∷ [])

abbrev inputs : List Input
inputs =
    Input.event (AgentEvent.switch_up 1 4 [])
    ∷ Input.create 0x0a000001 0x0a000002 5000 6000 1 0
    ∷ Input.event (AgentEvent.packet_in 1 4 request_bytes)
    ∷ []

-- The agent once it is connected, and its session of the group.
abbrev connected : App
connected = send_role_request_equal_msg (record (new_app null) { ofconn = connection 1; dpid = 7 })

abbrev opening : Session × Wire
opening =
    let (g, w) = new_group 0x0a000001 1 5000 6000 false false connected.wire in create_session g w

abbrev joining : Session × Wire
joining =
    join_member_to_group lib
      (record packet {
        dmac = 1 * 2 ^ 56;
        smac = 2 * 2 ^ 56;
        sip = 0x0a000002;
        frame = request_bytes;
      })
      opening.0 (new_group 0x0a000001 0 5000 6000 false false opening.1).1

abbrev delivered : App
delivered = record connected { store = joining.0 ∷ []; wire = joining.1 }

inputs-delivered : deliver agent inputs (new_app null) ≡ some delivered
unfolding event_callback handle_message handle_ip handle_datagram new_header udp_ports in_intf
    load_address load8 load16 load32 send_role_request_equal_msg create_group create_group_of
    create_session new_group find_session new_app through handle_packet_in handle_udp_packet request
    serve replace_session join_member_to_group find_member mcgroup_lt
inputs-delivered = refl

deliver-IsServed_example : All (IsServed delivered.wire.sent) delivered.store
deliver-IsServed_example =
    deliver-IsServed agent null inputs delivered (omega arith) inputs-delivered
