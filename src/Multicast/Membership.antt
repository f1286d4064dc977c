-- ===== src/Multicast/Membership.antt =====
-- class MulticastGroupMembershipApp of examples/controller/mc-agent/MCApps.hh: the session store,
-- joining and leaving, and the handlers of packets. What it prints is left out.
pub mod Members
pub mod Buckets
pub mod GroupTable
pub mod Requests
pub mod Others
pub mod Creation
pub mod Store
pub mod Run
use libfluid.Prelude.{
  ◌>>=◌, ℕ, ◌+◌, ◌-◌, ◌/◌, ◌%◌, ◌^◌, Bool, true, false, not, ◌&&◌, Option, none, some, List, [],
  ◌∷◌, ◌++◌, bit_and, ltb, ◌==◌, if◌then◌else◌, length,
}
use libfluid.Multicast.Types.{
  PacketInDataHeader, McGroupMember, McGroup, mcgroup_lt, GroupCommand, GroupMod, GroupModLib,
  FlowCommand, FlowMod, Sent, role_request, Wire,
}
use libfluid.Multicast.Context.{
  Context, next_xid, send, new_group, new_member, set_group_mod, add_bucket_of13_group,
  remove_bucket_of13_group, send_group_mod, delete_downstream_flow_mod_for_group,
  insert_downstream_flow_mod_for_group, create_downstream_flow_mod_for_group,
  create_group_hook_flow_mod, send_upstream_packet_out, group_flow,
}

-- `MCGroupMemberMap`: members by the interface that their join came in on.
abbrev pub MemberMap : Type 0
MemberMap = List (ℕ × McGroupMember)

-- An entry of `multicast_session_store_`: a group, its OpenFlow context and its members.
pub record Session : Type 0 where
  pub group : McGroup
  pub context : Context
  pub members : MemberMap

-- `ofconn`: NULL, a pointer to no connection, or the connection by its id.
pub data ConnectionPointer : Type 0 where
  null stray : ConnectionPointer
  connection : ℕ → ConnectionPointer

-- The agent.
pub record App : Type 0 where
  pub ofconn : ConnectionPointer
  pub dpid : ℕ
  pub store : List Session
  pub wire : Wire

-- The constructor sets `dpid` only: `ofconn` is what lies in the memory that `new` finds.
unfoldable pub new_app : ConnectionPointer → App
new_app found = record {
  ofconn = found;
  dpid = 0;
  store = [];
  wire = record { xid_gen = 0; group_id_gen = 0; cookie_gen = 0; sent = [] };
}

-- What is sent goes through `ofconn`.
unfoldable pub through : ConnectionPointer → App → Option App
through null a = none
through stray a = none
through (connection c) a = some a

unfoldable pub find_member : ℕ → MemberMap → Option McGroupMember
find_member k [] = none
find_member k ((j, m) ∷ rest) = if j == k then some m else find_member k rest

unfoldable pub erase_member : ℕ → MemberMap → MemberMap
erase_member k [] = []
erase_member k ((j, m) ∷ rest) = if j == k then rest else (j, m) ∷ erase_member k rest

-- The loop of `remove_member`: members behind the removed bucket move up by one.
unfoldable pub shift_indices : ℕ → MemberMap → MemberMap
shift_indices removed [] = []
shift_indices removed ((j, m) ∷ rest) =
    (j, if ltb removed m.bucket_index then record m { bucket_index = m.bucket_index - 1 } else m)
    ∷ shift_indices removed rest

abbrev pub is_empty : MemberMap → Bool
is_empty members = length members == 0

-- The first member of a group whose switch is not the root creates the group in the switch.
abbrev pub creates_group : Session → Bool
creates_group s = is_empty s.members && not s.group.is_root

unfoldable pub join_member_to_group :
    GroupModLib → PacketInDataHeader → Session → Wire → Session × Wire
join_member_to_group lib pk s w = elim (find_member pk.in_intf s.members) [
  | some already ↦ (s, w)
  | none ↦
      let first = creates_group s in
      let command = (if first then GroupCommand.add else GroupCommand.modify) in
      let w1 = next_xid (if first then send_upstream_packet_out s.group pk w else w) in
      let joining = new_member pk.smac pk.sip pk.udst_port pk.in_intf 0 in
      let (c1, m) = add_bucket_of13_group lib s.group w1.xid_gen joining command s.context in
      let w2 = send_group_mod c1 w1 in
      let (c2, w3) = (if first then insert_downstream_flow_mod_for_group c1 w2 else (c1, w2)) in
      (record s { context = c2; members = (pk.in_intf, m) ∷ s.members }, w3)
]

-- The last member of a group whose switch is not the root deletes the group from the switch.
abbrev pub deletes_group : Session → Bool
deletes_group s = length s.members == 1 && not s.group.is_root

-- `leave_member_from_group` but for its last step: the member's entry is erased, and the messages are sent.
unfoldable pub remove_member : GroupModLib → PacketInDataHeader → Session → Wire → Session × Wire
remove_member lib pk s w = elim (find_member pk.in_intf s.members) [
  | none ↦ (s, w)
  | some m ↦
      let last = deletes_group s in
      let command = (if last then GroupCommand.delete else GroupCommand.modify) in
      let w1 = (if last then send_upstream_packet_out s.group pk w else w) in
      let (c1, w2) =
        (if last then delete_downstream_flow_mod_for_group s.context w1 else (s.context, w1)) in
      let w3 = next_xid w2 in
      let c2 = remove_bucket_of13_group lib w3.xid_gen m command c1 in
      let members = erase_member pk.in_intf (shift_indices m.bucket_index s.members) in
      (record s { context = c2; members = members }, send_group_mod c2 w3)
]

-- `delete mcgm_iter->second`, through the iterator of an entry that has been erased, is undefined.
unfoldable pub leave_member_from_group :
    GroupModLib → PacketInDataHeader → Session → Wire → Option (Session × Wire)
leave_member_from_group lib pk s w = elim (find_member pk.in_intf s.members) [
  | none ↦ some (remove_member lib pk s w)
  | some m ↦ none
]

-- `multicast_session_store_.find`: two groups are the same key if neither is less.
abbrev pub same_group : McGroup → McGroup → Bool
same_group a b = not (mcgroup_lt a b) && not (mcgroup_lt b a)

unfoldable pub find_session : McGroup → List Session → Option Session
find_session g [] = none
find_session g (s ∷ rest) = if same_group s.group g then some s else find_session g rest

-- The changes that a handler makes to the session it found.
unfoldable pub replace_session : McGroup → Session → List Session → List Session
replace_session g s' [] = []
replace_session g s' (s ∷ rest) =
    if same_group s.group g then s' ∷ rest else s ∷ replace_session g s' rest

abbrev empty_group_mod : GroupMod
empty_group_mod = record { xid = 0; command = GroupCommand.add; group_id = 0; buckets = [] }

-- `create_openflow_context`; the two flows are filled in before they are sent.
unfoldable pub new_context : Context
new_context = record {
  ofgroupmod = empty_group_mod;
  offlowmod = group_flow 0 0 0 0;
  upstreamflowmod = group_flow 0 0 0 0;
  member_of13_buckets = [];
}

-- What a root switch sends for a new group: an empty group, and the flow that leads to it.
unfoldable pub create_at_root : McGroup → Context → Wire → Context × Wire
create_at_root g c w =
    let w1 = next_xid w in
    let c1 = set_group_mod g w1.xid_gen GroupCommand.add c in
    insert_downstream_flow_mod_for_group c1 (send_group_mod c1 w1)

unfoldable pub create_session : McGroup → Wire → Session × Wire
create_session g w =
    let (c1, w1) = create_downstream_flow_mod_for_group g new_context w in
    let (c2, w2) = (if g.is_root then create_at_root g c1 w1 else (c1, w1)) in
    let (c3, w3) = create_group_hook_flow_mod g c2 w2 in
    (record { group = g; context = c3; members = [] }, send (Sent.flow_mod c3.upstreamflowmod) w3)

-- `create_group(MCGroup*)`.
unfoldable pub create_group_of : McGroup → App → Option App
create_group_of g a = elim (find_session g a.store) [
  | some s ↦ some a
  | none ↦
      let (s, w) = create_session g a.wire in
      through a.ofconn (record a { store = s ∷ a.store; wire = w })
]

-- `create_group(sip, dip, …)`; a class-D destination is refused.
unfoldable pub create_group : (sip dip sport dport up_intf is_root : ℕ) → App → Option App
create_group sip dip sport dport up_intf is_root a =
    if bit_and dip 0xf0000000 == 0xe0000000
    then some a
    else (let (g, w) = new_group sip up_intf sport dport false (not (is_root == 0)) a.wire in
        create_group_of g (record a { wire = w }))

-- `mflag`: which request a packet is to a group, by its two ports.
pub data Request : Type 0 where
  join leave neither : Request

unfoldable pub request : McGroup → PacketInDataHeader → Request
request g pk =
    if g.sudpport == pk.udst_port && g.dudpport == pk.usrc_port
    then leave
    else if g.sudpport == pk.usrc_port && g.dudpport == pk.udst_port
    then join
    else neither

unfoldable pub serve :
    GroupModLib → Request → PacketInDataHeader → Session → Wire → Option (Session × Wire)
serve lib join pk s w = some (join_member_to_group lib pk s w)
serve lib leave pk s w = leave_member_from_group lib pk s w
serve lib neither pk s w = some (s, w)

-- The key that is looked up is a new MCGroup, and draws a group id.
unfoldable pub handle_udp_packet : GroupModLib → PacketInDataHeader → App → Option App
handle_udp_packet lib pk a =
    let (key, w) = new_group pk.dip 0 pk.usrc_port pk.udst_port false false a.wire in
    elim (find_session key a.store) [
      | none ↦ some (record a { wire = w })
      | some s ↦ serve lib (request s.group pk) pk s w >>= λ r.
          some (record a { store = replace_session key r.0 a.store; wire = r.1 })
    ]

-- The handler looks the group up and does no more.
unfoldable pub handle_igmp_packet : PacketInDataHeader → App → App
handle_igmp_packet pk a = record a {
  wire = (new_group pk.dip 0 pk.usrc_port pk.udst_port true false a.wire).1;
}

abbrev pub protocol_type_igmp : ℕ
protocol_type_igmp = 0x02

abbrev pub protocol_type_udp : ℕ
protocol_type_udp = 0x11

unfoldable pub handle_packet_in : GroupModLib → PacketInDataHeader → App → Option App
handle_packet_in lib pk a =
    if pk.protocol == protocol_type_igmp
    then some (handle_igmp_packet pk a)
    else handle_udp_packet lib pk a

unfoldable pub send_role_request_equal_msg : App → App
send_role_request_equal_msg a =
    let w = next_xid a.wire in record a { wire = send (role_request w.xid_gen) w }
