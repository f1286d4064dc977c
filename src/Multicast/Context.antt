-- ===== src/Multicast/Context.antt =====
-- class MCGroupOpenFlowContext of examples/controller/mc-agent/MCGroup.cc, and the constructors of
-- MCGroup.hh and MCGroupMember.hh.
use libfluid.Prelude.{
  ℕ, ◌+◌, ◌/◌, ◌%◌, ◌^◌, Bool, none, some, List, [], ◌∷◌, ◌++◌, leb, ◌==◌, if◌then◌else◌, length,
  erase_idx,
}
use libfluid.Multicast.Types.{
  PacketInDataHeader, McGroupMember, McGroup, Bucket, set_udp_dst, set_ipv4_dst, set_eth_dst,
  output, GroupCommand, GroupMod, GroupModLib, eth_type, ip_proto, ipv4_src, ipv4_dst, udp_src,
  udp_dst, to_group, to_controller, FlowCommand, FlowMod, Sent, group_mod, flow_mod, packet_out,
  Wire,
}

pub record Context : Type 0 where
  pub ofgroupmod : GroupMod
  pub offlowmod : FlowMod
  pub upstreamflowmod : FlowMod
  pub member_of13_buckets : List Bucket

abbrev pub no_buffer : ℕ
no_buffer = 0xffffffff

-- `++OFMsgXidGen`, `++OFMsgCookieGen` and `++OFMsgGroupIdGen`; the new value is read from the result.
abbrev pub next_xid : Wire → Wire
next_xid w = record w { xid_gen = (w.xid_gen + 1) % 2 ^ 32 }

abbrev pub next_cookie : Wire → Wire
next_cookie w = record w { cookie_gen = (w.cookie_gen + 1) % 2 ^ 64 }

abbrev pub next_group_id : Wire → Wire
next_group_id w = record w { group_id_gen = (w.group_id_gen + 1) % 2 ^ 32 }

abbrev pub send : Sent → Wire → Wire
send m w = record w { sent = w.sent ++ m ∷ [] }

-- The constructor of MCGroup, which draws a group id.
unfoldable pub new_group : ℕ → ℕ → ℕ → ℕ → Bool → Bool → Wire → McGroup × Wire
new_group ip up_intf sport dport classd is_root w =
    let w' = next_group_id w in
    (
      record {
        groupip = ip;
        sudpport = sport;
        dudpport = dport;
        upstream_intf = up_intf;
        is_classd = classd;
        groupid = w'.group_id_gen;
        is_root = is_root;
      },
      w',
    )

-- The constructor of MCGroupMember: the interface is a `uint8_t`. The index is set by `add_bucket`.
unfoldable pub new_member : ℕ → ℕ → ℕ → ℕ → ℕ → McGroupMember
new_member mac ip port intf index = record {
  dest_mac = mac;
  dest_ip = ip;
  udp_port = port;
  intf = intf % 2 ^ 8;
  bucket_index = index;
}

-- The bucket of a member. A hardware address fills the last six bytes of `dest_mac`.
unfoldable pub member_bucket : McGroupMember → Bucket
member_bucket m = record {
  weight = 0xffff;
  watch_port = 0xffffffff;
  watch_group = 0xffffffff;
  actions =
      set_udp_dst 161 m.udp_port
      ∷ set_ipv4_dst 162 m.dest_ip
      ∷ set_eth_dst 163 (m.dest_mac / 2 ^ 16)
      ∷ output m.intf 0
      ∷ [];
}

-- The setters at the head of `add_bucket_of13_group`; all that it does for a NULL member.
unfoldable pub set_group_mod : McGroup → ℕ → GroupCommand → Context → Context
set_group_mod g xid command c =
    let old = c.ofgroupmod in
    record c { ofgroupmod = record old { xid = xid; command = command; group_id = g.groupid } }

-- `add_bucket_of13_group` for a member, which gets the index of its bucket.
unfoldable pub add_bucket_of13_group :
    GroupModLib → McGroup → ℕ → McGroupMember → GroupCommand → Context → Context × McGroupMember
add_bucket_of13_group lib g xid m command c =
    let c' = set_group_mod g xid command c in
    let gm = c'.ofgroupmod in
    let bucket = member_bucket m in
    (
      record c' {
        ofgroupmod = record gm { buckets = lib.add_bucket bucket gm.buckets };
        member_of13_buckets = c'.member_of13_buckets ++ bucket ∷ [];
      },
      record m { bucket_index = length c'.member_of13_buckets },
    )

-- `remove_bucket_of13_group`: an index out of range leaves the buckets alone.
unfoldable pub remove_bucket_of13_group :
    GroupModLib → ℕ → McGroupMember → GroupCommand → Context → Context
remove_bucket_of13_group lib xid m command c =
    let old = c.ofgroupmod in
    let gm = record old { xid = xid; command = command } in
    if leb (length c.member_of13_buckets) m.bucket_index
    then record c { ofgroupmod = gm }
    else record c {
      ofgroupmod = record gm { buckets = lib.del_bucket m.bucket_index gm.buckets };
      member_of13_buckets = erase_idx c.member_of13_buckets m.bucket_index;
    }

-- `pack_group_mod_msg` and the `send` that follows each call of it.
unfoldable pub send_group_mod : Context → Wire → Wire
send_group_mod c w = send (group_mod c.ofgroupmod) w

unfoldable pub delete_downstream_flow_mod_for_group : Context → Wire → Context × Wire
delete_downstream_flow_mod_for_group c w =
    let old = c.offlowmod in
    let fm = record old { command = FlowCommand.delete } in
    (record c { offlowmod = fm }, send (flow_mod fm) w)

unfoldable pub insert_downstream_flow_mod_for_group : Context → Wire → Context × Wire
insert_downstream_flow_mod_for_group c w =
    let old = c.offlowmod in
    let fm = record old { command = FlowCommand.add } in
    (record c { offlowmod = fm }, send (flow_mod fm) w)

-- The fields that both flows of a group have in common.
unfoldable pub group_flow : ℕ → ℕ → ℕ → ℕ → FlowMod
group_flow xid cookie priority out_group = record {
  xid = xid;
  cookie = cookie;
  cookie_mask = 0xffffffffffffffff;
  table_id = 0;
  command = FlowCommand.add;
  idle_timeout = 0;
  hard_timeout = 0;
  priority = priority;
  buffer_id = no_buffer;
  out_port = 0;
  out_group = out_group;
  match = [];
  apply_actions = [];
}

unfoldable pub create_downstream_flow_mod_for_group : McGroup → Context → Wire → Context × Wire
create_downstream_flow_mod_for_group g c w =
    let w' = next_cookie (next_xid w) in
    let fm = group_flow w'.xid_gen w'.cookie_gen 10 g.groupid in
    let unicast =
      eth_type 0x0800
      ∷ ip_proto 17
      ∷ ipv4_src g.groupip
      ∷ udp_src g.sudpport
      ∷ udp_dst g.dudpport
      ∷ [] in
    (
      record c {
        offlowmod = record fm {
          match = if g.is_classd then ipv4_dst g.groupip ∷ [] else unicast;
          apply_actions = to_group g.groupid ∷ [];
        };
      },
      w',
    )

unfoldable pub create_group_hook_flow_mod : McGroup → Context → Wire → Context × Wire
create_group_hook_flow_mod g c w =
    let w' = next_cookie (next_xid w) in
    let fm = group_flow w'.xid_gen w'.cookie_gen 1000 0 in
    let unicast = eth_type 0x0800 ∷ ip_proto 17 ∷ ipv4_dst g.groupip ∷ [] in
    (
      record c {
        upstreamflowmod = record fm {
          match = if g.is_classd then ipv4_dst g.groupip ∷ [] else unicast;
          apply_actions = to_controller 512 ∷ [];
        };
      },
      w',
    )

unfoldable pub send_upstream_packet_out : McGroup → PacketInDataHeader → Wire → Wire
send_upstream_packet_out g pk w =
    let payload = (if pk.buffer_id == no_buffer then some pk.frame else none) in
    send (packet_out pk.xid pk.buffer_id pk.in_intf payload g.upstream_intf 1024) w
