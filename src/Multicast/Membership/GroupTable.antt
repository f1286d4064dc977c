-- ===== src/Multicast/Membership/GroupTable.antt =====
-- The group messages of examples/controller/mc-agent against a switch's group table: what OpenFlow
-- 1.3 has a switch do with a GROUP_MOD, and what it should hold for a session.
use libfluid.Prelude.{
  ℕ, suc, ◌≡◌, refl, sym, ◌∙◌, Bool, true, false, not, ◌&&◌, ◌||◌, Option, none, some, List, [],
  ◌∷◌, ◌++◌, append-nil, arith, ◌==◌, ==_refl, if◌then◌else◌, length, All, ◌>>=◌,
}
use libfluid.Multicast.Types.{
  PacketInDataHeader, McGroupMember, Bucket, GroupCommand, modify, GroupMod, GroupModLib, Wire,
  Sent, group_mod, flow_mod, packet_out, role_request,
}
use libfluid.Multicast.Membership.{Session, find_member, erase_member, is_empty}
use libfluid.Multicast.Membership.Members.{
  length-shift_indices, length-erase_member, erase_member-shift_indices,
}
use libfluid.Multicast.Membership.Buckets.{IsConsistent, Joined, Left}

-- A switch's entry for one group: its buckets, or none.
abbrev pub Entry : Type 0
Entry = Option (List Bucket)

-- OpenFlow 1.3: ADD is an error for a group that exists, MODIFY for one that does not; DELETE of a
-- group that does not exist is not an error. `none` is the error.
abbrev pub command_result : GroupCommand → List Bucket → Entry → Option Entry
command_result GroupCommand.add bs none = some (some bs)
command_result GroupCommand.add bs (some old) = none
command_result modify bs none = none
command_result modify bs (some old) = some (some bs)
command_result GroupCommand.delete bs none = some none
command_result GroupCommand.delete bs (some old) = some none

abbrev pub receive : ℕ → Sent → Entry → Option Entry
receive id (group_mod gm) e =
    if gm.group_id == id then command_result gm.command gm.buckets e else some e
receive id (flow_mod fm) e = some e
receive id (packet_out xid buffer_id in_port payload port max_len) e = some e
receive id (role_request xid) e = some e

abbrev pub receive_all : ℕ → List Sent → Entry → Option Entry
receive_all id [] e = some e
receive_all id (m ∷ ms) e = receive id m e >>= receive_all id ms

-- What the switch should hold for a session: the members' buckets, if it is the root or has members.
abbrev pub entry : (is_root empty : Bool) → List Bucket → Entry
entry is_root empty bs = if is_root || not empty then some bs else none

abbrev pub view : Session → Entry
view s = entry s.group.is_root (is_empty s.members) s.context.member_of13_buckets

-- A message that names no group but one.
abbrev pub About : ℕ → Sent → Type 0
About id (group_mod gm) = gm.group_id ≡ id
About id (flow_mod fm) = Unit
About id (packet_out xid buffer_id in_port payload port max_len) = Unit
About id (role_request xid) = Unit

-- New messages, which name no other group, take the switch from what it should hold before to what
-- it should hold after; no group id is drawn.
pub record Follows (s s' : Session) (w w' : Wire) : Type 0 where
  pub messages : List Sent
  pub appended : w'.sent ≡ w.sent ++ messages
  pub about : All (About s.group.groupid) messages
  pub received : receive_all s.group.groupid messages (view s) ≡ some (view s')
  pub group : s'.group ≡ s.group
  pub drawn : w'.group_id_gen ≡ w.group_id_gen

pub Follows-refl : (s : Session) (w : Wire) → Follows s s w w
Follows-refl s w = record {
  messages = [];
  appended = sym (append-nil w.sent);
  about = tt;
  received = refl;
  group = refl;
  drawn = refl;
}

-- A group message for a session, received by a switch that holds what it should.
pub receive_group_mod :
    (gm : GroupMod) (id : ℕ) (e : Entry)
    → gm.group_id ≡ id
    → receive id (group_mod gm) e ≡ command_result gm.command gm.buckets e
receive_group_mod gm id e h = rw (h, ==_refl id) refl

join_command :
    (is_root empty : Bool) (old bs : List Bucket)
    → command_result
        (if empty && not is_root then GroupCommand.add else modify)
        bs
        (entry is_root empty old)
      ≡ some (entry is_root false bs)
join_command true true old bs = refl
join_command true false old bs = refl
join_command false true old bs = refl
join_command false false old bs = refl

leave_command :
    (is_root last : Bool) (old bs : List Bucket)
    → command_result
        (if last && not is_root then GroupCommand.delete else modify)
        bs
        (entry is_root false old)
      ≡ some (entry is_root last bs)
leave_command true true old bs = refl
leave_command true false old bs = refl
leave_command false true old bs = refl
leave_command false false old bs = refl

pub join_received :
    (lib : GroupModLib) (pk : PacketInDataHeader) (s s' : Session)
    → IsConsistent s'
    → Joined lib pk s s'
    → receive s.group.groupid (group_mod s'.context.ofgroupmod) (view s) ≡ some (view s')
join_received lib pk s s' h j =
    let filled : is_empty s'.members ≡ false = rw j.members (ground arith) in
    receive_group_mod s'.context.ofgroupmod s.group.groupid (view s) j.group_id
    ∙ rw (j.command, h.mirrored, j.group, filled)
        (join_command s.group.is_root (is_empty s.members) s.context.member_of13_buckets
          s'.context.member_of13_buckets)

-- One member less: a session is empty after a leave if it had one member.
leave_to_empty :
    (lib : GroupModLib) (k : ℕ) (m : McGroupMember) (s s' : Session)
    → find_member k s.members ≡ some m
    → Left lib k m s s'
    → (is_empty s.members ≡ false) × (is_empty s'.members ≡ (length s.members == 1))
leave_to_empty lib k m s s' found l =
    let members = l.members ∙ erase_member-shift_indices k m.bucket_index s.members in
    let one_less : suc (length s'.members) ≡ length s.members =
      rw (members, length-shift_indices m.bucket_index (erase_member k s.members))
        (length-erase_member k s.members m found) in
    (ground (arith, one_less), ground (arith, one_less))

pub leave_received :
    (lib : GroupModLib) (k : ℕ) (m : McGroupMember) (s s' : Session)
    → find_member k s.members ≡ some m
    → s.context.ofgroupmod.group_id ≡ s.group.groupid
    → IsConsistent s'
    → Left lib k m s s'
    → receive s.group.groupid (group_mod s'.context.ofgroupmod) (view s) ≡ some (view s')
leave_received lib k m s s' found named h l =
    let (some_left, last) = leave_to_empty lib k m s s' found l in
    receive_group_mod s'.context.ofgroupmod s.group.groupid (view s) (l.group_id ∙ named)
    ∙ rw (l.command, h.mirrored, l.group, last, some_left)
        (leave_command s.group.is_root (length s.members == 1) s.context.member_of13_buckets
          s'.context.member_of13_buckets)
