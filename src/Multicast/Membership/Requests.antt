-- ===== src/Multicast/Membership/Requests.antt =====
-- What joins and leaves send (examples/controller/mc-agent/MCApps.hh), received by the switch.
use libfluid.Prelude.{
  ◌≡◌, refl, sym, ◌∙◌, subst, inl, inr, true, false, none, some, [], ◌∷◌, ◌++◌, append_assoc, arith,
  ◌==◌, if◌then◌else◌, Bool-cases, Option-cases,
}
use libfluid.Multicast.Types.{
  PacketInDataHeader, McGroupMember, GroupModLib, Wire, Sent, group_mod, flow_mod, packet_out,
}
use libfluid.Multicast.Context.{
  no_buffer, add_bucket_of13_group, remove_bucket_of13_group, set_group_mod, send_group_mod,
  delete_downstream_flow_mod_for_group, insert_downstream_flow_mod_for_group,
  send_upstream_packet_out,
}
use libfluid.Multicast.Membership.{
  Session, find_member, creates_group, deletes_group, join_member_to_group, remove_member,
}
use libfluid.Multicast.Membership.Members.{length-erase_member}
use libfluid.Multicast.Membership.Buckets.{
  IsConsistent, join-Joined, leave-Left, member_inside, join_member_to_group-IsConsistent,
  remove_member-IsConsistent,
}
use libfluid.Multicast.Membership.GroupTable.{Follows, Follows-refl, join_received, leave_received}

module _ (lib : GroupModLib) (pk : PacketInDataHeader) (s : Session) (w : Wire) where
  abbrev joined : Session × Wire
  joined = join_member_to_group lib pk s w

  abbrev upstream : Sent
  upstream =
      packet_out pk.xid pk.buffer_id pk.in_intf
        (if pk.buffer_id == no_buffer then some pk.frame else none) s.group.upstream_intf 1024

  join_sent_first :
      find_member pk.in_intf s.members ≡ none
      → creates_group s ≡ true
      → joined.1.sent
        ≡ ((w.sent ++ upstream ∷ []) ++ group_mod joined.0.context.ofgroupmod ∷ [])
          ++ flow_mod joined.0.context.offlowmod ∷ []
  unfolding join_member_to_group add_bucket_of13_group set_group_mod
      insert_downstream_flow_mod_for_group send_group_mod send_upstream_packet_out
  join_sent_first new first = ground arith

  join_sent_later :
      find_member pk.in_intf s.members ≡ none
      → creates_group s ≡ false
      → joined.1.sent ≡ w.sent ++ group_mod joined.0.context.ofgroupmod ∷ []
  unfolding join_member_to_group add_bucket_of13_group set_group_mod
      insert_downstream_flow_mod_for_group send_group_mod send_upstream_packet_out
  join_sent_later new later = ground arith

  join_drawn : find_member pk.in_intf s.members ≡ none → joined.1.group_id_gen ≡ w.group_id_gen
  unfolding join_member_to_group add_bucket_of13_group set_group_mod
      insert_downstream_flow_mod_for_group send_group_mod send_upstream_packet_out
  join_drawn new = ground arith

  join-Follows :
      find_member pk.in_intf s.members ≡ none
      → IsConsistent joined.0
      → Follows s joined.0 w joined.1
  join-Follows new h =
      let j = join-Joined lib pk s w new in
      let received = join_received lib pk s joined.0 h j in
      elim (Bool-cases (creates_group s)) [
        | inl first ↦ record {
          messages =
              upstream
              ∷ group_mod joined.0.context.ofgroupmod
              ∷ flow_mod joined.0.context.offlowmod
              ∷ [];
          appended = join_sent_first new first ∙ simp append_assoc;
          about = (tt, (j.group_id, (tt, tt)));
          received = rw received refl;
          group = j.group;
          drawn = join_drawn new;
        }
        | inr later ↦ record {
          messages = group_mod joined.0.context.ofgroupmod ∷ [];
          appended = join_sent_later new later;
          about = (j.group_id, tt);
          received = rw received refl;
          group = j.group;
          drawn = join_drawn new;
        }
      ]

  join_unchanged : (m : McGroupMember) → find_member pk.in_intf s.members ≡ some m → joined ≡ (s, w)
  unfolding join_member_to_group
  join_unchanged m old = ground arith

  abbrev left : Session × Wire
  left = remove_member lib pk s w

  leave_sent_last :
      (m : McGroupMember)
      → find_member pk.in_intf s.members ≡ some m
      → deletes_group s ≡ true
      → left.1.sent
        ≡ ((w.sent ++ upstream ∷ []) ++ flow_mod left.0.context.offlowmod ∷ [])
          ++ group_mod left.0.context.ofgroupmod ∷ []
  unfolding remove_member remove_bucket_of13_group delete_downstream_flow_mod_for_group
      send_group_mod send_upstream_packet_out
  leave_sent_last m found last = ground arith

  leave_sent_earlier :
      (m : McGroupMember)
      → find_member pk.in_intf s.members ≡ some m
      → deletes_group s ≡ false
      → left.1.sent ≡ w.sent ++ group_mod left.0.context.ofgroupmod ∷ []
  unfolding remove_member remove_bucket_of13_group delete_downstream_flow_mod_for_group
      send_group_mod send_upstream_packet_out
  leave_sent_earlier m found earlier = ground arith

  leave_unchanged : find_member pk.in_intf s.members ≡ none → left ≡ (s, w)
  unfolding remove_member
  leave_unchanged missing = ground arith

  leave_drawn :
      (m : McGroupMember)
      → find_member pk.in_intf s.members ≡ some m
      → left.1.group_id_gen ≡ w.group_id_gen
  unfolding remove_member remove_bucket_of13_group delete_downstream_flow_mod_for_group
      send_group_mod send_upstream_packet_out
  leave_drawn m found = ground arith

  leave-Follows :
      (m : McGroupMember)
      → find_member pk.in_intf s.members ≡ some m
      → IsConsistent s
      → Follows s left.0 w left.1
  leave-Follows m found h =
      let inside = member_inside pk.in_intf m s h found in
      let named : s.context.ofgroupmod.group_id ≡ s.group.groupid =
        ground (arith, h.named, length-erase_member pk.in_intf s.members m found) in
      let l = leave-Left lib pk s w m found inside in
      let received =
        leave_received lib pk.in_intf m s left.0 found named
          (remove_member-IsConsistent lib pk s w h) l in
      elim (Bool-cases (deletes_group s)) [
        | inl last ↦ record {
          messages =
              upstream
              ∷ flow_mod left.0.context.offlowmod
              ∷ group_mod left.0.context.ofgroupmod
              ∷ [];
          appended = leave_sent_last m found last ∙ simp append_assoc;
          about = (tt, (tt, (l.group_id ∙ named, tt)));
          received = rw received refl;
          group = l.group;
          drawn = leave_drawn m found;
        }
        | inr earlier ↦ record {
          messages = group_mod left.0.context.ofgroupmod ∷ [];
          appended = leave_sent_earlier m found earlier;
          about = (l.group_id ∙ named, tt);
          received = rw received refl;
          group = l.group;
          drawn = leave_drawn m found;
        }
      ]

-- A join of a consistent session sends messages that take the switch from the session's group before
-- to its group after: ADD reaches it only without the group, MODIFY only with it.
pub join_member_to_group-Follows :
    (lib : GroupModLib) (pk : PacketInDataHeader) (s : Session) (w : Wire)
    → IsConsistent s
    → Follows s (join_member_to_group lib pk s w).0 w (join_member_to_group lib pk s w).1
join_member_to_group-Follows lib pk s w h = elim (Option-cases (find_member pk.in_intf s.members)) [
  | inl new ↦ join-Follows lib pk s w new (join_member_to_group-IsConsistent lib pk s w h)
  | inr (m, old) ↦
      subst (λ p. Follows s p.0 w p.1) (sym (join_unchanged lib pk s w m old)) (Follows-refl s w)
]

-- A leave of a consistent session, up to the deletion of the member that follows, sends messages that take
-- the switch from the session's group before to its group after: DELETE for the last member where the
-- switch is not the root, else MODIFY.
pub leave_member_from_group-Follows :
    (lib : GroupModLib) (pk : PacketInDataHeader) (s : Session) (w : Wire)
    → IsConsistent s
    → Follows s (remove_member lib pk s w).0 w (remove_member lib pk s w).1
leave_member_from_group-Follows lib pk s w h =
    elim (Option-cases (find_member pk.in_intf s.members)) [
      | inl missing ↦
          subst (λ p. Follows s p.0 w p.1) (sym (leave_unchanged lib pk s w missing))
            (Follows-refl s w)
      | inr (m, found) ↦ leave-Follows lib pk s w m found h
    ]
