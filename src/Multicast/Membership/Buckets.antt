-- ===== src/Multicast/Membership/Buckets.antt =====
-- Joining and leaving keep the members of a session and the buckets of its group in step
-- (examples/controller/mc-agent/MCApps.hh and MCGroup.cc).
use libfluid.Prelude.{
  ℕ, ◌<◌, ◌≡◌, refl, sym, ap, ◌∙◌, subst, ◌⊎◌, inl, inr, none, some, List, [], ◌∷◌, ◌++◌, arith,
  if◌then◌else◌, length, length-append, erase_idx, All, Option-cases,
}
use libfluid.Multicast.Types.{
  PacketInDataHeader, McGroupMember, Bucket, GroupCommand, GroupModLib, Wire,
}
use libfluid.Multicast.Context.{
  new_member, member_bucket, set_group_mod, add_bucket_of13_group, remove_bucket_of13_group,
  delete_downstream_flow_mod_for_group, insert_downstream_flow_mod_for_group,
}
use libfluid.Multicast.Membership.{
  MemberMap, Session, find_member, erase_member, shift_indices, creates_group, deletes_group,
  join_member_to_group, remove_member,
}
use libfluid.Multicast.Membership.Members.{
  Indexes, Avoids, Apart, get_elem?-append, get_elem?-last, get_elem?-bound, length-erase_idx,
  shift-Indexes, shift_Apart, length-shift_indices, erase_member-shift_indices, All-erase_member,
  erase_member-Apart, length-erase_member, All-find_member, erase_member-Avoids,
}

-- The buckets of the group message are those of the context; there is one for each member, at its
-- index; and the message names the group once there is a member.
pub record IsConsistent (s : Session) : Type 0 where
  pub mirrored : s.context.ofgroupmod.buckets ≡ s.context.member_of13_buckets
  pub counted : length s.members ≡ length s.context.member_of13_buckets
  pub indexed : All (Indexes s.context.member_of13_buckets) s.members
  pub apart : Apart s.members
  pub named : (length s.members ≡ 0) ⊎ (s.context.ofgroupmod.group_id ≡ s.group.groupid)

-- The member that a join adds.
abbrev pub joining : PacketInDataHeader → Session → McGroupMember
joining pk s =
    let m = new_member pk.smac pk.sip pk.udst_port pk.in_intf 0 in
    record m { bucket_index = length s.context.member_of13_buckets }

pub record Joined (lib : GroupModLib) (pk : PacketInDataHeader) (s s' : Session) : Type 0 where
  pub group : s'.group ≡ s.group
  pub members : s'.members ≡ (pk.in_intf, joining pk s) ∷ s.members
  pub mod_buckets :
      s'.context.ofgroupmod.buckets
      ≡ lib.add_bucket (member_bucket (joining pk s)) s.context.ofgroupmod.buckets
  pub buckets :
      s'.context.member_of13_buckets
      ≡ s.context.member_of13_buckets ++ member_bucket (joining pk s) ∷ []
  pub group_id : s'.context.ofgroupmod.group_id ≡ s.group.groupid
  pub command :
      s'.context.ofgroupmod.command
      ≡ (if creates_group s then GroupCommand.add else GroupCommand.modify)

module _ (lib : GroupModLib) (pk : PacketInDataHeader) (s : Session) (w : Wire) where
  abbrev after_join : Session
  after_join = (join_member_to_group lib pk s w).0

  pub join-Joined : find_member pk.in_intf s.members ≡ none → Joined lib pk s after_join
  unfolding join_member_to_group add_bucket_of13_group set_group_mod
      insert_downstream_flow_mod_for_group member_bucket
  join-Joined new = record {
    group = ground arith;
    members = ground arith;
    mod_buckets = ground arith;
    buckets = ground arith;
    group_id = ground arith;
    command = ground arith;
  }

  -- A join that is refused changes nothing.
  pub join_again : (m : McGroupMember) → find_member pk.in_intf s.members ≡ some m → after_join ≡ s
  unfolding join_member_to_group
  join_again m old = ground arith

-- The old members keep their buckets when one is added at the end.
Indexes-append :
    (bs : List Bucket) (b : Bucket) (ms : MemberMap)
    → All (Indexes bs) ms
    → All (Indexes (bs ++ b ∷ [])) ms
Indexes-append bs b [] h = tt
Indexes-append bs b ((k, m) ∷ ms) h =
    (get_elem?-append bs (b ∷ []) m.bucket_index _ h.0, Indexes-append bs b ms h.1)

Avoids-length :
    (bs : List Bucket) (ms : MemberMap) → All (Indexes bs) ms → All (Avoids (length bs)) ms
Avoids-length bs [] h = tt
Avoids-length bs ((k, m) ∷ ms) h = (
  ground (arith, get_elem?-bound bs m.bucket_index (member_bucket m) h.0),
  Avoids-length bs ms h.1,
)

member_bucket-joining :
    (pk : PacketInDataHeader) (s : Session) (i : ℕ)
    → member_bucket (record (joining pk s) { bucket_index = i }) ≡ member_bucket (joining pk s)
unfolding member_bucket
member_bucket-joining pk s i = refl

Joined-IsConsistent :
    (lib : GroupModLib) (pk : PacketInDataHeader) (s s' : Session)
    → IsConsistent s
    → Joined lib pk s s'
    → IsConsistent s'
Joined-IsConsistent lib pk s s' h j =
    let bs = s.context.member_of13_buckets in
    let b = member_bucket (joining pk s) in
    record {
      mirrored =
          j.mod_buckets
          ∙ lib.add_bucket_lem b _
          ∙ ap (λ xs. xs ++ b ∷ []) h.mirrored
          ∙ sym j.buckets;
      counted = rw (j.members, j.buckets) (omega (arith, h.counted, length-append bs (b ∷ [])));
      indexed =
          subst (λ xs. All (Indexes xs) s'.members) (sym j.buckets)
            (subst (All (Indexes (bs ++ b ∷ []))) (sym j.members)
              (get_elem?-last bs b, Indexes-append bs b s.members h.indexed));
      apart = rw j.members (Avoids-length bs s.members h.indexed, h.apart);
      named = inr (rw (j.group_id, j.group));
    }

-- A join keeps the members and the buckets of a session in step.
pub join_member_to_group-IsConsistent :
    (lib : GroupModLib) (pk : PacketInDataHeader) (s : Session) (w : Wire)
    → IsConsistent s
    → IsConsistent (join_member_to_group lib pk s w).0
join_member_to_group-IsConsistent lib pk s w h =
    elim (Option-cases (find_member pk.in_intf s.members)) [
      | inl new ↦ Joined-IsConsistent lib pk s _ h (join-Joined lib pk s w new)
      | inr (m, old) ↦ rw (join_again lib pk s w m old) h
    ]

-- What a leave does to the session of a member m.
pub record Left (lib : GroupModLib) (k : ℕ) (m : McGroupMember) (s s' : Session) : Type 0 where
  pub group : s'.group ≡ s.group
  pub members : s'.members ≡ erase_member k (shift_indices m.bucket_index s.members)
  pub mod_buckets :
      s'.context.ofgroupmod.buckets ≡ lib.del_bucket m.bucket_index s.context.ofgroupmod.buckets
  pub buckets :
      s'.context.member_of13_buckets ≡ erase_idx s.context.member_of13_buckets m.bucket_index
  pub group_id : s'.context.ofgroupmod.group_id ≡ s.context.ofgroupmod.group_id
  pub command :
      s'.context.ofgroupmod.command
      ≡ (if deletes_group s then GroupCommand.delete else GroupCommand.modify)

module _ (lib : GroupModLib) (pk : PacketInDataHeader) (s : Session) (w : Wire) where
  abbrev after_leave : Session
  after_leave = (remove_member lib pk s w).0

  pub leave-Left :
      (m : McGroupMember)
      → find_member pk.in_intf s.members ≡ some m
      → m.bucket_index < length s.context.member_of13_buckets
      → Left lib pk.in_intf m s after_leave
  unfolding remove_member remove_bucket_of13_group delete_downstream_flow_mod_for_group
  leave-Left m found inside = record {
    group = ground arith;
    members = ground arith;
    mod_buckets = ground arith;
    buckets = ground arith;
    group_id = ground arith;
    command = ground arith;
  }

  pub leave_unknown : find_member pk.in_intf s.members ≡ none → after_leave ≡ s
  unfolding remove_member
  leave_unknown missing = ground arith

Left-IsConsistent :
    (lib : GroupModLib) (k : ℕ) (m : McGroupMember) (s s' : Session)
    → IsConsistent s
    → find_member k s.members ≡ some m
    → m.bucket_index < length s.context.member_of13_buckets
    → Left lib k m s s'
    → IsConsistent s'
Left-IsConsistent lib k m s s' h found inside l =
    let bs = s.context.member_of13_buckets in
    let r = m.bucket_index in
    let stay = erase_member k s.members in
    let away = erase_member-Avoids k s.members m found h.apart in
    let members : s'.members ≡ shift_indices r stay =
      l.members ∙ erase_member-shift_indices k r s.members in
    record {
      mirrored =
          l.mod_buckets
          ∙ ap (lib.del_bucket r) h.mirrored
          ∙ lib.del_bucket_lem r bs inside
          ∙ sym l.buckets;
      counted =
          rw (members, l.buckets, length-shift_indices r stay)
            (omega (
              arith,
              h.counted,
              length-erase_idx bs r inside,
              length-erase_member k s.members m found,
            ));
      indexed =
          subst (λ xs. All (Indexes xs) s'.members) (sym l.buckets)
            (subst (All (Indexes (erase_idx bs r))) (sym members)
              (shift-Indexes bs r stay away (All-erase_member (Indexes bs) k s.members h.indexed)));
      apart = rw members (shift_Apart r stay away (erase_member-Apart k s.members h.apart));
      named = inr (ground (arith, h.named, length-erase_member k s.members m found));
    }

-- The index of a member is that of a bucket.
pub member_inside :
    (k : ℕ) (m : McGroupMember) (s : Session)
    → IsConsistent s
    → find_member k s.members ≡ some m
    → m.bucket_index < length s.context.member_of13_buckets
member_inside k m s h found =
    get_elem?-bound s.context.member_of13_buckets m.bucket_index (member_bucket m) (
      All-find_member (λ x. Indexes s.context.member_of13_buckets (k, x)) k s.members m found
        h.indexed)

-- A leave keeps the members and the buckets of a session in step.
pub remove_member-IsConsistent :
    (lib : GroupModLib) (pk : PacketInDataHeader) (s : Session) (w : Wire)
    → IsConsistent s
    → IsConsistent (remove_member lib pk s w).0
remove_member-IsConsistent lib pk s w h = elim (Option-cases (find_member pk.in_intf s.members)) [
  | inl missing ↦ rw (leave_unknown lib pk s w missing) h
  | inr (m, found) ↦
      let inside = member_inside pk.in_intf m s h found in
      Left-IsConsistent lib pk.in_intf m s _ h found inside (leave-Left lib pk s w m found inside)
]
