-- ===== src/Multicast/Membership/Creation.antt =====
-- What the creation of a group sends (examples/controller/mc-agent/MCApps.hh), received by the switch.
use libfluid.Prelude.{
  ◌≡◌, refl, sym, ◌∙◌, inl, inr, true, false, none, some, List, [], ◌∷◌, ◌++◌, append_assoc, arith,
  Bool-cases, All,
}
use libfluid.Multicast.Types.{McGroup, GroupCommand, Wire, Sent, group_mod, flow_mod}
use libfluid.Multicast.Context.{
  set_group_mod, send_group_mod, insert_downstream_flow_mod_for_group,
  create_downstream_flow_mod_for_group, create_group_hook_flow_mod,
}
use libfluid.Multicast.Membership.{Session, new_context, create_at_root, create_session}
use libfluid.Multicast.Membership.Buckets.{IsConsistent}
use libfluid.Multicast.Membership.GroupTable.{receive_all, receive_group_mod, About, view}

-- A new session has the group it was made for, no members and no buckets; its messages name no other
-- group, and take a switch without the group to one that holds what it should.
pub record IsOpened (g : McGroup) (s : Session) (w w' : Wire) : Type 0 where
  pub group : s.group ≡ g
  pub consistent : IsConsistent s
  pub messages : List Sent
  pub appended : w'.sent ≡ w.sent ++ messages
  pub about : All (About g.groupid) messages
  pub received : receive_all g.groupid messages none ≡ some (view s)
  pub drawn : w'.group_id_gen ≡ w.group_id_gen

module _ (g : McGroup) (w : Wire) where
  abbrev created : Session × Wire
  created = create_session g w

  created_group : created.0.group ≡ g
  unfolding create_session
  created_group = refl

  created_members : created.0.members ≡ []
  unfolding create_session
  created_members = refl

  created_buckets : created.0.context.member_of13_buckets ≡ []
  unfolding create_session create_at_root create_downstream_flow_mod_for_group
      create_group_hook_flow_mod new_context insert_downstream_flow_mod_for_group set_group_mod
      send_group_mod
  created_buckets = ground arith

  created_mod_buckets : created.0.context.ofgroupmod.buckets ≡ []
  unfolding create_session create_at_root create_downstream_flow_mod_for_group
      create_group_hook_flow_mod new_context insert_downstream_flow_mod_for_group set_group_mod
      send_group_mod
  created_mod_buckets = ground arith

  created_drawn : created.1.group_id_gen ≡ w.group_id_gen
  unfolding create_session create_at_root create_downstream_flow_mod_for_group
      create_group_hook_flow_mod new_context insert_downstream_flow_mod_for_group set_group_mod
      send_group_mod
  created_drawn = ground arith

  created-IsConsistent : IsConsistent created.0
  created-IsConsistent = record {
    mirrored = created_mod_buckets ∙ sym created_buckets;
    counted = rw (created_members, created_buckets) refl;
    indexed = rw created_members tt;
    apart = rw created_members tt;
    named = inl (rw created_members refl);
  }

  created_at_root :
      g.is_root ≡ true
      → (created.0.context.ofgroupmod.command ≡ GroupCommand.add)
        × (created.0.context.ofgroupmod.group_id ≡ g.groupid)
        × (created.1.sent
            ≡ ((w.sent ++ group_mod created.0.context.ofgroupmod ∷ [])
                ++ flow_mod created.0.context.offlowmod ∷ [])
              ++ flow_mod created.0.context.upstreamflowmod ∷ [])
  unfolding create_session create_at_root create_downstream_flow_mod_for_group
      create_group_hook_flow_mod new_context insert_downstream_flow_mod_for_group set_group_mod
      send_group_mod
  created_at_root root = ground arith

  created_elsewhere :
      g.is_root ≡ false → created.1.sent ≡ w.sent ++ flow_mod created.0.context.upstreamflowmod ∷ []
  unfolding create_session create_at_root create_downstream_flow_mod_for_group
      create_group_hook_flow_mod new_context insert_downstream_flow_mod_for_group set_group_mod
      send_group_mod
  created_elsewhere inner = ground arith

  pub create_session-IsOpened : IsOpened g created.0 w created.1
  create_session-IsOpened = elim (Bool-cases g.is_root) [
    | inl root ↦
        let (command, named, sent) = created_at_root root in
        record {
          group = created_group;
          consistent = created-IsConsistent;
          messages =
              group_mod created.0.context.ofgroupmod
              ∷ flow_mod created.0.context.offlowmod
              ∷ flow_mod created.0.context.upstreamflowmod
              ∷ [];
          appended = sent ∙ simp append_assoc;
          about = (named, (tt, (tt, tt)));
          received = rw (receive_group_mod created.0.context.ofgroupmod g.groupid none named) (
              rw
                (
                  command, created_mod_buckets, created_buckets, created_group, created_members,
                  root,
                )
                refl);
          drawn = created_drawn;
        }
    | inr inner ↦ record {
      group = created_group;
      consistent = created-IsConsistent;
      messages = flow_mod created.0.context.upstreamflowmod ∷ [];
      appended = created_elsewhere inner;
      about = (tt, tt);
      received = rw (created_buckets, created_group, created_members, inner) refl;
      drawn = created_drawn;
    }
  ]
