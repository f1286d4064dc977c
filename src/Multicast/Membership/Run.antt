-- ===== src/Multicast/Membership/Run.antt =====
-- What the calls of MulticastGroupMembershipApp (examples/controller/mc-agent/MCApps.hh) keep of the agent
-- and of the group table of a switch that receives all that it sends.
use libfluid.Prelude.{
  ◌>>=◌, bind-some, Option, All-append, ℕ, ◌+◌, ◌^◌, ◌≤◌, ◌<◌, ◌≡◌, ◌≢◌, sym, ap, ◌∙◌, subst, inl,
  inr, false, none, some, [], ◌∷◌, arith, ◌==◌, bit_and, Bool-cases, Option-cases, All,
}
use libfluid.Multicast.Types.{PacketInDataHeader, McGroup, GroupModLib, role_request}
use libfluid.Multicast.Context.{next_xid, next_group_id, new_group}
use libfluid.Multicast.Membership.{
  ConnectionPointer, null, stray, connection, through, serve, replace_session, App, find_session,
  create_session, create_group_of, create_group, request, handle_udp_packet, handle_igmp_packet,
  handle_packet_in, send_role_request_equal_msg, protocol_type_igmp,
}
use libfluid.Multicast.Membership.GroupTable.{view, receive_all}
use libfluid.Multicast.Membership.Creation.{create_session-IsOpened}
use libfluid.Multicast.Membership.Others.{
  All-map, IsUpTo, IsUpTo-Spares, About-IsUpTo, IsUpTo-le, receive_all-Spares, receive_all-append,
  IsServed, IsServed-other,
}
use libfluid.Multicast.Membership.Store.{
  ids, IsSound, others-IsServed, draw-IsSound, request-IsSound,
}

-- A sound state that has drawn no more than n group ids.
abbrev pub IsSoundAt : ℕ → App → Type 0
IsSoundAt n a = IsSound a × (a.wire.group_id_gen ≤ n)

-- A result that, if there is one, is sound and has drawn no more than n group ids.
abbrev pub Sound : ℕ → Option App → Type 0
Sound n r = (a : App) → r ≡ some a → IsSoundAt n a

pub some-Sound : (n : ℕ) (a : App) → IsSoundAt n a → Sound n (some a)
some-Sound n a h b e = let same : a ≡ b = ground arith in subst (IsSoundAt n) same h

pub none-Sound : (n : ℕ) → Sound n none
none-Sound n b e = absurd (ground arith)

through-Sound : (n : ℕ) (p : ConnectionPointer) (a : App) → IsSoundAt n a → Sound n (through p a)
unfolding through
through-Sound n null a h = none-Sound n
through-Sound n stray a h = none-Sound n
through-Sound n (connection c) a h = some-Sound n a h

-- The next group id, which has not wrapped around.
abbrev drawn : App → App
drawn a = record a { wire = next_group_id a.wire }

drawn-IsSound :
    (a : App)
    → a.wire.group_id_gen + 1 < 2 ^ 32
    → IsSound a
    → IsSoundAt (a.wire.group_id_gen + 1) (drawn a)
drawn-IsSound a h k = (draw-IsSound a _ (omega arith) k, omega arith)

-- A new session for a group with the id just drawn.
open-IsSound :
    (g : McGroup) (a : App)
    → a.wire.group_id_gen + 1 < 2 ^ 32
    → g.groupid ≡ a.wire.group_id_gen + 1
    → IsSound a
    → (let opened = create_session g (next_group_id a.wire) in
        IsSoundAt
          (a.wire.group_id_gen + 1)
          (record a { store = opened.0 ∷ a.store; wire = opened.1 }))
open-IsSound g a h id k =
    let w = next_group_id a.wire in
    let (s, w') = create_session g w in
    let o = create_session-IsOpened g w in
    let n = a.wire.group_id_gen in
    let gen : w'.group_id_gen ≡ n + 1 = o.drawn ∙ omega arith in
    let fresh : receive_all g.groupid a.wire.sent none ≡ some none =
      receive_all-Spares g.groupid a.wire.sent none
        (All-map _ _ (IsUpTo-Spares n g.groupid (omega (arith, id))) a.wire.sent k.named) in
    let held : receive_all g.groupid w'.sent none ≡ some (view s) =
      rw o.appended
        (receive_all-append g.groupid a.wire.sent o.messages none none fresh ∙ o.received) in
    let apart =
      All-map _ (λ i. g.groupid ≢ i) (λ i p q. absurd (omega (arith, p, q, id))) (ids a.store)
        k.known in
    let sid : s.group.groupid ≡ g.groupid = ap (λ u. u.groupid) o.group in
    (
      record {
        served = (
          record {
            consistent = o.consistent;
            held =
                subst (λ u. receive_all u.groupid w'.sent none ≡ some (view s)) (sym o.group) held;
          },
          subst (λ sent. All (IsServed sent) a.store) (sym o.appended)
              (others-IsServed g.groupid a.wire.sent o.messages a.store o.about apart k.served),
        );
        known = (
          omega (arith, sid, id, gen),
          All-map _ _ (λ i p. omega (arith, p, gen)) (ids a.store) k.known,
        );
        distinct = (All-map _ _ (λ i p q. p (sym sid ∙ q)) (ids a.store) apart, k.distinct);
        named = subst (All (IsUpTo w'.group_id_gen)) (sym o.appended) (
            All-append _ a.wire.sent o.messages
              (All-map _ _ (IsUpTo-le n w'.group_id_gen (omega (arith, gen))) a.wire.sent k.named)
              (All-map _ _ (About-IsUpTo g.groupid w'.group_id_gen (omega (arith, id, gen)))
                o.messages o.about));
      },
      omega (arith, gen),
    )

create_group_of-Sound :
    (g : McGroup) (a : App)
    → a.wire.group_id_gen + 1 < 2 ^ 32
    → g.groupid ≡ a.wire.group_id_gen + 1
    → IsSound a
    → Sound (a.wire.group_id_gen + 1) (create_group_of g (drawn a))
unfolding create_group_of
create_group_of-Sound g a h id k = elim (Option-cases (find_session g a.store)) [
  | inl missing ↦
      rw (missing, create_group_of) (through-Sound _ a.ofconn _ (open-IsSound g a h id k))
  | inr (s, found) ↦ rw (found, create_group_of) (some-Sound _ _ (drawn-IsSound a h k))
]

pub create_group-Sound :
    (sip dip sport dport up_intf is_root : ℕ) (a : App)
    → a.wire.group_id_gen + 1 < 2 ^ 32
    → IsSound a
    → Sound (a.wire.group_id_gen + 1) (create_group sip dip sport dport up_intf is_root a)
unfolding create_group new_group
create_group-Sound sip dip sport dport up_intf is_root a h k =
    elim (Bool-cases (bit_and dip 0xf0000000 == 0xe0000000)) [
      | inl classd ↦ rw classd (some-Sound _ a (k, omega arith))
      | inr other ↦ rw other (create_group_of-Sound _ a h (omega arith) k)
    ]

handle_udp_packet-Sound :
    (lib : GroupModLib) (pk : PacketInDataHeader) (a : App)
    → a.wire.group_id_gen + 1 < 2 ^ 32
    → IsSound a
    → Sound (a.wire.group_id_gen + 1) (handle_udp_packet lib pk a)
unfolding handle_udp_packet new_group
handle_udp_packet-Sound lib pk a h k b e =
    let key = (new_group pk.dip 0 pk.usrc_port pk.udst_port false false a.wire).0 in
    let k' = (drawn-IsSound a h k).0 in
    elim (Option-cases (find_session key a.store)) [
      | inl missing ↦
          let same : drawn a ≡ b = ground (arith, missing) in
          subst (IsSoundAt (a.wire.group_id_gen + 1)) same (drawn-IsSound a h k)
      | inr (s, found) ↦
          let ran : (serve lib (request s.group pk) pk s (drawn a).wire >>= λ r.
          some (record a { store = replace_session key r.0 a.store; wire = r.1 }))
              ≡ some b =
            ground (arith, found, e) in
          let ((s', w'), served, e1) =
            bind-some (serve lib (request s.group pk) pk s (drawn a).wire) _ ran in
          let (sound, gen) =
            request-IsSound lib key (request s.group pk) pk s s' w' (drawn a) found served k' in
          let same : record a { store = replace_session key s' a.store; wire = w' } ≡ b =
            ground (arith, e1) in
          subst (IsSoundAt (a.wire.group_id_gen + 1)) same (sound, omega (arith, gen))
    ]

pub handle_packet_in-Sound :
    (lib : GroupModLib) (pk : PacketInDataHeader) (a : App)
    → a.wire.group_id_gen + 1 < 2 ^ 32
    → IsSound a
    → Sound (a.wire.group_id_gen + 1) (handle_packet_in lib pk a)
unfolding handle_packet_in handle_igmp_packet new_group
handle_packet_in-Sound lib pk a h k = elim (Bool-cases (pk.protocol == protocol_type_igmp)) [
  | inl igmp ↦ rw igmp (some-Sound _ _ (drawn-IsSound a h k))
  | inr udp ↦ rw udp (handle_udp_packet-Sound lib pk a h k)
]

pub role-IsSound :
    (a : App) → IsSound a → IsSoundAt (a.wire.group_id_gen + 1) (send_role_request_equal_msg a)
unfolding send_role_request_equal_msg
role-IsSound a k =
    let message = role_request (next_xid a.wire).xid_gen in
    (
      record {
        served =
            All-map _ _ (λ s. IsServed-other a.wire.sent (message ∷ []) s (tt, tt)) a.store
              k.served;
        known = k.known;
        distinct = k.distinct;
        named = All-append _ a.wire.sent (message ∷ []) k.named (tt, tt);
      },
      omega arith,
    )
