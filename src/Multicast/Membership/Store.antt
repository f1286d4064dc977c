-- ===== src/Multicast/Membership/Store.antt =====
-- The sessions of MulticastGroupMembershipApp (examples/controller/mc-agent/MCApps.hh) over the
-- events that change them: groups that are created, packets, and role requests.
use libfluid.Prelude.{
  Option-cases, All-append, ℕ, ◌≤◌, ◌≡◌, ◌≢◌, refl, sym, subst, inl, inr, some, List, [], ◌∷◌, ◌++◌,
  map, arith, Bool-cases, All,
}
use libfluid.Multicast.Types.{PacketInDataHeader, McGroup, GroupModLib, Wire, Sent}
use libfluid.Multicast.Membership.{
  Session, App, same_group, find_session, replace_session, Request, join, leave, neither, serve,
  find_member, join_member_to_group, remove_member, leave_member_from_group,
}
use libfluid.Multicast.Membership.Buckets.{
  IsConsistent, join_member_to_group-IsConsistent, remove_member-IsConsistent,
}
use libfluid.Multicast.Membership.GroupTable.{About, Follows, Follows-refl}
use libfluid.Multicast.Membership.Requests.{
  join_member_to_group-Follows, leave_member_from_group-Follows,
}
use libfluid.Multicast.Membership.Others.{
  All-map, IsUpTo, About-Spares, About-IsUpTo, IsUpTo-le, IsServed, IsServed-other, IsServed-self,
}

abbrev pub ids : List Session → List ℕ
ids store = map (λ s. s.group.groupid) store

abbrev pub AreDistinct : List ℕ → Type 0
AreDistinct [] = Unit
AreDistinct (x ∷ xs) = All (λ y. x ≢ y) xs × AreDistinct xs

-- Every session is served; the group ids of the sessions are distinct, and no id in the store or in a
-- message is past the last one drawn.
pub record IsSound (a : App) : Type 0 where
  pub served : All (IsServed a.wire.sent) a.store
  pub known : All (λ i. i ≤ a.wire.group_id_gen) (ids a.store)
  pub distinct : AreDistinct (ids a.store)
  pub named : All (IsUpTo a.wire.group_id_gen) a.wire.sent

find_session-All :
    (P : ℕ → Type 0) (key : McGroup) (s : Session) (store : List Session)
    → find_session key store ≡ some s
    → All P (ids store)
    → P s.group.groupid
unfolding find_session
find_session-All P key s [] e h = absurd (ground arith)
find_session-All P key s (t ∷ rest) e h = elim (Bool-cases (same_group t.group key)) [
  | inl hit ↦ let same : t ≡ s = ground arith in subst (λ u. P u.group.groupid) same h.0
  | inr miss ↦ find_session-All P key s rest (ground arith) h.1
]

pub find_session-served :
    (P : Session → Type 0) (key : McGroup) (s : Session) (store : List Session)
    → find_session key store ≡ some s
    → All P store
    → P s
unfolding find_session
find_session-served P key s [] e h = absurd (ground arith)
find_session-served P key s (t ∷ rest) e h = elim (Bool-cases (same_group t.group key)) [
  | inl hit ↦ let same : t ≡ s = ground arith in subst P same h.0
  | inr miss ↦ find_session-served P key s rest (ground arith) h.1
]

ids-replace_session :
    (key : McGroup) (s s' : Session) (store : List Session)
    → find_session key store ≡ some s
    → s'.group ≡ s.group
    → ids (replace_session key s' store) ≡ ids store
unfolding find_session replace_session
ids-replace_session key s s' [] e g = refl
ids-replace_session key s s' (t ∷ rest) e g = elim (Bool-cases (same_group t.group key)) [
  | inl hit ↦
      let same : t ≡ s = ground arith in
      let id : s'.group.groupid ≡ t.group.groupid = rw (g, same) refl in rw (hit, id) refl
  | inr miss ↦ rw (miss, ids-replace_session key s s' rest (ground arith) g) refl
]

pub others-IsServed :
    (id : ℕ) (sent ms : List Sent) (store : List Session)
    → All (About id) ms
    → All (λ i. id ≢ i) (ids store)
    → All (IsServed sent) store
    → All (IsServed (sent ++ ms)) store
others-IsServed id sent ms [] about apart h = tt
others-IsServed id sent ms (t ∷ rest) about apart h = (
  IsServed-other sent ms t (All-map (About id) _ (About-Spares id t.group.groupid apart.0) ms about)
      h.0,
  others-IsServed id sent ms rest about apart.1 h.1,
)

replace-IsServed :
    (key : McGroup) (s s' : Session) (w w' : Wire) (store : List Session)
    → Follows s s' w w'
    → IsConsistent s'
    → find_session key store ≡ some s
    → AreDistinct (ids store)
    → All (IsServed w.sent) store
    → All (IsServed w'.sent) (replace_session key s' store)
unfolding find_session replace_session
replace-IsServed key s s' w w' [] f c e apart h = tt
replace-IsServed key s s' w w' (t ∷ rest) f c e apart h =
    elim (Bool-cases (same_group t.group key)) [
      | inl hit ↦
          let same : t ≡ s = ground arith in
          rw hit (
            IsServed-self s s' w w' f c (subst (IsServed w.sent) same h.0),
            subst (λ sent. All (IsServed sent) rest) (sym f.appended)
                (others-IsServed s.group.groupid w.sent f.messages rest f.about
                  (subst (λ u. All (λ i. u.group.groupid ≢ i) (ids rest)) same apart.0) h.1),
          )
      | inr miss ↦
          let found : find_session key rest ≡ some s = ground arith in
          let differ = find_session-All (λ i. t.group.groupid ≢ i) key s rest found apart.0 in
          let spared =
            All-map (About s.group.groupid) _
              (About-Spares s.group.groupid t.group.groupid (λ q. differ (sym q))) f.messages
              f.about in
          rw miss (
            subst (λ sent. IsServed sent t) (sym f.appended)
                (IsServed-other w.sent f.messages t spared h.0),
            replace-IsServed key s s' w w' rest f c found apart.1 h.1,
          )
    ]

-- What a request that is served does to the session it is for.
pub serve-Follows :
    (lib : GroupModLib) (r : Request) (pk : PacketInDataHeader) (s s' : Session) (w w' : Wire)
    → serve lib r pk s w ≡ some (s', w')
    → IsConsistent s
    → Follows s s' w w' × IsConsistent s'
unfolding serve leave_member_from_group
serve-Follows lib join pk s s' w w' e h =
    let same : join_member_to_group lib pk s w ≡ (s', w') = ground arith in
    subst (λ p. Follows s p.0 w p.1 × IsConsistent p.0) same
      (join_member_to_group-Follows lib pk s w h, join_member_to_group-IsConsistent lib pk s w h)
serve-Follows lib leave pk s s' w w' e h = elim (Option-cases (find_member pk.in_intf s.members)) [
  | inl missing ↦
      let same : remove_member lib pk s w ≡ (s', w') = ground arith in
      subst (λ p. Follows s p.0 w p.1 × IsConsistent p.0) same
        (leave_member_from_group-Follows lib pk s w h, remove_member-IsConsistent lib pk s w h)
  | inr (m, found) ↦ absurd (ground (arith, found))
]
serve-Follows lib neither pk s s' w w' e h =
    let same : ◌≡◌ {A = Session × Wire} (s, w) (s', w') = ground arith in
    subst (λ p. Follows s p.0 w p.1 × IsConsistent p.0) same (Follows-refl s w, h)

-- A draw of a group id, the store and the messages staying as they are.
pub draw-IsSound :
    (a : App) (n : ℕ)
    → a.wire.group_id_gen ≤ n
    → IsSound a
    → (let old = a.wire in IsSound (record a { wire = record old { group_id_gen = n } }))
draw-IsSound a n h k = record {
  served = k.served;
  known = All-map _ _ (λ i p. omega (arith, p, h)) (ids a.store) k.known;
  distinct = k.distinct;
  named = All-map _ _ (IsUpTo-le a.wire.group_id_gen n h) a.wire.sent k.named;
}

-- A request that is served to a session of the store.
pub request-IsSound :
    (lib : GroupModLib) (key : McGroup) (r : Request) (pk : PacketInDataHeader) (s s' : Session)
    (w' : Wire) (a : App)
    → find_session key a.store ≡ some s
    → serve lib r pk s a.wire ≡ some (s', w')
    → IsSound a
    → IsSound (record a { store = replace_session key s' a.store; wire = w' })
      × (w'.group_id_gen ≡ a.wire.group_id_gen)
request-IsSound lib key r pk s s' w' a e served k =
    let own = find_session-served (IsServed a.wire.sent) key s a.store e k.served in
    let (f, c) = serve-Follows lib r pk s s' a.wire w' served own.consistent in
    let within = find_session-All (λ i. i ≤ a.wire.group_id_gen) key s a.store e k.known in
    let same = ids-replace_session key s s' a.store e f.group in
    (
      record {
        served = replace-IsServed key s _ a.wire _ a.store f c e k.distinct k.served;
        known = rw (f.drawn, same) k.known;
        distinct = rw same k.distinct;
        named =
            rw (f.drawn, f.appended)
              (All-append _ a.wire.sent f.messages k.named (
                All-map _ _ (About-IsUpTo s.group.groupid a.wire.group_id_gen within) f.messages
                  f.about));
      },
      f.drawn,
    )
