-- ===== src/Multicast/Callback/Deliver.antt =====
-- The agent over the events of the controller (examples/controller/mc-agent/MCApps.hh), from the
-- bytes of packets to the group table of its switch.
use libfluid.Prelude.{
  ℕ, ◌+◌, ◌*◌, ◌%◌, ◌^◌, ◌<◌, ◌≡◌, inl, inr, Option, none, some, List, [], ◌∷◌, arith, ◌==◌, ◌||◌,
  if◌then◌else◌, length, load8, load16, load32, ntoh16, Option-cases, All, ◌>>=◌, Bool, true, false,
  subst,
}
use libfluid.Learning.{PacketIn, load_address}
use libfluid.Multicast.Membership.{
  ConnectionPointer, null, stray, connection, App, new_app, create_group,
  send_role_request_equal_msg, protocol_type_igmp, protocol_type_udp,
}
use libfluid.Multicast.Membership.Others.{IsServed}
use libfluid.Multicast.Membership.Store.{IsSound}
use libfluid.Multicast.Membership.Run.{
  Sound, some-Sound, none-Sound, handle_packet_in-Sound, create_group-Sound, role-IsSound,
}
use libfluid.Multicast.Callback.{
  AgentLib, AgentEvent, packet_in, switch_up, switch_down, udp_ports, new_header, handle_datagram,
  handle_ip, handle_message, event_callback,
}

-- What follows a read is sound if it is for each value.
read-Sound :
    {A : Type 0} (n : ℕ) (r : Option A) (f : A → Option App)
    → ((x : A) → Sound n (f x))
    → Sound n (r >>= f)
read-Sound n none f h = none-Sound n
read-Sound n (some x) f h = h x

if-Sound :
    (n : ℕ) (b : Bool) (r s : Option App) → Sound n r → Sound n s → Sound n (if b then r else s)
if-Sound n true r s h k = h
if-Sound n false r s h k = k

module _ (lib : AgentLib) (a : App) (bound : a.wire.group_id_gen + 1 < 2 ^ 32) (k : IsSound a) where
  abbrev next : ℕ
  next = a.wire.group_id_gen + 1

  same-Sound : Sound next (some a)
  same-Sound = some-Sound next a (k, omega arith)

  handle_datagram-Sound :
      (pi : PacketIn) (dmac smac ip_header_len protocol : ℕ)
      → Sound next (handle_datagram lib pi dmac smac ip_header_len protocol a)
  unfolding handle_datagram
  handle_datagram-Sound pi dmac smac ip_header_len protocol =
      let udp = protocol == protocol_type_udp in
      let ports = (if udp then udp_ports pi.bytes ip_header_len else some (0, 0)) in
      read-Sound next (load32 pi.bytes 26) _ λ sip. read-Sound next (load32 pi.bytes 30) _ λ dip.
        read-Sound next ports _ λ p.
          let header = new_header pi dmac smac dip sip p.1 p.0 protocol in
          handle_packet_in-Sound lib.group header a bound k

  handle_ip-Sound : (pi : PacketIn) (dmac smac : ℕ) → Sound next (handle_ip lib pi dmac smac a)
  unfolding handle_ip
  handle_ip-Sound pi dmac smac = read-Sound next (load8 pi.bytes 14) _ λ ihl.
      read-Sound next (load8 pi.bytes 23) _ λ protocol.
        if-Sound next (protocol == protocol_type_igmp || protocol == protocol_type_udp) _ _
          (handle_datagram-Sound pi dmac smac (ihl % 16 * 4) protocol) same-Sound

  handle_message-Sound : (pi : PacketIn) → Sound next (handle_message lib pi a)
  unfolding handle_message
  handle_message-Sound pi = read-Sound next (load_address pi.bytes 0) _ λ dmac.
      read-Sound next (load_address pi.bytes 6) _ λ smac.
        read-Sound next (load16 pi.bytes 12) _ λ eth_type.
          if-Sound next (ntoh16 eth_type == 0x0800) _ _ (handle_ip-Sound pi dmac smac) same-Sound

  connected_IsSound : (o d : ℕ) → IsSound (record a { ofconn = connection o; dpid = d })
  connected_IsSound o d = record {
    served = k.served;
    known = k.known;
    distinct = k.distinct;
    named = k.named;
  }

  event_callback-Sound : (e : AgentEvent) → Sound next (event_callback lib e a)
  unfolding event_callback
  event_callback-Sound (switch_up o version message) =
      if-Sound next (version == 4) _ _ (go a.ofconn) same-Sound
    where
      go :
          (c : ConnectionPointer)
          → Sound next (elim c [
            | null ↦ some (
                send_role_request_equal_msg
                  (record a { ofconn = connection o; dpid = lib.datapath_id message }))
            | stray ↦ some a
            | connection c ↦ some a
          ])
      go null = some-Sound next _ (role-IsSound _ (connected_IsSound o (lib.datapath_id message)))
      go stray = same-Sound
      go (connection c) = same-Sound
  event_callback-Sound (switch_down o version) = same-Sound
  event_callback-Sound (packet_in o version message) = go a.ofconn
    where
      go :
          (c : ConnectionPointer)
          → Sound next (elim c [
            | null ↦ none
            | stray ↦ none
            | connection c ↦
                if c == o
                then (if version == 4 then handle_message lib (lib.unpack message) a else some a)
                else some a
          ])
      go null = none-Sound next
      go stray = none-Sound next
      go (connection c) =
          if-Sound next (c == o) _ _
            (if-Sound next (version == 4) _ _ (handle_message-Sound (lib.unpack message))
              same-Sound)
            same-Sound

-- What reaches the agent: a group that is created, or an event of the controller.
pub data Input : Type 0 where
  create : (sip dip sport dport up_intf is_root : ℕ) → Input
  event : AgentEvent → Input

abbrev pub accept : AgentLib → Input → App → Option App
accept lib (create sip dip sport dport up_intf is_root) a =
    create_group sip dip sport dport up_intf is_root a
accept lib (event e) a = event_callback lib e a

abbrev pub deliver : AgentLib → List Input → App → Option App
deliver lib [] a = some a
deliver lib (i ∷ is) a = accept lib i a >>= deliver lib is

accept-Sound :
    (lib : AgentLib) (i : Input) (a : App)
    → a.wire.group_id_gen + 1 < 2 ^ 32
    → IsSound a
    → Sound (a.wire.group_id_gen + 1) (accept lib i a)
accept-Sound lib (create sip dip sport dport up_intf is_root) a h k =
    create_group-Sound sip dip sport dport up_intf is_root a h k
accept-Sound lib (event e) a h k = event_callback-Sound lib a h k e

deliver-IsSound :
    (lib : AgentLib) (is : List Input) (a b : App)
    → a.wire.group_id_gen + length is < 2 ^ 32
    → IsSound a
    → deliver lib is a ≡ some b
    → IsSound b
deliver-IsSound lib [] a b h k e = let same : a ≡ b = ground arith in subst IsSound same k
deliver-IsSound lib (i ∷ is) a b h k e = elim (Option-cases (accept lib i a)) [
  | inl stuck ↦ absurd (ground (arith, stuck))
  | inr (c, r) ↦
      let (k', n) = accept-Sound lib i a (omega arith) k c r in
      deliver-IsSound lib is c b (omega (arith, n)) k' (ground (arith, r))
]

-- When a new agent, whatever its unset pointer holds, has taken fewer than 2 ^ 32 inputs, groups created and
-- events of the controller with packets of any bytes, without undefined behaviour, the members and the buckets of
-- each session are in step, and a switch that has received everything sent, starting without the
-- session's group, has refused no group message and holds the group exactly as the session has it.
pub deliver-IsServed :
    (lib : AgentLib) (found : ConnectionPointer) (is : List Input) (a : App)
    → length is < 2 ^ 32
    → deliver lib is (new_app found) ≡ some a
    → All (IsServed a.wire.sent) a.store
unfolding new_app
deliver-IsServed lib found is a h e =
    (deliver-IsSound lib is (new_app found) a (omega arith)
      (record { served = tt; known = tt; distinct = tt; named = tt }) e).served
