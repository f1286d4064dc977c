-- ===== src/Network/Sample.antt =====
-- A libfluid_msg that packs and unpacks the messages between a switch and the raw learning controller by
-- the layout of OpenFlow 1.0.
use libfluid.Prelude.{
  ℕ, ◌+◌, ◌*◌, ◌/◌, ◌%◌, ◌^◌, ◌≡◌, refl, ap, ◌<◌, Option, none, some, List, [], ◌∷◌, ◌++◌, arith,
  load16, load32, ntoh16, half_bytes,
}
use libfluid.Learning.Raw.Answers.{load_address-append}
use libfluid.Learning.Raw.FlowMod.{FlowMod, read_flow_mod}
use libfluid.Learning.Raw.PacketOut.{PacketOut, read_packet_out}
use libfluid.Switch.Match.{Match}
use libfluid.Switch.Extract.{MatchField}
use libfluid.Switch.Extract.Addresses.{IsUpper}
use libfluid.Switch.Flow
use libfluid.Switch.Flow.{output, add, MsgLib}
use libfluid.Switch.State.{Reason, no_match, action, Output, inject, packet_in, barrier_reply}
use libfluid.Switch.Datapath.{no_buffer}
use libfluid.Switch.Tests.{blank, store}
use libfluid.Network.{ntoh32, eth_address, IsPacked, IsOpenFlow10}

abbrev pub unpacked : Option FlowMod → Flow.FlowMod
unpacked none = record {
  command = add;
  match = blank;
  priority = 0;
  buffer_id = no_buffer;
  actions = [];
}
unpacked (some fm) = record {
  command = add;
  match = record blank {
    wildcards = fm.wildcards;
    dl_src = eth_address fm.dl_src;
    dl_dst = eth_address fm.dl_dst;
  };
  priority = fm.priority;
  buffer_id = ntoh32 fm.buffer_id;
  actions = output fm.port fm.max_len ∷ [];
}

abbrev pub sent_out : Option PacketOut → Flow.PacketOut
sent_out none = record { buffer_id = no_buffer; in_port = 0; actions = []; payload = [] }
sent_out (some po) = record {
  buffer_id = ntoh32 po.buffer_id;
  in_port = po.in_port;
  actions = output po.port po.max_len ∷ [];
  payload = [];
}

abbrev pub lib10 : MsgLib
lib10 = record {
  new_match = blank;
  set_field = store;
  unpack_flow_mod = λ raw. unpacked (read_flow_mod raw);
  unpack_packet_out = λ raw. sent_out (read_packet_out raw);
  unpack_xid = λ raw. 0;
}

-- A number of 32 bits in network order.
abbrev pub be32 : ℕ → List ℕ
be32 v = v / 2 ^ 24 % 2 ^ 8 ∷ v / 2 ^ 16 % 2 ^ 8 ∷ v / 2 ^ 8 % 2 ^ 8 ∷ v % 2 ^ 8 ∷ []

abbrev pub code : Reason → ℕ
code no_match = 0
code action = 1

abbrev pub head : (xid buffer_id in_port total_len : ℕ) → Reason → List ℕ
head xid buffer_id in_port total_len reason =
    (1 ∷ 10 ∷ half_bytes (ntoh16 (18 + total_len)))
    ++ be32 xid
    ++ be32 buffer_id
    ++ half_bytes (ntoh16 total_len)
    ++ half_bytes (ntoh16 in_port)
    ++ (code reason ∷ 0 ∷ [])

abbrev pub pack : Output → List ℕ
pack (packet_in xid buffer_id in_port total_len reason bytes) =
    head xid buffer_id in_port total_len reason ++ bytes
pack (inject port_no bytes) = []
pack (barrier_reply xid) = []

swapped :
    (v : ℕ)
    → v / 2 ^ 24 % 2 ^ 8
        + v / 2 ^ 16 % 2 ^ 8 * 2 ^ 8
        + v / 2 ^ 8 % 2 ^ 8 * 2 ^ 16
        + v % 2 ^ 8 * 2 ^ 24
      ≡ ntoh32 v
swapped v = omega arith

swapped-lt : (v : ℕ) → ntoh32 v < 2 ^ 32
swapped-lt v = omega arith

stored : (v : ℕ) → ntoh16 v % 2 ^ 8 + ntoh16 v / 2 ^ 8 % 2 ^ 8 * 2 ^ 8 ≡ ntoh16 v
stored v = omega arith

pack-IsPacked :
    (xid buffer_id in_port total_len : ℕ) (reason : Reason) (bytes : List ℕ)
    → IsPacked
        (pack (packet_in xid buffer_id in_port total_len reason bytes))
        buffer_id
        in_port
        total_len
        bytes
unfolding load32 load16
pack-IsPacked xid buffer_id in_port total_len reason bytes = record {
  xid = ntoh32 xid;
  xid_at = ap some (swapped xid);
  xid_fits = swapped-lt xid;
  buffer_at = ap some (swapped buffer_id);
  in_port_at = ap some (stored in_port);
  total_len_at = ap some (stored total_len);
  size = omega arith;
  bytes_at = load_address-append (head xid buffer_id in_port total_len reason) bytes;
}

others_keep :
    (f : MatchField) (m : Match)
    → IsUpper f
    → ((store f m).dl_src ≡ m.dl_src) × ((store f m).dl_dst ≡ m.dl_dst)
others_keep (MatchField.in_port n) m h = (refl, refl)
others_keep (MatchField.dl_vlan n) m h = (refl, refl)
others_keep (MatchField.dl_vlan_pcp n) m h = (refl, refl)
others_keep (MatchField.dl_type n) m h = (refl, refl)
others_keep (MatchField.nw_tos n) m h = (refl, refl)
others_keep (MatchField.nw_proto n) m h = (refl, refl)
others_keep (MatchField.nw_src n) m h = (refl, refl)
others_keep (MatchField.nw_dst n) m h = (refl, refl)
others_keep (MatchField.tp_src n) m h = (refl, refl)
others_keep (MatchField.tp_dst n) m h = (refl, refl)
others_keep (MatchField.dl_src a) m h = absurd h
others_keep (MatchField.dl_dst a) m h = absurd h

pub is10 : IsOpenFlow10 lib10 pack
is10 = record {
  packs = λ xid b p t reason bytes h k l. pack-IsPacked xid b p t reason bytes;
  unpacks = λ raw fm e c. record {
    command = ap (λ o. (unpacked o).command) e;
    priority = ap (λ o. (unpacked o).priority) e;
    buffer_id = ap (λ o. (unpacked o).buffer_id) e;
    actions = ap (λ o. (unpacked o).actions) e;
    wildcards = ap (λ o. (unpacked o).match.wildcards) e;
    dl_src = ap (λ o. (unpacked o).match.dl_src) e;
    dl_dst = ap (λ o. (unpacked o).match.dl_dst) e;
  };
  unpacks_out = λ raw po e. (ap (λ o. (sent_out o).buffer_id) e, ap (λ o. (sent_out o).actions) e);
  sets_src = λ a m. refl;
  sets_dst = λ a m. refl;
  dst_keeps_src = λ a m. refl;
  others_keep = others_keep;
}
