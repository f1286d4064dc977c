-- ===== src/Switch/Tests.antt =====
-- The theorems on examples/switch at concrete inputs, with a libfluid_msg that stores each field it
-- is given and clears the field's wildcard.
use native.Mathlib.Omega.{arith}
use libfluid.Prelude.{
  ◌<◌, suc, ℕ, ◌≡◌, refl, ◌⊎◌, inl, ◌↔◌, true, false, none, some, List, [], ◌∷◌, bit_and, bit_not,
  length, In,
}
use libfluid.Switch.Ofpfw
use libfluid.Switch.Match.{EthAddress, Match, match_std_pkt, match_std_nonstrict, match_std_strict}
use libfluid.Switch.Match.Packet.{IsMatched, match_std_pkt_iff}
use libfluid.Switch.Match.Strict.{IsSame, match_std_strict_iff}
use libfluid.Switch.Match.Nonstrict.{IsCovering, match_std_nonstrict_iff}
use libfluid.Switch.Extract.{MatchField, extract_flow_fields}
use libfluid.Switch.Extract.Total.{extract_flow_fields_total}
use libfluid.Switch.Flow.{
  output, Flow, FlowTable, new_flow, pkt_match, strict_match, insert, erase_strict, Command, MsgLib,
}
use libfluid.Switch.Flow.Table.{replaceable, insert-erase_strict}
use libfluid.Switch.State.{
  inject, Datapath, init, port_numbers, deref, read_data, free, find, buffered, port_at,
}
use libfluid.Switch.Datapath.{
  no_buffer, action_handler, message_callback, handle_flow_mod, flow_mod, add_flow,
  handle_packet_out, packet_to_send, run_actions, output_packet, destroy,
}
use libfluid.Switch.Datapath.Handlers.{message, Reach, here, next}
use libfluid.Switch.Datapath.Priority.{Handled, packet_handler-Handled, pkt_match-any_address}
use libfluid.Switch.Datapath.Buffers.{handle_packet_out_dangling}

abbrev address : ℕ → EthAddress
address n = record { b0 = 0; b1 = 0; b2 = 0; b3 = 0; b4 = 0; b5 = n }

abbrev pub blank : Match
blank = record {
  wildcards = 0x3fffff;
  in_port = 0;
  dl_src = address 0;
  dl_dst = address 0;
  dl_vlan = 0;
  dl_vlan_pcp = 0;
  dl_type = 0;
  nw_tos = 0;
  nw_proto = 0;
  nw_src = 0;
  nw_dst = 0;
  tp_src = 0;
  tp_dst = 0;
}

abbrev pub clear : ℕ → Match → ℕ
clear flag m = bit_and m.wildcards (bit_not 32 flag)

abbrev pub store : MatchField → Match → Match
store (MatchField.in_port n) m = record m { in_port = n; wildcards = clear Ofpfw.in_port m }
store (MatchField.dl_vlan n) m = record m { dl_vlan = n; wildcards = clear Ofpfw.dl_vlan m }
store (MatchField.dl_vlan_pcp n) m = record m {
  dl_vlan_pcp = n;
  wildcards = clear Ofpfw.dl_vlan_pcp m;
}
store (MatchField.dl_type n) m = record m { dl_type = n; wildcards = clear Ofpfw.dl_type m }
store (MatchField.nw_tos n) m = record m { nw_tos = n; wildcards = clear Ofpfw.nw_tos m }
store (MatchField.nw_proto n) m = record m { nw_proto = n; wildcards = clear Ofpfw.nw_proto m }
store (MatchField.nw_src n) m = record m { nw_src = n }
store (MatchField.nw_dst n) m = record m { nw_dst = n }
store (MatchField.tp_src n) m = record m { tp_src = n; wildcards = clear Ofpfw.tp_src m }
store (MatchField.tp_dst n) m = record m { tp_dst = n; wildcards = clear Ofpfw.tp_dst m }
store (MatchField.dl_src a) m = record m { dl_src = a; wildcards = clear Ofpfw.dl_src m }
store (MatchField.dl_dst a) m = record m { dl_dst = a; wildcards = clear Ofpfw.dl_dst m }

-- A flow for port 1, out of port 2, and a buffered packet sent out of port 1.
abbrev pub from_port : Match
from_port = store (MatchField.in_port 1) blank

abbrev pub lib : MsgLib
lib = record {
  new_match = blank;
  set_field = store;
  unpack_flow_mod = λ msg. record {
    command = Command.add;
    match = from_port;
    priority = length msg;
    buffer_id = no_buffer;
    actions = output 2 64 ∷ [];
  };
  unpack_packet_out =
      λ msg. record { buffer_id = 1; in_port = 2; actions = output 1 64 ∷ []; payload = msg };
  unpack_xid = λ msg. 0;
}

abbrev pub one_flow : Datapath
one_flow = record {
  flow_table = new_flow 1 from_port (output 2 64 ∷ []) ∷ [];
  pkt_buffer = [];
  ports = 1 ∷ 2 ∷ [];
  conn = false;
  buffer_id = 0;
  heap = [];
  sent = [];
}

pub added : Reach lib (init 2) one_flow
unfolding init port_numbers message_callback handle_flow_mod flow_mod add_flow new_flow erase_strict
    insert
added = next here (message 14 (0 ∷ []) refl)

packet_handler-Handled_example : Handled lib 1 (0 ∷ 1 ∷ []) 2 one_flow
packet_handler-Handled_example = packet_handler-Handled lib 2 1 (0 ∷ 1 ∷ []) 2 added

pkt_match-any_address_example :
    pkt_match
      (new_flow 1 from_port (output 2 64 ∷ []))
      (record from_port { nw_src = 5; nw_dst = 6 })
    ≡ pkt_match (new_flow 1 from_port (output 2 64 ∷ [])) from_port
pkt_match-any_address_example =
    pkt_match-any_address lib 2 (new_flow 1 from_port (output 2 64 ∷ [])) from_port 5 6 added
      (inl refl)

abbrev pub waiting : Datapath
waiting = record one_flow {
  pkt_buffer = (1, 1) ∷ [];
  heap = some (record { in_port = 2; readable = true; bytes = 7 ∷ [] }) ∷ [];
}

abbrev sent_out : Datapath
sent_out = record waiting { heap = none ∷ []; sent = inject 1 (7 ∷ []) ∷ [] }

handle_packet_out_dangling_example :
    ((again : List ℕ)
      → (lib.unpack_packet_out again).buffer_id ≡ 1
      → handle_packet_out lib again sent_out ≡ none)
    × (destroy sent_out.pkt_buffer sent_out ≡ none)
unfolding find handle_packet_out packet_to_send buffered run_actions action_handler output_packet
    port_at deref free read_data
handle_packet_out_dangling_example =
    handle_packet_out_dangling lib [] 0 waiting sent_out (λ e. omega arith) refl refl

extract_flow_fields_total_example :
    (out : List MatchField) × (extract_flow_fields (1 ∷ 2 ∷ []) ≡ some out)
extract_flow_fields_total_example = extract_flow_fields_total (1 ∷ 2 ∷ [])

match_std_pkt_iff_example :
    (match_std_pkt from_port blank 0xffffffff 0 ≡ true) ↔ IsMatched from_port blank 0xffffffff 0
match_std_pkt_iff_example =
    match_std_pkt_iff from_port blank 0xffffffff 0 (omega arith) (omega arith) (omega arith)
      (omega arith)

match_std_strict_iff_example :
    (match_std_strict from_port blank 0 0 0 0 ≡ true) ↔ IsSame from_port blank 0 0 0 0
match_std_strict_iff_example =
    match_std_strict_iff from_port blank 0 0 0 0 (omega arith) (omega arith) (omega arith)
      (omega arith) (omega arith) (omega arith)

match_std_nonstrict_iff_example :
    (match_std_nonstrict blank from_port 0 0 0 0 ≡ true) ↔ IsCovering blank from_port 0 0 0 0
match_std_nonstrict_iff_example =
    match_std_nonstrict_iff blank from_port 0 0 0 0 (omega arith) (omega arith) (omega arith)
      (omega arith) (omega arith) (omega arith)

abbrev flow_a : Flow
flow_a = new_flow 1 from_port []

abbrev flow_b : Flow
flow_b = new_flow 2 blank []

abbrev flow_c : Flow
flow_c = new_flow 1 from_port (output 2 0 ∷ [])

-- A flow in place of one with the same match and priority.
abbrev replaced : FlowTable
replaced = insert flow_c (erase_strict flow_c (flow_a ∷ flow_b ∷ []))

insert-erase_strict_example :
    In flow_c replaced
    × ((g : Flow) → In g (flow_a ∷ flow_b ∷ []) → In g replaced ⊎ (strict_match g flow_c ≡ true))
    × ((g : Flow) → In g replaced → (g ≡ flow_c) ⊎ In g (flow_a ∷ flow_b ∷ []))
    × (0 < replaceable flow_c (flow_a ∷ flow_b ∷ [])
        → (suc (replaceable flow_c (erase_strict flow_c (flow_a ∷ flow_b ∷ [])))
            ≡ replaceable flow_c (flow_a ∷ flow_b ∷ []))
          × (length replaced ≡ length (flow_a ∷ flow_b ∷ [])))
    × (replaceable flow_c (flow_a ∷ flow_b ∷ []) ≡ 0
        → ((g : Flow) → In g (flow_a ∷ flow_b ∷ []) → In g replaced)
          × (length replaced ≡ suc (length (flow_a ∷ flow_b ∷ []))))
insert-erase_strict_example = insert-erase_strict flow_c (flow_a ∷ flow_b ∷ [])
