-- ===== src/Switch/Flow.antt =====
-- class Flow of examples/switch/flow.hh with its three tests (examples/switch/flow.cc), the
-- messages that carry a match, and the flow table of examples/switch/datapath.hh. The fields of Flow
-- that no code reads (length_, table_id_, the timers and counters) are left out.
pub mod Table
use libfluid.Prelude.{ℕ, ◌+◌, ◌^◌, Bool, Option, List, [], ◌∷◌, ◌&&◌, leb, ◌==◌, if◌then◌else◌}
use libfluid.Switch.Match.{Match, match_std_strict, match_std_nonstrict, match_std_pkt}
use libfluid.Switch.Extract.{MatchField}

-- `Action` of libfluid_msg, by its type: only output actions are looked into.
pub data Action : Type 0 where
  output : (port max_len : ℕ) → Action
  other : (type : ℕ) → Action

pub record Flow : Type 0 where
  pub priority : ℕ
  pub match : Match
  pub nw_src_mask : ℕ
  pub nw_dst_mask : ℕ
  pub actions : List Action

-- `Flow flow;` and the assignments of `handle_flow_mod`: the constructor sets both masks.
unfoldable pub new_flow : ℕ → Match → List Action → Flow
new_flow priority match actions = record {
  priority = priority;
  match = match;
  nw_src_mask = 0xffffffff;
  nw_dst_mask = 0xffffffff;
  actions = actions;
}

unfoldable pub pkt_match : Flow → Match → Bool
pkt_match flow pkt = match_std_pkt flow.match pkt flow.nw_src_mask flow.nw_dst_mask

unfoldable pub strict_match : Flow → Flow → Bool
strict_match a b =
    a.priority == b.priority
    && match_std_strict a.match b.match a.nw_src_mask b.nw_src_mask a.nw_dst_mask b.nw_dst_mask

unfoldable pub non_strict_match : Flow → Flow → Bool
non_strict_match a b =
    match_std_nonstrict a.match b.match a.nw_src_mask b.nw_src_mask a.nw_dst_mask b.nw_dst_mask

-- The table is a `std::set` ordered by `cmp_priority`.
abbrev pub FlowTable : Type 0
FlowTable = List Flow

unfoldable pub cmp_priority : Flow → Flow → Bool
cmp_priority lhs rhs = leb lhs.priority rhs.priority

-- `flow_table.insert(flow)`: the new node goes before the first one that does not compare less than
-- it, in the order of iteration. As `cmp_priority` holds of equal priorities, a flow is never found
-- to be present already, and stands before those of its own priority.
unfoldable pub insert : Flow → FlowTable → FlowTable
insert flow [] = flow ∷ []
insert flow (f ∷ fs) = if cmp_priority flow f then flow ∷ f ∷ fs else f ∷ insert flow fs

-- The loop of OFPFC_ADD: it erases the first flow that matches strictly, and breaks.
unfoldable pub erase_strict : Flow → FlowTable → FlowTable
erase_strict flow [] = []
erase_strict flow (f ∷ fs) = if strict_match f flow then fs else f ∷ erase_strict flow fs

-- The loop of OFPFC_DELETE.
unfoldable pub erase_matching : Flow → FlowTable → FlowTable
erase_matching flow [] = []
erase_matching flow (f ∷ fs) =
    let rest = erase_matching flow fs in if non_strict_match flow f then rest else f ∷ rest

-- What `fm.unpack` and `po.unpack` leave in the getters that the handlers call.
pub data Command : Type 0 where
  add modify modify_strict delete delete_strict : Command

pub record FlowMod : Type 0 where
  pub command : Command
  pub match : Match
  pub priority : ℕ
  pub buffer_id : ℕ
  pub actions : List Action

pub record PacketOut : Type 0 where
  pub buffer_id : ℕ
  pub in_port : ℕ
  pub actions : List Action
  pub payload : List ℕ

-- The part of libfluid_msg that the switch calls: the default match, the setters of a match, and
-- the parsers of the three messages it handles.
pub record MsgLib : Type 0 where
  pub new_match : Match
  pub set_field : MatchField → Match → Match
  pub unpack_flow_mod : List ℕ → FlowMod
  pub unpack_packet_out : List ℕ → PacketOut
  pub unpack_xid : List ℕ → ℕ
