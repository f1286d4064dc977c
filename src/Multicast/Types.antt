-- ===== src/Multicast/Types.antt =====
-- The data of examples/controller/mc-agent: packets, members and groups (MCGroupMember.hh,
-- MCGroup.hh), and the OpenFlow 1.3 messages that the agent sends, as the values it gives to the
-- objects of libfluid_msg.
use libfluid.Prelude.{ℕ, ◌≡◌, ◌++◌, ◌<◌, Bool, Option, List, [], ◌∷◌, length, erase_idx, ltb}

-- class PacketInDataHeader. `ofpi`, the message that brought the packet, is read for its id, its
-- buffer and its bytes.
pub record PacketInDataHeader : Type 0 where
  pub dmac : ℕ
  pub smac : ℕ
  pub dip : ℕ
  pub sip : ℕ
  pub in_intf : ℕ
  pub udst_port : ℕ
  pub usrc_port : ℕ
  pub protocol : ℕ
  pub membership_code : ℕ
  pub xid : ℕ
  pub buffer_id : ℕ
  pub frame : List ℕ

-- class MCGroupMember; `is_classd_` is never read.
pub record McGroupMember : Type 0 where
  pub dest_mac : ℕ
  pub dest_ip : ℕ
  pub udp_port : ℕ
  pub intf : ℕ
  pub bucket_index : ℕ

-- class MCGroup.
pub record McGroup : Type 0 where
  pub groupip : ℕ
  pub sudpport : ℕ
  pub dudpport : ℕ
  pub upstream_intf : ℕ
  pub is_classd : Bool
  pub groupid : ℕ
  pub is_root : Bool

-- `operator<` of MCGroup.
unfoldable pub mcgroup_lt : McGroup → McGroup → Bool
mcgroup_lt a b = ltb a.groupip b.groupip

-- The actions of a bucket, with the orders that `set_order` gives them.
pub data BucketAction : Type 0 where
  set_udp_dst set_ipv4_dst set_eth_dst : (order value : ℕ) → BucketAction
  output : (port max_len : ℕ) → BucketAction

pub record Bucket : Type 0 where
  pub weight : ℕ
  pub watch_port : ℕ
  pub watch_group : ℕ
  pub actions : List BucketAction

pub data GroupCommand : Type 0 where
  add modify delete : GroupCommand

pub record GroupMod : Type 0 where
  pub xid : ℕ
  pub command : GroupCommand
  pub group_id : ℕ
  pub buckets : List Bucket

-- The bucket list inside `of13::GroupMod`, which `add_bucket` extends and `del_bucket` shortens.
pub record GroupModLib : Type 0 where
  pub add_bucket : Bucket → List Bucket → List Bucket
  pub del_bucket : ℕ → List Bucket → List Bucket
  pub add_bucket_lem : (b : Bucket) (bs : List Bucket) → add_bucket b bs ≡ bs ++ b ∷ []
  pub del_bucket_lem : (i : ℕ) (bs : List Bucket) → i < length bs → del_bucket i bs ≡ erase_idx bs i

pub data Oxm : Type 0 where
  eth_type ip_proto ipv4_src ipv4_dst udp_src udp_dst : ℕ → Oxm

pub data Instruction : Type 0 where
  to_group : (group_id : ℕ) → Instruction
  to_controller : (max_len : ℕ) → Instruction

pub data FlowCommand : Type 0 where
  add delete : FlowCommand

pub record FlowMod : Type 0 where
  pub xid : ℕ
  pub cookie : ℕ
  pub cookie_mask : ℕ
  pub table_id : ℕ
  pub command : FlowCommand
  pub idle_timeout : ℕ
  pub hard_timeout : ℕ
  pub priority : ℕ
  pub buffer_id : ℕ
  pub out_port : ℕ
  pub out_group : ℕ
  pub match : List Oxm
  pub apply_actions : List Instruction

pub data Sent : Type 0 where
  group_mod : GroupMod → Sent
  flow_mod : FlowMod → Sent
  packet_out : (xid buffer_id in_port : ℕ) (payload : Option (List ℕ)) (port max_len : ℕ) → Sent
  role_request : (xid : ℕ) → Sent

-- The static counters of MCGroupOpenFlowContext, and what has been sent on the connection.
pub record Wire : Type 0 where
  pub xid_gen : ℕ
  pub group_id_gen : ℕ
  pub cookie_gen : ℕ
  pub sent : List Sent
