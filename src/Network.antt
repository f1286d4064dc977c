-- ===== src/Network.antt =====
-- A switch of examples/switch and the learning controller of examples/controller/raw at the two ends of a
-- connection: what each needs of libfluid_msg, which packs and unpacks the messages between them. Its
-- operations are parameters, with the layout of OpenFlow 1.0 as their documented behaviour.
pub mod Address
pub mod Flow
pub mod Reply
pub mod Carried
pub mod Loop
pub mod Reactive
pub mod Flooded
pub mod Exchange
pub mod Sample
pub mod Tests
use libfluid.Prelude.{
  ℕ, arith, ◌+◌, ◌*◌, ◌/◌, ◌%◌, ◌^◌, ◌<◌, ◌≡◌, some, List, [], ◌∷◌, length, load16, load32, ntoh16,
}
use libfluid.Learning.{load_address}
use libfluid.Learning.Raw.FlowMod.{FlowMod, read_flow_mod}
use libfluid.Learning.Raw.PacketOut.{PacketOut, read_packet_out}
use libfluid.Switch.Match.{EthAddress, Match}
use libfluid.Switch.Extract.{MatchField, dl_src, dl_dst}
use libfluid.Switch.Extract.Addresses.{IsUpper}
use libfluid.Switch.Flow.{output, add, MsgLib}
use libfluid.Switch.State.{Reason, Output, packet_in}

-- `ntohl` on a little-endian host.
abbrev pub ntoh32 : ℕ → ℕ
ntoh32 v =
    v % 2 ^ 8 * 2 ^ 24
    + v / 2 ^ 8 % 2 ^ 8 * 2 ^ 16
    + v / 2 ^ 16 % 2 ^ 8 * 2 ^ 8
    + v / 2 ^ 24 % 2 ^ 8

pub ntoh32_twice : (v : ℕ) → v < 2 ^ 32 → ntoh32 (ntoh32 v) ≡ v
ntoh32_twice v h = omega arith

-- The six bytes of an address that the controller keeps above 16 zero bits.
abbrev pub eth_address : ℕ → EthAddress
eth_address a = record {
  b0 = a / 2 ^ 16 % 2 ^ 8;
  b1 = a / 2 ^ 24 % 2 ^ 8;
  b2 = a / 2 ^ 32 % 2 ^ 8;
  b3 = a / 2 ^ 40 % 2 ^ 8;
  b4 = a / 2 ^ 48 % 2 ^ 8;
  b5 = a / 2 ^ 56 % 2 ^ 8;
}

-- The switch's `of10::FlowMod` holds the flow that the bytes say.
pub record IsUnpacked (lib : MsgLib) (raw : List ℕ) (fm : FlowMod) : Type 0 where
  pub command : (lib.unpack_flow_mod raw).command ≡ add
  pub priority : (lib.unpack_flow_mod raw).priority ≡ fm.priority
  pub buffer_id : (lib.unpack_flow_mod raw).buffer_id ≡ ntoh32 fm.buffer_id
  pub actions : (lib.unpack_flow_mod raw).actions ≡ output fm.port fm.max_len ∷ []
  pub wildcards : (lib.unpack_flow_mod raw).match.wildcards ≡ fm.wildcards
  pub dl_src : (lib.unpack_flow_mod raw).match.dl_src ≡ eth_address fm.dl_src
  pub dl_dst : (lib.unpack_flow_mod raw).match.dl_dst ≡ eth_address fm.dl_dst

-- A packet in as `of10::PacketIn::pack` lays it out.
pub record IsPacked (raw : List ℕ) (buffer_id in_port total_len : ℕ) (bytes : List ℕ) : Type 0 where
  pub xid : ℕ
  pub xid_at : load32 raw 4 ≡ some xid
  pub xid_fits : xid < 2 ^ 32
  pub buffer_at : load32 raw 8 ≡ some (ntoh32 buffer_id)
  pub in_port_at : load16 raw 14 ≡ some (ntoh16 in_port)
  pub total_len_at : load16 raw 12 ≡ some (ntoh16 total_len)
  pub size : length raw ≡ 18 + length bytes
  pub bytes_at : (off : ℕ) → load_address raw (18 + off) ≡ load_address bytes off

-- libfluid_msg, as the two programs use it: `pack` is that of a packet in.
pub record IsOpenFlow10 (lib : MsgLib) (pack : Output → List ℕ) : Type 0 where
  pub packs :
      (xid buffer_id in_port total_len : ℕ) (reason : Reason) (bytes : List ℕ)
      → buffer_id < 2 ^ 32
      → in_port < 2 ^ 16
      → total_len < 2 ^ 16
      → IsPacked
          (pack (packet_in xid buffer_id in_port total_len reason bytes))
          buffer_id
          in_port
          total_len
          bytes
  pub unpacks :
      (raw : List ℕ) (fm : FlowMod)
      → read_flow_mod raw ≡ some fm
      → fm.command ≡ 0
      → IsUnpacked lib raw fm
  pub unpacks_out :
      (raw : List ℕ) (po : PacketOut)
      → read_packet_out raw ≡ some po
      → ((lib.unpack_packet_out raw).buffer_id ≡ ntoh32 po.buffer_id)
        × ((lib.unpack_packet_out raw).actions ≡ output po.port po.max_len ∷ [])
  pub sets_src : (a : EthAddress) (m : Match) → (lib.set_field (dl_src a) m).dl_src ≡ a
  pub sets_dst : (a : EthAddress) (m : Match) → (lib.set_field (dl_dst a) m).dl_dst ≡ a
  pub dst_keeps_src : (a : EthAddress) (m : Match) → (lib.set_field (dl_dst a) m).dl_src ≡ m.dl_src
  pub others_keep :
      (f : MatchField) (m : Match)
      → IsUpper f
      → ((lib.set_field f m).dl_src ≡ m.dl_src) × ((lib.set_field f m).dl_dst ≡ m.dl_dst)
