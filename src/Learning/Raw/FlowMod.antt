-- ===== src/Learning/Raw/FlowMod.antt =====
-- What a switch reads in the FLOW_MOD of RawLearningSwitch (examples/controller/raw/RawApps.hh): a
-- reader of OpenFlow 1.0, in network order.
use libfluid.Prelude.{
  ℕ, Bool, ◌+◌, ◌*◌, ◌/◌, ◌%◌, ◌^◌, ◌<◌, ◌≡◌, refl, Option, none, some, List, ◌++◌, arith, ◌==◌,
  ◌&&◌, if◌then◌else◌, length, ◌>>=◌, load8, load16, load32, ntoh16, word_joined, memcpy, overwrite,
}
use libfluid.Learning.{load_address}
use libfluid.Learning.Raw.{
  RawSwitch, send, header_bytes, address_bytes, match_bytes, output_bytes, flow_mod_bytes,
  install_flow_mod,
}

abbrev be16 : List ℕ → ℕ → Option ℕ
be16 buf off = load16 buf off >>= λ v. some (ntoh16 v)

-- A flow with one action, to send to a port. The xid and the buffer's id, which are only handed back, are
-- as they lie in memory, and the addresses as the controller keeps them.
pub record FlowMod : Type 0 where
  pub xid : ℕ
  pub wildcards : ℕ
  pub dl_src : ℕ
  pub dl_dst : ℕ
  pub command : ℕ
  pub idle_timeout : ℕ
  pub hard_timeout : ℕ
  pub priority : ℕ
  pub buffer_id : ℕ
  pub flags : ℕ
  pub port : ℕ
  pub max_len : ℕ

-- Version 1, type FLOW_MOD, and the length of the buffer, with one action of type OUTPUT.
abbrev is_flow_mod : List ℕ → Option Bool
is_flow_mod buf = do
  version ← load8 buf 0
  type ← load8 buf 1
  len ← be16 buf 2
  action ← be16 buf 72
  action_len ← be16 buf 74
  some (version == 1 && type == 14 && len == length buf && action == 0 && action_len == 8)

abbrev pub read_flow_mod : List ℕ → Option FlowMod
read_flow_mod buf = do
  good ← is_flow_mod buf
  xid ← load32 buf 4
  wildcards_hi ← be16 buf 8
  wildcards_lo ← be16 buf 10
  dl_src ← load_address buf 14
  dl_dst ← load_address buf 20
  command ← be16 buf 56
  idle_timeout ← be16 buf 58
  hard_timeout ← be16 buf 60
  priority ← be16 buf 62
  buffer_id ← load32 buf 64
  flags ← be16 buf 70
  port ← be16 buf 76
  max_len ← be16 buf 78
  if good
      then some (record {
        xid = xid;
        wildcards = wildcards_hi * 2 ^ 16 + wildcards_lo;
        dl_src = dl_src;
        dl_dst = dl_dst;
        command = command;
        idle_timeout = idle_timeout;
        hard_timeout = hard_timeout;
        priority = priority;
        buffer_id = buffer_id;
        flags = flags;
        port = port;
        max_len = max_len;
      })
      else none

-- An address as the controller keeps it: six bytes above 16 zero bits.
pub record IsAddress (a : ℕ) : Type 0 where
  pub low : a % 2 ^ 16 ≡ 0
  pub high : a < 2 ^ 64

address_joined :
    (a : ℕ)
    → IsAddress a
    → a / 2 ^ 16 % 2 ^ 8 * 2 ^ 16
        + a / 2 ^ 24 % 2 ^ 8 * 2 ^ 24
        + a / 2 ^ 32 % 2 ^ 8 * 2 ^ 32
        + a / 2 ^ 40 % 2 ^ 8 * 2 ^ 40
        + a / 2 ^ 48 % 2 ^ 8 * 2 ^ 48
        + a / 2 ^ 56 % 2 ^ 8 * 2 ^ 56
      ≡ a
address_joined a h = let low = h.low in let high = h.high in omega arith

port_joined :
    (v : ℕ) → v < 2 ^ 16 → ntoh16 (ntoh16 v % 2 ^ 8 + ntoh16 v / 2 ^ 8 % 2 ^ 8 * 2 ^ 8) ≡ v
port_joined v h = omega arith

word_read :
    (v : ℕ)
    → v % 2 ^ 8
        + v / 2 ^ 8 % 2 ^ 8 * 2 ^ 8
        + v / 2 ^ 16 % 2 ^ 8 * 2 ^ 16
        + v / 2 ^ 24 % 2 ^ 8 * 2 ^ 24
      ≡ v % 2 ^ 32
word_read v = omega arith

address_read :
    (a : ℕ)
    → a / 2 ^ 16 % 2 ^ 8 * 2 ^ 16
        + a / 2 ^ 24 % 2 ^ 8 * 2 ^ 24
        + a / 2 ^ 32 % 2 ^ 8 * 2 ^ 32
        + a / 2 ^ 40 % 2 ^ 8 * 2 ^ 40
        + a / 2 ^ 48 % 2 ^ 8 * 2 ^ 48
        + a / 2 ^ 56 % 2 ^ 8 * 2 ^ 56
      ≡ a / 2 ^ 16 % 2 ^ 48 * 2 ^ 16
address_read a = omega arith

port_read : (v : ℕ) → ntoh16 (ntoh16 v % 2 ^ 8 + ntoh16 v / 2 ^ 8 % 2 ^ 8 * 2 ^ 8) ≡ v % 2 ^ 16
port_read v = omega arith

-- The bytes of a flow are read in the widths of their fields.
pub flow_mod_bytes-read_flow_mod :
    (xid buffer_id src dst out_port : ℕ)
    → read_flow_mod (flow_mod_bytes xid buffer_id src dst ++ output_bytes out_port)
      ≡ some (record {
        xid = xid % 2 ^ 32;
        wildcards = 0x3ffff3;
        dl_src = src / 2 ^ 16 % 2 ^ 48 * 2 ^ 16;
        dl_dst = dst / 2 ^ 16 % 2 ^ 48 * 2 ^ 16;
        command = 0;
        idle_timeout = 5;
        hard_timeout = 10;
        priority = 100;
        buffer_id = buffer_id % 2 ^ 32;
        flags = 0;
        port = out_port % 2 ^ 16;
        max_len = 0;
      })
unfolding flow_mod_bytes header_bytes match_bytes address_bytes output_bytes load8 load16 load32
    load_address
flow_mod_bytes-read_flow_mod xid buffer_id src dst out_port =
    rw (word_read xid, word_read buffer_id, address_read src, address_read dst, port_read out_port)
      refl

-- The bytes that are sent for a new flow are read as the flow that was meant: it replies to the packet
-- in's xid and buffer, takes every packet from the one address to the other, lapses after 10 seconds, or 5
-- without use, and sends to the port.
pub install_flow_mod-read_flow_mod :
    (ofconn : ℕ) (message : List ℕ) (src dst out_port xid buffer_id : ℕ) (st : RawSwitch)
    → load32 message 4 ≡ some xid
    → load32 message 8 ≡ some buffer_id
    → xid < 2 ^ 32
    → buffer_id < 2 ^ 32
    → IsAddress src
    → IsAddress dst
    → out_port < 2 ^ 16
    → (raw : List ℕ) × (install_flow_mod ofconn message src dst out_port st
        ≡ some (send ofconn raw st))
      × (read_flow_mod raw
          ≡ some (record {
            xid = xid;
            wildcards = 0x3ffff3;
            dl_src = src;
            dl_dst = dst;
            command = 0;
            idle_timeout = 5;
            hard_timeout = 10;
            priority = 100;
            buffer_id = buffer_id;
            flags = 0;
            port = out_port;
            max_len = 0;
          }))
unfolding install_flow_mod memcpy overwrite flow_mod_bytes header_bytes match_bytes address_bytes
    output_bytes load8 load16 load32 load_address
install_flow_mod-read_flow_mod ofconn message src dst out_port xid buffer_id st x b xid_fits
      buffer_fits s d p =
    (
      flow_mod_bytes xid buffer_id src dst ++ output_bytes out_port,
      rw (x, b) refl,
      rw
          (
            word_joined xid xid_fits,
            word_joined buffer_id buffer_fits,
            address_joined src s,
            address_joined dst d,
            port_joined out_port p,
          )
          refl,
    )
