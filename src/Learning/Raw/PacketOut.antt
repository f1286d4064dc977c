-- ===== src/Learning/Raw/PacketOut.antt =====
-- What a switch reads in the PACKET_OUT of RawLearningSwitch (examples/controller/raw/RawApps.hh): a reader
-- of OpenFlow 1.0, in network order.
use libfluid.Prelude.{
  ℕ, ◌+◌, ◌*◌, ◌/◌, ◌%◌, ◌^◌, ◌≤◌, ◌<◌, ◌≡◌, Option, none, some, List, ◌++◌, arith, ◌==◌, ◌&&◌,
  if◌then◌else◌, length, ◌>>=◌, load8, load16, load32, ntoh16, word_joined, half_joined,
  prefix_total, prefix-length,
}
use libfluid.Learning.Raw.{
  packet_out_bytes, header_bytes, output_bytes, flood_bytes, total_len_at, in_port_at,
}
use libfluid.Learning.Raw.Flood.{flood_bytes-prefix}

abbrev be16 : List ℕ → ℕ → Option ℕ
be16 buf off = load16 buf off >>= λ v. some (ntoh16 v)

-- A packet with one action, to send it to a port. The xid and the buffer's id are as they lie in memory.
pub record PacketOut : Type 0 where
  pub xid : ℕ
  pub buffer_id : ℕ
  pub in_port : ℕ
  pub port : ℕ
  pub max_len : ℕ

-- Version 1, type PACKET_OUT, and the length of the buffer, with one action of type OUTPUT.
abbrev pub read_packet_out : List ℕ → Option PacketOut
read_packet_out buf = do
  version ← load8 buf 0
  type ← load8 buf 1
  len ← be16 buf 2
  xid ← load32 buf 4
  buffer_id ← load32 buf 8
  in_port ← be16 buf 12
  actions_len ← be16 buf 14
  action ← be16 buf 16
  action_len ← be16 buf 18
  port ← be16 buf 20
  max_len ← be16 buf 22
  if version == 1
        && type == 13
        && len == length buf
        && actions_len == 8
        && action == 0
        && action_len == 8
      then some (record {
        xid = xid;
        buffer_id = buffer_id;
        in_port = in_port;
        port = port;
        max_len = max_len;
      })
      else none

swapped : (v : ℕ) → v < 2 ^ 16 → ntoh16 (ntoh16 v % 2 ^ 8 + ntoh16 v / 2 ^ 8 % 2 ^ 8 * 2 ^ 8) ≡ v
swapped v h = omega arith

packet_out_bytes-read_packet_out :
    (len xid buffer_id in_port : ℕ) (content : List ℕ)
    → len ≡ 24 + length content
    → len < 2 ^ 16
    → xid < 2 ^ 32
    → buffer_id < 2 ^ 32
    → in_port < 2 ^ 16
    → read_packet_out
        (packet_out_bytes len xid buffer_id in_port ++ (output_bytes 0xfffb ++ content))
      ≡ some (record {
        xid = xid;
        buffer_id = buffer_id;
        in_port = ntoh16 in_port;
        port = 0xfffb;
        max_len = 0;
      })
unfolding packet_out_bytes header_bytes output_bytes load8 load16 load32
packet_out_bytes-read_packet_out len xid buffer_id in_port content size fits x b p =
    rw (swapped len fits, word_joined xid x, word_joined buffer_id b, half_joined in_port p)
      (ground (arith, size))

-- The bytes that are sent to flood a packet that fits are read as the PACKET_OUT that was meant: it replies
-- to the packet in's xid and buffer, and sends the packet to all ports but its own.
pub flood_bytes-read_packet_out :
    (message : List ℕ) (raw_len xid buffer_id in_port : ℕ)
    → load16 message total_len_at ≡ some raw_len
    → load32 message 4 ≡ some xid
    → load32 message 8 ≡ some buffer_id
    → load16 message in_port_at ≡ some in_port
    → 24 + ntoh16 raw_len < 2 ^ 16
    → ntoh16 raw_len ≤ length message
    → xid < 2 ^ 32
    → buffer_id < 2 ^ 32
    → in_port < 2 ^ 16
    → (raw : List ℕ) × (flood_bytes message ≡ some raw)
      × (read_packet_out raw
          ≡ some (record {
            xid = xid;
            buffer_id = buffer_id;
            in_port = ntoh16 in_port;
            port = 0xfffb;
            max_len = 0;
          }))
flood_bytes-read_packet_out message raw_len xid buffer_id in_port len x b p fits there x_fits b_fits
      p_fits =
    let (content, read) = prefix_total (ntoh16 raw_len) message there in
    let size = (prefix-length (ntoh16 raw_len) message content read).1 in
    (
      _,
      flood_bytes-prefix message content raw_len xid buffer_id in_port len x b p fits read,
      packet_out_bytes-read_packet_out (24 + ntoh16 raw_len) xid buffer_id in_port content
          (omega arith) fits x_fits b_fits p_fits,
    )
