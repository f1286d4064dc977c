-- ===== src/Network/Reply.antt =====
-- The answers of RawLearningSwitch (examples/controller/raw/RawApps.hh) to a packet in, to a destination
-- that it knows or does not know, and what the switch unpacks from them.
use libfluid.Prelude.{
  ℕ, ◌+◌, length, ◌^◌, ◌≤◌, ◌<◌, ◌≡◌, refl, ap, ◌∙◌, none, some, List, arith, set, get_elem?,
  load16, ntoh16,
}
use libfluid.Learning
use libfluid.Learning.{L2Table, packet_in, get_l2table, assign}
use libfluid.Learning.Raw
use libfluid.Learning.Raw.{
  RawSwitch, send, flood_bytes, install_flow_mod, flood_bytes, handle_packet_in,
}
use libfluid.Learning.Raw.FlowMod.{
  FlowMod, read_flow_mod, IsAddress, install_flow_mod-read_flow_mod,
}
use libfluid.Learning.Raw.PacketOut.{PacketOut, read_packet_out, flood_bytes-read_packet_out}
use libfluid.Network.{ntoh32, IsPacked}

-- The flow that it asks for.
abbrev pub asked : (xid buffer_id src dst q : ℕ) → FlowMod
asked xid buffer_id src dst q = record {
  xid = xid;
  wildcards = 0x3ffff3;
  dl_src = src;
  dl_dst = dst;
  command = 0;
  idle_timeout = 5;
  hard_timeout = 10;
  priority = 100;
  buffer_id = ntoh32 buffer_id;
  flags = 0;
  port = q;
  max_len = 0;
}

-- The table of the connection after the packet.
abbrev pub learned : ℕ → L2Table → RawSwitch → RawSwitch
learned i table r = record r { base = record r.base { l2tables = set r.base.l2tables i table } }

-- The packet that it asks to be sent to all ports but its own.
abbrev pub asked_flood : (xid buffer_id in_port : ℕ) → PacketOut
asked_flood xid buffer_id in_port = record {
  xid = xid;
  buffer_id = ntoh32 buffer_id;
  in_port = in_port;
  port = 0xfffb;
  max_len = 0;
}

-- One message is sent to the switch, which asks for that.
pub record IsAskedToFlood (o version i buffer_id port_no : ℕ) (table : L2Table) (message : List ℕ)
    (r : RawSwitch) : Type 0 where
  pub raw : List ℕ
  pub xid : ℕ
  pub sent :
      Raw.event_callback (packet_in o version message) r ≡ some (send o raw (learned i table r))
  pub asks : read_packet_out raw ≡ some (asked_flood xid buffer_id port_no)

-- One message is sent to the switch, which asks for the flow.
pub record IsAnswered (o version i q src dst buffer_id : ℕ) (table : L2Table) (message : List ℕ)
    (r : RawSwitch) : Type 0 where
  pub raw : List ℕ
  pub xid : ℕ
  pub sent :
      Raw.event_callback (packet_in o version message) r ≡ some (send o raw (learned i table r))
  pub asks : read_flow_mod raw ≡ some (asked xid buffer_id src dst q)

ntoh32-lt : (v : ℕ) → ntoh32 v < 2 ^ 32
ntoh32-lt v = omega arith

ntoh16_twice : (v : ℕ) → v < 2 ^ 16 → ntoh16 (ntoh16 v) ≡ v
ntoh16_twice v h = omega arith

module _ (o version i q src dst buffer_id port_no total_len : ℕ) (table : L2Table)
    (bytes message : List ℕ) (r : RawSwitch) where
  -- The port is a variable here, since it is swapped twice.
  handled :
      (raw_port p : ℕ)
      → get_elem? r.base.l2tables i ≡ some table
      → Learning.load_address message 18 ≡ some dst
      → Learning.load_address message 24 ≡ some src
      → load16 message 14 ≡ some raw_port
      → ntoh16 raw_port ≡ p
      → Learning.find dst (assign src p table) ≡ some q
      → handle_packet_in o message i r
        ≡ install_flow_mod o message src dst q (learned i (assign src p table) r)
  unfolding handle_packet_in Raw.reply
  handled raw_port p found to from port host known = rw (to, from, port, found, host, known) refl

  -- The same where the destination is not known.
  handled_unknown :
      (raw_port p : ℕ)
      → get_elem? r.base.l2tables i ≡ some table
      → Learning.load_address message 18 ≡ some dst
      → Learning.load_address message 24 ≡ some src
      → load16 message 14 ≡ some raw_port
      → ntoh16 raw_port ≡ p
      → Learning.find dst (assign src p table) ≡ none
      → handle_packet_in o message i r ≡ Raw.flood o message (learned i (assign src p table) r)
  unfolding handle_packet_in Raw.reply
  handled_unknown raw_port p found to from port host unknown =
      rw (to, from, port, found, host, unknown) refl

  replied :
      get_l2table o r.base ≡ some i
      → Raw.event_callback (packet_in o version message) r ≡ handle_packet_in o message i r
  unfolding Raw.event_callback
  replied owner = rw (owner, Raw.event_callback) refl

  pub event_callback-IsAnswered :
      IsPacked message buffer_id port_no total_len bytes
      → port_no < 2 ^ 16
      → q < 2 ^ 16
      → IsAddress src
      → IsAddress dst
      → Learning.load_address bytes 0 ≡ some dst
      → Learning.load_address bytes 6 ≡ some src
      → get_l2table o r.base ≡ some i
      → get_elem? r.base.l2tables i ≡ some table
      → Learning.find dst (assign src port_no table) ≡ some q
      → IsAnswered o version i q src dst buffer_id (assign src port_no table) message r
  event_callback-IsAnswered p port_fits q_fits s d to from owner found known =
      let (raw, built, read) =
        install_flow_mod-read_flow_mod o message src dst q p.xid (ntoh32 buffer_id)
          (learned i (assign src port_no table) r) p.xid_at p.buffer_at p.xid_fits
          (ntoh32-lt buffer_id) s d q_fits in
      record {
        raw = raw;
        xid = p.xid;
        sent =
            replied owner
            ∙ handled (ntoh16 port_no) port_no found (p.bytes_at 0 ∙ to) (p.bytes_at 6 ∙ from)
                p.in_port_at (ntoh16_twice port_no port_fits) known
            ∙ built;
        asks = read;
      }

  flooded :
      (st : RawSwitch) (raw : List ℕ)
      → flood_bytes message ≡ some raw
      → Raw.flood o message st ≡ some (send o raw st)
  unfolding Raw.flood
  flooded st raw e = rw e refl

  pub event_callback-IsAskedToFlood :
      IsPacked message buffer_id port_no total_len bytes
      → port_no < 2 ^ 16
      → total_len < 65512
      → total_len ≤ 18 + length bytes
      → Learning.load_address bytes 0 ≡ some dst
      → Learning.load_address bytes 6 ≡ some src
      → get_l2table o r.base ≡ some i
      → get_elem? r.base.l2tables i ≡ some table
      → Learning.find dst (assign src port_no table) ≡ none
      → IsAskedToFlood o version i buffer_id port_no (assign src port_no table) message r
  event_callback-IsAskedToFlood p port_fits len_fits there to from owner found unknown =
      let len = ntoh16_twice total_len (omega arith) in
      let (raw, built, read) =
        flood_bytes-read_packet_out message (ntoh16 total_len) p.xid (ntoh32 buffer_id)
          (ntoh16 port_no) p.total_len_at p.xid_at p.buffer_at p.in_port_at (omega (arith, len))
          (omega (arith, len, p.size)) p.xid_fits (ntoh32-lt buffer_id) (omega arith) in
      record {
        raw = raw;
        xid = p.xid;
        sent =
            replied owner
            ∙ handled_unknown (ntoh16 port_no) port_no found (p.bytes_at 0 ∙ to)
                (p.bytes_at 6 ∙ from) p.in_port_at (ntoh16_twice port_no port_fits) unknown
            ∙ flooded (learned i (assign src port_no table) r) raw built;
        asks =
            read ∙ ap (λ n. some (asked_flood p.xid buffer_id n)) (ntoh16_twice port_no port_fits);
      }
