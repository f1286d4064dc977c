-- ===== src/Learning/Raw/Tests.antt =====
-- The theorems on examples/controller/raw at concrete inputs.
use libfluid.Prelude.{
  ℕ, zero, suc, ◌+◌, ◌*◌, ◌^◌, ◌<◌, ◌≤◌, ◌≡◌, refl, ◌↔◌, Option, none, some, List, [], ◌∷◌, ◌++◌,
  arith, length, prefix, load16, load32, ntoh16,
}
use libfluid.Learning
use libfluid.Learning.{PacketInLib, ControllerEvent, packet_in, switch_up, switch_down}
use libfluid.Learning.Raw.{
  RawSwitch, flow_mod_bytes, output_bytes, packet_out_bytes, flood_bytes, run,
}
use libfluid.Learning.Raw.Flood.{flood_bytes-prefix, flood_bytes_iff}
use libfluid.Learning.Raw.FlowMod.{IsAddress}
use libfluid.Learning.Raw.Total.{IsWhole, raw_run_total}

-- A packet in from port 3, with a packet of 12 bytes between two addresses.
abbrev from_to : ℕ → ℕ → List ℕ
from_to src dst =
    1 ∷ 10 ∷ 0 ∷ 30 ∷ 0 ∷ 0 ∷ 0 ∷ 9 ∷ 255 ∷ 255 ∷ 255 ∷ 255 ∷ 0 ∷ 12 ∷ 0 ∷ 3 ∷ 0 ∷ 0 ∷ 0 ∷ 0 ∷ 0 ∷ 0
    ∷ 0 ∷ dst ∷ 0 ∷ 0 ∷ 0 ∷ 0 ∷ 0 ∷ src ∷ []

abbrev packet : List ℕ
packet = from_to 5 6

abbrev head12 : List ℕ
head12 = 1 ∷ 10 ∷ 0 ∷ 30 ∷ 0 ∷ 0 ∷ 0 ∷ 9 ∷ 255 ∷ 255 ∷ 255 ∷ 255 ∷ []

packet_len : load16 packet 12 ≡ some 0x0c00
unfolding load16
packet_len = refl

packet_port : load16 packet 14 ≡ some 0x0300
unfolding load16
packet_port = refl

packet_xid : load32 packet 4 ≡ some (9 * 2 ^ 24)
unfolding load32
packet_xid = refl

packet_buffer : load32 packet 8 ≡ some 0xffffffff
unfolding load32
packet_buffer = refl

packet_head : prefix 12 packet ≡ some head12
unfolding prefix
packet_head = refl

flood_bytes-prefix_example :
    flood_bytes packet
    ≡ some (packet_out_bytes 36 (9 * 2 ^ 24) 0xffffffff 0x0300 ++ (output_bytes 0xfffb ++ head12))
flood_bytes-prefix_example =
    flood_bytes-prefix packet head12 0x0c00 (9 * 2 ^ 24) 0xffffffff 0x0300 packet_len packet_xid
      packet_buffer packet_port (omega arith) packet_head

flood_bytes_iff_example :
    ((sent : List ℕ) × (flood_bytes packet ≡ some sent))
    ↔ (24 + ntoh16 0x0c00 < 2 ^ 16) × (ntoh16 0x0c00 ≤ length packet)
flood_bytes_iff_example = flood_bytes_iff packet 0x0c00 (omega arith) packet_len

abbrev mac : ℕ → ℕ
mac n = n * 2 ^ 56

mac-IsAddress : (n : ℕ) → n < 256 → IsAddress (mac n)
mac-IsAddress n h = record { low = omega arith; high = omega arith }

-- A libfluid_msg that reads the fields from the structure.
abbrev after : ℕ → List ℕ → List ℕ
after zero m = m
after (suc n) [] = []
after (suc n) (x ∷ m) = after n m

abbrev swapped : Option ℕ → Option ℕ
swapped none = none
swapped (some v) = some (ntoh16 v)

abbrev lib : PacketInLib
lib = record {
  unpack10 =
      λ m. record { xid = 9; buffer_id = 8; in_port = swapped (load16 m 14); bytes = after 18 m };
  unpack13 = λ m. record { xid = 9; buffer_id = 8; in_port = none; bytes = [] };
}

-- A connection comes up, a packet is flooded, and the answer to it installs a flow.
abbrev events : List ControllerEvent
events = packet_in 1 1 (from_to 6 5) ∷ packet_in 1 1 packet ∷ switch_up 1 1 ∷ []

from_to-IsWhole : (a b : ℕ) → IsWhole (from_to a b)
unfolding load16
from_to-IsWhole a b = record {
  long = omega arith;
  fits = λ raw e. let same : 0x0c00 ≡ raw = ground (arith, e) in omega arith;
  inside = λ raw e. let same : 0x0c00 ≡ raw = ground (arith, e) in omega arith;
}

abbrev reached : RawSwitch
reached = record {
  base = record {
    l2tables = ((mac 5, 3) ∷ (mac 6, 3) ∷ []) ∷ [];
    application_data = (1, 0) ∷ [];
    sent = [];
  };
  sent =
      (1, packet_out_bytes 36 (9 * 2 ^ 24) 0xffffffff 0x0300 ++ (output_bytes 0xfffb ++ head12))
      ∷ (1, flow_mod_bytes (9 * 2 ^ 24) 0xffffffff (mac 6) (mac 5) ++ output_bytes 3)
      ∷ [];
}

raw_run_total_example : (st : RawSwitch) × (run events ≡ some st)
raw_run_total_example = raw_run_total events (from_to-IsWhole 6 5, (from_to-IsWhole 5 6, (tt, tt)))
