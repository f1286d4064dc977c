-- ===== src/Switch/Ofpfw.antt =====
-- The wildcard flags of OpenFlow 1.0 (`ofp_flow_wildcards` of examples/controller/raw/of10.hh) that
-- examples/switch/flow.hh tests.
use libfluid.Prelude.{ℕ, ◌^◌}

abbrev pub in_port : ℕ
in_port = 2 ^ 0

abbrev pub dl_vlan : ℕ
dl_vlan = 2 ^ 1

abbrev pub dl_src : ℕ
dl_src = 2 ^ 2

abbrev pub dl_dst : ℕ
dl_dst = 2 ^ 3

abbrev pub dl_type : ℕ
dl_type = 2 ^ 4

abbrev pub nw_proto : ℕ
nw_proto = 2 ^ 5

abbrev pub tp_src : ℕ
tp_src = 2 ^ 6

abbrev pub tp_dst : ℕ
tp_dst = 2 ^ 7

abbrev pub dl_vlan_pcp : ℕ
dl_vlan_pcp = 2 ^ 20

abbrev pub nw_tos : ℕ
nw_tos = 2 ^ 21
