-- ===== src/Network/Tests.antt =====
-- The loop between a switch and the raw learning controller at concrete inputs.
use libfluid.Prelude.{ℕ, ◌*◌, ◌^◌, true, List, [], ◌∷◌}
use libfluid.Learning
use libfluid.Learning.{L2Table}
use libfluid.Learning.Raw.{RawSwitch}
use libfluid.Switch.State.{Datapath}

-- A switch with two ports that has just connected, and a frame from address 1 on port 1 to address 2,
-- which the controller has seen on port 2.
abbrev online : Datapath
online = record {
  flow_table = [];
  pkt_buffer = [];
  ports = 1 ∷ 2 ∷ [];
  conn = true;
  buffer_id = 0;
  heap = [];
  sent = [];
}

abbrev frame : List ℕ
frame = 0 ∷ 0 ∷ 0 ∷ 0 ∷ 0 ∷ 2 ∷ 0 ∷ 0 ∷ 0 ∷ 0 ∷ 0 ∷ 1 ∷ 0x88 ∷ 0xb5 ∷ 42 ∷ []

abbrev seen : L2Table
seen = (2 * 2 ^ 56, 2) ∷ []

abbrev knowing : RawSwitch
knowing = record {
  base = record { l2tables = seen ∷ []; application_data = (7, 0) ∷ []; sent = [] };
  sent = [];
}

-- A controller that has seen nothing yet.
abbrev unknowing : RawSwitch
unknowing = record {
  base = record { l2tables = [] ∷ []; application_data = (7, 0) ∷ []; sent = [] };
  sent = [];
}

-- The answer of address 2, on port 2.
abbrev answer : List ℕ
answer = 0 ∷ 0 ∷ 0 ∷ 0 ∷ 0 ∷ 1 ∷ 0 ∷ 0 ∷ 0 ∷ 0 ∷ 0 ∷ 2 ∷ 0x88 ∷ 0xb5 ∷ 43 ∷ []
