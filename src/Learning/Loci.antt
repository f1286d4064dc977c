-- ===== src/Learning/Loci.antt =====
-- class LociLearningSwitch of examples/controller/loci/LociApps.hh, over BaseLearningSwitch. Its messages
-- are the values that it gives to the objects of LOCI, generated code that is a parameter by what a call
-- of it may report; the length of the actions, which flood writes into the packed bytes, is left out.
pub mod Refines
use libfluid.Prelude.{
  ℕ, ◌+◌, ◌*◌, ◌/◌, ◌%◌, ◌^◌, Bool, true, false, Option, none, some, List, [], ◌∷◌, ◌++◌,
  if◌then◌else◌, set, get_elem?, load16, load32, ntoh16, ◌>>=◌,
}
use libfluid.Client.{ntoh32}
use libfluid.Learning.{
  find, assign, LearningSwitch, new_switch, ControllerEvent, packet_in, switch_up, switch_down,
  get_l2table, base_event_callback, load_address,
}
use libfluid.Learning.Raw.{address_bytes, in_port_at, data_at}

-- What is sent: a flow from an address to another, or a packet out without a packet.
pub data LociMessage : Type 0 where
  flow_add :
      (cookie idle_timeout hard_timeout priority buffer_id : ℕ) (eth_src eth_dst : List ℕ)
      (port : ℕ)
      → LociMessage
  packet_out : (buffer_id in_port port : ℕ) → LociMessage

pub record LociSwitch : Type 0 where
  pub base : LearningSwitch
  pub sent : List (ℕ × LociMessage)

unfoldable pub new_loci_switch : LociSwitch
new_loci_switch = record { base = new_switch; sent = [] }

abbrev pub send : ℕ → LociMessage → LociSwitch → LociSwitch
send ofconn m st = record st { sent = st.sent ++ (ofconn, m) ∷ [] }

-- By whether `of_flow_add_match_set` succeeds; if not, the program aborts.
unfoldable pub install_flow_mod :
    (match_set : Bool) → ℕ → List ℕ → (src dst out_port : ℕ) → LociSwitch → Option LociSwitch
install_flow_mod match_set ofconn message src dst out_port st = load32 message 8 >>= λ buffer_id.
    if match_set
    then some (
        send ofconn
          (flow_add 123 5 10 100 (ntoh32 buffer_id) (address_bytes src) (address_bytes dst)
            out_port)
          st)
    else none

unfoldable pub flood : ℕ → List ℕ → LociSwitch → Option LociSwitch
flood ofconn message st = do
  buffer_id ← load32 message 8
  in_port ← load16 message in_port_at
  some (send ofconn (packet_out (ntoh32 buffer_id) (ntoh16 in_port) 0xfffb) st)

-- The reply to a packet in, by what the table has for its destination.
unfoldable pub reply :
    (match_set : Bool) → ℕ → List ℕ → (src dst : ℕ) → Option ℕ → LociSwitch → Option LociSwitch
reply match_set ofconn message src dst none st = flood ofconn message st
reply match_set ofconn message src dst (some out_port) st =
    install_flow_mod match_set ofconn message src dst out_port st

-- The handler once the table is found.
unfoldable pub handle_packet_in :
    (match_set : Bool) → ℕ → List ℕ → ℕ → LociSwitch → Option LociSwitch
handle_packet_in match_set ofconn message i st = do
  dst ← load_address message data_at
  src ← load_address message (data_at + 6)
  in_port ← load16 message in_port_at
  table ← get_elem? st.base.l2tables i
  let table' = assign src (ntoh16 in_port) table
  let learned = record st.base { l2tables = set st.base.l2tables i table' }
  reply match_set ofconn message src dst (find dst table') (record st { base = learned })

-- LociLearningSwitch::event_callback; `none` is undefined behaviour or the abort.
unfoldable pub event_callback :
    (match_set : Bool) → ControllerEvent → LociSwitch → Option LociSwitch
event_callback match_set (packet_in ofconn version message) st = elim (get_l2table ofconn st.base) [
  | none ↦ some st
  | some i ↦ handle_packet_in match_set ofconn message i st
]
event_callback match_set (switch_up ofconn version) st =
    some (record st { base = base_event_callback (switch_up ofconn version) st.base })
event_callback match_set (switch_down ofconn version) st =
    some (record st { base = base_event_callback (switch_down ofconn version) st.base })

-- The events so far, the newest first.
unfoldable pub run : (match_set : Bool) → List ControllerEvent → Option LociSwitch
run match_set [] = some new_loci_switch
run match_set (e ∷ es) = run match_set es >>= event_callback match_set e
