-- ===== src/Learning/Raw/Total.antt =====
-- When RawLearningSwitch stays in its buffers (examples/controller/raw/RawApps.hh).
use libfluid.Prelude.{
  ℕ, ◌+◌, ◌^◌, ◌<◌, ◌≤◌, ◌≡◌, refl, Option, none, some, List, [], ◌∷◌, ◌++◌, inl, inr, arith,
  length, get_elem?-lt, set, Option-cases, All, load16, load16_total, load32_total, ntoh16, memcpy,
  overwrite,
}
use libfluid.Learning.{
  find, assign, ControllerEvent, packet_in, switch_up, switch_down, base_event_callback,
  get_l2table, new_switch,
}
use libfluid.Learning.Forwarding.{load_address_total}
use libfluid.Learning.Tables.{Owns, Owns-set, Owns-new}
use libfluid.Learning.Raw.{
  RawSwitch, new_raw_switch, send, total_len_at, in_port_at, data_at, header_bytes, match_bytes,
  address_bytes, output_bytes, flow_mod_bytes, install_flow_mod, flood, reply, handle_packet_in,
  event_callback, run,
}
use libfluid.Learning.Raw.Flood.{flood_bytes_iff}

-- A packet in with its fixed part and both addresses, whose packet is no longer than the message and
-- than a PACKET_OUT can be.
pub record IsWhole (message : List ℕ) : Type 0 where
  pub long : 30 ≤ length message
  pub fits : (raw : ℕ) → load16 message total_len_at ≡ some raw → 24 + ntoh16 raw < 2 ^ 16
  pub inside : (raw : ℕ) → load16 message total_len_at ≡ some raw → ntoh16 raw ≤ length message

abbrev pub IsSafe : ControllerEvent → Type 0
IsSafe (packet_in o version message) = IsWhole message
IsSafe (switch_up o version) = Unit
IsSafe (switch_down o version) = Unit

-- Each connection with a table has one of its own in the list.
abbrev HasTables : RawSwitch → Type 0
HasTables st = Owns st.base.l2tables st.base.application_data (λ c t. Unit)

reply_total :
    (o : ℕ) (message : List ℕ) (src dst : ℕ) (hit : Option ℕ) (st : RawSwitch)
    → IsWhole message
    → (raw : List ℕ) × (reply o message src dst hit st ≡ some (send o raw st))
unfolding reply flood install_flow_mod memcpy overwrite flow_mod_bytes header_bytes match_bytes
    address_bytes output_bytes
reply_total o message src dst none st h =
    let long = h.long in
    let (raw_len, len) = load16_total message total_len_at (omega arith) in
    let (raw, made) =
      (flood_bytes_iff message raw_len (omega arith) len).1
        (h.fits raw_len len, h.inside raw_len len) in
    (raw, rw made refl)
reply_total o message src dst (some p) st h =
    let long = h.long in
    let (xid, x) = load32_total message 4 (omega arith) in
    let (buffer_id, b) = load32_total message 8 (omega arith) in
    (flow_mod_bytes xid buffer_id src dst ++ output_bytes p, rw (x, b) refl)

handle_total :
    (o i : ℕ) (message : List ℕ) (st : RawSwitch)
    → IsWhole message
    → find o st.base.application_data ≡ some i
    → HasTables st
    → (st' : RawSwitch) × (handle_packet_in o message i st ≡ some st') × HasTables st'
unfolding handle_packet_in
handle_total o i message st h found own =
    let long = h.long in
    let (dst, d) = load_address_total message data_at (omega arith) in
    let (src, s) = load_address_total message (data_at + 6) (omega arith) in
    let (in_port, p) = load16_total message in_port_at (omega arith) in
    let (table, t) = get_elem?-lt st.base.l2tables i (own.inside o i found) in
    let table' = assign src (ntoh16 in_port) table in
    let learned = record st {
      base = record st.base { l2tables = set st.base.l2tables i table' };
    } in
    let (raw, replied) = reply_total o message src dst (find dst table') learned h in
    (
      send o raw learned,
      rw (d, s, p, t, replied) refl,
      Owns-set st.base.l2tables st.base.application_data _ _ o i table' found tt (λ c u n k. tt)
          own,
    )

event_callback_total :
    (e : ControllerEvent) (st : RawSwitch)
    → IsSafe e
    → HasTables st
    → (st' : RawSwitch) × (event_callback e st ≡ some st') × HasTables st'
unfolding event_callback base_event_callback get_l2table
event_callback_total (packet_in o version message) st h own =
    elim (Option-cases (find o st.base.application_data)) [
      | inl missing ↦ (st, rw (missing, event_callback, get_l2table) refl, own)
      | inr (i, found) ↦
          let (st', handled, own') = handle_total o i message st h found own in
          (st', rw (found, handled, event_callback, get_l2table) refl, own')
    ]
event_callback_total (switch_up o version) st h own =
    (_, refl, Owns-new st.base.l2tables st.base.application_data _ _ o [] tt (λ c u n k. tt) own)
event_callback_total (switch_down o version) st h own =
    elim (Option-cases (find o st.base.application_data)) [
      | inl missing ↦ (st, rw (missing, event_callback, base_event_callback, get_l2table) refl, own)
      | inr (i, found) ↦ (
        record st { base = record st.base { l2tables = set st.base.l2tables i [] } },
        rw (found, event_callback, base_event_callback, get_l2table) refl,
        Owns-set st.base.l2tables st.base.application_data _ _ o i [] found tt (λ c u n k. tt) own,
      )
    ]

run-HasTables :
    (es : List ControllerEvent)
    → All IsSafe es
    → (st : RawSwitch) × (run es ≡ some st) × HasTables st
unfolding run new_raw_switch new_switch find
run-HasTables [] h = (
  new_raw_switch,
  refl,
  record {
    inside = λ c i e. absurd (ground (arith, e));
    apart = λ c d i e f. absurd (ground (arith, e));
    holds = λ c i t e f. tt;
  },
)
run-HasTables (e ∷ es) h =
    let (before, ran, own) = run-HasTables es h.1 in
    let (after, handled, own') = event_callback_total e before h.0 own in
    (after, rw ran handled, own')

-- If every packet in holds its fixed part and both addresses, and names a length of the packet that is
-- less than 65512 and not more than the message has, no handler leaves its buffers in any sequence of
-- events.
pub raw_run_total :
    (es : List ControllerEvent) → All IsSafe es → (st : RawSwitch) × (run es ≡ some st)
raw_run_total es h = let (st, ran, own) = run-HasTables es h in (st, ran)
