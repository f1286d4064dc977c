-- ===== src/Learning/Forwarding.antt =====
-- Where MultiLearningSwitch sends packets (examples/controller/msg/MsgApps.hh).
use libfluid.Prelude.{
  Option, ◌++◌, ◌/◌, ◌≢◌, map, none, Bool-cases, append_assoc, ℕ, ◌+◌, ◌*◌, ◌%◌, ◌^◌, ◌≤◌, ◌≡◌,
  refl, ap, ◌∙◌, ◌⊎◌, inl, inr, true, some, List, [], ◌∷◌, arith, ◌==◌, ==_iff, length, get_elem?,
  get_elem?-lt, set, Option-cases, All, load8_total,
}
use libfluid.Learning.{
  OutPort, multipart_request_flow, any, Message, flow_mod10, flow_mod13, packet_out, flood, number,
  no_buffer, flood_packet, install_flow_mod10, install_flow_mod13, find, assign, PacketInLib, Frame,
  LearningSwitch, ControllerEvent, packet_in, switch_up, switch_down, get_l2table, load_address,
  read_frame, reply, handle_frame, event_callback, run, new_switch,
}
use libfluid.Learning.Seen.{
  heard, or_else, seen, learned, Knows, handle_frame_lem, frame-Knows, run-Knows,
}

-- After any sequence of events, of any connections in any order, the table of a connection has each
-- address at the port where the connection last saw it since it last came up or went down, and has
-- no other address.
pub find-seen :
    (lib : PacketInLib) (es : List ControllerEvent) (st : LearningSwitch) (c i : ℕ)
    (t : List (ℕ × ℕ)) (mac : ℕ)
    → run lib es ≡ some st
    → get_l2table c st ≡ some i
    → get_elem? st.l2tables i ≡ some t
    → find mac t ≡ seen lib c mac es
unfolding get_l2table
find-seen lib es st c i t mac r found there = (run-Knows lib es st r).holds c i t found there mac

-- Messages that take a frame, which came in on a port, to where its destination was last seen: to all ports
-- if nowhere, with the frame itself if it was not buffered, or by a flow from its source to its destination
-- out of that port, which names the frame's buffer; a flow of OpenFlow 1.3 is followed by a request for
-- the statistics of flows.
pub data IsDelivery (f : Frame) (port version : ℕ) : Option ℕ → List Message → Type 0 where
  floods :
      {xid max_len : ℕ} {payload : Option (List ℕ)}
      → (f.pi.buffer_id ≡ no_buffer → payload ≡ some f.pi.bytes)
      → IsDelivery f port version none
          (packet_out xid f.pi.buffer_id port payload flood max_len ∷ [])
  by_flow10 :
      {xid cookie idle hard priority out_port flags p max_len : ℕ}
      → version ≡ 1
      → IsDelivery f port version (some p) (
          flow_mod10 xid cookie idle hard priority f.pi.buffer_id out_port flags
            (f.src / 2 ^ 16)
            (f.dst / 2 ^ 16)
            (number p)
            max_len
          ∷ [])
  by_flow13 :
      {xid cookie mask table idle hard priority out_port group flags p max_len : ℕ}
      {type flags' table' cookie' mask' : ℕ} {out_port' group' : OutPort}
      → version ≢ 1
      → IsDelivery f port version (some p) (
          flow_mod13 xid cookie mask table idle hard priority f.pi.buffer_id out_port group flags
            (some (f.src / 2 ^ 16, f.dst / 2 ^ 16))
            (number p)
            max_len
          ∷ multipart_request_flow type flags' table' out_port' group' cookie' mask'
          ∷ [])

-- What has been sent since, on one connection.
abbrev pub HasSent : ℕ → List Message → LearningSwitch → LearningSwitch → Type 0
HasSent o ms st st' = st'.sent ≡ st.sent ++ map (λ m. (o, m)) ms

reply-IsDelivery :
    (o version port : ℕ) (f : Frame) (hit : Option ℕ) (st : LearningSwitch)
    → (ms : List Message) × IsDelivery f port version hit ms
      × HasSent o ms st (reply o version f port hit st)
unfolding reply flood_packet install_flow_mod10 install_flow_mod13
reply-IsDelivery o version port f none st =
    (_, floods (λ b. ground (arith, b, ==_iff f.pi.buffer_id no_buffer)), refl)
reply-IsDelivery o version port f (some p) st = elim (Bool-cases (version == 1)) [
  | inl ten ↦
      let ms : List Message =
        flow_mod10 f.pi.xid 123 5 10 100 f.pi.buffer_id 0 0 (f.src / 2 ^ 16) (f.dst / 2 ^ 16)
          (number p) 1024
        ∷ [] in
      (ms, by_flow10 ((==_iff version 1).0 ten), rw ten refl)
  | inr other ↦
      let differs : version ≢ 1 = λ e. ground (arith, e, other) in
      let flow =
        flow_mod13 f.pi.xid 123 0xffffffffffffffff 0 5 10 100 f.pi.buffer_id 0 0 0
          (some (f.src / 2 ^ 16, f.dst / 2 ^ 16)) (number p) 1024 in
      let statistics = multipart_request_flow 2 0 0 any any 0 0 in
      let ms : List Message = flow ∷ statistics ∷ [] in
      (
        ms,
        by_flow13 differs,
        rw other (append_assoc st.sent ((o, flow) ∷ []) ((o, statistics) ∷ [])),
      )
]

-- A packet in on a connection that has a table is answered by where the connection last saw its destination,
-- this packet's own source included: by a flow from its source to its destination out of that port, or, if
-- nowhere, by flooding it; and nothing else is sent, but a request for statistics after a flow of
-- OpenFlow 1.3.
pub event_callback-seen :
    (lib : PacketInLib) (es : List ControllerEvent) (st : LearningSwitch) (o i version port : ℕ)
    (message : List ℕ) (f : Frame)
    → run lib es ≡ some st
    → get_l2table o st ≡ some i
    → read_frame lib version message ≡ some f
    → f.pi.in_port ≡ some port
    → (ms : List Message) × IsDelivery f
        (port % 2 ^ 16)
        version
        (seen lib o f.dst (packet_in o version message ∷ es))
        ms
      × ((st' : LearningSwitch) × (event_callback lib (packet_in o version message) st ≡ some st')
          × HasSent o ms st st')
unfolding event_callback get_l2table
event_callback-seen lib es st o i version port message f r found read p =
    let k = run-Knows lib es st r in
    let hit : (o == o) ≡ true = (==_iff o o).1 refl in
    let (t, there) = get_elem?-lt st.l2tables i (k.inside o i found) in
    let table = assign f.src (port % 2 ^ 16) t in
    let latest : find f.dst table ≡ seen lib o f.dst (packet_in o version message ∷ es) =
      learned lib version message f port t f.dst read p
      ∙ ap (or_else (heard lib version message f.dst)) (k.holds o i t found there f.dst)
      ∙ rw hit refl in
    let st' = record st { l2tables = set st.l2tables i table } in
    let latest_seen = seen lib o f.dst (packet_in o version message ∷ es) in
    let (ms, delivery, sent) = reply-IsDelivery o version (port % 2 ^ 16) f latest_seen st' in
    let ran : handle_frame o version f i st
        ≡ some (reply o version f (port % 2 ^ 16) latest_seen st') =
      handle_frame_lem o version f i port t st p there
      ∙ ap (λ q. some (reply o version f (port % 2 ^ 16) q st')) latest in
    (
      ms,
      delivery,
      (reply o version f (port % 2 ^ 16) latest_seen st', ground (arith, found, read, ran), sent),
    )

-- A packet in whose version the switch reads, with both addresses in its bytes.
abbrev pub IsReadable : PacketInLib → ControllerEvent → Type 0
IsReadable lib (packet_in o version message) =
    ((version ≡ 1) × (12 ≤ length (lib.unpack10 message).bytes))
    ⊎ ((version ≡ 4) × (12 ≤ length (lib.unpack13 message).bytes))
IsReadable lib (switch_up o version) = Unit
IsReadable lib (switch_down o version) = Unit

pub load_address_total :
    (bytes : List ℕ) (off : ℕ)
    → off + 6 ≤ length bytes
    → (a : ℕ) × (load_address bytes off ≡ some a)
unfolding load_address
load_address_total bytes off h =
    let (a, p) = load8_total bytes off (omega arith) in
    let (b, q) = load8_total bytes (off + 1) (omega arith) in
    let (c, r) = load8_total bytes (off + 2) (omega arith) in
    let (d, s) = load8_total bytes (off + 3) (omega arith) in
    let (e, t) = load8_total bytes (off + 4) (omega arith) in
    let (f, u) = load8_total bytes (off + 5) (omega arith) in
    (
      a * 2 ^ 16 + b * 2 ^ 24 + c * 2 ^ 32 + d * 2 ^ 40 + e * 2 ^ 48 + f * 2 ^ 56,
      rw (p, q, r, s, t, u) refl,
    )

read_frame_total :
    (lib : PacketInLib) (o version : ℕ) (message : List ℕ)
    → IsReadable lib (packet_in o version message)
    → (f : Frame) × (read_frame lib version message ≡ some f)
unfolding read_frame
read_frame_total lib o version message (inl (v, h)) =
    let (dst, d) = load_address_total (lib.unpack10 message).bytes 0 (omega arith) in
    let (src, s) = load_address_total (lib.unpack10 message).bytes 6 (omega arith) in
    (record { dst = dst; src = src; pi = lib.unpack10 message }, rw (v, d, s) refl)
read_frame_total lib o version message (inr (v, h)) =
    let (dst, d) = load_address_total (lib.unpack13 message).bytes 0 (omega arith) in
    let (src, s) = load_address_total (lib.unpack13 message).bytes 6 (omega arith) in
    (record { dst = dst; src = src; pi = lib.unpack13 message }, rw (v, d, s) refl)

event_callback_total :
    (lib : PacketInLib) (e : ControllerEvent) (es : List ControllerEvent) (st : LearningSwitch)
    → IsReadable lib e
    → Knows lib es st
    → (st' : LearningSwitch) × (event_callback lib e st ≡ some st')
unfolding event_callback get_l2table
event_callback_total lib (packet_in o version message) es st h k =
    let (f, read) = read_frame_total lib o version message h in
    elim (Option-cases (find o st.application_data)) [
      | inl missing ↦ (st, rw (missing, event_callback, get_l2table) refl)
      | inr (i, found) ↦
          let (st', done, k') = frame-Knows lib o version message es st f i read found k in
          (st', rw (found, read, event_callback, get_l2table) done)
    ]
event_callback_total lib (switch_up o version) es st h k = (_, refl)
event_callback_total lib (switch_down o version) es st h k = (_, refl)

-- If every packet in is of version 1 or 4 and has both addresses in its bytes, the handlers run
-- through any sequence of events without undefined behaviour: no read is outside a packet, and no
-- connection points to a table that is not there.
pub run_total :
    (lib : PacketInLib) (es : List ControllerEvent)
    → All (IsReadable lib) es
    → (st : LearningSwitch) × (run lib es ≡ some st)
unfolding run
run_total lib [] h = (new_switch, refl)
run_total lib (e ∷ es) h =
    let (before, r) = run_total lib es h.1 in
    let (after, s) = event_callback_total lib e es before h.0 (run-Knows lib es before r) in
    (after, rw r s)
