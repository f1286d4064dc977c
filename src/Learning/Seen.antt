-- ===== src/Learning/Seen.antt =====
-- What MultiLearningSwitch knows (examples/controller/msg/MsgApps.hh), against the events so far: where
-- an address was last seen on a connection.
use libfluid.Prelude.{
  get_elem?, ℕ, ◌%◌, ◌^◌, ◌≡◌, ◌≢◌, refl, ap, ◌∙◌, subst, inl, inr, true, false, Option, none, some,
  List, [], ◌∷◌, arith, ◌==◌, ==_iff, if◌then◌else◌, get_elem?-lt, set, Bool-cases, Option-cases,
  ◌>>=◌,
}
use libfluid.Learning.{
  L2Table, find, assign, PacketInLib, Frame, LearningSwitch, new_switch, ControllerEvent, packet_in,
  switch_up, switch_down, get_l2table, base_event_callback, read_frame, flood_packet,
  install_flow_mod10, install_flow_mod13, install_default_flow13, reply, handle_frame,
  event_callback, run,
}
use libfluid.Learning.Tables.{find-assign, Owns, Owns-other, Owns-set, Owns-new}

-- The port that a packet was seen on, if it is from this address.
abbrev pub heard : PacketInLib → ℕ → List ℕ → ℕ → Option ℕ
heard lib version message mac = read_frame lib version message >>= λ f.
    f.pi.in_port >>= λ port. if f.src == mac then some (port % 2 ^ 16) else none

abbrev pub or_else : Option ℕ → Option ℕ → Option ℕ
or_else none rest = rest
or_else (some p) rest = some p

-- The port on which an address was last seen on a connection, since the connection last came up or
-- went down; the newest event is first.
abbrev pub seen : PacketInLib → ℕ → ℕ → List ControllerEvent → Option ℕ
seen lib c mac [] = none
seen lib c mac (packet_in o version message ∷ es) =
    let rest = seen lib c mac es in
    if o == c then or_else (heard lib version message mac) rest else rest
seen lib c mac (switch_up o version ∷ es) =
    let rest = seen lib c mac es in if o == c then none else rest
seen lib c mac (switch_down o version ∷ es) =
    let rest = seen lib c mac es in if o == c then none else rest

-- A table that has each address where it was last seen.
abbrev pub Agrees : PacketInLib → List ControllerEvent → ℕ → L2Table → Type 0
Agrees lib es c t = (mac : ℕ) → find mac t ≡ seen lib c mac es

abbrev pub Knows : PacketInLib → List ControllerEvent → LearningSwitch → Type 0
Knows lib es st = Owns st.l2tables st.application_data (Agrees lib es)

-- An event of one connection tells nothing about another.
abbrev connection : ControllerEvent → ℕ
connection (packet_in o version message) = o
connection (switch_up o version) = o
connection (switch_down o version) = o

seen-other :
    (lib : PacketInLib) (e : ControllerEvent) (es : List ControllerEvent) (c : ℕ) (t : L2Table)
    → c ≢ connection e
    → Agrees lib es c t
    → Agrees lib (e ∷ es) c t
seen-other lib (packet_in o version message) es c t d h mac =
    let miss : (o == c) ≡ false = ground (arith, d) in h mac ∙ rw miss refl
seen-other lib (switch_up o version) es c t d h mac =
    let miss : (o == c) ≡ false = ground (arith, d) in h mac ∙ rw miss refl
seen-other lib (switch_down o version) es c t d h mac =
    let miss : (o == c) ≡ false = ground (arith, d) in h mac ∙ rw miss refl

up-Knows :
    (lib : PacketInLib) (o version : ℕ) (es : List ControllerEvent) (st : LearningSwitch)
    → Knows lib es st
    → Knows lib (switch_up o version ∷ es) (base_event_callback (switch_up o version) st)
unfolding base_event_callback find
up-Knows lib o version es st h =
    let hit : (o == o) ≡ true = (==_iff o o).1 refl in
    Owns-new st.l2tables st.application_data (Agrees lib es) _ o [] (λ mac. rw hit refl)
      (seen-other lib (switch_up o version) es) h

down-Knows :
    (lib : PacketInLib) (o version : ℕ) (es : List ControllerEvent) (st : LearningSwitch)
    → Knows lib es st
    → Knows lib (switch_down o version ∷ es) (base_event_callback (switch_down o version) st)
unfolding base_event_callback get_l2table find
down-Knows lib o version es st h =
    let hit : (o == o) ≡ true = (==_iff o o).1 refl in
    let others = seen-other lib (switch_down o version) es in
    elim (Option-cases (find o st.application_data)) [
      | inl missing ↦
          rw (missing, base_event_callback, get_l2table)
            (Owns-other st.l2tables st.application_data (Agrees lib es) _ o missing others h)
      | inr (i, found) ↦
          rw (found, base_event_callback, get_l2table)
            (Owns-set st.l2tables st.application_data (Agrees lib es) _ o i [] found
              (λ mac. rw hit refl) others h)
    ]

-- A reply sends, and changes no table.
pub reply_tables :
    (o version : ℕ) (f : Frame) (port : ℕ) (r : Option ℕ) (st : LearningSwitch)
    → ((reply o version f port r st).l2tables ≡ st.l2tables)
      × ((reply o version f port r st).application_data ≡ st.application_data)
unfolding reply flood_packet install_flow_mod10 install_flow_mod13
reply_tables o version f port none st = (refl, refl)
reply_tables o version f port (some p) st = (ground arith, ground arith)

pub learned :
    (lib : PacketInLib) (version : ℕ) (message : List ℕ) (f : Frame) (port : ℕ) (t : L2Table)
    (mac : ℕ)
    → read_frame lib version message ≡ some f
    → f.pi.in_port ≡ some port
    → find mac (assign f.src (port % 2 ^ 16) t)
      ≡ or_else (heard lib version message mac) (find mac t)
learned lib version message f port t mac e p =
    find-assign f.src (port % 2 ^ 16) mac t
    ∙ rw (e, p)
        (elim (Bool-cases (f.src == mac)) [ inl hit ↦ rw hit refl | inr miss ↦ rw miss refl ])

unheard :
    (lib : PacketInLib) (version : ℕ) (message : List ℕ) (f : Frame) (mac : ℕ)
    → read_frame lib version message ≡ some f
    → f.pi.in_port ≡ none
    → heard lib version message mac ≡ none
unheard lib version message f mac e p = rw (e, p) refl

-- What the handler does with a table.
pub handle_frame_lem :
    (o version : ℕ) (f : Frame) (i port : ℕ) (t : List (ℕ × ℕ)) (st : LearningSwitch)
    → f.pi.in_port ≡ some port
    → get_elem? st.l2tables i ≡ some t
    → handle_frame o version f i st
      ≡ some (
          reply o version f
            (port % 2 ^ 16)
            (find f.dst (assign f.src (port % 2 ^ 16) t))
            (record st { l2tables = set st.l2tables i (assign f.src (port % 2 ^ 16) t) }))
unfolding handle_frame
handle_frame_lem o version f i port t st p there = ground (arith, p, there)

pub frame-Knows :
    (lib : PacketInLib) (o version : ℕ) (message : List ℕ) (es : List ControllerEvent)
    (st : LearningSwitch) (f : Frame) (i : ℕ)
    → read_frame lib version message ≡ some f
    → find o st.application_data ≡ some i
    → Knows lib es st
    → (st' : LearningSwitch) × (handle_frame o version f i st ≡ some st')
      × Knows lib (packet_in o version message ∷ es) st'
unfolding handle_frame
frame-Knows lib o version message es st f i e found h =
    let hit : (o == o) ≡ true = (==_iff o o).1 refl in
    let others = seen-other lib (packet_in o version message) es in
    let (t, there) = get_elem?-lt st.l2tables i (h.inside o i found) in
    let agrees = h.holds o i t found there in
    elim (Option-cases f.pi.in_port) [
      | inl silent ↦ (
        st,
        rw (silent, handle_frame) refl,
        record {
          inside = h.inside;
          apart = h.apart;
          holds = λ c j u k g mac. elim (Bool-cases (o == c)) [
            | inl same ↦
                h.holds c j u k g mac ∙ rw (same, unheard lib version message f mac e silent) refl
            | inr miss ↦ h.holds c j u k g mac ∙ rw miss refl
          ];
        },
      )
      | inr (port, p) ↦
          let table = assign f.src (port % 2 ^ 16) t in
          let st' = record st { l2tables = set st.l2tables i table } in
          let (tables, owners) = reply_tables o version f (port % 2 ^ 16) (find f.dst table) st' in
          (
            reply o version f (port % 2 ^ 16) (find f.dst table) st',
            handle_frame_lem o version f i port t st p there,
            (rw (tables, owners)
                (Owns-set st.l2tables st.application_data (Agrees lib es) _ o i table found
                  (λ mac.
                    learned lib version message f port t mac e p
                    ∙ ap (or_else (heard lib version message mac)) (agrees mac)
                    ∙ rw hit refl)
                  others h)),
          )
    ]

packet_in-Knows :
    (lib : PacketInLib) (o version : ℕ) (message : List ℕ) (es : List ControllerEvent)
    (st st' : LearningSwitch)
    → event_callback lib (packet_in o version message) st ≡ some st'
    → Knows lib es st
    → Knows lib (packet_in o version message ∷ es) st'
unfolding event_callback get_l2table
packet_in-Knows lib o version message es st st' e h =
    elim (Option-cases (find o st.application_data)) [
      | inl missing ↦
          let same : st ≡ st' = ground (arith, missing) in
          subst (Knows lib (packet_in o version message ∷ es)) same (
            Owns-other st.l2tables st.application_data (Agrees lib es) _ o missing
              (seen-other lib (packet_in o version message) es) h)
      | inr (i, found) ↦ elim (Option-cases (read_frame lib version message)) [
        | inl unread ↦ absurd (ground (arith, found, unread))
        | inr (f, read) ↦
            let (after, done, k) = frame-Knows lib o version message es st f i read found h in
            let same : after ≡ st' = ground (arith, found, read, done) in
            subst (Knows lib (packet_in o version message ∷ es)) same k
      ]
    ]

event_callback-Knows :
    (lib : PacketInLib) (e : ControllerEvent) (es : List ControllerEvent) (st st' : LearningSwitch)
    → event_callback lib e st ≡ some st'
    → Knows lib es st
    → Knows lib (e ∷ es) st'
unfolding event_callback install_default_flow13
event_callback-Knows lib (packet_in o version message) es st st' e h =
    packet_in-Knows lib o version message es st st' e h
event_callback-Knows lib (switch_up o version) es st st' e h =
    let up = base_event_callback (switch_up o version) st in
    let tables : up.l2tables ≡ st'.l2tables = ground arith in
    let owners : up.application_data ≡ st'.application_data = ground arith in
    let k = up-Knows lib o version es st h in
    subst (λ t. Owns t st'.application_data (Agrees lib (switch_up o version ∷ es))) tables
      (subst (λ d. Owns up.l2tables d (Agrees lib (switch_up o version ∷ es))) owners k)
event_callback-Knows lib (switch_down o version) es st st' e h =
    let same : base_event_callback (switch_down o version) st ≡ st' = ground arith in
    subst (Knows lib (switch_down o version ∷ es)) same (down-Knows lib o version es st h)

pub run-Knows :
    (lib : PacketInLib) (es : List ControllerEvent) (st : LearningSwitch)
    → run lib es ≡ some st
    → Knows lib es st
unfolding run new_switch find
run-Knows lib [] st e =
    let same : new_switch ≡ st = ground arith in
    subst (Knows lib []) same (record {
      inside = λ c i k. absurd (ground arith);
      apart = λ c d i k l. absurd (ground arith);
      holds = λ c i t k g. absurd (ground arith);
    })
run-Knows lib (e ∷ es) st h = elim (Option-cases (run lib es)) [
  | inl stuck ↦ absurd (ground (arith, stuck))
  | inr (before, r) ↦
      event_callback-Knows lib e es before st (ground (arith, r)) (run-Knows lib es before r)
]
