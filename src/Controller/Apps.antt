-- ===== src/Controller/Apps.antt =====
-- The learning switch of examples/controller/msg/MsgApps.hh under the controller of
-- examples/controller/Controller.hh, as examples/controller/msg/MsgController.cc registers it.
use libfluid.Prelude.{
  ℕ, ◌≡◌, refl, sym, ap, ◌∙◌, true, Option, none, some, List, [], ◌∷◌, ◌++◌, inl, inr, ◌==◌, ==_iff,
  if◌then◌else◌, Option-cases, All, get_elem?, ◌>>=◌,
}
use libfluid.Learning
use libfluid.Learning.{
  PacketInLib, LearningSwitch, ControllerEvent, packet_in, switch_down, switch_up, new_switch,
  event_callback, get_l2table, find,
}
use libfluid.Learning.Seen.{seen}
use libfluid.Learning.Forwarding.{find-seen}
use libfluid.Controller
use libfluid.Controller.{get_type, Controller, Input, register, message, connection, stopped}
use libfluid.Controller.History.{registered, is_running, event_of, called, calls_for}
use libfluid.Controller.Dispatch.{run-Reached}

-- What the calls of a controller do to the application with an id, a learning switch; `none` is
-- undefined behaviour in one of them.
unfoldable pub serve :
    PacketInLib → ℕ → List (ℕ × ControllerEvent) → LearningSwitch → Option LearningSwitch
serve lib app [] st = some st
serve lib app ((a, ev) ∷ calls) st =
    (if a == app then event_callback lib ev st else some st) >>= serve lib app calls

-- Registered for a packet in, then for a switch that comes up, then for one that goes down.
abbrev pub registrations : ℕ → List Input
registrations app = register app 1 ∷ register app 2 ∷ register app 0 ∷ []

-- What happens once the applications are registered, until the controller stops.
abbrev pub IsTraffic : Input → Type 0
IsTraffic (register app event_type) = ⊥
IsTraffic (message ofconn version type owned bytes) = Unit
IsTraffic (connection ofconn version event) = Unit
IsTraffic stopped = ⊥

abbrev or_skip : Option ControllerEvent → List ControllerEvent → List ControllerEvent
or_skip none es = es
or_skip (some e) es = e ∷ es

-- The events of these inputs, the newest first.
abbrev pub events : List Input → List ControllerEvent
events [] = []
events (i ∷ is) = or_skip (event_of i) (events is)

serve-append :
    (lib : PacketInLib) (app : ℕ) (xs ys : List (ℕ × ControllerEvent)) (st : LearningSwitch)
    → serve lib app (xs ++ ys) st ≡ (serve lib app xs st >>= serve lib app ys)
unfolding serve
serve-append lib app [] ys st = refl
serve-append lib app ((a, ev) ∷ xs) ys st =
    elim (Option-cases (if a == app then event_callback lib ev st else some st)) [
      | inl fails ↦ rw fails refl
      | inr (st', done) ↦ rw done (serve-append lib app xs ys st')
    ]

traffic_running :
    (app : ℕ) (js : List Input) → All IsTraffic js → is_running (js ++ registrations app) ≡ true
traffic_running app [] h = refl
traffic_running app (register a t ∷ js) h = absurd h.0
traffic_running app (message o v t p bytes ∷ js) h = traffic_running app js h.1
traffic_running app (connection o v event ∷ js) h = traffic_running app js h.1
traffic_running app (stopped ∷ js) h = absurd h.0

traffic_registered :
    (app : ℕ) (js : List Input) (ev : ControllerEvent)
    → All IsTraffic js
    → registered (get_type ev) (js ++ registrations app) ≡ app ∷ []
traffic_registered app [] (packet_in o v m) h = refl
traffic_registered app [] (switch_down o v) h = refl
traffic_registered app [] (switch_up o v) h = refl
traffic_registered app (register a t ∷ js) ev h = absurd h.0
traffic_registered app (message o v t p bytes ∷ js) ev h = traffic_registered app js ev h.1
traffic_registered app (connection o v event ∷ js) ev h = traffic_registered app js ev h.1
traffic_registered app (stopped ∷ js) ev h = absurd h.0

serve_one :
    (lib : PacketInLib) (app : ℕ) (ev : ControllerEvent) (st : LearningSwitch)
    → serve lib app ((app, ev) ∷ []) st ≡ event_callback lib ev st
unfolding serve
serve_one lib app ev st =
    let hit : (app == app) ≡ true = (==_iff app app).1 refl in
    elim (Option-cases (event_callback lib ev st)) [
      | inl fails ↦ rw (hit, fails) refl
      | inr (st', done) ↦ rw (hit, done) refl
    ]

serve_next :
    (lib : PacketInLib) (app : ℕ) (js : List Input) (e : Option ControllerEvent)
    → All IsTraffic js
    → (Learning.run lib (events js) >>= serve lib app (calls_for e (js ++ registrations app)))
      ≡ Learning.run lib (or_skip e (events js))
unfolding serve Learning.run
serve_next lib app js none h = elim (Option-cases (Learning.run lib (events js))) [
  | inl fails ↦ rw fails refl
  | inr (st, ran) ↦ rw ran refl
]
serve_next lib app js (some ev) h =
    let calls : calls_for (some ev) (js ++ registrations app) ≡ (app, ev) ∷ [] =
      rw (traffic_running app js h, traffic_registered app js ev h) refl in
    rw calls (elim (Option-cases (Learning.run lib (events js))) [
      | inl fails ↦ rw fails refl
      | inr (st, ran) ↦ rw ran (serve_one lib app ev st)
    ])

served :
    (lib : PacketInLib) (app : ℕ) (js : List Input)
    → All IsTraffic js
    → serve lib app (called (js ++ registrations app)) new_switch ≡ Learning.run lib (events js)
unfolding serve Learning.run
served lib app [] h = refl
served lib app (i ∷ js) h =
    serve-append lib app (called (js ++ registrations app))
      (calls_for (event_of i) (js ++ registrations app)) new_switch
    ∙ ap (λ r. r >>= serve lib app (calls_for (event_of i) (js ++ registrations app)))
        (served lib app js h.1)
    ∙ serve_next lib app js (event_of i) h.1

-- A learning switch that is registered for the three types of events before anything else, alone, comes
-- through whatever messages and connection changes follow as the run of its own handler on the events
-- that they make: it sees each packet in, features reply and lost connection once, in order, and no other.
pub serve-run :
    (lib : PacketInLib) (app : ℕ) (js : List Input)
    → All IsTraffic js
    → serve lib app (Controller.run (js ++ registrations app)).calls new_switch
      ≡ Learning.run lib (events js)
serve-run lib app js h =
    ap (λ calls. serve lib app calls new_switch) (run-Reached (js ++ registrations app)).calls
    ∙ served lib app js h

-- A learning switch that is registered for the three types of events before anything else, alone,
-- and handles whatever messages and connection changes follow without undefined behaviour, has in
-- its table for a connection each address at the port where a packet in last had it since the
-- connection's last features reply or loss, and no other address.
pub serve-seen :
    (lib : PacketInLib) (app : ℕ) (js : List Input) (st : LearningSwitch) (c i : ℕ)
    (t : List (ℕ × ℕ)) (mac : ℕ)
    → All IsTraffic js
    → serve lib app (Controller.run (js ++ registrations app)).calls new_switch ≡ some st
    → get_l2table c st ≡ some i
    → get_elem? st.l2tables i ≡ some t
    → find mac t ≡ seen lib c mac (events js)
serve-seen lib app js st c i t mac h ran found there =
    find-seen lib (events js) st c i t mac (sym (serve-run lib app js h) ∙ ran) found there
