-- ===== src/Controller/History.antt =====
-- What a history of examples/controller/Controller.hh should come to: its events, calls and frees.
use libfluid.Prelude.{
  ℕ, Bool, true, false, Option, none, some, List, [], ◌∷◌, ◌++◌, map, ◌==◌, if◌then◌else◌,
}
use libfluid.Learning.{ControllerEvent, packet_in, switch_down, switch_up}
use libfluid.Controller.{
  get_type, started, established, failed_negotiation, closed, dead, Input, register, message,
  connection, stopped,
}

-- The applications that registered for a type of event, in the order of their registrations.
abbrev pub registered : ℕ → List Input → List ℕ
registered t [] = []
registered t (register app event_type ∷ is) =
    let rest = registered t is in if event_type == t then rest ++ app ∷ [] else rest
registered t (message ofconn version type owned bytes ∷ is) = registered t is
registered t (connection ofconn version event ∷ is) = registered t is
registered t (stopped ∷ is) = registered t is

-- Nothing has stopped the controller.
abbrev pub is_running : List Input → Bool
is_running [] = true
is_running (register app event_type ∷ is) = is_running is
is_running (message ofconn version type owned bytes ∷ is) = is_running is
is_running (connection ofconn version event ∷ is) = is_running is
is_running (stopped ∷ is) = false

-- The event that an input makes: packets in, features replies, and connections that end.
abbrev pub event_of : Input → Option ControllerEvent
event_of (register app event_type) = none
event_of (message ofconn version type owned bytes) =
    if type == 10
    then some (packet_in ofconn version bytes)
    else if type == 6
    then some (switch_up ofconn version)
    else none
event_of (connection ofconn version closed) = some (switch_down ofconn version)
event_of (connection ofconn version dead) = some (switch_down ofconn version)
event_of (connection ofconn version started) = none
event_of (connection ofconn version established) = none
event_of (connection ofconn version failed_negotiation) = none
event_of stopped = none

-- The calls for an event after a history.
abbrev pub calls_for : Option ControllerEvent → List Input → List (ℕ × ControllerEvent)
calls_for none is = []
calls_for (some ev) is =
    if is_running is then map (λ app. (app, ev)) (registered (get_type ev) is) else []

-- All calls of applications: each event, while the controller runs, goes once to each registration for its type.
abbrev pub called : List Input → List (ℕ × ControllerEvent)
called [] = []
called (i ∷ is) = called is ++ calls_for (event_of i) is

-- The data that an input hands to an event.
abbrev pub owned_by : Input → List ℕ
owned_by (register app event_type) = []
owned_by (message ofconn version type owned bytes) =
    if type == 10 then owned ∷ [] else if type == 6 then owned ∷ [] else []
owned_by (connection ofconn version event) = []
owned_by stopped = []

abbrev pub owned : List Input → List ℕ
owned [] = []
owned (i ∷ is) = owned is ++ owned_by i
