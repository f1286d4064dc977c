-- ===== src/Controller.antt =====
-- class Controller of examples/controller/Controller.hh: the applications that listen, and how the
-- callbacks of OFServer become events for them. An application is the id of its object, and the data of a
-- message is a pointer that the event owns and frees.
pub mod History
pub mod Dispatch
pub mod Apps
pub mod Main
pub mod Programs
pub mod Tests
use libfluid.Prelude.{
  ℕ, Bool, true, false, Option, none, some, List, [], ◌∷◌, ◌++◌, map, ◌==◌, if◌then◌else◌,
}
use libfluid.Learning.{ControllerEvent, packet_in, switch_down, switch_up}

-- `get_type`, by the constructors: EVENT_PACKET_IN, EVENT_SWITCH_DOWN and EVENT_SWITCH_UP.
abbrev pub get_type : ControllerEvent → ℕ
get_type (packet_in ofconn version message) = 0
get_type (switch_down ofconn version) = 1
get_type (switch_up ofconn version) = 2

-- `OFConnection::Event`
pub data ConnectionEvent : Type 0 where
  started established failed_negotiation closed dead : ConnectionEvent

-- The calls of `event_callback` so far and the data freed so far, each in order.
pub record Controller : Type 0 where
  pub event_listeners : List (ℕ × List ℕ)
  pub running : Bool
  pub calls : List (ℕ × ControllerEvent)
  pub freed : List ℕ

unfoldable pub new_controller : Controller
new_controller = record { event_listeners = []; running = true; calls = []; freed = [] }

-- `event_listeners[t]`
unfoldable pub listeners : ℕ → List (ℕ × List ℕ) → List ℕ
listeners t [] = []
listeners t ((u, apps) ∷ m) = if u == t then apps else listeners t m

-- `event_listeners[t].push_back(app)`
unfoldable pub push_back : ℕ → ℕ → List (ℕ × List ℕ) → List (ℕ × List ℕ)
push_back t app [] = (t, app ∷ []) ∷ []
push_back t app ((u, apps) ∷ m) =
    if u == t then (u, apps ++ app ∷ []) ∷ m else (u, apps) ∷ push_back t app m

unfoldable pub register_for_event : (app event_type : ℕ) → Controller → Controller
register_for_event app event_type c = record c {
  event_listeners = push_back event_type app c.event_listeners;
}

unfoldable pub stop : Controller → Controller
stop c = record c { running = false }

-- `delete ev`: the data of a packet in or a features reply is freed with it.
unfoldable pub delete_event : Option ℕ → Controller → Controller
delete_event none c = c
delete_event (some owned) c = record c { freed = c.freed ++ owned ∷ [] }

unfoldable pub call_listeners : ControllerEvent → Controller → Controller
call_listeners ev c = record c {
  calls = c.calls ++ map (λ app. (app, ev)) (listeners (get_type ev) c.event_listeners);
}

unfoldable pub dispatch_event : ControllerEvent → Option ℕ → Controller → Controller
dispatch_event ev owned c =
    if c.running then delete_event owned (call_listeners ev c) else delete_event owned c

-- For the version that the connection negotiated, and the pointer and the bytes of the message.
unfoldable pub message_callback : (ofconn version type owned : ℕ) → List ℕ → Controller → Controller
message_callback ofconn version type owned message c =
    if type == 10
    then dispatch_event (packet_in ofconn version message) (some owned) c
    else if type == 6
    then dispatch_event (switch_up ofconn version) (some owned) c
    else c

unfoldable pub connection_callback :
    (ofconn version : ℕ) → ConnectionEvent → Controller → Controller
connection_callback ofconn version closed c = dispatch_event (switch_down ofconn version) none c
connection_callback ofconn version dead c = dispatch_event (switch_down ofconn version) none c
connection_callback ofconn version started c = c
connection_callback ofconn version established c = c
connection_callback ofconn version failed_negotiation c = c

-- What happens to a controller.
pub data Input : Type 0 where
  register : (app event_type : ℕ) → Input
  message : (ofconn version type owned : ℕ) (bytes : List ℕ) → Input
  connection : (ofconn version : ℕ) (event : ConnectionEvent) → Input
  stopped : Input

unfoldable pub handle : Input → Controller → Controller
handle (register app event_type) c = register_for_event app event_type c
handle (message ofconn version type owned bytes) c =
    message_callback ofconn version type owned bytes c
handle (connection ofconn version event) c = connection_callback ofconn version event c
handle stopped c = stop c

-- The inputs so far, the newest first.
unfoldable pub run : List Input → Controller
run [] = new_controller
run (i ∷ is) = handle i (run is)
