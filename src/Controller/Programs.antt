-- ===== src/Controller/Programs.antt =====
-- The main programs examples/controller/loci/LociController.cc and
-- examples/controller/secure/SecureController.cc, and the controller of the Android application
-- (examples/android/jni/AndroidController.cc, over its copies of Controller.hh and MsgApps.hh): the servers
-- that they start, with the applications that they register. What is printed is left out.
use libfluid.Prelude.{ℕ, Bool, true, false, List, [], ◌∷◌, ◌++◌, ◌≡◌, refl}
use Prim.Native.String.{String}
use libfluid.Controller
use libfluid.Controller.{
  Controller, ConnectionEvent, started, established, failed_negotiation, closed, dead, Input,
  connection,
}
use libfluid.Controller.Apps.{registrations}
use libfluid.Controller.Main.{l2}

-- What the constructor of Controller hands to OFServer, and the registrations, the last first.
pub record Server : Type 0 where
  pub address : String
  pub port : ℕ
  pub n_workers : ℕ
  pub secure : Bool
  pub supported_versions : List ℕ
  pub registered : List Input

-- `Controller::Controller` of examples/controller/Controller.hh.
unfoldable pub new_server : String → ℕ → ℕ → Bool → List Input → Server
new_server address port n_workers secure registered = record {
  address = address;
  port = port;
  n_workers = n_workers;
  secure = secure;
  supported_versions = 4 ∷ [];
  registered = registered;
}

-- `main` of LociController.cc: the arguments change only what is printed.
unfoldable pub loci_main : List String → List Server
loci_main argv = new_server "0.0.0.0" 6653 4 false (registrations l2) ∷ []

-- `main` of SecureController.cc: a learning switch for each of the two servers.
abbrev pub safe_l2 : ℕ
safe_l2 = 3

unfoldable pub secure_main : List String → List Server
secure_main argv =
    new_server "127.0.0.1" 6654 2 false (registrations l2)
    ∷ new_server "127.0.0.1" 6653 1 true (registrations safe_l2)
    ∷ []

-- `Controller::Controller` of examples/android/jni/Controller.hh.
unfoldable pub new_android_server : String → ℕ → ℕ → Bool → List Input → Server
new_android_server address port n_workers secure registered = record {
  address = address;
  port = port;
  n_workers = n_workers;
  secure = secure;
  supported_versions = 1 ∷ 4 ∷ [];
  registered = registered;
}

-- `Java_com_cpqd_ofcontroller_Controller_startController`
unfoldable pub start_controller : (port nthreads : ℕ) → Server
start_controller port nthreads = new_android_server "0.0.0.0" port nthreads false (registrations l2)

-- An AndroidController, with the connections and events that it has logged.
pub record AndroidController : Type 0 where
  pub base : Controller
  pub log : List (ℕ × ConnectionEvent)

-- `AndroidController::connection_callback`: each of its five branches logs the event, and then the base
-- class is called.
unfoldable pub android_connection_callback :
    (ofconn version : ℕ) → ConnectionEvent → AndroidController → AndroidController
android_connection_callback ofconn version event c = record {
  base = Controller.connection_callback ofconn version event c.base;
  log = c.log ++ (ofconn, event) ∷ [];
}

-- The inputs so far, the newest first: an AndroidController handles all but the connections as its base
-- class does.
unfoldable pub android_run : List Input → AndroidController
android_run [] = record { base = Controller.new_controller; log = [] }
android_run (connection ofconn version event ∷ is) =
    android_connection_callback ofconn version event (android_run is)
android_run (i ∷ is) = let c = android_run is in record c { base = Controller.handle i c.base }

-- Logging changes nothing in the controller.
pub android_run-run : (is : List Input) → (android_run is).base ≡ Controller.run is
unfolding android_run android_connection_callback Controller.run Controller.handle
android_run-run [] = refl
android_run-run (Controller.Input.register app event_type ∷ is) = rw (android_run-run is) refl
android_run-run (Controller.Input.message ofconn version type owned bytes ∷ is) =
    rw (android_run-run is) refl
android_run-run (connection ofconn version event ∷ is) = rw (android_run-run is) refl
android_run-run (Controller.Input.stopped ∷ is) = rw (android_run-run is) refl
