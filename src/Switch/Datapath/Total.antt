-- ===== src/Switch/Datapath/Total.antt =====
-- Every history of events that the switch of examples/switch may expect is handled without undefined
-- behaviour.
use libfluid.Prelude.{ℕ, ◌<◌, ◌≡◌, refl, some, List, [], ◌∷◌, arith}
use libfluid.Switch.Flow.{MsgLib}
use libfluid.Switch.State.{Datapath, M, ◌>>◌, pure, init}
use libfluid.Switch.Datapath.Safe.{IsTame, Serves}
use libfluid.Switch.Datapath.Served.{DatapathEvent, handle, IsExpected, handle-Serves}

-- A history of events, from a state on: each is expected where it comes, and does what it does.
pub data History (lib : MsgLib) (n : ℕ) : List DatapathEvent → Datapath → Type 0 where
  done : {d : Datapath} → History lib n [] d
  then_event :
      {d : Datapath} {e : DatapathEvent} {es : List DatapathEvent}
      → IsExpected lib n e d
      → ((d' : Datapath) → handle lib e d ≡ some (tt, d') → History lib n es d')
      → History lib n (e ∷ es) d

abbrev pub handle_all : MsgLib → List DatapathEvent → M (Unit {0})
handle_all lib [] = pure tt
handle_all lib (e ∷ es) = handle lib e >> handle_all lib es

handle_all-Serves :
    (lib : MsgLib) (n : ℕ) (es : List DatapathEvent) (d : Datapath)
    → n < 0xff00
    → IsTame n d
    → History lib n es d
    → Serves n (handle_all lib es) d
handle_all-Serves lib n [] d fits t done = record { after = d; returns = refl; tame = t }
handle_all-Serves lib n (e ∷ es) d fits t (then_event h later) =
    let s = handle-Serves lib n fits e d t h in
    let rest = handle_all-Serves lib n es s.after fits s.tame (later s.after s.returns) in
    record {
      after = rest.after;
      returns = ground (arith, s.returns, rest.returns);
      tame = rest.tame;
    }

-- A switch that starts with fewer than 0xff00 ports handles every history of events without undefined
-- behaviour, and ends with a table whose flows send to its ports only, if what the controller asks for
-- is fit where it comes: barriers while it is connected, flows and packets with actions that send to
-- ports only, and for a packet in the buffer an id whose packet is there, was captured on a port, and has
-- bytes that may still be read, whatever they have become in the memory of libpcap.
pub handle_all_total :
    (lib : MsgLib) (n : ℕ) (es : List DatapathEvent)
    → n < 0xff00
    → History lib n es (init n)
    → Serves n (handle_all lib es) (init n)
unfolding init
handle_all_total lib n es fits h =
    handle_all-Serves lib n es (init n) fits (record { ports = refl; flows = tt }) h
