-- ===== src/Switch/Device/Whole.antt =====
-- What holds of the datapath of a whole switch (examples/switch/Switch.hh).
use libfluid.Prelude.{ℕ, ◌≡◌, subst, some, List, [], ◌∷◌, arith, bind-some}
use libfluid.Client
use libfluid.Client.{
  Settings, Libfluid, Action, send, close, start_echoes, delete_connection, connection_callback,
  message_callback, free_data, Event, started, established, failed_negotiation, closed, dead,
}
use libfluid.Switch.Flow.{MsgLib}
use libfluid.Switch.State.{init}
use libfluid.Switch.Datapath
use libfluid.Switch.Datapath.{packet_handler}
use libfluid.Switch.Datapath.Invariant.{Inv}
use libfluid.Switch.Datapath.Handlers
use libfluid.Switch.Datapath.Handlers.{
  message, capture, connection, Reach, here, next, Reach-init-Inv,
}
use libfluid.Switch.Device.{
  Device, new_device, is_up, on_event, react, react_all, DeviceInput, client_input, captured,
  reused, step, run,
}

-- The datapath of this device is one that the datapath of a new switch comes to.
abbrev IsReached : MsgLib → ℕ → Device → Type 0
IsReached lib n d = Reach lib (init n) d.datapath

same_after : {a b : Device} → some a ≡ some b → a ≡ b
same_after e = ground (arith, e)

on_event-IsReached :
    (lib : MsgLib) (n : ℕ) (e : Event) (d : Device)
    → IsReached lib n d
    → IsReached lib n (on_event e d)
unfolding on_event
on_event-IsReached lib n closed d h = h
on_event-IsReached lib n started d h = h
on_event-IsReached lib n established d h = h
on_event-IsReached lib n failed_negotiation d h = h
on_event-IsReached lib n dead d h = h

react-IsReached :
    (lib : MsgLib) (n : ℕ) (a : Action) (d d' : Device)
    → react lib a d ≡ some d'
    → IsReached lib n d
    → IsReached lib n d'
unfolding react
react-IsReached lib n (message_callback type bytes) d d' e h =
    let ((u, dp), ran, e1) = bind-some (Datapath.message_callback lib type bytes d.datapath) _ e in
    let same : record d { datapath = dp } ≡ d' = ground (arith, e1) in
    subst (IsReached lib n) same (next h (message type bytes ran))
react-IsReached lib n (connection_callback ev) d d' e h =
    subst (IsReached lib n) (same_after e) (on_event-IsReached lib n ev _ h)
react-IsReached lib n (send bytes) d d' e h = subst (IsReached lib n) (same_after e) h
react-IsReached lib n close d d' e h = subst (IsReached lib n) (same_after e) h
react-IsReached lib n start_echoes d d' e h = subst (IsReached lib n) (same_after e) h
react-IsReached lib n delete_connection d d' e h = subst (IsReached lib n) (same_after e) h
react-IsReached lib n (free_data pointer) d d' e h = subst (IsReached lib n) (same_after e) h

react_all-IsReached :
    (lib : MsgLib) (n : ℕ) (actions : List Action) (d d' : Device)
    → react_all lib actions d ≡ some d'
    → IsReached lib n d
    → IsReached lib n d'
unfolding react_all
react_all-IsReached lib n [] d d' e h = subst (IsReached lib n) (same_after e) h
react_all-IsReached lib n (a ∷ rest) d d' e h =
    let (mid, ran, e1) = bind-some (react lib a d) _ e in
    react_all-IsReached lib n rest mid d' e1 (react-IsReached lib n a d mid ran h)

step-IsReached :
    (fluid : Libfluid) (s : Settings) (lib : MsgLib) (n : ℕ) (i : DeviceInput) (d d' : Device)
    → step fluid s lib i d ≡ some d'
    → IsReached lib n d
    → IsReached lib n d'
unfolding step
step-IsReached fluid s lib n (client_input i) d d' e h =
    let (c, ran, e1) = bind-some (Client.handle fluid s i (record d.client { actions = [] })) _ e in
    react_all-IsReached lib n c.actions _ d' e1 (next h (connection (is_up c.conn)))
step-IsReached fluid s lib n (captured port_no bytes wire_len) d d' e h =
    let ((u, dp), ran, e1) = bind-some (packet_handler lib port_no bytes wire_len d.datapath) _ e in
    let same : record d { datapath = dp } ≡ d' = ground (arith, e1) in
    subst (IsReached lib n) same (next h (capture port_no bytes wire_len ran))
step-IsReached fluid s lib n (reused i readable memory) d d' e h =
    subst (IsReached lib n) (same_after e) (next h (Handlers.reused i readable memory))

run-IsReached :
    (fluid : Libfluid) (s : Settings) (lib : MsgLib) (dp_id n : ℕ) (is : List DeviceInput)
    (d : Device)
    → run fluid s lib dp_id n is ≡ some d
    → IsReached lib n d
unfolding run new_device
run-IsReached fluid s lib dp_id n [] d e =
    let same : new_device dp_id n ≡ d = ground (arith, e) in subst (IsReached lib n) same here
run-IsReached fluid s lib dp_id n (i ∷ is) d e =
    let (before, ran, e1) = bind-some (run fluid s lib dp_id n is) _ e in
    step-IsReached fluid s lib n i before d e1 (run-IsReached fluid s lib dp_id n is before ran)

-- Whatever bytes a switch is sent, however its connection comes and goes and its echo timer runs, and
-- whatever its ports capture and libpcap writes over it, in any order, as long as no handler's behaviour is
-- undefined: its flow table is in order of priority, every flow in it masks both IP addresses whole, the
-- buffer id fits 32 bits, and each pointer of the buffer is NULL or that of a packet that was allocated,
-- which may have been deleted since.
pub run-Inv :
    (fluid : Libfluid) (s : Settings) (lib : MsgLib) (dp_id n : ℕ) (is : List DeviceInput)
    (d : Device)
    → run fluid s lib dp_id n is ≡ some d
    → Inv d.datapath
run-Inv fluid s lib dp_id n is d e = Reach-init-Inv lib n (run-IsReached fluid s lib dp_id n is d e)
