-- ===== src/Controller/Dispatch.antt =====
-- Which calls of applications, and which frees, a history of examples/controller/Controller.hh makes.
use libfluid.Prelude.{
  ℕ, ◌≡◌, refl, sym, ap, subst, ◌∙◌, Bool, true, false, Option, none, some, List, [], ◌∷◌, ◌++◌,
  map, append-nil, inl, inr, arith, ◌==◌, if◌then◌else◌, Bool-cases,
}
use libfluid.Learning.{ControllerEvent, packet_in, switch_down, switch_up}
use libfluid.Controller.{
  get_type, ConnectionEvent, started, established, failed_negotiation, closed, dead, Controller,
  new_controller, listeners, push_back, register_for_event, stop, delete_event, call_listeners,
  dispatch_event, message_callback, connection_callback, Input, register, message, connection,
  stopped, handle, run,
}
use libfluid.Controller.History.{registered, is_running, event_of, called, owned_by, owned}

listeners-push_back :
    (t app u : ℕ) (m : List (ℕ × List ℕ))
    → listeners u (push_back t app m)
      ≡ (let rest = listeners u m in if t == u then rest ++ app ∷ [] else rest)
unfolding listeners push_back
listeners-push_back t app u [] = ground arith
listeners-push_back t app u ((v, apps) ∷ m) = ground (arith, listeners-push_back t app u m)

-- The state of a controller after a history.
pub record Reached (is : List Input) (c : Controller) : Type 0 where
  pub listening : (t : ℕ) → listeners t c.event_listeners ≡ registered t is
  pub running : c.running ≡ is_running is
  pub calls : c.calls ≡ called is
  pub freed : c.freed ≡ owned is

-- An input that neither registers nor stops.
record IsCallback (i : Input) : Type 0 where
  pub registers_none : (t : ℕ) (is : List Input) → registered t (i ∷ is) ≡ registered t is
  pub stops_none : (is : List Input) → is_running (i ∷ is) ≡ is_running is

abbrev to_list : Option ℕ → List ℕ
to_list none = []
to_list (some p) = p ∷ []

delete_event-freed :
    (p : Option ℕ) (c : Controller) → (delete_event p c).freed ≡ c.freed ++ to_list p
unfolding delete_event
delete_event-freed none c = sym (append-nil c.freed)
delete_event-freed (some p) c = refl

delete_event-calls :
    (p : Option ℕ) (c : Controller)
    → ((delete_event p c).calls ≡ c.calls)
      × ((delete_event p c).running ≡ c.running)
      × ((delete_event p c).event_listeners ≡ c.event_listeners)
unfolding delete_event
delete_event-calls none c = (refl, refl, refl)
delete_event-calls (some p) c = (refl, refl, refl)

if_true : {b : Bool} → b ≡ true → (c d : Controller) → c ≡ (if b then c else d)
if_true e c d = rw e refl

if_false : {b : Bool} → b ≡ false → (c d : Controller) → d ≡ (if b then c else d)
if_false e c d = rw e refl

dispatch-Reached :
    (i : Input) (is : List Input) (c : Controller) (ev : ControllerEvent) (p : Option ℕ)
    → IsCallback i
    → event_of i ≡ some ev
    → owned_by i ≡ to_list p
    → Reached is c
    → Reached (i ∷ is) (dispatch_event ev p c)
unfolding dispatch_event call_listeners
dispatch-Reached i is c ev p cb made frees h =
    let freed = delete_event-freed p (call_listeners ev c) in
    let freed' = delete_event-freed p c in
    let (calls, runs, listens) = delete_event-calls p (call_listeners ev c) in
    let (calls', runs', listens') = delete_event-calls p c in
    elim (Bool-cases c.running) [
      | inl on ↦
          let live : is_running is ≡ true = sym h.running ∙ on in
          let done = if_true on (delete_event p (call_listeners ev c)) (delete_event p c) in
          subst (Reached (i ∷ is)) done (record {
            listening =
                λ t. ap (listeners t) listens ∙ h.listening t ∙ sym (cb.registers_none t is);
            running = runs ∙ h.running ∙ sym (cb.stops_none is);
            calls =
                calls
                ∙ ap
                    (λ xs. xs ++ map (λ app. (app, ev)) (listeners (get_type ev) c.event_listeners))
                    h.calls
                ∙ rw (made, live)
                    (ap (λ xs. called is ++ map (λ app. (app, ev)) xs) (h.listening (get_type ev)));
            freed = freed ∙ ap (λ xs. xs ++ to_list p) h.freed ∙ rw frees refl;
          })
      | inr off ↦
          let dead : is_running is ≡ false = sym h.running ∙ off in
          let done = if_false off (delete_event p (call_listeners ev c)) (delete_event p c) in
          subst (Reached (i ∷ is)) done (record {
            listening =
                λ t. ap (listeners t) listens' ∙ h.listening t ∙ sym (cb.registers_none t is);
            running = runs' ∙ h.running ∙ sym (cb.stops_none is);
            calls = calls' ∙ h.calls ∙ rw (made, dead) (sym (append-nil (called is)));
            freed = freed' ∙ ap (λ xs. xs ++ to_list p) h.freed ∙ rw frees refl;
          })
    ]

ignore-Reached :
    (i : Input) (is : List Input) (c : Controller)
    → IsCallback i
    → event_of i ≡ none
    → owned_by i ≡ []
    → Reached is c
    → Reached (i ∷ is) c
ignore-Reached i is c cb made frees h = record {
  listening = λ t. h.listening t ∙ sym (cb.registers_none t is);
  running = h.running ∙ sym (cb.stops_none is);
  calls = h.calls ∙ rw made (sym (append-nil (called is)));
  freed = h.freed ∙ rw frees (sym (append-nil (owned is)));
}

message-IsCallback : (o v type p : ℕ) (bytes : List ℕ) → IsCallback (message o v type p bytes)
message-IsCallback o v type p bytes = record {
  registers_none = λ t is. refl;
  stops_none = λ is. refl;
}

connection-IsCallback : (o v : ℕ) (event : ConnectionEvent) → IsCallback (connection o v event)
connection-IsCallback o v event = record { registers_none = λ t is. refl; stops_none = λ is. refl }

message-Reached :
    (o v type p : ℕ) (bytes : List ℕ) (is : List Input) (c : Controller)
    → Reached is c
    → Reached (message o v type p bytes ∷ is) (message_callback o v type p bytes c)
unfolding message_callback
message-Reached o v type p bytes is c h =
    let i = message o v type p bytes in
    let cb = message-IsCallback o v type p bytes in
    elim (Bool-cases (type == 10)) [
      | inl packet ↦
          rw (packet, message_callback)
            (dispatch-Reached i is c (packet_in o v bytes) (some p) cb (rw packet refl)
              (rw packet refl) h)
      | inr other ↦ elim (Bool-cases (type == 6)) [
        | inl features ↦
            rw (other, features, message_callback)
              (dispatch-Reached i is c (switch_up o v) (some p) cb (rw (other, features) refl)
                (rw (other, features) refl) h)
        | inr unknown ↦
            rw (other, unknown, message_callback)
              (ignore-Reached i is c cb (rw (other, unknown) refl) (rw (other, unknown) refl) h)
      ]
    ]

connection-Reached :
    (o v : ℕ) (event : ConnectionEvent) (is : List Input) (c : Controller)
    → Reached is c
    → Reached (connection o v event ∷ is) (connection_callback o v event c)
unfolding connection_callback
connection-Reached o v closed is c h =
    dispatch-Reached (connection o v closed) is c (switch_down o v) none
      (connection-IsCallback o v closed) refl refl h
connection-Reached o v dead is c h =
    dispatch-Reached (connection o v dead) is c (switch_down o v) none
      (connection-IsCallback o v dead) refl refl h
connection-Reached o v started is c h =
    ignore-Reached (connection o v started) is c (connection-IsCallback o v started) refl refl h
connection-Reached o v established is c h =
    ignore-Reached (connection o v established) is c (connection-IsCallback o v established) refl
      refl h
connection-Reached o v failed_negotiation is c h =
    ignore-Reached (connection o v failed_negotiation) is c
      (connection-IsCallback o v failed_negotiation) refl refl h

-- After any history of registrations, messages, connection changes and stops, the controller has called
-- for each event that it was told of while it ran exactly the applications registered for its type, in
-- the order of their registrations, and has freed the data of every packet in and features reply once,
-- in order, and no other message's.
pub run-Reached : (is : List Input) → Reached is (run is)
unfolding run new_controller listeners handle register_for_event stop
run-Reached [] = record { listening = λ t. refl; running = refl; calls = refl; freed = refl }
run-Reached (register app event_type ∷ is) =
    let h = run-Reached is in
    record {
      listening = λ t.
          listeners-push_back event_type app t (run is).event_listeners ∙ rw (h.listening t) refl;
      running = h.running;
      calls = h.calls ∙ sym (append-nil (called is));
      freed = h.freed ∙ sym (append-nil (owned is));
    }
run-Reached (message o v type p bytes ∷ is) =
    message-Reached o v type p bytes is (run is) (run-Reached is)
run-Reached (connection o v event ∷ is) = connection-Reached o v event is (run is) (run-Reached is)
run-Reached (stopped ∷ is) =
    let h = run-Reached is in
    record {
      listening = h.listening;
      running = refl;
      calls = h.calls ∙ sym (append-nil (called is));
      freed = h.freed ∙ sym (append-nil (owned is));
    }
