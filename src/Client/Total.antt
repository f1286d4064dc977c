-- ===== src/Client/Total.antt =====
-- When an OFClient handles all that comes (examples/switch/client/OFClient.cc).
use libfluid.Prelude.{
  sym, subst, ℕ, ap, ◌≤◌, ◌≡◌, refl, ◌∙◌, Bool, true, false, ◌&&◌, ◌||◌, Option, some, List, [],
  ◌∷◌, ◌++◌, inl, inr, arith, length, ◌==◌, ltb, if◌then◌else◌, All, ◌>>=◌, Bool-cases, load8,
  load8_total, load32_total, half_bytes,
}
use libfluid.Client
use libfluid.Client.{
  Settings, Libfluid, OfConnection, send, close, start_echoes, connection_callback, failed, running,
  established, failed_negotiation, BaseEvent, up, down, base_closed, Client, new_client, act,
  set_connection, header_bytes, ntoh32, finish, echo_request, is_refused, refuse, hello, echo_reply,
  features_request, base_message_callback, base_connection_callback, send_echo, Input, message,
  base_event, timer, needs_connection, respond, handle, run,
}

-- There is a connection, and it has not been deleted.
abbrev HasConnection : Client → Type 0
HasConnection st = (cc : OfConnection) × (st.conn ≡ some cc)

abbrev Live : Client → Type 0
Live st = HasConnection st × (st.base_deleted ≡ false)

abbrev Returns : Option Client → Type 0
Returns r = (st : Client) × (r ≡ some st) × Live st

-- A message has its header, and a HELLO is of a version from 1 to 32.
pub record IsMessage (bytes : List ℕ) : Type 0 where
  pub long : 8 ≤ length bytes
  pub version : (v : ℕ) → load8 bytes 1 ≡ some 0 → load8 bytes 0 ≡ some v → (1 ≤ v) × (v ≤ 32)

abbrev pub IsUsable : Input → Type 0
IsUsable (message pointer bytes) = IsMessage bytes
IsUsable (base_event e) = Unit
IsUsable timer = Unit

set_connection-Returns :
    (f : OfConnection → OfConnection) (st : Client) → Live st → Returns (set_connection f st)
unfolding set_connection
set_connection-Returns f st ((cc, there), kept) =
    (record st { conn = some (f cc) }, rw there refl, ((f cc, refl), kept))

echo_request-Returns :
    (bytes : List ℕ) (st : Client) → 8 ≤ length bytes → Live st → Returns (echo_request bytes st)
unfolding echo_request
echo_request-Returns bytes st long live =
    let (version, v) = load8_total bytes 0 (omega arith) in
    let (xid, x) = load32_total bytes 4 (omega arith) in
    (act (send (header_bytes version 3 8 xid) ∷ []) st, rw (v, x) refl, live)

refuse-Returns : (version xid : ℕ) (st : Client) → Live st → Returns (refuse version xid st)
unfolding refuse
refuse-Returns version xid st live =
    let refusal =
      send (header_bytes version 1 12 xid ++ half_bytes 0 ++ half_bytes 0) ∷ close ∷ [] in
    let (mid, set, live') =
      set_connection-Returns (λ cc. record cc { state = failed }) (act refusal st) live in
    (act (connection_callback failed_negotiation ∷ []) mid, rw set refl, live')

hello-Returns :
    (s : Settings) (bytes : List ℕ) (st : Client)
    → IsMessage bytes
    → load8 bytes 1 ≡ some 0
    → Live st
    → Returns (hello s bytes st)
unfolding hello is_refused
hello-Returns s bytes st h greeting live =
    let long = h.long in
    let (v, read) = load8_total bytes 0 (omega arith) in
    let (xid, x) = load32_total bytes 4 (omega arith) in
    let (low, high) = h.version v greeting read in
    let shift : (v == 0 || ltb 32 v) ≡ false = ground arith in
    elim (Bool-cases (s.supported_versions == 0 && v == 1)) [
      | inl refuses ↦
          let (st', done, live') = refuse-Returns v xid st live in
          (st', rw (read, shift, refuses, x, done) refl, live')
      | inr accepts ↦ (st, rw (read, shift, accepts) refl, live)
    ]

echo_reply-Returns :
    (lib : Libfluid) (bytes : List ℕ) (st : Client)
    → 8 ≤ length bytes
    → Live st
    → Returns (echo_reply lib bytes st)
unfolding echo_reply
echo_reply-Returns lib bytes st long live =
    let (xid, x) = load32_total bytes 4 (omega arith) in
    elim (Bool-cases (ntoh32 xid == lib.echo_xid)) [
      | inl ours ↦
          let (st', done, live') =
            set_connection-Returns (λ cc. record cc { alive = true }) st live in
          (st', rw (x, ours, done) refl, live')
      | inr other ↦ (st, rw (x, other) refl, live)
    ]

features_request-Returns :
    (lib : Libfluid) (s : Settings) (bytes : List ℕ) (st : Client)
    → 8 ≤ length bytes
    → Live st
    → Returns (features_request lib s bytes st)
unfolding features_request
features_request-Returns lib s bytes st long live =
    let (version, v) = load8_total bytes 0 (omega arith) in
    let (mid, set, live') =
      set_connection-Returns (λ cc. record cc { version = version; state = running }) st live in
    let reply = lib.pack_features_reply (lib.unpack_xid bytes) st.datapath_id 1 1 0 0 in
    let echoes = (if s.liveness_check then start_echoes ∷ [] else []) in
    (act (send reply ∷ echoes ++ connection_callback established ∷ []) mid, rw (v, set) refl, live')

handled-Returns :
    (r : Option Client) (b : Bool) (type : ℕ) (bytes : List ℕ) (pointer : ℕ)
    → Returns r
    → Returns (r >>= λ st. some (finish b type bytes pointer st))
unfolding finish
handled-Returns r b type bytes pointer (st, done, live) =
    (finish b type bytes pointer st, rw done refl, live)

message-Returns :
    (lib : Libfluid) (s : Settings) (pointer : ℕ) (bytes : List ℕ) (st : Client)
    → IsMessage bytes
    → Live st
    → Returns (base_message_callback lib s pointer bytes st)
unfolding base_message_callback finish
message-Returns lib s pointer bytes st h live =
    let long = h.long in
    let (type, read) = load8_total bytes 1 (omega arith) in
    let all = s.dispatch_all_messages in
    elim (Bool-cases (s.liveness_check && type == 2)) [
      | inl request ↦
          let (st', done, live') =
            handled-Returns _ all type bytes pointer (echo_request-Returns bytes st long live) in
          (st', rw (read, request) done, live')
      | inr r1 ↦ elim (Bool-cases (s.handshake && type == 0)) [
        | inl greeting ↦
            let zero_type : type ≡ 0 = ground (arith, greeting) in
            let (st', done, live') =
              handled-Returns _ all type bytes pointer
                (hello-Returns s bytes st h (read ∙ ap some zero_type) live) in
            (st', rw (read, r1, greeting) done, live')
        | inr r2 ↦ elim (Bool-cases (s.liveness_check && type == 3)) [
          | inl answer ↦
              let (st', done, live') =
                handled-Returns _ all type bytes pointer
                  (echo_reply-Returns lib bytes st long live) in
              (st', rw (read, r1, r2, answer) done, live')
          | inr r3 ↦ elim (Bool-cases (s.handshake && type == 5)) [
            | inl features ↦
                let (st', done, live') =
                  handled-Returns _ true type bytes pointer
                    (features_request-Returns lib s bytes st long live) in
                (st', rw (read, r1, r2, r3, features) done, live')
            | inr other ↦
                (finish true type bytes pointer st, rw (read, r1, r2, r3, other) refl, live)
          ]
        ]
      ]
    ]

timer-Returns : (lib : Libfluid) (st : Client) → Live st → Returns (send_echo lib st)
unfolding send_echo
timer-Returns lib st ((cc, there), kept) = elim (Bool-cases cc.alive) [
  | inl live ↦
      let waits = record cc { alive = false } in
      let ping = header_bytes cc.version 2 8 (ntoh32 lib.echo_xid) in
      (
        act (send ping ∷ []) (record st { conn = some waits }),
        rw (there, live) refl,
        ((waits, refl), kept),
      )
  | inr silent ↦ (
    act (close ∷ connection_callback Client.dead ∷ []) st,
    rw (there, silent) refl,
    ((cc, there), kept),
  )
]

-- Whether a connection is there after a history, the newest input first: it came up, and has not been closed.
abbrev pub is_open : List Input → Bool
is_open [] = false
is_open (message pointer bytes ∷ is) = is_open is
is_open (base_event up ∷ is) = true
is_open (base_event down ∷ is) = is_open is
is_open (base_event base_closed ∷ is) = false
is_open (timer ∷ is) = is_open is

-- Each input that uses a connection comes while one is there.
abbrev pub AreTimely : List Input → Type 0
AreTimely [] = Unit
AreTimely (i ∷ is) = (needs_connection i ≡ true → is_open is ≡ true) × AreTimely is

-- What a history leaves: the client's pointer, to a connection that is there if one is.
abbrev Left : Bool → Option Client → Type 0
Left b r = (st : Client) × (r ≡ some st) × HasConnection st × (b ≡ true → st.base_deleted ≡ false)

used-Left : (b : Bool) (r : Option Client) → Returns r → Left b r
used-Left b r (st, ran, live) = (st, ran, live.0, (λ h. live.1))

handle-open :
    (lib : Libfluid) (s : Settings) (i : Input) (st : Client)
    → st.base_deleted ≡ false
    → handle lib s i st ≡ respond lib s i st
unfolding handle
handle-open lib s i st h = ground (arith, h)

handle-up :
    (lib : Libfluid) (s : Settings) (st : Client)
    → handle lib s (base_event up) st ≡ respond lib s (base_event up) st
unfolding handle
handle-up lib s st = elim (Bool-cases st.base_deleted) [
  | inl gone ↦ ground (arith, gone)
  | inr there ↦ ground (arith, there)
]

handle-Left :
    (lib : Libfluid) (s : Settings) (i : Input) (is : List Input) (st : Client)
    → IsUsable i
    → (needs_connection i ≡ true → is_open is ≡ true)
    → HasConnection st
    → (is_open is ≡ true → st.base_deleted ≡ false)
    → Left (is_open (i ∷ is)) (handle lib s i st)
unfolding respond base_connection_callback
handle-Left lib s (message pointer bytes) is st h timely has kept =
    let there = kept (timely refl) in
    subst (Left _) (sym (handle-open lib s (message pointer bytes) st there))
      (used-Left _ _ (message-Returns lib s pointer bytes st h (has, there)))
handle-Left lib s (base_event up) is st h timely has kept =
    subst (Left true) (sym (handle-up lib s st)) (_, refl, (lib.new_connection, refl), (λ e. refl))
handle-Left lib s (base_event down) is st h timely has kept =
    let there = kept (timely refl) in
    subst (Left _) (sym (handle-open lib s (base_event down) st there)) (_, refl, has, kept)
handle-Left lib s (base_event base_closed) is st h timely has kept =
    let there = kept (timely refl) in
    subst (Left false) (sym (handle-open lib s (base_event base_closed) st there))
      (_, refl, has, (λ e. absurd (ground arith)))
handle-Left lib s timer is st h timely has kept =
    let there = kept (timely refl) in
    subst (Left _) (sym (handle-open lib s timer st there))
      (used-Left _ _ (timer-Returns lib st (has, there)))

run-Left :
    (lib : Libfluid) (s : Settings) (datapath_id : ℕ) (is : List Input)
    → All IsUsable is
    → AreTimely (is ++ base_event up ∷ [])
    → Left (is_open (is ++ base_event up ∷ [])) (run lib s datapath_id (is ++ base_event up ∷ []))
unfolding run new_client handle respond base_connection_callback
run-Left lib s d [] h timely = (_, refl, (lib.new_connection, refl), (λ e. refl))
run-Left lib s d (i ∷ is) h timely =
    let (before, ran, has, kept) = run-Left lib s d is h.1 timely.1 in
    let (after, done, has', kept') =
      handle-Left lib s i (is ++ base_event up ∷ []) before h.0 timely.0 has kept in
    (after, rw ran done, has', kept')

-- Once the connection has come up, a client handles any messages, connection events and runs of its timer,
-- if each message has its header of 8 bytes, each HELLO is of a version from 1 to 32, and after a connection
-- has been closed nothing comes for it until a new one is up: no handler reads outside a message, shifts
-- too far or follows a connection that is missing or deleted.
pub client_run_total :
    (lib : Libfluid) (s : Settings) (datapath_id : ℕ) (is : List Input)
    → All IsUsable is
    → AreTimely (is ++ base_event up ∷ [])
    → (st : Client) × (run lib s datapath_id (is ++ base_event up ∷ []) ≡ some st)
client_run_total lib s d is h timely =
    let (st, ran, has, kept) = run-Left lib s d is h timely in (st, ran)
