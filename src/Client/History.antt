-- ===== src/Client/History.antt =====
-- What becomes of each message of an OFClient (examples/switch/client/OFClient.cc).
use libfluid.Prelude.{
  true, ℕ, ◌≡◌, refl, ap, subst, ◌∙◌, false, some, List, [], ◌∷◌, ◌++◌, append-nil, inl, inr, arith,
  bind-some, Bool-cases,
}
use libfluid.Client.{
  Settings, Libfluid, send, close, delete_connection, connection_callback, BaseEvent, up, down,
  base_closed, Client, new_client, act, header_bytes, ntoh32, started, closed, dead,
  base_connection_callback, send_echo, Input, message, base_event, timer, respond, handle-respond,
  run,
}
use libfluid.Client.Log.{freed, given, Adds, act-Adds, trans-Adds}
use libfluid.Client.Handlers.{given_of, message-Adds}

-- The messages of a history that the application gets, and the pointers of all, in order.
abbrev pub given_by : Settings → List Input → List (List ℕ)
given_by s [] = []
given_by s (message pointer bytes ∷ is) = given_by s is ++ given_of s bytes
given_by s (base_event e ∷ is) = given_by s is
given_by s (timer ∷ is) = given_by s is

abbrev pub pointers : List Input → List ℕ
pointers [] = []
pointers (message pointer bytes ∷ is) = pointers is ++ pointer ∷ []
pointers (base_event e ∷ is) = pointers is
pointers (timer ∷ is) = pointers is

connection-Adds :
    (lib : Libfluid) (s : Settings) (e : BaseEvent) (st : Client)
    → Adds [] [] st (base_connection_callback lib s e st)
unfolding base_connection_callback
connection-Adds lib s base_closed st =
    let all = act-Adds (delete_connection ∷ []) (record st { base_deleted = true }) in
    record { frees = all.frees; gives = all.gives }
connection-Adds lib s down st = act-Adds (connection_callback closed ∷ []) st
connection-Adds lib s up st = elim (Bool-cases s.handshake) [
  | inl greets ↦
      let hi = send (header_bytes s.max_supported_version 0 8 lib.hello_xid) in
      let greeted = act-Adds (hi ∷ []) st in
      let told = act-Adds (connection_callback started ∷ []) (act (hi ∷ []) st) in
      let all = trans-Adds greeted told in
      record { frees = rw greets all.frees; gives = rw greets all.gives }
  | inr mute ↦
      let all = act-Adds (connection_callback started ∷ []) st in
      record { frees = rw mute all.frees; gives = rw mute all.gives }
]

echo-Adds : (lib : Libfluid) (st st' : Client) → send_echo lib st ≡ some st' → Adds [] [] st st'
unfolding send_echo
echo-Adds lib st st' e =
    let (cc, _, e1) = bind-some st.conn _ e in
    elim (Bool-cases cc.alive) [
      | inl live ↦
          let ping = send (header_bytes cc.version 2 8 (ntoh32 lib.echo_xid)) in
          let waits = record st { conn = some (record cc { alive = false }) } in
          let same : act (ping ∷ []) waits ≡ st' = ground (arith, live, e1) in
          let added = act-Adds (ping ∷ []) waits in
          subst (Adds [] [] st) same (record { frees = added.frees; gives = added.gives })
      | inr silent ↦
          let same : act (close ∷ connection_callback dead ∷ []) st ≡ st' =
            ground (arith, silent, e1) in
          subst (Adds [] [] st) same (act-Adds (close ∷ connection_callback dead ∷ []) st)
    ]

-- Whatever happens to a client, in any order, as long as no handler's behaviour is undefined, each
-- message's data is freed once, in order of arrival, and the application gets exactly the messages
-- that are not the client's own, in order: not the echoes while liveness is checked nor a HELLO
-- under a handshake, unless all messages are dispatched.
pub run-freed :
    (lib : Libfluid) (s : Settings) (datapath_id : ℕ) (is : List Input) (st : Client)
    → run lib s datapath_id is ≡ some st
    → (freed st.actions ≡ pointers is) × (given st.actions ≡ given_by s is)
unfolding run new_client respond
run-freed lib s d [] st e =
    let same : new_client d ≡ st = ground (arith, e) in
    subst (λ q. (freed q.actions ≡ []) × (given q.actions ≡ [])) same (refl, refl)
run-freed lib s d (message pointer bytes ∷ is) st e =
    let (before, ran, e1) = bind-some (run lib s d is) _ e in
    let (freed', given') = run-freed lib s d is before ran in
    let added =
      message-Adds lib s pointer bytes before st
        (handle-respond lib s (message pointer bytes) before st e1) in
    (
      added.frees ∙ ap (λ ps. ps ++ pointer ∷ []) freed',
      added.gives ∙ ap (λ ms. ms ++ given_of s bytes) given',
    )
run-freed lib s d (base_event ev ∷ is) st e =
    let (before, ran, e1) = bind-some (run lib s d is) _ e in
    let (freed', given') = run-freed lib s d is before ran in
    let same : base_connection_callback lib s ev before ≡ st =
      ground (arith, handle-respond lib s (base_event ev) before st e1) in
    let added = subst (Adds [] [] before) same (connection-Adds lib s ev before) in
    (
      added.frees ∙ append-nil (freed before.actions) ∙ freed',
      added.gives ∙ append-nil (given before.actions) ∙ given',
    )
run-freed lib s d (timer ∷ is) st e =
    let (before, ran, e1) = bind-some (run lib s d is) _ e in
    let (freed', given') = run-freed lib s d is before ran in
    let added = echo-Adds lib before st (handle-respond lib s timer before st e1) in
    (
      added.frees ∙ append-nil (freed before.actions) ∙ freed',
      added.gives ∙ append-nil (given before.actions) ∙ given',
    )
