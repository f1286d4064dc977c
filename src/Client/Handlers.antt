-- ===== src/Client/Handlers.antt =====
-- What each handler of an OFClient frees, and gives to the application (examples/switch/client/OFClient.cc).
use libfluid.Prelude.{
  ℕ, ◌≡◌, refl, sym, subst, Bool, true, false, ◌&&◌, Option, none, some, List, [], ◌∷◌, ◌++◌,
  append-nil, inl, inr, arith, ◌==◌, if◌then◌else◌, load8, load32, ◌>>=◌, bind-some, half_bytes,
  Bool-cases,
}
use libfluid.Client.{
  Settings, Libfluid, OfConnection, send, close, start_echoes, connection_callback,
  message_callback, free_data, Client, act, set_connection, finish, header_bytes, ntoh32, failed,
  running, failed_negotiation, established, echo_request, is_refused, refuse, hello, echo_reply,
  features_request, base_message_callback,
}
use libfluid.Client.Log.{freed, given, is_given, Adds, act-Adds, same-Adds, trans-Adds}

set_connection-Adds :
    (f : OfConnection → OfConnection) (st st' : Client)
    → set_connection f st ≡ some st'
    → Adds [] [] st st'
unfolding set_connection
set_connection-Adds f st st' e =
    let (cc, _, e1) = bind-some st.conn _ e in
    let same : record st { conn = some (f cc) } ≡ st' = ground (arith, e1) in
    subst (Adds [] [] st) same (record {
      frees = sym (append-nil (freed st.actions));
      gives = sym (append-nil (given st.actions));
    })

echo_request-Adds :
    (bytes : List ℕ) (st st' : Client) → echo_request bytes st ≡ some st' → Adds [] [] st st'
unfolding echo_request
echo_request-Adds bytes st st' e =
    let (version, _, e1) = bind-some (load8 bytes 0) _ e in
    let (xid, _, e2) = bind-some (load32 bytes 4) _ e1 in
    subst (Adds [] [] st) (ground (arith, e2))
      (act-Adds (send (header_bytes version 3 8 xid) ∷ []) st)

refuse-Adds :
    (version xid : ℕ) (st st' : Client) → refuse version xid st ≡ some st' → Adds [] [] st st'
unfolding refuse
refuse-Adds version xid st st' e =
    let refusal =
      send (header_bytes version 1 12 xid ++ half_bytes 0 ++ half_bytes 0) ∷ close ∷ [] in
    let fails = λ (cc : OfConnection). record cc { state = failed } in
    let (mid, set, e1) = bind-some (set_connection fails (act refusal st)) _ e in
    let told : act (connection_callback failed_negotiation ∷ []) mid ≡ st' = ground (arith, e1) in
    subst (Adds [] [] st) told (
      trans-Adds (act-Adds refusal st) (
        trans-Adds (set_connection-Adds fails (act refusal st) mid set)
          (act-Adds (connection_callback failed_negotiation ∷ []) mid)))

hello-Adds :
    (s : Settings) (bytes : List ℕ) (st st' : Client)
    → hello s bytes st ≡ some st'
    → Adds [] [] st st'
unfolding hello
hello-Adds s bytes st st' e =
    let (version, _, e1) = bind-some (load8 bytes 0) _ e in
    let (refused, _, e2) = bind-some (is_refused s.supported_versions version) _ e1 in
    elim (Bool-cases refused) [
      | inl refuses ↦
          let e3 : (load32 bytes 4 >>= λ xid. refuse version xid st) ≡ some st' =
            ground (arith, refuses, e2) in
          let (xid, _, e4) = bind-some (load32 bytes 4) _ e3 in refuse-Adds version xid st st' e4
      | inr accepts ↦
          let same : st ≡ st' = ground (arith, accepts, e2) in
          subst (Adds [] [] st) same (same-Adds st)
    ]

echo_reply-Adds :
    (lib : Libfluid) (bytes : List ℕ) (st st' : Client)
    → echo_reply lib bytes st ≡ some st'
    → Adds [] [] st st'
unfolding echo_reply
echo_reply-Adds lib bytes st st' e =
    let (xid, _, e1) = bind-some (load32 bytes 4) _ e in
    elim (Bool-cases (ntoh32 xid == lib.echo_xid)) [
      | inl ours ↦
          set_connection-Adds (λ cc. record cc { alive = true }) st st' (ground (arith, ours, e1))
      | inr other ↦
          let same : st ≡ st' = ground (arith, other, e1) in
          subst (Adds [] [] st) same (same-Adds st)
    ]

features_request-Adds :
    (lib : Libfluid) (s : Settings) (bytes : List ℕ) (st st' : Client)
    → features_request lib s bytes st ≡ some st'
    → Adds [] [] st st'
unfolding features_request
features_request-Adds lib s bytes st st' e =
    let (version, _, e1) = bind-some (load8 bytes 0) _ e in
    let runs = λ (cc : OfConnection). record cc { version = version; state = running } in
    let (mid, set, e2) = bind-some (set_connection runs st) _ e1 in
    let reply = lib.pack_features_reply (lib.unpack_xid bytes) st.datapath_id 1 1 0 0 in
    let echoes = (if s.liveness_check then start_echoes ∷ [] else []) in
    let more = send reply ∷ echoes ++ connection_callback established ∷ [] in
    let told : act more mid ≡ st' = ground (arith, e2) in
    let quiet : (freed more ≡ []) × (given more ≡ []) = elim (Bool-cases s.liveness_check) [
      | inl echoing ↦ rw echoing (refl, refl)
      | inr mute ↦ rw mute (refl, refl)
    ] in
    subst (Adds [] [] st) told (
      trans-Adds (set_connection-Adds runs st mid set) (
        subst (λ ps. Adds [] ps mid (act more mid)) quiet.0
          (subst (λ ms. Adds ms (freed more) mid (act more mid)) quiet.1 (act-Adds more mid))))

finish-Adds :
    (b : Bool) (type : ℕ) (bytes : List ℕ) (pointer : ℕ) (st : Client)
    → Adds (if b then bytes ∷ [] else []) (pointer ∷ []) st (finish b type bytes pointer st)
unfolding finish
finish-Adds true type bytes pointer st =
    act-Adds (message_callback type bytes ∷ free_data pointer ∷ []) st
finish-Adds false type bytes pointer st = act-Adds (free_data pointer ∷ []) st

-- A handler, and then the end of the callback.
handled-Adds :
    (r : Option Client) (b : Bool) (type : ℕ) (bytes : List ℕ) (pointer : ℕ) (st st' : Client)
    → ((mid : Client) → r ≡ some mid → Adds [] [] st mid)
    → (r >>= λ mid. some (finish b type bytes pointer mid)) ≡ some st'
    → Adds (if b then bytes ∷ [] else []) (pointer ∷ []) st st'
handled-Adds r b type bytes pointer st st' quiet e =
    let (mid, ran, e1) = bind-some r _ e in
    let same : finish b type bytes pointer mid ≡ st' = ground (arith, e1) in
    subst (Adds (if b then bytes ∷ [] else []) (pointer ∷ []) st) same
      (trans-Adds (quiet mid ran) (finish-Adds b type bytes pointer mid))

-- What the application gets of a message, by its type.
abbrev pub given_of : Settings → List ℕ → List (List ℕ)
given_of s bytes = elim (load8 bytes 1) [
  | none ↦ []
  | some type ↦ if is_given s type then bytes ∷ [] else []
]

pub message-Adds :
    (lib : Libfluid) (s : Settings) (pointer : ℕ) (bytes : List ℕ) (st st' : Client)
    → base_message_callback lib s pointer bytes st ≡ some st'
    → Adds (given_of s bytes) (pointer ∷ []) st st'
unfolding base_message_callback
message-Adds lib s pointer bytes st st' e =
    let (type, read, e1) = bind-some (load8 bytes 1) _ e in
    let all = s.dispatch_all_messages in
    rw (read, given_of)
      (elim (Bool-cases (s.liveness_check && type == 2)) [
        | inl request ↦
            let b : is_given s type ≡ all = ground (arith, request) in
            rw b (
              handled-Adds (echo_request bytes st) all type bytes pointer st st'
                (echo_request-Adds bytes st) (ground (arith, request, e1)))
        | inr r1 ↦ elim (Bool-cases (s.handshake && type == 0)) [
          | inl greeting ↦
              let b : is_given s type ≡ all = ground (arith, greeting) in
              rw b (
                handled-Adds (hello s bytes st) all type bytes pointer st st'
                  (hello-Adds s bytes st) (ground (arith, r1, greeting, e1)))
          | inr r2 ↦ elim (Bool-cases (s.liveness_check && type == 3)) [
            | inl answer ↦
                let b : is_given s type ≡ all = ground (arith, answer) in
                rw b (
                  handled-Adds (echo_reply lib bytes st) all type bytes pointer st st'
                    (echo_reply-Adds lib bytes st) (ground (arith, r1, r2, answer, e1)))
            | inr r3 ↦
                let b : is_given s type ≡ true = ground (arith, r1, r2, r3) in
                rw b (elim (Bool-cases (s.handshake && type == 5)) [
                  | inl features ↦
                      handled-Adds (features_request lib s bytes st) true type bytes pointer st st'
                        (features_request-Adds lib s bytes st)
                        (ground (arith, r1, r2, r3, features, e1))
                  | inr other ↦
                      let same : finish true type bytes pointer st ≡ st' =
                        ground (arith, r1, r2, r3, other, e1) in
                      subst (Adds (bytes ∷ []) (pointer ∷ []) st) same
                        (finish-Adds true type bytes pointer st)
                ])
          ]
        ]
      ])
