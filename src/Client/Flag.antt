-- ===== src/Client/Flag.antt =====
-- Which messages make the connection of an OFClient count as alive (examples/switch/client/OFClient.cc).
use libfluid.Prelude.{
  ℕ, ◌≡◌, refl, sym, ap, subst, ◌∙◌, Bool, true, false, ◌&&◌, Option, none, some, List, [], ◌∷◌,
  ◌++◌, inl, inr, arith, ◌==◌, if◌then◌else◌, load8, load32, half_bytes, ◌>>=◌, bind-some,
  Bool-cases, Option-cases,
}
use libfluid.Client.{
  Settings, Libfluid, OfConnection, send, close, connection_callback, failed, failed_negotiation,
  running, Client, act, set_connection, finish, header_bytes, ntoh32, echo_request, is_refused,
  refuse, hello, echo_reply, features_request, base_message_callback,
}

-- Whether the connection counts as alive, if there is one.
abbrev pub alive : Client → Option Bool
alive st = st.conn >>= λ cc. some cc.alive

-- A message that the client takes for the answer to its echo.
abbrev pub is_answer : Libfluid → Settings → List ℕ → Bool
is_answer lib s bytes = elim (load8 bytes 1) [
  | none ↦ false
  | some type ↦ elim (load32 bytes 4) [
    | none ↦ false
    | some xid ↦ s.liveness_check && type == 3 && ntoh32 xid == lib.echo_xid
  ]
]

-- A setter that leaves the flag.
set_connection-alive :
    (f : OfConnection → OfConnection) (st st' : Client)
    → ((cc : OfConnection) → (f cc).alive ≡ cc.alive)
    → set_connection f st ≡ some st'
    → alive st' ≡ alive st
unfolding set_connection
set_connection-alive f st st' same e =
    let (cc, there, e1) = bind-some st.conn _ e in
    let done : record st { conn = some (f cc) } ≡ st' = ground (arith, e1) in
    subst (λ q. alive q ≡ alive st) done (ap some (same cc) ∙ rw there refl)

refuse-alive :
    (version xid : ℕ) (st st' : Client) → refuse version xid st ≡ some st' → alive st' ≡ alive st
unfolding refuse
refuse-alive version xid st st' e =
    let refusal =
      send (header_bytes version 1 12 xid ++ half_bytes 0 ++ half_bytes 0) ∷ close ∷ [] in
    let fails = λ (cc : OfConnection). record cc { state = failed } in
    let (mid, set, e1) = bind-some (set_connection fails (act refusal st)) _ e in
    let told : act (connection_callback failed_negotiation ∷ []) mid ≡ st' = ground (arith, e1) in
    subst (λ q. alive q ≡ alive st) told
      (set_connection-alive fails (act refusal st) mid (λ cc. refl) set)

hello-alive :
    (s : Settings) (bytes : List ℕ) (st st' : Client)
    → hello s bytes st ≡ some st'
    → alive st' ≡ alive st
unfolding hello
hello-alive s bytes st st' e =
    let (version, _, e1) = bind-some (load8 bytes 0) _ e in
    let (refused, _, e2) = bind-some (is_refused s.supported_versions version) _ e1 in
    elim (Bool-cases refused) [
      | inl refuses ↦
          let e3 : (load32 bytes 4 >>= λ xid. refuse version xid st) ≡ some st' =
            ground (arith, refuses, e2) in
          let (xid, _, e4) = bind-some (load32 bytes 4) _ e3 in refuse-alive version xid st st' e4
      | inr accepts ↦ let same : st ≡ st' = ground (arith, accepts, e2) in ap alive (sym same)
    ]

echo_request-alive :
    (bytes : List ℕ) (st st' : Client) → echo_request bytes st ≡ some st' → alive st' ≡ alive st
unfolding echo_request
echo_request-alive bytes st st' e =
    let (version, _, e1) = bind-some (load8 bytes 0) _ e in
    let (xid, _, e2) = bind-some (load32 bytes 4) _ e1 in
    let same : act (send (header_bytes version 3 8 xid) ∷ []) st ≡ st' = ground (arith, e2) in
    ap alive (sym same)

features_request-alive :
    (lib : Libfluid) (s : Settings) (bytes : List ℕ) (st st' : Client)
    → features_request lib s bytes st ≡ some st'
    → alive st' ≡ alive st
unfolding features_request
features_request-alive lib s bytes st st' e =
    let (version, _, e1) = bind-some (load8 bytes 0) _ e in
    let runs = λ (cc : OfConnection). record cc { version = version; state = running } in
    let (mid, set, e2) = bind-some (set_connection runs st) _ e1 in
    let told : mid.conn ≡ st'.conn = ground (arith, e2) in
    ap (λ (o : Option OfConnection). o >>= λ cc. some cc.alive) (sym told)
    ∙ set_connection-alive runs st mid (λ cc. refl) set

echo_reply-alive :
    (lib : Libfluid) (bytes : List ℕ) (st st' : Client)
    → echo_reply lib bytes st ≡ some st'
    → (xid : ℕ) × (load32 bytes 4 ≡ some xid)
      × (alive st' ≡ (if ntoh32 xid == lib.echo_xid then some true else alive st))
unfolding echo_reply set_connection
echo_reply-alive lib bytes st st' e =
    let (xid, read, e1) = bind-some (load32 bytes 4) _ e in
    (
      xid,
      read,
      elim (Bool-cases (ntoh32 xid == lib.echo_xid)) [
        | inl ours ↦
            let e2 : set_connection (λ cc. record cc { alive = true }) st ≡ some st' =
              ground (arith, ours, e1) in
            let (cc, there, e3) = bind-some st.conn _ e2 in
            let done : record st { conn = some (record cc { alive = true }) } ≡ st' =
              ground (arith, e3) in
            rw ours (ap alive (sym done))
        | inr other ↦
            let same : st ≡ st' = ground (arith, other, e1) in rw other (ap alive (sym same))
      ],
    )

handled-alive :
    (r : Option Client) (b : Bool) (type : ℕ) (bytes : List ℕ) (pointer : ℕ) (st st' : Client)
    → ((mid : Client) → r ≡ some mid → alive mid ≡ alive st)
    → (r >>= λ mid. some (finish b type bytes pointer mid)) ≡ some st'
    → alive st' ≡ alive st
unfolding finish
handled-alive r b type bytes pointer st st' quiet e =
    let (mid, ran, e1) = bind-some r _ e in
    let same : finish b type bytes pointer mid ≡ st' = ground (arith, e1) in
    ap alive (sym same) ∙ quiet mid ran

not_answer :
    (lib : Libfluid) (s : Settings) (bytes : List ℕ) (type : ℕ)
    → load8 bytes 1 ≡ some type
    → (s.liveness_check && type == 3) ≡ false
    → is_answer lib s bytes ≡ false
not_answer lib s bytes type read other = elim (Option-cases (load32 bytes 4)) [
  | inl short ↦ rw (read, short, is_answer) refl
  | inr (xid, long) ↦ rw (read, long, is_answer) (ground (arith, other))
]

answer_test :
    (lib : Libfluid) (s : Settings) (bytes : List ℕ) (type xid : ℕ)
    → load8 bytes 1 ≡ some type
    → load32 bytes 4 ≡ some xid
    → (s.liveness_check && type == 3) ≡ true
    → is_answer lib s bytes ≡ (ntoh32 xid == lib.echo_xid)
answer_test lib s bytes type xid read long answer =
    rw (read, long, is_answer) (ground (arith, answer))

-- A message changes the flag exactly if it is an answer.
pub message-alive :
    (lib : Libfluid) (s : Settings) (pointer : ℕ) (bytes : List ℕ) (st st' : Client)
    → base_message_callback lib s pointer bytes st ≡ some st'
    → alive st' ≡ (if is_answer lib s bytes then some true else alive st)
unfolding base_message_callback finish
message-alive lib s pointer bytes st st' e =
    let (type, read, e1) = bind-some (load8 bytes 1) _ e in
    let all = s.dispatch_all_messages in
    elim (Bool-cases (s.liveness_check && type == 2)) [
      | inl request ↦ rw (not_answer lib s bytes type read (ground (arith, request))) (
          handled-alive (echo_request bytes st) all type bytes pointer st st'
            (echo_request-alive bytes st) (ground (arith, request, e1)))
      | inr r1 ↦ elim (Bool-cases (s.handshake && type == 0)) [
        | inl greeting ↦ rw (not_answer lib s bytes type read (ground (arith, greeting))) (
            handled-alive (hello s bytes st) all type bytes pointer st st' (hello-alive s bytes st)
              (ground (arith, r1, greeting, e1)))
        | inr r2 ↦ elim (Bool-cases (s.liveness_check && type == 3)) [
          | inl answer ↦
              let e2 : (echo_reply lib bytes st >>= λ mid. some (finish all type bytes pointer mid))
                  ≡ some st' =
                ground (arith, r1, r2, answer, e1) in
              let (mid, ran, e3) = bind-some (echo_reply lib bytes st) _ e2 in
              let (xid, long, flag) = echo_reply-alive lib bytes st mid ran in
              let same : finish all type bytes pointer mid ≡ st' = ground (arith, e3) in
              let hit : is_answer lib s bytes ≡ (ntoh32 xid == lib.echo_xid) =
                answer_test lib s bytes type xid read long answer in
              ap alive (sym same) ∙ flag ∙ rw hit refl
          | inr r3 ↦
              rw (not_answer lib s bytes type read r3)
                (elim (Bool-cases (s.handshake && type == 5)) [
                  | inl features ↦
                      handled-alive (features_request lib s bytes st) true type bytes pointer st st'
                        (features_request-alive lib s bytes st)
                        (ground (arith, r1, r2, r3, features, e1))
                  | inr other ↦
                      let same : finish true type bytes pointer st ≡ st' =
                        ground (arith, r1, r2, r3, other, e1) in
                      ap alive (sym same)
                ])
        ]
      ]
    ]
