-- ===== src/Client/Alive.antt =====
-- The liveness check of an OFClient (examples/switch/client/OFClient.cc): a timer that sends an echo, and
-- closes the connection if the last one had no answer.
use libfluid.Prelude.{
  ℕ, ◌≡◌, refl, sym, ap, ◌∙◌, Bool, true, false, Option, none, some, List, [], ◌∷◌, ◌++◌, inl, inr,
  arith, if◌then◌else◌, All, ◌>>=◌, bind-some, Bool-cases,
}
use libfluid.Client.{
  Settings, Libfluid, OfConnection, close, connection_callback, dead, BaseEvent, up, down,
  base_closed, Client, new_client, act, base_connection_callback, send_echo, Input, message,
  base_event, timer, respond, handle, handle-respond, run,
}
use libfluid.Client.Flag.{alive, is_answer, message-alive}

-- Whether the connection counts as alive after a history: from the last time that it came up, that an
-- answer arrived or that the timer ran.
abbrev pub alive_after : Libfluid → Settings → List Input → Option Bool
alive_after lib s [] = none
alive_after lib s (message pointer bytes ∷ is) =
    let rest = alive_after lib s is in if is_answer lib s bytes then some true else rest
alive_after lib s (base_event up ∷ is) = some lib.new_connection.alive
alive_after lib s (base_event down ∷ is) = alive_after lib s is
alive_after lib s (base_event base_closed ∷ is) = alive_after lib s is
alive_after lib s (timer ∷ is) = some false

connection-alive :
    (lib : Libfluid) (s : Settings) (e : BaseEvent) (is : List Input) (st : Client)
    → alive st ≡ alive_after lib s is
    → alive (base_connection_callback lib s e st) ≡ alive_after lib s (base_event e ∷ is)
unfolding base_connection_callback
connection-alive lib s up is st h = refl
connection-alive lib s down is st h = h
connection-alive lib s base_closed is st h = h

echo-alive :
    (lib : Libfluid) (st st' : Client) → send_echo lib st ≡ some st' → alive st' ≡ some false
unfolding send_echo
echo-alive lib st st' e =
    let (cc, there, e1) = bind-some st.conn _ e in
    elim (Bool-cases cc.alive) [
      | inl live ↦
          let sent : some (record cc { alive = false }) ≡ st'.conn = ground (arith, live, e1) in
          ap (λ (o : Option OfConnection). o >>= λ c. some c.alive) (sym sent)
      | inr silent ↦
          let stays : st.conn ≡ st'.conn = ground (arith, silent, e1) in
          ap (λ (o : Option OfConnection). o >>= λ c. some c.alive) (sym stays ∙ there)
          ∙ ap some silent
    ]

-- After any history the flag is as the last of these left it: the connection that came up, an answer to
-- an echo, a run of the timer.
pub run-alive :
    (lib : Libfluid) (s : Settings) (datapath_id : ℕ) (is : List Input) (st : Client)
    → run lib s datapath_id is ≡ some st
    → alive st ≡ alive_after lib s is
unfolding run new_client respond
run-alive lib s d [] st e = let same : new_client d ≡ st = ground (arith, e) in ap alive (sym same)
run-alive lib s d (message pointer bytes ∷ is) st e =
    let (before, ran, e1) = bind-some (run lib s d is) _ e in
    let h = run-alive lib s d is before ran in
    message-alive lib s pointer bytes before st
      (handle-respond lib s (message pointer bytes) before st e1)
    ∙ rw h refl
run-alive lib s d (base_event ev ∷ is) st e =
    let (before, ran, e1) = bind-some (run lib s d is) _ e in
    let same : base_connection_callback lib s ev before ≡ st =
      ground (arith, handle-respond lib s (base_event ev) before st e1) in
    ap alive (sym same) ∙ connection-alive lib s ev is before (run-alive lib s d is before ran)
run-alive lib s d (timer ∷ is) st e =
    let (before, ran, e1) = bind-some (run lib s d is) _ e in
    echo-alive lib before st (handle-respond lib s timer before st e1)

-- No answer and no new connection.
abbrev pub IsSilent : Libfluid → Settings → Input → Type 0
IsSilent lib s (message pointer bytes) = is_answer lib s bytes ≡ false
IsSilent lib s (base_event up) = ⊥
IsSilent lib s (base_event down) = Unit
IsSilent lib s (base_event base_closed) = Unit
IsSilent lib s timer = Unit

silent-dead :
    (lib : Libfluid) (s : Settings) (quiet before : List Input)
    → All (IsSilent lib s) quiet
    → alive_after lib s (quiet ++ timer ∷ before) ≡ some false
silent-dead lib s [] before h = refl
silent-dead lib s (message pointer bytes ∷ quiet) before h =
    rw h.0 (silent-dead lib s quiet before h.1)
silent-dead lib s (base_event up ∷ quiet) before h = absurd h.0
silent-dead lib s (base_event down ∷ quiet) before h = silent-dead lib s quiet before h.1
silent-dead lib s (base_event base_closed ∷ quiet) before h = silent-dead lib s quiet before h.1
silent-dead lib s (timer ∷ quiet) before h = refl

-- When the timer has run, and no answer has arrived since and the connection is still the same, the
-- next run of the timer, in whatever state the client has come to without undefined behaviour, closes the
-- connection and tells the application that it is dead, and sends nothing; unless a close has deleted the
-- connection, for then the behaviour of that run is undefined.
pub timer-dead :
    (lib : Libfluid) (s : Settings) (datapath_id : ℕ) (quiet before : List Input) (st : Client)
    → run lib s datapath_id (quiet ++ timer ∷ before) ≡ some st
    → All (IsSilent lib s) quiet
    → run lib s datapath_id (timer ∷ quiet ++ timer ∷ before)
      ≡ (if st.base_deleted then none else some (act (close ∷ connection_callback dead ∷ []) st))
unfolding run handle respond send_echo
timer-dead lib s d quiet before st ran silent =
    let flag =
      run-alive lib s d (quiet ++ timer ∷ before) st ran ∙ silent-dead lib s quiet before silent in
    let (cc, there, off) = bind-some st.conn _ flag in
    let off' : cc.alive ≡ false = ground (arith, off) in
    elim (Bool-cases st.base_deleted) [
      | inl gone ↦ rw ran (rw gone refl)
      | inr kept ↦ rw ran (rw (kept, there, off', send_echo) refl)
    ]
