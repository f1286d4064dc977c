-- ===== src/Client/Tests.antt =====
-- The theorems on examples/switch/client at concrete inputs.
use libfluid.Prelude.{ℕ, ◌≡◌, refl, true, false, some, List, [], ◌∷◌, arith, load8, load32}
use libfluid.Client
use libfluid.Client.{
  Settings, in_handshake, running, OfConnection, Libfluid, Action, send, close, connection_callback,
  message_callback, free_data, start_echoes, dead, started, established, up, down, Client,
  new_client, act, set_connection, finish, header_bytes, echo_request, hello, echo_reply,
  features_request, base_message_callback, base_connection_callback, send_echo, Input, message,
  base_event, timer, respond, handle,
}
use libfluid.Client.Log.{freed, given}
use libfluid.Client.History.{given_by, pointers, run-freed}
use libfluid.Client.Flag.{alive}
use libfluid.Client.Alive.{timer-dead}
use libfluid.Client.Echo.{ping, pong, send_echo-answered, hello-accepted}
use libfluid.Client.Total.{IsMessage, client_run_total}

abbrev pub settings : Settings
settings = record {
  liveness_check = true;
  handshake = true;
  dispatch_all_messages = false;
  supported_versions = 1;
  max_supported_version = 1;
}

abbrev pub connected : OfConnection
connected = record { version = 0; state = in_handshake; alive = true }

abbrev pub lib : Libfluid
lib = record {
  hello_xid = 5;
  echo_xid = 7;
  new_connection = connected;
  unpack_xid = λ m. 9;
  pack_features_reply = λ xid d b t c a. header_bytes 1 6 32 xid;
}

abbrev hello4 : List ℕ
hello4 = 4 ∷ 0 ∷ 0 ∷ 8 ∷ 0 ∷ 0 ∷ 0 ∷ 1 ∷ []

abbrev barrier : List ℕ
barrier = 1 ∷ 18 ∷ 0 ∷ 8 ∷ 0 ∷ 0 ∷ 0 ∷ 2 ∷ []

-- The newest first: the connection comes up, the other side says HELLO, the timer runs, and a barrier
-- request arrives.
abbrev history : List Input
history = message 31 barrier ∷ timer ∷ message 30 hello4 ∷ base_event up ∷ []

abbrev reached : Client
reached = record {
  datapath_id = 6;
  conn = some (record connected { alive = false });
  base_deleted = false;
  actions =
      send (header_bytes 1 0 8 5)
      ∷ connection_callback started
      ∷ free_data 30
      ∷ send (ping lib connected)
      ∷ message_callback 18 barrier
      ∷ free_data 31
      ∷ [];
}

history-run : Client.run lib settings 6 history ≡ some reached
unfolding Client.run handle respond new_client base_connection_callback base_message_callback hello
    Client.is_refused finish send_echo load8 header_bytes
history-run = refl

run-freed_example :
    (freed reached.actions ≡ pointers history) × (given reached.actions ≡ given_by settings history)
run-freed_example = run-freed lib settings 6 history reached history-run

barrier-silent : Client.Flag.is_answer lib settings barrier ≡ false
unfolding load8 load32
barrier-silent = refl

timer-dead_example :
    Client.run lib settings 6 (timer ∷ history)
    ≡ some (act (close ∷ connection_callback dead ∷ []) reached)
timer-dead_example =
    timer-dead lib settings 6 (message 31 barrier ∷ []) (message 30 hello4 ∷ base_event up ∷ [])
      reached history-run (barrier-silent, tt)

abbrev live : Client
live = record { datapath_id = 6; conn = some connected; base_deleted = false; actions = [] }

send_echo-answered_example :
    (a' : Client) × (send_echo lib live ≡ some a')
    × (a'.actions ≡ send (ping lib connected) ∷ [])
    × (a'.conn ≡ some (record connected { alive = false }))
    × (base_message_callback lib settings 41 (ping lib connected) reached
        ≡ some
            (finish false 2 (ping lib connected) 41 (act (send (pong lib connected) ∷ []) reached)))
    × (base_message_callback lib settings 42 (pong lib connected) a'
        ≡ some (
            finish false 3
              (pong lib connected)
              42
              (record a' { conn = some (record connected { alive = true }) })))
send_echo-answered_example =
    send_echo-answered lib lib settings settings connected live reached 41 42 refl refl
      (omega arith) refl refl

hello4_version : load8 hello4 0 ≡ some 4
unfolding load8
hello4_version = refl

hello4_type : load8 hello4 1 ≡ some 0
unfolding load8
hello4_type = refl

hello-accepted_example :
    base_message_callback lib settings 30 hello4 live ≡ some (finish false 0 hello4 30 live)
hello-accepted_example =
    hello-accepted lib settings 30 4 hello4 live refl (λ e. absurd (omega arith)) hello4_version
      hello4_type (omega arith) (omega arith)

barrier-IsMessage : IsMessage barrier
unfolding load8
barrier-IsMessage = record {
  long = omega arith;
  version = λ v hello read. absurd (ground (arith, hello));
}

hello4-IsMessage : IsMessage hello4
unfolding load8
hello4-IsMessage = record {
  long = omega arith;
  version = λ v hello read. let same : 4 ≡ v = ground (arith, read) in (omega arith, omega arith);
}

client_run_total_example : (st : Client) × (Client.run lib settings 6 history ≡ some st)
client_run_total_example =
    client_run_total lib settings 6 (message 31 barrier ∷ timer ∷ message 30 hello4 ∷ [])
      (barrier-IsMessage, (tt, (hello4-IsMessage, tt)))
      ((λ h. refl), ((λ h. refl), ((λ h. refl), ((λ h. absurd (ground arith)), tt))))
