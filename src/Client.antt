-- ===== src/Client.antt =====
-- class OFClient of examples/switch/client/OFClient.cc over BaseOFClient of
-- examples/switch/client/base/BaseOFClient.cc: the handshake, the echoes, and what is handed to the
-- callbacks of the application. What it calls is listed as actions; `none` is undefined behaviour. The
-- constants, settings, connections and messages of libfluid are parameters.
pub mod Log
pub mod Handlers
pub mod History
pub mod Flag
pub mod Alive
pub mod Echo
pub mod Lifecycle
pub mod Total
pub mod Tests
use libfluid.Prelude.{
  ℕ, zero, suc, ◌+◌, ◌-◌, ◌*◌, ◌/◌, ◌%◌, ◌^◌, Bool, true, false, not, ◌&&◌, ◌||◌, Option, none,
  some, List, [], ◌∷◌, ◌++◌, ltb, ◌==◌, if◌then◌else◌, load8, load32, ntoh16, half_bytes,
  Bool-cases, inl, inr, arith, ◌≡◌, word_bytes, ◌>>=◌,
}

-- What the client asks of OFServerSettings.
pub record Settings : Type 0 where
  pub liveness_check : Bool
  pub handshake : Bool
  pub dispatch_all_messages : Bool
  pub supported_versions : ℕ
  pub max_supported_version : ℕ

-- `OFConnection::State`
pub data State : Type 0 where
  in_handshake running failed : State

pub record OfConnection : Type 0 where
  pub version : ℕ
  pub state : State
  pub alive : Bool

-- libfluid: the xids of its own messages, a new OFConnection, and `of10::FeaturesRequest::unpack` and
-- `of10::FeaturesReply::pack`.
pub record Libfluid : Type 0 where
  pub hello_xid : ℕ
  pub echo_xid : ℕ
  pub new_connection : OfConnection
  pub unpack_xid : List ℕ → ℕ
  pub pack_features_reply : (xid datapath_id n_buffers n_tables capabilities actions : ℕ) → List ℕ

-- `OFConnection::Event`
pub data Event : Type 0 where
  started established failed_negotiation closed dead : Event

-- `BaseOFConnection::Event`
pub data BaseEvent : Type 0 where
  up down base_closed : BaseEvent

-- The calls that the client makes: of its connection, of the application, and of the allocator.
pub data Action : Type 0 where
  send : List ℕ → Action
  close start_echoes delete_connection : Action
  connection_callback : Event → Action
  message_callback : (type : ℕ) (message : List ℕ) → Action
  free_data : (pointer : ℕ) → Action

-- `conn`, and whether the BaseOFConnection that it stands on has been deleted.
pub record Client : Type 0 where
  pub datapath_id : ℕ
  pub conn : Option OfConnection
  pub base_deleted : Bool
  pub actions : List Action

unfoldable pub new_client : ℕ → Client
new_client datapath_id = record {
  datapath_id = datapath_id;
  conn = none;
  base_deleted = false;
  actions = [];
}

abbrev pub act : List Action → Client → Client
act more st = record st { actions = st.actions ++ more }

-- A call of a setter of the OFConnection; there is none before the connection is up.
unfoldable pub set_connection : (OfConnection → OfConnection) → Client → Option Client
set_connection f st = st.conn >>= λ cc. some (record st { conn = some (f cc) })

-- The head of a message: the length is put in network order, the xid is as it lies in memory.
unfoldable pub header_bytes : (version type len xid : ℕ) → List ℕ
header_bytes version type len xid =
    (version % 2 ^ 8 ∷ type ∷ half_bytes (ntoh16 len)) ++ word_bytes xid

-- `dispatch:` if the message goes to the application, and `done:`.
unfoldable pub finish : Bool → (type : ℕ) → List ℕ → (pointer : ℕ) → Client → Client
finish dispatch type message pointer st =
    act ((if dispatch then message_callback type message ∷ [] else []) ++ free_data pointer ∷ []) st

unfoldable pub echo_request : List ℕ → Client → Option Client
echo_request message st = do
  version ← load8 message 0
  xid ← load32 message 4
  some (act (send (header_bytes version 3 8 xid) ∷ []) st)

-- `not supported & (1 << (version - 1))`, where `not` binds tighter than `&`; a shift by -1 or by 32 or
-- more is undefined.
unfoldable pub is_refused : (supported version : ℕ) → Option Bool
is_refused supported version =
    if version == 0 || ltb 32 version then none else some (supported == 0 && version == 1)

unfoldable pub refuse : (version xid : ℕ) → Client → Option Client
refuse version xid st = do
  let st' =
      act (send (header_bytes version 1 12 xid ++ half_bytes 0 ++ half_bytes 0) ∷ close ∷ []) st
  st'' ← set_connection (λ cc. record cc { state = failed }) st'
  some (act (connection_callback failed_negotiation ∷ []) st'')

unfoldable pub hello : Settings → List ℕ → Client → Option Client
hello s message st = do
  version ← load8 message 0
  refused ← is_refused s.supported_versions version
  if refused then (load32 message 4 >>= λ xid. refuse version xid st) else some st

-- `ntohl`
abbrev pub ntoh32 : ℕ → ℕ
ntoh32 v =
    v % 2 ^ 8 * 2 ^ 24
    + v / 2 ^ 8 % 2 ^ 8 * 2 ^ 16
    + v / 2 ^ 16 % 2 ^ 8 * 2 ^ 8
    + v / 2 ^ 24 % 2 ^ 8

unfoldable pub echo_reply : Libfluid → List ℕ → Client → Option Client
echo_reply lib message st = do
  xid ← load32 message 4
  if ntoh32 xid == lib.echo_xid
      then set_connection (λ cc. record cc { alive = true }) st
      else some st

unfoldable pub features_request : Libfluid → Settings → List ℕ → Client → Option Client
features_request lib s message st = do
  version ← load8 message 0
  st' ← set_connection (λ cc. record cc { version = version; state = running }) st
  let reply = lib.pack_features_reply (lib.unpack_xid message) st.datapath_id 1 1 0 0
  some (
      act
        (send reply ∷ (if s.liveness_check then start_echoes ∷ [] else [])
          ++ connection_callback established ∷ [])
        st')

-- OFClient::base_message_callback, for the pointer and the bytes of a message.
unfoldable pub base_message_callback :
    Libfluid → Settings → (pointer : ℕ) → List ℕ → Client → Option Client
base_message_callback lib s pointer message st = do
  type ← load8 message 1
  let all = s.dispatch_all_messages
  if s.liveness_check && type == 2
      then (echo_request message st >>= λ st'. some (finish all type message pointer st'))
      else if s.handshake && type == 0
      then (hello s message st >>= λ st'. some (finish all type message pointer st'))
      else if s.liveness_check && type == 3
      then (echo_reply lib message st >>= λ st'. some (finish all type message pointer st'))
      else if s.handshake && type == 5
      then (features_request lib s message st >>= λ st'.
          some (finish true type message pointer st'))
      else some (finish true type message pointer st)

-- OFClient::base_connection_callback
unfoldable pub base_connection_callback : Libfluid → Settings → BaseEvent → Client → Client
base_connection_callback lib s base_closed st =
    act (delete_connection ∷ []) (record st { base_deleted = true })
base_connection_callback lib s up st =
    let greeting = header_bytes s.max_supported_version 0 8 lib.hello_xid in
    let st' = (if s.handshake then act (send greeting ∷ []) st else st) in
    act (connection_callback started ∷ [])
      (record st' { conn = some lib.new_connection; base_deleted = false })
base_connection_callback lib s down st = act (connection_callback closed ∷ []) st

-- OFClient::send_echo, which a timer of the connection calls.
unfoldable pub send_echo : Libfluid → Client → Option Client
send_echo lib st = st.conn >>= λ cc.
    if cc.alive
    then some (
        act (send (header_bytes cc.version 2 8 (ntoh32 lib.echo_xid)) ∷ [])
          (record st { conn = some (record cc { alive = false }) }))
    else some (act (close ∷ connection_callback dead ∷ []) st)

-- What happens to a client.
pub data Input : Type 0 where
  message : (pointer : ℕ) (bytes : List ℕ) → Input
  base_event : BaseEvent → Input
  timer : Input

unfoldable pub respond : Libfluid → Settings → Input → Client → Option Client
respond lib s (message pointer bytes) st = base_message_callback lib s pointer bytes st
respond lib s (base_event e) st = some (base_connection_callback lib s e st)
respond lib s timer st = send_echo lib st

-- All but the start of a new connection uses the one that is there.
abbrev pub needs_connection : Input → Bool
needs_connection (message pointer bytes) = true
needs_connection (base_event up) = false
needs_connection (base_event down) = true
needs_connection (base_event base_closed) = true
needs_connection timer = true

-- The use of a connection that was deleted is undefined.
unfoldable pub handle : Libfluid → Settings → Input → Client → Option Client
handle lib s i st = if st.base_deleted && needs_connection i then none else respond lib s i st

pub handle-respond :
    (lib : Libfluid) (s : Settings) (i : Input) (st st' : Client)
    → handle lib s i st ≡ some st'
    → respond lib s i st ≡ some st'
unfolding handle
handle-respond lib s i st st' e = elim (Bool-cases (st.base_deleted && needs_connection i)) [
  | inl gone ↦ absurd (ground (arith, gone))
  | inr there ↦ ground (arith, there, e)
]

-- The inputs so far, the newest first.
unfoldable pub run : Libfluid → Settings → ℕ → List Input → Option Client
run lib s datapath_id [] = some (new_client datapath_id)
run lib s datapath_id (i ∷ is) = run lib s datapath_id is >>= handle lib s i

-- The loop of BaseOFClient::try_connect, by whether the socket was made and the results of `connect`, one
-- by one: how often it slept before it connected, or `none` for no connection yet.
unfoldable pub connect_loop : List Bool → Option ℕ
connect_loop [] = none
connect_loop (true ∷ attempts) = some 0
connect_loop (false ∷ attempts) = connect_loop attempts >>= λ sleeps. some (suc sleeps)

unfoldable pub try_connect : (has_socket : Bool) → List Bool → Option ℕ
try_connect false attempts = none
try_connect true attempts = connect_loop attempts
