-- ===== src/Multicast/Command.antt =====
-- class MCNWClientConnection of examples/controller/mc-agent/MCNWClient.hh: the commands of the network
-- controller, and what is sent to it. The buffer of libevent is its bytes and a parameter, EvBuffer.
pub mod Chunks
pub mod Tests
use libfluid.Prelude.{
  ℕ, ◌+◌, ◌*◌, ◌/◌, ◌%◌, ◌^◌, ◌≤◌, ◌≡◌, min, Bool, true, false, Option, none, some, List, [], ◌∷◌,
  ◌++◌, ◌==◌, if◌then◌else◌, length, load16, load32, ntoh16, long_bytes, ◌>>=◌,
}
use libfluid.Multicast.Membership.{App, create_group}

-- `evbuffer_remove`: what it copies out of the bytes of a buffer for a size, and what stays.
pub record EvBuffer : Type 0 where
  pub removed : ℕ → List ℕ → List ℕ
  pub kept : ℕ → List ℕ → List ℕ

-- It takes the first bytes, as many as there are up to the size.
pub record IsEvBuffer (lib : EvBuffer) : Type 0 where
  pub split : (size : ℕ) (bytes : List ℕ) → bytes ≡ lib.removed size bytes ++ lib.kept size bytes
  pub measured :
      (size : ℕ) (bytes : List ℕ) → length (lib.removed size bytes) ≡ min size (length bytes)

-- The six fields of `buf`, and the call of the agent; the addresses stay in network order.
unfoldable pub command : List ℕ → App → Option App
command buf a = do
  sip ← load32 buf 0
  dip ← load32 buf 4
  sport ← load16 buf 8
  dport ← load16 buf 10
  up_intf ← load16 buf 12
  is_root ← load16 buf 14
  create_group sip dip (ntoh16 sport) (ntoh16 dport) (ntoh16 up_intf) (ntoh16 is_root) a

-- What a connection has: the bytes that came in, those that were written, and the agent.
pub record Connection : Type 0 where
  pub input : List ℕ
  pub output : List ℕ
  pub mgma : App

-- MCNWClientConnection::read_cb
unfoldable pub read_cb : EvBuffer → Connection → Option Connection
read_cb lib c =
    let buf = lib.removed 16 c.input in
    let c' = record c { input = lib.kept 16 c.input } in
    if length buf == 16
    then (command buf c.mgma >>= λ a. some (record c' { mgma = a }))
    else some c'

-- Bytes arrive, and libevent calls back.
unfoldable pub receive : EvBuffer → List ℕ → Connection → Option Connection
receive lib bytes c = read_cb lib (record c { input = c.input ++ bytes })

-- `be64toh` on a little-endian host.
abbrev pub be64toh : ℕ → ℕ
be64toh v =
    v % 2 ^ 8 * 2 ^ 56
    + v / 2 ^ 8 % 2 ^ 8 * 2 ^ 48
    + v / 2 ^ 16 % 2 ^ 8 * 2 ^ 40
    + v / 2 ^ 24 % 2 ^ 8 * 2 ^ 32
    + v / 2 ^ 32 % 2 ^ 8 * 2 ^ 24
    + v / 2 ^ 40 % 2 ^ 8 * 2 ^ 16
    + v / 2 ^ 48 % 2 ^ 8 * 2 ^ 8
    + v / 2 ^ 56 % 2 ^ 8

-- MCNWClientConnection::event_cb, by whether the event is BEV_EVENT_CONNECTED; the others are printed.
unfoldable pub event_cb : (is_connected : Bool) → Connection → Connection
event_cb true c = record c { output = c.output ++ long_bytes (be64toh c.mgma.dpid) }
event_cb false c = c
