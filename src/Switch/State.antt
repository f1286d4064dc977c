-- ===== src/Switch/State.antt =====
-- The state of class Datapath of examples/switch/datapath.hh, with the memory of the packets that it
-- buffers. A call is a function on the state; `none` is undefined behaviour: a dereferenced NULL or
-- freed pointer, a second `delete`, or an index outside a vector.
use libfluid.Prelude.{
  ℕ, zero, suc, ◌+◌, ◌%◌, ◌^◌, Bool, true, false, ◌≡◌, refl, Option, none, some, List, [], ◌∷◌,
  ◌++◌, ◌==◌, if◌then◌else◌, length, get_elem?, set,
}
use libfluid.Switch.Flow.{FlowTable}

-- `struct packet`. The memory at `data` is not the packet's own: that of a captured packet is libpcap's, which
-- promises it only until the callback returns. `bytes` is what the `len` bytes at `data` are at present,
-- and `readable` is that they may be read.
pub record Packet : Type 0 where
  pub in_port : ℕ
  pub readable : Bool
  pub bytes : List ℕ

pub data Reason : Type 0 where
  no_match action : Reason

-- What leaves the switch, in order: `pcap_inject` on a port, and messages to the controller, by the
-- arguments they are built from.
pub data Output : Type 0 where
  inject : (port_no : ℕ) (bytes : List ℕ) → Output
  packet_in : (xid buffer_id in_port total_len : ℕ) (reason : Reason) (bytes : List ℕ) → Output
  barrier_reply : (xid : ℕ) → Output

-- `ports` holds the `port_no_` of each SwPort. A `struct packet *` is 0 for NULL, and `suc i` for
-- the i-th allocated object, which is `none` once deleted. `conn` says that `*conn` is not NULL.
pub record Datapath : Type 0 where
  pub flow_table : FlowTable
  pub pkt_buffer : List (ℕ × ℕ)
  pub ports : List ℕ
  pub conn : Bool
  pub buffer_id : ℕ
  pub heap : List (Option Packet)
  pub sent : List Output

-- The port numbers that the constructor of Switch (examples/switch/Switch.hh) gives out, from 1.
unfoldable pub port_numbers : ℕ → List ℕ
port_numbers zero = []
port_numbers (suc i) = port_numbers i ++ suc i ∷ []

-- `new Datapath()` and its ports, before a connection.
unfoldable pub init : ℕ → Datapath
init n = record {
  flow_table = [];
  pkt_buffer = [];
  ports = port_numbers n;
  conn = false;
  buffer_id = 0;
  heap = [];
  sent = [];
}

abbrev pub M : Type 0 → Type 0
M A = Datapath → Option (A × Datapath)

infixl 5 ◌>>=◌ ◌>>◌
abbrev pub ◌>>=◌ : {A B : Type 0} → M A → (A → M B) → M B
◌>>=◌ m f d = elim (m d) [ none ↦ none | some (a, d') ↦ f a d' ]

abbrev pub ◌>>◌ : {A B : Type 0} → M A → M B → M B
m >> k = m >>= λ _. k

abbrev pub pure : {A : Type 0} → A → M A
pure a d = some (a, d)

abbrev pub fault : {A : Type 0} → M A
fault d = none

abbrev pub send : Output → M (Unit {0})
send o d = some (tt, record d { sent = d.sent ++ o ∷ [] })

-- `new struct packet()`, with its fields set.
unfoldable pub allocate : Packet → M ℕ
allocate p d = some (suc (length d.heap), record d { heap = d.heap ++ some p ∷ [] })

unfoldable pub deref : ℕ → M Packet
deref zero d = none
deref (suc i) d = elim (get_elem? d.heap i) [ some (some p) ↦ some (p, d) | _ ↦ none ]

-- A read of the bytes at `pkt->data`.
unfoldable pub read_data : Packet → M (List ℕ)
read_data pkt d = elim pkt.readable [ true ↦ some (pkt.bytes, d) | false ↦ none ]

pub read_data_lem :
    (pkt : Packet) (d : Datapath) → pkt.readable ≡ true → read_data pkt d ≡ some (pkt.bytes, d)
unfolding read_data
read_data_lem pkt d h = rw h refl

-- What a memory holds, by the offset from a pointer.
abbrev pub Memory : Type 0
Memory = ℕ → ℕ

unfoldable pub read_at : Memory → (off n : ℕ) → List ℕ
read_at memory off zero = []
read_at memory off (suc n) = memory off ∷ read_at memory (suc off) n

-- The bytes at `data` become those of a memory, or may not be read.
unfoldable pub lend : Bool → Memory → Packet → Packet
lend readable memory pkt = record pkt {
  readable = readable;
  bytes = read_at memory 0 (length pkt.bytes);
}

unfoldable pub lend_at : ℕ → Bool → Memory → List (Option Packet) → List (Option Packet)
lend_at i readable memory [] = []
lend_at zero readable memory (none ∷ heap) = none ∷ heap
lend_at zero readable memory (some pkt ∷ heap) = some (lend readable memory pkt) ∷ heap
lend_at (suc i) readable memory (p ∷ heap) = p ∷ lend_at i readable memory heap

-- What may become, after the callback has returned, of the memory that the i-th packet points to.
abbrev pub reuse : ℕ → Bool → Memory → Datapath → Datapath
reuse i readable memory d = record d { heap = lend_at i readable memory d.heap }

-- `delete pkt`, which does nothing to NULL.
unfoldable pub free : ℕ → M (Unit {0})
free zero d = some (tt, d)
free (suc i) d = elim (get_elem? d.heap i) [
  | some (some p) ↦ some (tt, record d { heap = set d.heap i none })
  | _ ↦ none
]

unfoldable pub find : ℕ → List (ℕ × ℕ) → Option ℕ
find k [] = none
find k ((j, v) ∷ m) = if j == k then some v else find k m

-- `pkt_buffer.insert(pair)` leaves an entry that is there already.
unfoldable pub insert_buffer : ℕ → ℕ → List (ℕ × ℕ) → List (ℕ × ℕ)
insert_buffer k v m = elim (find k m) [ some _ ↦ m | none ↦ (k, v) ∷ m ]

-- `pkt_buffer[k]` adds a NULL entry for a key that is missing.
unfoldable pub buffered : ℕ → M ℕ
buffered k d = elim (find k d.pkt_buffer) [
  | some v ↦ some (v, d)
  | none ↦ some (0, record d { pkt_buffer = (k, 0) ∷ d.pkt_buffer })
]

-- `(*conn)->send(…)`
unfoldable pub send_controller : Output → M (Unit {0})
send_controller o d = if d.conn then send o d else none

-- `Datapath::buffer_id++` and the insertion under the new id, which is returned.
unfoldable pub buffer : ℕ → M ℕ
buffer p d =
    let id = (d.buffer_id + 1) % 2 ^ 32 in
    some (id, record d { buffer_id = id; pkt_buffer = insert_buffer id p d.pkt_buffer })

-- `ports[n - 1]`, read out of range for 0 and for numbers past the last port.
unfoldable pub port_at : ℕ → M ℕ
port_at zero d = none
port_at (suc i) d = elim (get_elem? d.ports i) [ some p ↦ some (p, d) | none ↦ none ]
