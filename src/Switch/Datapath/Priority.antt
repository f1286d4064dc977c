-- ===== src/Switch/Datapath/Priority.antt =====
-- Which flow the packet handler of examples/switch/port.cc applies to a packet.
use libfluid.Prelude.{
  refl, ℕ, suc, ◌+◌, ◌%◌, ◌^◌, ◌≤◌, ◌++◌, length, Option-cases, ◌≡◌, sym, subst, ◌⊎◌, inl, inr,
  true, false, none, some, List, [], ◌∷◌, arith, if◌then◌else◌, All, In, zero-bit_and,
}
use libfluid.Switch.Match.{Match, pkt_nw, match_std_pkt}
use libfluid.Switch.Flow.{Flow, FlowTable, pkt_match, MsgLib}
use libfluid.Switch.Flow.Table.{IsSorted, HasFullMasks}
use libfluid.Switch.State.{
  Packet, read_data_lem, Datapath, packet_in, no_match, insert_buffer, allocate, buffer, init,
}
use libfluid.Switch.Datapath.{first_match, run_actions, packet_fields, packet_miss, packet_handler}
use mathlib.Core.List.{foldl}
use libfluid.Switch.Extract.{MatchField, in_port, extract_flow_fields}
use libfluid.Switch.Extract.Total.{extract_flow_fields_total}
use libfluid.Switch.Datapath.Handlers.{Reach, Reach-init-Inv}

pub All-In : {A : Type 0} (P : A → Type 0) (x : A) (xs : List A) → All P xs → In x xs → P x
All-In P x [] all h = absurd h
All-In P x (y ∷ xs) all (inl e) = subst P (sym e) all.0
All-In P x (y ∷ xs) all (inr h) = All-In P x xs all.1 h

-- The flow that takes a packet: one of the table that the packet passes, and of those one whose
-- priority is least.
pub record IsTaker (f : Flow) (table : FlowTable) (p : Match) : Type 0 where
  pub present : In f table
  pub passes : pkt_match f p ≡ true
  pub least : (g : Flow) → In g table → pkt_match g p ≡ true → f.priority ≤ g.priority

pub first_match-In :
    (f : Flow) (table : FlowTable) (p : Match)
    → first_match table p ≡ some f
    → In f table × (pkt_match f p ≡ true)
unfolding first_match
first_match-In f [] p e = cc
first_match-In f (g ∷ table) p e = ground (arith, first_match-In f table p)

first_match-least :
    (f g : Flow) (table : FlowTable) (p : Match)
    → IsSorted table
    → first_match table p ≡ some f
    → In g table
    → pkt_match g p ≡ true
    → f.priority ≤ g.priority
unfolding first_match
first_match-least f g [] p s e h m = absurd h
first_match-least f g (x ∷ table) p s e (inl q) m = ground arith
first_match-least f g (x ∷ table) p s e (inr h) m =
    ground (
      arith,
      All-In (λ g. x.priority ≤ g.priority) g table s.0 h,
      first_match-least f g table p s.1,
    )

pub first_match-none :
    (g : Flow) (table : FlowTable) (p : Match)
    → first_match table p ≡ none
    → In g table
    → pkt_match g p ≡ false
unfolding first_match
first_match-none g [] p e h = absurd h
first_match-none g (x ∷ table) p e (inl q) = ground arith
first_match-none g (x ∷ table) p e (inr h) = ground (arith, first_match-none g table p)

first_match-IsTaker :
    (f : Flow) (table : FlowTable) (p : Match)
    → IsSorted table
    → first_match table p ≡ some f
    → IsTaker f table p
first_match-IsTaker f table p s e = record {
  present = (first_match-In f table p e).0;
  passes = (first_match-In f table p e).1;
  least = λ g h m. first_match-least f g table p s e h m;
}

-- The match that the setters of the library build for a packet.
abbrev pub match_of : MsgLib → ℕ → List MatchField → Match
match_of lib port_no fields =
    foldl (λ m f. lib.set_field f m) (lib.set_field (in_port port_no) lib.new_match) fields

-- The state in which the handler has allocated the packet, and the pointer to it.
abbrev pub arrived : ℕ → List ℕ → Datapath → Datapath
arrived port_no bytes d = record d {
  heap = d.heap ++ some (record { in_port = port_no; readable = true; bytes = bytes }) ∷ [];
}

abbrev pub pointer : Datapath → ℕ
pointer d = suc (length d.heap)

-- The state after a miss: the packet stands in the buffer under the next id, and the controller has
-- been told that id if there is a connection.
abbrev pub missed : ℕ → List ℕ → ℕ → Datapath → Datapath
missed port_no bytes wire_len d =
    let id = (d.buffer_id + 1) % 2 ^ 32 in
    let report = packet_in 21 id port_no (wire_len % 2 ^ 16) no_match bytes in
    record (arrived port_no bytes d) {
      buffer_id = id;
      pkt_buffer = insert_buffer id (pointer d) d.pkt_buffer;
      sent = if d.conn then d.sent ++ report ∷ [] else d.sent;
    }

pub record Handled (lib : MsgLib) (port_no : ℕ) (bytes : List ℕ) (wire_len : ℕ) (d : Datapath)
    : Type 0 where
  pub fields : List MatchField
  pub extracted : extract_flow_fields bytes ≡ some fields
  pub outcome :
      ((f : Flow) × IsTaker f d.flow_table (match_of lib port_no fields)
        × (packet_handler lib port_no bytes wire_len d
            ≡ run_actions f.actions (pointer d) (arrived port_no bytes d)))
      ⊎ (((g : Flow) → In g d.flow_table → pkt_match g (match_of lib port_no fields) ≡ false)
          × (packet_handler lib port_no bytes wire_len d
              ≡ some (tt, missed port_no bytes wire_len d)))

pub packet_fields_lem :
    (lib : MsgLib) (pkt : Packet) (d : Datapath) (fields : List MatchField)
    → pkt.readable ≡ true
    → extract_flow_fields pkt.bytes ≡ some fields
    → packet_fields lib pkt d ≡ some (match_of lib pkt.in_port fields, d)
unfolding packet_fields
packet_fields_lem lib pkt d fields h e = ground (arith, read_data_lem pkt d h, e)

-- The packet as it is captured.
abbrev pub captured_packet : ℕ → List ℕ → Packet
captured_packet port_no bytes = record { in_port = port_no; readable = true; bytes = bytes }

pub handler_hit :
    (lib : MsgLib) (port_no : ℕ) (bytes : List ℕ) (wire_len : ℕ) (d : Datapath)
    (fields : List MatchField) (f : Flow)
    → extract_flow_fields bytes ≡ some fields
    → first_match d.flow_table (match_of lib port_no fields) ≡ some f
    → packet_handler lib port_no bytes wire_len d
      ≡ run_actions f.actions (pointer d) (arrived port_no bytes d)
unfolding packet_handler allocate
handler_hit lib port_no bytes wire_len d fields f e m = ground (
  arith,
  packet_fields_lem lib (captured_packet port_no bytes) (arrived port_no bytes d) fields refl e,
)

pub handler_miss :
    (lib : MsgLib) (port_no : ℕ) (bytes : List ℕ) (wire_len : ℕ) (d : Datapath)
    (fields : List MatchField)
    → extract_flow_fields bytes ≡ some fields
    → first_match d.flow_table (match_of lib port_no fields) ≡ none
    → packet_handler lib port_no bytes wire_len d ≡ some (tt, missed port_no bytes wire_len d)
unfolding packet_handler allocate packet_miss buffer
handler_miss lib port_no bytes wire_len d fields e m = ground (
  arith,
  packet_fields_lem lib (captured_packet port_no bytes) (arrived port_no bytes d) fields refl e,
)

-- In a switch that started with an empty table, a captured packet that passes a flow goes through
-- the actions of such a flow, of those one whose priority number is the least; a packet that passes
-- none is buffered under the next id, and reported under it if there is a connection.
pub packet_handler-Handled :
    (lib : MsgLib) (n : ℕ) {d : Datapath} (port_no : ℕ) (bytes : List ℕ) (wire_len : ℕ)
    → Reach lib (init n) d
    → Handled lib port_no bytes wire_len d
packet_handler-Handled lib n {d} port_no bytes wire_len r =
    let (fields, e) = extract_flow_fields_total bytes in
    record {
      fields = fields;
      extracted = e;
      outcome = elim (Option-cases (first_match d.flow_table (match_of lib port_no fields))) [
        | inl m ↦ inr (
          (λ g h. first_match-none g d.flow_table _ m h),
          handler_miss lib port_no bytes wire_len d fields e m,
        )
        | inr (f, m) ↦ inl (
          f,
          first_match-IsTaker f d.flow_table _ (Reach-init-Inv lib n r).sorted m,
          handler_hit lib port_no bytes wire_len d fields f e m,
        )
      ];
    }

pub pkt_nw-full : (a b mask : ℕ) → mask ≡ 0xffffffff → pkt_nw a b mask ≡ true
unfolding pkt_nw
pkt_nw-full a b mask e = rw (e, zero-bit_and)

match_std_pkt-full :
    (a p : Match) (x y sm dm : ℕ)
    → sm ≡ 0xffffffff
    → dm ≡ 0xffffffff
    → match_std_pkt a (record p { nw_src = x; nw_dst = y }) sm dm ≡ match_std_pkt a p sm dm
unfolding match_std_pkt
match_std_pkt-full a p x y sm dm hs hd = rw (
  pkt_nw-full a.nw_src x sm hs,
  pkt_nw-full a.nw_dst y dm hd,
  pkt_nw-full a.nw_src p.nw_src sm hs,
  pkt_nw-full a.nw_dst p.nw_dst dm hd,
)

-- In a switch that started with an empty table, whether a packet passes a flow of the table does not
-- depend on the packet's IP addresses.
pub pkt_match-any_address :
    (lib : MsgLib) (n : ℕ) {d : Datapath} (f : Flow) (p : Match) (x y : ℕ)
    → Reach lib (init n) d
    → In f d.flow_table
    → pkt_match f (record p { nw_src = x; nw_dst = y }) ≡ pkt_match f p
unfolding pkt_match
pkt_match-any_address lib n {d} f p x y r h =
    let m = All-In HasFullMasks f d.flow_table (Reach-init-Inv lib n r).masked h in
    match_std_pkt-full f.match p x y f.nw_src_mask f.nw_dst_mask m.0 m.1
