-- ===== src/Switch/Datapath/Parked.antt =====
-- A captured packet that waits in the buffer of examples/switch/datapath.cc keeps its id until it is
-- deleted, and its bytes until libpcap reuses their memory.
use libfluid.Prelude.{
  ap, ◌∙◌, ◌≢◌, Bool, true, ℕ, zero, suc, ◌+◌, ◌%◌, ◌^◌, ◌≡◌, refl, subst, ◌⊎◌, inl, inr, Option,
  none, some, List, [], ◌∷◌, ◌++◌, arith, ==_iff, set, length, get_elem?, get_elem?-snoc_same,
  Option-cases,
}
use libfluid.Switch.Flow.{MsgLib}
use libfluid.Switch.State.{
  Packet, Memory, lend, lend_at, read_at, Datapath, allocate, free, find, insert_buffer, buffered,
  buffer, init, port_numbers,
}
use libfluid.Switch.Datapath.Triple.{Keeps}
use libfluid.Switch.Datapath.Invariant.{state_eq}
use libfluid.Switch.Datapath.Handlers.{Reach}
use libfluid.Switch.Datapath.Stable.{IsStable, Reuses, Reuses-any, Reach-Keeps}
use libfluid.Switch.Datapath.Buffers.{find-insert_buffer}
use libfluid.Switch.Datapath.Priority.{pointer, missed}

-- The i-th packet is there and has Q, or it has been deleted.
abbrev pub Kept : ℕ → (Packet → Type 0) → List (Option Packet) → Type 0
Kept i Q heap =
    ((pkt : Packet) × ◌≡◌ {A = Option (Option Packet)} (get_elem? heap i) (some (some pkt)) × Q pkt)
    ⊎ ◌≡◌ {A = Option (Option Packet)} (get_elem? heap i) (some none)

-- The pointer to it stands under an id.
pub record IsParked (id i : ℕ) (Q : Packet → Type 0) (d : Datapath) : Type 0 where
  pub named : find id d.pkt_buffer ≡ some (suc i)
  pub kept : Kept i Q d.heap

append-Kept :
    (i : ℕ) (Q : Packet → Type 0) (xs ys : List (Option Packet)) → Kept i Q xs → Kept i Q (xs ++ ys)
append-Kept i Q [] ys (inl (pkt, e, q)) = cc
append-Kept i Q [] ys (inr e) = cc
append-Kept zero Q (x ∷ xs) ys h = h
append-Kept (suc i) Q (x ∷ xs) ys h = append-Kept i Q xs ys h

set-Kept :
    (i j : ℕ) (Q : Packet → Type 0) (xs : List (Option Packet))
    → Kept i Q xs
    → Kept i Q (set xs j none)
set-Kept i j Q [] h = h
set-Kept zero zero Q (x ∷ xs) h = inr refl
set-Kept zero (suc j) Q (x ∷ xs) h = h
set-Kept (suc i) zero Q (x ∷ xs) h = h
set-Kept (suc i) (suc j) Q (x ∷ xs) h = set-Kept i j Q xs h

-- Where the memory of packets in A may be reused, and Q of the i-th survives that.
abbrev pub Survives : (ℕ → Type 0) → ℕ → (Packet → Type 0) → Type 0
Survives A i Q = (r : Bool) (m : Memory) (pkt : Packet) → A i → Q pkt → Q (lend r m pkt)

lend_at-Kept :
    (A : ℕ → Type 0) (i j : ℕ) (Q : Packet → Type 0) (r : Bool) (m : Memory)
    (xs : List (Option Packet))
    → Survives A i Q
    → A j
    → Kept i Q xs
    → Kept i Q (lend_at j r m xs)
unfolding lend_at
lend_at-Kept A i j Q r m [] w a h = h
lend_at-Kept A zero zero Q r m (none ∷ xs) w a h = h
lend_at-Kept A zero zero Q r m (some x ∷ xs) w a (inl (pkt, e, q)) =
    let same : pkt ≡ x = ground (arith, e) in inl (lend r m x, refl, w r m x a (subst Q same q))
lend_at-Kept A zero zero Q r m (some x ∷ xs) w a (inr e) = absurd (ground (arith, e))
lend_at-Kept A zero (suc j) Q r m (x ∷ xs) w a h = h
lend_at-Kept A (suc i) zero Q r m (none ∷ xs) w a h = h
lend_at-Kept A (suc i) zero Q r m (some x ∷ xs) w a h = h
lend_at-Kept A (suc i) (suc j) Q r m (x ∷ xs) w a h =
    lend_at-Kept (λ k. A (suc k)) i j Q r m xs w a h

module _ (id i : ℕ) (Q : Packet → Type 0) where
  frees-IsParked : (p : ℕ) → Keeps (IsParked id i Q) (free p)
  unfolding free
  frees-IsParked zero d h a d' e = subst (IsParked id i Q) (state_eq e) h
  frees-IsParked (suc j) d h a d' e =
      let same : record d { heap = set d.heap j none } ≡ d' = ground arith in
      subst (IsParked id i Q) same (record { named = h.named; kept = set-Kept i j Q d.heap h.kept })

  looks_up-IsParked : (k : ℕ) → Keeps (IsParked id i Q) (buffered k)
  unfolding buffered find
  looks_up-IsParked k d h a d' e = elim (Option-cases (find k d.pkt_buffer)) [
    | inl missing ↦
        let same : record d { pkt_buffer = (k, 0) ∷ d.pkt_buffer } ≡ d' = ground arith in
        let found = h.named in
        subst (IsParked id i Q) same (record { named = ground (arith, ==_iff k id); kept = h.kept })
    | inr (v, found) ↦ let same : d ≡ d' = ground arith in subst (IsParked id i Q) same h
  ]

  -- The calls of the handlers keep a parked packet.
  IsParked-IsStable : (A : ℕ → Type 0) → Survives A i Q → IsStable A (IsParked id i Q)
  unfolding buffer allocate
  IsParked-IsStable A survives = record {
    sends = λ o d h a d' e.
        subst (IsParked id i Q) (state_eq e) (record { named = h.named; kept = h.kept });
    buffers = λ p d h a d' e.
        subst (IsParked id i Q) (state_eq e) (record {
          named = find-insert_buffer id _ p (suc i) d.pkt_buffer h.named;
          kept = h.kept;
        });
    frees = frees-IsParked;
    allocates = λ new d h a d' e.
        let same : record d { heap = d.heap ++ some new ∷ [] } ≡ d' = ground arith in
        subst (IsParked id i Q) same
          (record { named = h.named; kept = append-Kept i Q d.heap _ h.kept });
    looks_up = looks_up-IsParked;
    sets_table = λ f d h a d' e.
        subst (IsParked id i Q) (state_eq e) (record { named = h.named; kept = h.kept });
    connects = λ up d h. record { named = h.named; kept = h.kept };
    reuses = λ j r m d a h. record {
      named = h.named;
      kept = lend_at-Kept A i j Q r m d.heap survives a h.kept;
    };
  }

free-ports : (ports : List ℕ) (p : ℕ) → Keeps (λ d. d.ports ≡ ports) (free p)
unfolding free
free-ports ports zero d h a d' e = ground arith
free-ports ports (suc j) d h a d' e = ground arith

-- No call of the handlers changes the ports.
has_ports-IsStable : (ports : List ℕ) → IsStable (λ i. Unit) (λ d. d.ports ≡ ports)
unfolding buffer allocate buffered
has_ports-IsStable ports = record {
  sends = λ o d h a d' e. ground arith;
  buffers = λ p d h a d' e. ground arith;
  frees = free-ports ports;
  allocates = λ new d h a d' e. ground arith;
  looks_up = λ k d h a d' e. ground arith;
  sets_table = λ f d h a d' e. ground arith;
  connects = λ up d h. h;
  reuses = λ i r m d a h. h;
}

-- A switch that started with n ports has those.
pub Reach-ports :
    (lib : MsgLib) (n : ℕ) {d : Datapath} → Reach lib (init n) d → d.ports ≡ port_numbers n
unfolding init
Reach-ports lib n r =
    Reach-Keeps lib _ _ (has_ports-IsStable (port_numbers n)) r (Reuses-any r) refl

-- The id that the next buffered packet gets.
abbrev pub next_id : Datapath → ℕ
next_id d = (d.buffer_id + 1) % 2 ^ 32

pub find-insert_buffer_new :
    (id p : ℕ) (m : List (ℕ × ℕ)) → find id m ≡ none → find id (insert_buffer id p m) ≡ some p
unfolding insert_buffer find
find-insert_buffer_new id p m e = ground (arith, ==_iff id id)

-- A packet that is buffered under an id that was free is parked under it after any history, and keeps what
-- the reuse of its memory keeps.
pub Reach-missed-IsParked :
    (lib : MsgLib) (A : ℕ → Type 0) (Q : Packet → Type 0) (d : Datapath) {d' : Datapath}
    (port_no : ℕ) (bytes : List ℕ) (wire_len : ℕ)
    → find (next_id d) d.pkt_buffer ≡ none
    → Survives A (length d.heap) Q
    → Q (record { in_port = port_no; readable = true; bytes = bytes })
    → (r : Reach lib (missed port_no bytes wire_len d) d') → Reuses A r
    → IsParked (next_id d) (length d.heap) Q d'
Reach-missed-IsParked lib A Q d port_no bytes wire_len free_id survives q r u =
    let pkt : Packet = record { in_port = port_no; readable = true; bytes = bytes } in
    Reach-Keeps lib A _ (IsParked-IsStable (next_id d) (length d.heap) Q A survives) r u (record {
      named = find-insert_buffer_new (next_id d) (pointer d) d.pkt_buffer free_id;
      kept = inl (pkt, get_elem?-snoc_same d.heap (some pkt), q);
    })

-- The ports after the packet was buffered, and any further history.
pub Reach-missed_ports :
    (lib : MsgLib) (n : ℕ) (d : Datapath) {d' : Datapath} (port_no : ℕ) (bytes : List ℕ)
    (wire_len : ℕ)
    → Reach lib (init n) d
    → Reach lib (missed port_no bytes wire_len d) d'
    → d'.ports ≡ port_numbers n
Reach-missed_ports lib n d port_no bytes wire_len r r' =
    Reach-Keeps lib _ _ (has_ports-IsStable (port_numbers n)) r' (Reuses-any r')
      (Reach-ports lib n r)

-- The i-th packet is there, or it has been deleted.
abbrev pub Live : ℕ → Packet → Datapath → Type 0
Live i pkt d = ◌≡◌ {A = Option (Option Packet)} (get_elem? d.heap i) (some (some pkt))

abbrev pub Gone : ℕ → Datapath → Type 0
Gone i d = ◌≡◌ {A = Option (Option Packet)} (get_elem? d.heap i) (some none)

-- What a captured packet is later on: its port and its length stay, and if the memory of its bytes has not
-- been reused it is as it was captured.
pub record IsHeld (untouched : Type 0) (captured now : Packet) : Type 0 where
  pub same_port : now.in_port ≡ captured.in_port
  pub same_length : length now.bytes ≡ length captured.bytes
  pub kept : untouched → now ≡ captured

length-read_at : (m : Memory) (off n : ℕ) → length (read_at m off n) ≡ n
unfolding read_at
length-read_at m off zero = refl
length-read_at m off (suc n) = ap suc (length-read_at m (suc off) n)

lend-length :
    (r : Bool) (m : Memory) (pkt : Packet) → length (lend r m pkt).bytes ≡ length pkt.bytes
unfolding lend
lend-length r m pkt = length-read_at m 0 (length pkt.bytes)

lend-in_port : (r : Bool) (m : Memory) (pkt : Packet) → (lend r m pkt).in_port ≡ pkt.in_port
unfolding lend
lend-in_port r m pkt = refl

both_live : (i : ℕ) (a b : Packet) (d : Datapath) → Live i a d → Live i b d → a ≡ b
both_live i a b d h k = ground (arith, h, k)

-- A packet that is buffered under an id that was free stands under it after any history, held or deleted.
pub Reach-missed-IsHeld :
    (lib : MsgLib) (d : Datapath) {d' : Datapath} (port_no : ℕ) (bytes : List ℕ) (wire_len : ℕ)
    → find (next_id d) d.pkt_buffer ≡ none
    → (r : Reach lib (missed port_no bytes wire_len d) d')
    → (find (next_id d) d'.pkt_buffer ≡ some (suc (length d.heap)))
      × (((now : Packet) × Live (length d.heap) now d'
            × IsHeld
                (Reuses (λ i. i ≢ length d.heap) r)
                (record { in_port = port_no; readable = true; bytes = bytes })
                now)
          ⊎ Gone (length d.heap) d')
Reach-missed-IsHeld lib d {d'} port_no bytes wire_len free_id r =
    let i = length d.heap in
    let captured : Packet = record { in_port = port_no; readable = true; bytes = bytes } in
    let shape =
      Reach-missed-IsParked lib (λ j. Unit)
        (λ p. (p.in_port ≡ port_no) × (length p.bytes ≡ length bytes)) d port_no bytes wire_len
        free_id (λ r m p a q. (lend-in_port r m p ∙ q.0, lend-length r m p ∙ q.1)) (refl, refl) r
        (Reuses-any r) in
    let whole : Reuses (λ (j : ℕ). j ≢ i) r
        → IsParked (next_id d) i (λ (p : Packet). p ≡ captured) d' =
      λ u.
        Reach-missed-IsParked lib (λ j. j ≢ i) (λ p. p ≡ captured) d port_no bytes wire_len free_id
          (λ r m p a q. absurd (a refl)) refl r u in
    (
      shape.named,
      elim shape.kept [
        | inl (now, live, q) ↦ inl (
          now,
          live,
          record {
            same_port = q.0;
            same_length = q.1;
            kept = λ u. elim (whole u).kept [
              | inl (then_, live', e) ↦ both_live i now then_ d' live live' ∙ e
              | inr gone ↦ absurd (ground (arith, live, gone))
            ];
          },
        )
        | inr gone ↦ inr gone
      ],
    )
