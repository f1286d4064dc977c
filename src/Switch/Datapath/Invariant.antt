-- ===== src/Switch/Datapath/Invariant.antt =====
-- The invariant of the state of examples/switch/datapath.cc, and the rules for the calls on packets
-- and on the table that keep it.
use libfluid.Prelude.{
  Bool, ap, ℕ, zero, suc, ◌^◌, ◌≤◌, ◌<◌, ◌≡◌, refl, subst, inl, inr, Option, none, some, List, [],
  ◌∷◌, ◌++◌, arith, length, length-append, length-set, Option-cases, All, set,
}
use libfluid.Switch.Match.{Match}
use libfluid.Switch.Flow.{Action, FlowTable, new_flow}
use libfluid.Switch.Flow.Table.{IsSorted, HasFullMasks}
use libfluid.Switch.State.{
  Packet, Memory, lend_at, Output, Datapath, send, allocate, free, find, insert_buffer, buffered,
  send_controller, buffer,
}
use libfluid.Switch.Datapath.{run_actions, set_table}
use libfluid.Switch.Datapath.Actions.{run_actions-Keeps, send_controller-Keeps}
use libfluid.Switch.Datapath.Triple.{Triple, Keeps}

-- The table is in order of priority and each of its flows masks both IP addresses whole; buffer ids
-- are 32 bits; and the each pointer of the buffer is NULL or that of a packet that was allocated,
-- deleted or not.
pub record Inv (d : Datapath) : Type 0 where
  pub sorted : IsSorted d.flow_table
  pub masked : All HasFullMasks d.flow_table
  pub counted : d.buffer_id < 2 ^ 32
  pub known : All (λ e. e.1 ≤ length d.heap) d.pkt_buffer

-- A pointer is NULL or that of a packet that was allocated.
abbrev pub Holds : ℕ → Datapath → Type 0
Holds p d = Inv d × (p ≤ length d.heap)

pub length-lend_at :
    (i : ℕ) (readable : Bool) (memory : Memory) (heap : List (Option Packet))
    → length (lend_at i readable memory heap) ≡ length heap
unfolding lend_at
length-lend_at i r m [] = refl
length-lend_at zero r m (none ∷ heap) = refl
length-lend_at zero r m (some pkt ∷ heap) = refl
length-lend_at (suc i) r m (p ∷ heap) = ap suc (length-lend_at i r m heap)

abbrev Outcome : Type 0 → Type 0
Outcome A = Option (A × Datapath)

pub state_eq :
    {A : Type 0} {x a : A} {d d' : Datapath}
    → ◌≡◌ {A = Outcome A} (some (x, d)) (some (a, d'))
    → d ≡ d'
state_eq e = ground arith

All-known : (m n : ℕ) (b : List (ℕ × ℕ)) → m ≤ n → All (λ e. e.1 ≤ m) b → All (λ e. e.1 ≤ n) b
All-known m n [] h k = tt
All-known m n (e ∷ b) h k = (omega arith, All-known m n b h k.1)

known_find : (k n p : ℕ) (b : List (ℕ × ℕ)) → All (λ e. e.1 ≤ n) b → find k b ≡ some p → p ≤ n
unfolding find
known_find k n p [] h e = cc
known_find k n p ((j, v) ∷ b) h e = ground (arith, known_find k n p b h.1)

known_insert :
    (k p n : ℕ) (b : List (ℕ × ℕ))
    → p ≤ n
    → All (λ e. e.1 ≤ n) b
    → All (λ e. e.1 ≤ n) (insert_buffer k p b)
unfolding insert_buffer
known_insert k p n b h all = ground arith

module _ (p : ℕ) where
  pub send-Keeps : (o : Output) → Keeps (Holds p) (send o)
  send-Keeps o d h a d' e = subst (Holds p) (state_eq e) (
    record { sorted = h.0.sorted; masked = h.0.masked; counted = h.0.counted; known = h.0.known },
    h.1,
  )

  pub free-Keeps : (q : ℕ) → Keeps (Holds p) (free q)
  unfolding free
  free-Keeps zero d h a d' e = subst (Holds p) (state_eq e) h
  free-Keeps (suc i) d h a d' e =
      let same : record d { heap = set d.heap i none } ≡ d' = ground arith in
      subst (Holds p) same (
        record {
          sorted = h.0.sorted;
          masked = h.0.masked;
          counted = h.0.counted;
          known = rw length-set h.0.known;
        },
        rw length-set h.1,
      )

  pub buffer-Keeps : Keeps (Holds p) (buffer p)
  unfolding buffer
  buffer-Keeps d h a d' e = subst (Holds p) (state_eq e) (
    record {
      sorted = h.0.sorted;
      masked = h.0.masked;
      counted = omega arith;
      known = known_insert _ p (length d.heap) d.pkt_buffer h.1 h.0.known;
    },
    h.1,
  )

  pub run_actions-Holds : (actions : List Action) → Keeps (Holds p) (run_actions actions p)
  run_actions-Holds = run_actions-Keeps (Holds p) p send-Keeps buffer-Keeps

  pub send_controller-Holds : (o : Output) → Keeps (Holds p) (send_controller o)
  send_controller-Holds = send_controller-Keeps (Holds p) p send-Keeps buffer-Keeps

-- The pointer found under a buffer id is known.
pub buffered_Triple : (k : ℕ) → Triple Inv (buffered k) Holds
unfolding buffered
buffered_Triple k d h p d' e = elim (Option-cases (find k d.pkt_buffer)) [
  | inl missing ↦
      let same : record d { pkt_buffer = (k, 0) ∷ d.pkt_buffer } ≡ d' = ground arith in
      let null : 0 ≡ p = ground arith in
      subst (λ q. Holds q d') null
        (subst (Holds 0) same (
          record {
            sorted = h.sorted;
            masked = h.masked;
            counted = h.counted;
            known = (omega arith, h.known);
          },
          omega arith,
        ))
  | inr (v, found) ↦
      let same : d ≡ d' = ground arith in
      let value : v ≡ p = ground arith in
      subst (λ q. Holds q d') value
        (subst (Holds v) same (h, known_find k _ v d.pkt_buffer h.known found))
]

pub allocate_Triple : (pkt : Packet) → Triple Inv (allocate pkt) Holds
unfolding allocate
allocate_Triple pkt d h p d' e =
    let same : record d { heap = d.heap ++ some pkt ∷ [] } ≡ d' = ground arith in
    let value : suc (length d.heap) ≡ p = ground arith in
    let grown = length-append d.heap (some pkt ∷ []) in
    subst (λ q. Holds q d') value
      (subst (Holds (suc (length d.heap))) same (
        record {
          sorted = h.sorted;
          masked = h.masked;
          counted = h.counted;
          known = All-known (length d.heap) _ d.pkt_buffer (omega (arith, grown)) h.known;
        },
        omega (arith, grown),
      ))

pub new_flow_masks :
    (priority : ℕ) (m : Match) (actions : List Action) → HasFullMasks (new_flow priority m actions)
unfolding new_flow
new_flow_masks priority m actions = (refl, refl)

pub set_table-Keeps :
    (f : FlowTable → FlowTable)
    → ((t : FlowTable) → IsSorted t → IsSorted (f t))
    → ((t : FlowTable) → All HasFullMasks t → All HasFullMasks (f t))
    → Keeps Inv (set_table f)
set_table-Keeps f sorted masked d h a d' e = subst Inv (state_eq e) (record {
  sorted = sorted d.flow_table h.sorted;
  masked = masked d.flow_table h.masked;
  counted = h.counted;
  known = h.known;
})
