-- ===== src/Switch/Datapath/Buffers.antt =====
-- A buffered packet after the PACKET_OUT that sends it (examples/switch/datapath.cc): the handler
-- deletes the packet and leaves its pointer in the buffer.
use libfluid.Prelude.{
  ℕ, zero, suc, ◌+◌, ◌%◌, ◌^◌, ◌≡◌, ◌≢◌, refl, subst, inl, inr, false, Option, none, some, List, [],
  ◌∷◌, arith, ◌==◌, ==_iff, set, get_elem?, Option-cases, Bool-cases,
}
use libfluid.Switch.Flow.{Action, MsgLib}
use libfluid.Switch.State.{
  Packet, Output, Datapath, send, free, find, insert_buffer, buffered, buffer,
}
use libfluid.Switch.Datapath.{no_buffer, run_actions, packet_to_send, handle_packet_out, destroy}
use libfluid.Switch.Datapath.Triple.{Triple, Keeps, bind_Triple}
use libfluid.Switch.Datapath.Actions.{run_actions-Keeps}

-- The pointer to packet i stands under an id.
abbrev pub Stored : ℕ → ℕ → Datapath → Type 0
Stored id i d = find id d.pkt_buffer ≡ some (suc i)

-- Packet i has been deleted.
abbrev pub Deleted : ℕ → Datapath → Type 0
Deleted i d = ◌≡◌ {A = Option (Option Packet)} (get_elem? d.heap i) (some none)

send-Stored : (id i : ℕ) (o : Output) → Keeps (Stored id i) (send o)
send-Stored id i o d h a d' e = ground arith

send-Deleted : (i : ℕ) (o : Output) → Keeps (Deleted i) (send o)
send-Deleted i o d h a d' e = ground arith

pub find-insert_buffer :
    (id k p v : ℕ) (m : List (ℕ × ℕ)) → find id m ≡ some v → find id (insert_buffer k p m) ≡ some v
unfolding insert_buffer find
find-insert_buffer id k p v m h = ground arith

buffer-Stored : (id i p : ℕ) → Keeps (Stored id i) (buffer p)
unfolding buffer
buffer-Stored id i p d h a d' e =
    let same : insert_buffer ((d.buffer_id + 1) % 2 ^ 32) p d.pkt_buffer ≡ d'.pkt_buffer =
      ground arith in
    subst (λ m. find id m ≡ some (suc i)) same (find-insert_buffer id _ p (suc i) d.pkt_buffer h)

buffer-Deleted : (i p : ℕ) → Keeps (Deleted i) (buffer p)
unfolding buffer
buffer-Deleted i p d h a d' e = ground arith

actions-Stored : (id i p : ℕ) (actions : List Action) → Keeps (Stored id i) (run_actions actions p)
actions-Stored id i p = run_actions-Keeps (Stored id i) p (send-Stored id i) (buffer-Stored id i p)

actions-Deleted : (i p : ℕ) (actions : List Action) → Keeps (Deleted i) (run_actions actions p)
actions-Deleted i p = run_actions-Keeps (Deleted i) p (send-Deleted i) (buffer-Deleted i p)

pub set-deleted :
    {A : Type 0} (xs : List (Option A)) (i : ℕ) (x : Option A)
    → get_elem? xs i ≡ some x
    → get_elem? (set xs i none) i ≡ some none
set-deleted [] i x h = cc
set-deleted (y ∷ xs) zero x h = refl
set-deleted (y ∷ xs) (suc i) x h = set-deleted xs i x h

set-keeps_deleted :
    {A : Type 0} (xs : List (Option A)) (i j : ℕ)
    → get_elem? xs i ≡ some none
    → get_elem? (set xs j none) i ≡ some none
set-keeps_deleted [] i j h = h
set-keeps_deleted (y ∷ xs) zero zero h = refl
set-keeps_deleted (y ∷ xs) zero (suc j) h = h
set-keeps_deleted (y ∷ xs) (suc i) zero h = h
set-keeps_deleted (y ∷ xs) (suc i) (suc j) h = set-keeps_deleted xs i j h

free-Deleted : (id i : ℕ) → Triple (Stored id i) (free (suc i)) (λ _ d. Stored id i d × Deleted i d)
unfolding free
free-Deleted id i d h a d' e = elim (Option-cases (get_elem? d.heap i)) [
  | inl missing ↦ absurd (ground arith)
  | inr (x, found) ↦
      let heap : set d.heap i none ≡ d'.heap = ground arith in
      let buffer : d.pkt_buffer ≡ d'.pkt_buffer = ground arith in
      (
        subst (λ m. find id m ≡ some (suc i)) buffer h,
        subst (λ xs. ◌≡◌ {A = Option (Option Packet)} (get_elem? xs i) (some none)) heap
            (set-deleted d.heap i x found),
      )
]

free-Keeps-Deleted : (i p : ℕ) → Keeps (Deleted i) (free p)
unfolding free
free-Keeps-Deleted i zero d h a d' e = ground arith
free-Keeps-Deleted i (suc j) d h a d' e =
    let same : set d.heap j none ≡ d'.heap = ground arith in
    subst (λ xs. ◌≡◌ {A = Option (Option Packet)} (get_elem? xs i) (some none)) same
      (set-keeps_deleted d.heap i j h)

-- A packet is not deleted twice.
free_twice : (i : ℕ) → Triple (Deleted i) (free (suc i)) (λ _ _. ⊥)
unfolding free
free_twice i d h a d' e = ground arith

-- A call that cannot return, since nothing can hold after it, does not.
never :
    {A : Type 0} (r : Option (A × Datapath))
    → ((a : A) (d : Datapath) → r ≡ some (a, d) → ⊥)
    → r ≡ none
never none h = refl
never (some (a, d)) h = absurd (h a d refl)

module _ (lib : MsgLib) (msg : List ℕ) {i : ℕ}
    (from_buffer : (lib.unpack_packet_out msg).buffer_id ≢ no_buffer) where
  -- The handler finds the pointer that the buffer holds.
  pub packet_to_send-Stored :
      (d : Datapath)
      → Stored (lib.unpack_packet_out msg).buffer_id i d
      → packet_to_send (lib.unpack_packet_out msg) d ≡ some (suc i, d)
  unfolding packet_to_send buffered
  packet_to_send-Stored d h = ground (arith, ==_iff (lib.unpack_packet_out msg).buffer_id no_buffer)

  handle_packet_out_deletes :
      Triple
        (Stored (lib.unpack_packet_out msg).buffer_id i)
        (handle_packet_out lib msg)
        (λ _ d. Stored (lib.unpack_packet_out msg).buffer_id i d × Deleted i d)
  unfolding handle_packet_out
  handle_packet_out_deletes d h a d' e =
      let po = lib.unpack_packet_out msg in
      let id = po.buffer_id in
      bind_Triple (Stored id i) (λ _. Stored id i) _ (run_actions po.actions (suc i))
        (λ _. free (suc i)) (actions-Stored id i (suc i) po.actions) (λ _. free-Deleted id i) d h a
        d' (ground (arith, packet_to_send-Stored d h))

  pub handle_packet_out_again :
      (d : Datapath)
      → Stored (lib.unpack_packet_out msg).buffer_id i d
      → Deleted i d
      → handle_packet_out lib msg d ≡ none
  unfolding handle_packet_out
  handle_packet_out_again d h gone = never _ λ a d' e.
      bind_Triple (Deleted i) (λ _. Deleted i) (λ _ _. ⊥)
        (run_actions (lib.unpack_packet_out msg).actions (suc i)) (λ _. free (suc i))
        (actions-Deleted i (suc i) _) (λ _. free_twice i) d gone a d'
        (ground (arith, packet_to_send-Stored d h))

destroy-Deleted :
    (id i : ℕ) (m : List (ℕ × ℕ))
    → find id m ≡ some (suc i)
    → Triple (Deleted i) (destroy m) (λ _ _. ⊥)
unfolding destroy find
destroy-Deleted id i [] h = absurd (ground arith)
destroy-Deleted id i ((j, v) ∷ m) h =
    bind_Triple (Deleted i) (λ _ d. Deleted i d × ((j == id) ≡ false)) _ _ _
      (λ d gone a d' e. (
        free-Keeps-Deleted i v d gone a d' e,
        elim (Bool-cases (j == id)) [
          | inl hit ↦
              let same : v ≡ suc i = ground arith in
              absurd (free_twice i d gone a d' (subst (λ p. free p d ≡ some (a, d')) same e))
          | inr miss ↦ miss
        ],
      ))
      (λ _ d r a d' e. destroy-Deleted id i m (ground arith) d r.0 a d' e)

-- When a PACKET_OUT has sent a buffered packet, the pointer to the packet, now deleted, is still in
-- the buffer: a second PACKET_OUT for the same buffer id, whatever its actions, and the destructor
-- of the datapath delete it again.
pub handle_packet_out_dangling :
    (lib : MsgLib) (msg : List ℕ) (i : ℕ) (d d' : Datapath)
    → (lib.unpack_packet_out msg).buffer_id ≢ no_buffer
    → Stored (lib.unpack_packet_out msg).buffer_id i d
    → handle_packet_out lib msg d ≡ some (tt, d')
    → ((again : List ℕ)
        → (lib.unpack_packet_out again).buffer_id ≡ (lib.unpack_packet_out msg).buffer_id
        → handle_packet_out lib again d' ≡ none)
      × (destroy d'.pkt_buffer d' ≡ none)
handle_packet_out_dangling lib msg i d d' b h e =
    let after = handle_packet_out_deletes lib msg b d h tt d' e in
    (
      (λ again same. handle_packet_out_again lib again (rw same b) d' (rw same after.0) after.1),
      never _ (destroy-Deleted _ i d'.pkt_buffer after.0 d' after.1),
    )
