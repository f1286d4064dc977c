-- ===== src/Switch/Datapath/Forwarding.antt =====
-- What a list of actions sends (`action_handler` of examples/switch/datapath.cc over the list), where
-- none of them is for the controller.
use libfluid.Prelude.{
  subst, true, ℕ, zero, suc, false, ◌≤◌, ◌<◌, ◌≡◌, refl, ◌∙◌, ◌⊎◌, inl, inr, some, List, [], ◌∷◌,
  ◌++◌, append-nil, append_assoc, arith, ◌==◌, ltb, Bool-cases, ◌||◌, if◌then◌else◌, length,
  length-append, get_elem?, get_elem?-snoc_same, get_elem?-snoc_other, All,
}
use libfluid.Switch.Flow.{Action, output, other}
use libfluid.Switch.State.{
  Packet, Output, inject, Datapath, deref, read_data_lem, port_at, port_numbers,
}
use libfluid.Switch.Datapath.{
  ofpp_in_port, ofpp_flood, ofpp_all, ofpp_controller, output_packet, action_handler, run_actions,
}
use libfluid.Switch.Datapath.Flooding.{copies, emit, deref-emit, flood_lem}

-- What one action sends: a packet to its own port, to all others, or to the port that is named.
abbrev pub forward : List ℕ → Packet → Action → List Output
forward ports pkt (output port max_len) =
    if port == ofpp_in_port
    then inject pkt.in_port pkt.bytes ∷ []
    else if port == ofpp_flood || port == ofpp_all
    then copies ports pkt
    else inject port pkt.bytes ∷ []
forward ports pkt (other type) = []

abbrev pub forward_all : List ℕ → Packet → List Action → List Output
forward_all ports pkt [] = []
forward_all ports pkt (a ∷ rest) = forward ports pkt a ++ forward_all ports pkt rest

-- One of the ports that a switch with n of them has.
abbrev pub IsPort : ℕ → ℕ → Type 0
IsPort n port = (0 < port) × (port ≤ n)

-- An action that sends to ports of the switch only, or does nothing.
abbrev pub IsForward : ℕ → Packet → Action → Type 0
IsForward n pkt (output port max_len) =
    ((port ≡ ofpp_in_port) × IsPort n pkt.in_port)
    ⊎ ((port ≡ ofpp_flood) ⊎ (port ≡ ofpp_all))
    ⊎ IsPort n port
IsForward n pkt (other type) = Unit

-- It asks of the packet only the port that it came in on.
pub IsForward-same_port :
    (n : ℕ) (p q : Packet) (a : Action) → p.in_port ≡ q.in_port → IsForward n p a → IsForward n q a
IsForward-same_port n p q (output port max_len) e (inl (own, h)) = inl (own, subst (IsPort n) e h)
IsForward-same_port n p q (output port max_len) e (inr h) = inr h
IsForward-same_port n p q (other type) e h = tt

pub All-IsForward-same_port :
    (n : ℕ) (p q : Packet) (actions : List Action)
    → p.in_port ≡ q.in_port
    → All (IsForward n p) actions
    → All (IsForward n q) actions
All-IsForward-same_port n p q [] e h = tt
All-IsForward-same_port n p q (a ∷ rest) e h =
    (IsForward-same_port n p q a e h.0, All-IsForward-same_port n p q rest e h.1)

length-port_numbers : (n : ℕ) → length (port_numbers n) ≡ n
unfolding port_numbers
length-port_numbers zero = refl
length-port_numbers (suc n) =
    length-append (port_numbers n) (suc n ∷ []) ∙ omega (arith, length-port_numbers n)

get_elem?-port_numbers : (n i : ℕ) → i < n → get_elem? (port_numbers n) i ≡ some (suc i)
unfolding port_numbers
get_elem?-port_numbers zero i h = absurd (omega arith)
get_elem?-port_numbers (suc n) i h =
    let size = length-port_numbers n in
    elim (Bool-cases (ltb i n)) [
      | inl before ↦
          get_elem?-snoc_other (port_numbers n) (suc n) i (ground (arith, size))
          ∙ get_elem?-port_numbers n i (ground arith)
      | inr last ↦
          let here : i ≡ length (port_numbers n) = ground (arith, size) in
          let value : i ≡ n = ground arith in
          rw here (get_elem?-snoc_same (port_numbers n) (suc n) ∙ ground (arith, size))
    ]

pub port_at_lem :
    (n port : ℕ) (d : Datapath)
    → d.ports ≡ port_numbers n
    → IsPort n port
    → port_at port d ≡ some (port, d)
unfolding port_at
port_at_lem n zero d same h = absurd (omega arith)
port_at_lem n (suc i) d same h = ground (arith, same, get_elem?-port_numbers n i)

-- The tests of the port pass it on to the last branch.
pub physical_tests :
    (n port : ℕ)
    → n < 0xff00
    → IsPort n port
    → ((port == ofpp_in_port) ≡ false)
      × ((port == ofpp_flood || port == ofpp_all) ≡ false)
      × ((port == ofpp_controller) ≡ false)
physical_tests n port fits h = (ground arith, ground arith, ground arith)

module _ (n p : ℕ) (pkt : Packet) (fits : n < 0xff00) (readable : pkt.readable ≡ true) where
  action_handler-emit :
      (a : Action) (d : Datapath)
      → d.ports ≡ port_numbers n
      → deref p d ≡ some (pkt, d)
      → IsForward n pkt a
      → action_handler a p d ≡ some (tt, emit d (forward d.ports pkt a))
  unfolding action_handler output_packet
  action_handler-emit (output port max_len) d same live (inl (e, own)) =
      rw e
        (ground (arith, read_data_lem pkt d readable, live, port_at_lem n pkt.in_port d same own))
  action_handler-emit (output port max_len) d same live (inr (inl (inl e))) =
      rw e (flood_lem d.ports p pkt d readable live)
  action_handler-emit (output port max_len) d same live (inr (inl (inr e))) =
      rw e (flood_lem d.ports p pkt d readable live)
  action_handler-emit (output port max_len) d same live (inr (inr h)) =
      let (t, u, v) = physical_tests n port fits h in
      ground (arith, read_data_lem pkt d readable, t, u, v, port_at_lem n port d same h, live)
  action_handler-emit (other type) d same live h = ground (arith, append-nil d.sent)

  -- For a live packet whose bytes may be read, and actions that send to ports of the switch only, the loop over the actions
  -- returns, and sends for each action in order what it says: the packet out of the port that it
  -- names, or out of the packet's own port, or one copy out of each other port.
  pub run_actions-emit :
      (actions : List Action) (d : Datapath)
      → d.ports ≡ port_numbers n
      → deref p d ≡ some (pkt, d)
      → All (IsForward n pkt) actions
      → run_actions actions p d ≡ some (tt, emit d (forward_all d.ports pkt actions))
  unfolding run_actions
  run_actions-emit [] d same live h = ground (arith, append-nil d.sent)
  run_actions-emit (a ∷ rest) d same live h =
      let out = forward d.ports pkt a in
      let later = forward_all d.ports pkt rest in
      let first = action_handler-emit a d same live h.0 in
      let then_rest = run_actions-emit rest (emit d out) same (deref-emit p pkt d out live) h.1 in
      ground (arith, first, then_rest, append_assoc d.sent out later)
