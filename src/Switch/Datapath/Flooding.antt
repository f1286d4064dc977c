-- ===== src/Switch/Datapath/Flooding.antt =====
-- What an output action to OFPP_FLOOD or OFPP_ALL sends (examples/switch/datapath.cc).
use libfluid.Prelude.{
  true, ℕ, zero, suc, ◌≡◌, ◌⊎◌, inl, inr, some, List, [], ◌∷◌, ◌++◌, append-nil, append_assoc,
  arith, ◌==◌, if◌then◌else◌, Bool-cases,
}
use libfluid.Switch.Flow.{output}
use libfluid.Switch.State.{Packet, Output, inject, Datapath, deref, read_data_lem}
use libfluid.Switch.Datapath.{ofpp_flood, ofpp_all, flood, output_packet, action_handler}

-- One copy on each port but the packet's own, in the order of the ports.
abbrev pub copies : List ℕ → Packet → List Output
copies [] pkt = []
copies (n ∷ ports) pkt =
    let rest = copies ports pkt in if n == pkt.in_port then rest else inject n pkt.bytes ∷ rest

-- The state with more output.
abbrev pub emit : Datapath → List Output → Datapath
emit d out = record d { sent = d.sent ++ out }

pub deref-emit :
    (p : ℕ) (pkt : Packet) (d : Datapath) (out : List Output)
    → deref p d ≡ some (pkt, d)
    → deref p (emit d out) ≡ some (pkt, emit d out)
unfolding deref
deref-emit zero pkt d out h = cc
deref-emit (suc i) pkt d out h = ground arith

pub flood_lem :
    (ports : List ℕ) (p : ℕ) (pkt : Packet) (d : Datapath)
    → pkt.readable ≡ true
    → deref p d ≡ some (pkt, d)
    → flood ports p d ≡ some (tt, emit d (copies ports pkt))
unfolding flood
flood_lem [] p pkt d r h = ground (arith, append-nil d.sent)
flood_lem (n ∷ ports) p pkt d r h = elim (Bool-cases (n == pkt.in_port)) [
  | inl own ↦ ground (arith, flood_lem ports p pkt d r h)
  | inr apart ↦
      let copy = inject n pkt.bytes in
      ground (
        arith,
        read_data_lem pkt d r,
        flood_lem ports p pkt (emit d (copy ∷ [])) r (deref-emit p pkt d (copy ∷ []) h),
        append_assoc d.sent (copy ∷ []) (copies ports pkt),
      )
]

-- The action to flood a live packet whose bytes may be read, or to send it to all ports, returns, and
-- sends one copy of the packet out of each port but the one it came in on, in the order of the ports, and
-- nothing else.
pub action_handler-flood :
    (port max_len p : ℕ) (pkt : Packet) (d : Datapath)
    → pkt.readable ≡ true
    → (port ≡ ofpp_flood) ⊎ (port ≡ ofpp_all)
    → deref p d ≡ some (pkt, d)
    → action_handler (output port max_len) p d ≡ some (tt, emit d (copies d.ports pkt))
unfolding action_handler output_packet
action_handler-flood port max_len p pkt d r (inl e) h = rw e (flood_lem d.ports p pkt d r h)
action_handler-flood port max_len p pkt d r (inr e) h = rw e (flood_lem d.ports p pkt d r h)
