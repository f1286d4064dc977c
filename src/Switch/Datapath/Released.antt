-- ===== src/Switch/Datapath/Released.antt =====
-- A captured packet that no flow took, and the message of the controller that names its buffer id: the
-- PACKET_OUT or the FLOW_MOD sends the bytes that its pointer then shows (examples/switch/datapath.cc and
-- examples/switch/port.cc).
use libfluid.Prelude.{
  true, ℕ, suc, ◌<◌, ◌≡◌, ◌≢◌, refl, ◌⊎◌, inl, inr, false, none, some, List, [], ◌∷◌, ◌++◌, arith,
  set, if◌then◌else◌, All, In,
}
use libfluid.Switch.Extract.{MatchField, extract_flow_fields}
use libfluid.Switch.Extract.Total.{extract_flow_fields_total}
use libfluid.Switch.Flow.{Flow, pkt_match, MsgLib}
use libfluid.Switch.State.{Packet, Output, Datapath, deref, free, find, buffered, port_numbers}
use libfluid.Switch.Datapath.{
  no_buffer, release_buffered, handle_packet_out, first_match, packet_handler,
}
use libfluid.Switch.Match.{Match}
use libfluid.Switch.Datapath.Flooding.{emit}
use libfluid.Switch.Datapath.Forwarding.{IsForward, forward_all, run_actions-emit}
use libfluid.Switch.Datapath.Buffers.{packet_to_send-Stored}
use libfluid.Switch.Datapath.Priority.{match_of, missed, handler_miss, packet_fields_lem}
use libfluid.Switch.Datapath.Parked.{Live, Gone, IsHeld}

-- No flow of the table takes the packet.
abbrev pub IsUntaken : MsgLib → ℕ → List ℕ → Datapath → Type 0
IsUntaken lib port_no bytes d =
    (fields : List MatchField)
    → extract_flow_fields bytes ≡ some fields
    → (g : Flow) → In g d.flow_table
    → pkt_match g (match_of lib port_no fields) ≡ false

-- The state in which the actions on the i-th packet have sent something, and it is deleted.
abbrev pub released : ℕ → List Output → Datapath → Datapath
released i out d = record d { sent = d.sent ++ out; heap = set d.heap i none }

pub first_match-untaken :
    (table : List Flow) (p : Match)
    → ((g : Flow) → In g table → pkt_match g p ≡ false)
    → first_match table p ≡ none
unfolding first_match
first_match-untaken [] p h = refl
first_match-untaken (f ∷ table) p h =
    ground (arith, h f (inl refl), first_match-untaken table p (λ g i. h g (inr i)))

-- What the handler does with it.
pub packet_handler-IsUntaken :
    (lib : MsgLib) (d : Datapath) (port_no : ℕ) (bytes : List ℕ) (wire_len : ℕ)
    → IsUntaken lib port_no bytes d
    → packet_handler lib port_no bytes wire_len d ≡ some (tt, missed port_no bytes wire_len d)
packet_handler-IsUntaken lib d port_no bytes wire_len h =
    let (fields, e) = extract_flow_fields_total bytes in
    handler_miss lib port_no bytes wire_len d fields e
      (first_match-untaken d.flow_table _ (h fields e))

pub deref-Live :
    (i : ℕ) (pkt : Packet) (d : Datapath) → Live i pkt d → deref (suc i) d ≡ some (pkt, d)
unfolding deref
deref-Live i pkt d h = ground (arith, h)

pub deref-Gone : (i : ℕ) (d : Datapath) → Gone i d → deref (suc i) d ≡ none
unfolding deref
deref-Gone i d h = ground (arith, h)

pub free-Live :
    (i : ℕ) (pkt : Packet) (d : Datapath)
    → Live i pkt d
    → free (suc i) d ≡ some (tt, record d { heap = set d.heap i none })
unfolding free
free-Live i pkt d h = ground (arith, h)

module _ (lib : MsgLib) (n i : ℕ) (pkt : Packet) (d : Datapath) (fits : n < 0xff00)
    (readable : pkt.readable ≡ true) (same : d.ports ≡ port_numbers n) (live : Live i pkt d) where
  pub handle_packet_out-Live :
      (msg : List ℕ)
      → (lib.unpack_packet_out msg).buffer_id ≢ no_buffer
      → find (lib.unpack_packet_out msg).buffer_id d.pkt_buffer ≡ some (suc i)
      → All (IsForward n pkt) (lib.unpack_packet_out msg).actions
      → handle_packet_out lib msg d
        ≡ some (tt, released i (forward_all d.ports pkt (lib.unpack_packet_out msg).actions) d)
  unfolding handle_packet_out
  handle_packet_out-Live msg b h fwd =
      let actions = (lib.unpack_packet_out msg).actions in
      let out = forward_all d.ports pkt actions in
      let sent =
        run_actions-emit n (suc i) pkt fits readable actions d same (deref-Live i pkt d live) fwd in
      let freed = free-Live i pkt (emit d out) live in
      ground (arith, packet_to_send-Stored lib msg b d h, sent, freed)

  pub release_buffered-Live :
      (flow : Flow) (id : ℕ) (fields : List MatchField)
      → extract_flow_fields pkt.bytes ≡ some fields
      → find id d.pkt_buffer ≡ some (suc i)
      → All (IsForward n pkt) flow.actions
      → release_buffered lib flow id d ≡ (
          if pkt_match flow (match_of lib pkt.in_port fields)
          then some (tt, released i (forward_all d.ports pkt flow.actions) d)
          else some (tt, d))
  unfolding release_buffered buffered
  release_buffered-Live flow id fields e h fwd =
      let out = forward_all d.ports pkt flow.actions in
      let found = deref-Live i pkt d live in
      let sent = run_actions-emit n (suc i) pkt fits readable flow.actions d same found fwd in
      let freed = free-Live i pkt (emit d out) live in
      let read = packet_fields_lem lib pkt d fields readable e in
      ground (arith, h, found, sent, freed, read)

-- What the PACKET_OUT `msg` does to a packet of the buffer that was captured: if the bytes may be read that
-- its pointer shows now, it sends those by the actions and deletes the packet; or, if the packet has
-- been deleted before, its behaviour is undefined.
abbrev pub IsSentOrGone : MsgLib → List ℕ → ℕ → Type 0 → Packet → Datapath → Type 0
IsSentOrGone lib msg i untouched captured d =
    ((now : Packet) × Live i now d
      × IsHeld untouched captured now
      × (now.readable ≡ true
          → handle_packet_out lib msg d
            ≡ some
                (tt, released i (forward_all d.ports now (lib.unpack_packet_out msg).actions) d)))
    ⊎ (Gone i d × (handle_packet_out lib msg d ≡ none))
