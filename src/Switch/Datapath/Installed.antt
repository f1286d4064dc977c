-- ===== src/Switch/Datapath/Installed.antt =====
-- A captured packet that no flow took, and the FLOW_MOD that names its buffer id: it installs the flow, and
-- sends the packet by the flow's actions (examples/switch/datapath.cc).
use libfluid.Prelude.{
  sym, true, ℕ, suc, ◌<◌, ◌≡◌, ◌≢◌, ◌∙◌, ◌⊎◌, inl, inr, none, some, List, arith, ==_iff, length,
  if◌then◌else◌, All,
}
use libfluid.Switch.Extract.{MatchField, extract_flow_fields}
use libfluid.Switch.Flow.{Flow, new_flow, pkt_match, insert, erase_strict, add, FlowMod, MsgLib}
use libfluid.Switch.State.{Packet, Datapath, find, buffered, init}
use libfluid.Switch.Datapath.{no_buffer, release_buffered, add_flow, flow_mod, handle_flow_mod}
use libfluid.Switch.Datapath.Handlers.{Reach}
use libfluid.Switch.Datapath.Forwarding.{IsForward, forward_all, All-IsForward-same_port}
use libfluid.Switch.Datapath.Stable.{Reuses}
use libfluid.Switch.Extract.Total.{extract_flow_fields_total}
use libfluid.Switch.Datapath.Priority.{match_of, missed}
use libfluid.Switch.Datapath.Parked.{
  next_id, Live, Gone, IsHeld, Reach-missed_ports, Reach-missed-IsHeld,
}
use libfluid.Switch.Datapath.Released.{deref-Gone, released, release_buffered-Live}

-- The table after an ADD of a flow.
abbrev pub installed : Flow → Datapath → Datapath
installed flow d = record d { flow_table = insert flow (erase_strict flow d.flow_table) }

abbrev pub flow_of : FlowMod → Flow
flow_of fm = new_flow fm.priority fm.match fm.actions

module _ (lib : MsgLib) (msg : List ℕ) (d : Datapath)
    (adds : (lib.unpack_flow_mod msg).command ≡ add)
    (real : (lib.unpack_flow_mod msg).buffer_id ≢ no_buffer) where
  pub handle_flow_mod-add :
      handle_flow_mod lib msg d
      ≡ release_buffered lib
          (flow_of (lib.unpack_flow_mod msg))
          (lib.unpack_flow_mod msg).buffer_id
          (installed (flow_of (lib.unpack_flow_mod msg)) d)
  unfolding handle_flow_mod flow_mod add_flow
  handle_flow_mod-add =
      rw adds (ground (arith, ==_iff (lib.unpack_flow_mod msg).buffer_id no_buffer))

release_buffered-Gone :
    (lib : MsgLib) (flow : Flow) (id i : ℕ) (d : Datapath)
    → find id d.pkt_buffer ≡ some (suc i)
    → Gone i d
    → release_buffered lib flow id d ≡ none
unfolding release_buffered buffered
release_buffered-Gone lib flow id i d h gone = ground (arith, h, deref-Gone i d gone)

-- What the FLOW_MOD `msg` does to a packet of the buffer that was captured: if the bytes may be read that
-- its pointer shows now, it installs its flow, and if they pass the flow it sends them by the flow's
-- actions and deletes the packet; or, if the packet has been deleted before, its behaviour is
-- undefined.
abbrev pub IsReleasedOrGone : MsgLib → List ℕ → ℕ → Type 0 → Packet → Datapath → Type 0
IsReleasedOrGone lib msg i untouched captured d =
    let flow = flow_of (lib.unpack_flow_mod msg) in
    ((now : Packet) × Live i now d
      × IsHeld untouched captured now
      × (now.readable ≡ true
          → (fields : List MatchField) × (extract_flow_fields now.bytes ≡ some fields)
            × (handle_flow_mod lib msg d ≡ (
                if pkt_match flow (match_of lib now.in_port fields)
                then some (tt, released i (forward_all d.ports now flow.actions) (installed flow d))
                else some (tt, installed flow d)))))
    ⊎ (Gone i d × (handle_flow_mod lib msg d ≡ none))

-- In a switch that started with fewer than 0xff00 ports and an empty table, let a captured packet have been
-- buffered under an id that was free and is not the one that stands for no buffer, let any further history
-- follow, and a FLOW_MOD that adds a flow and names this id, with actions that send to ports of the switch
-- only. If the packet has been deleted before, the behaviour of the FLOW_MOD is undefined. If not, the
-- packet still has its port and its length; its bytes are those that were captured if the history has not
-- reused the memory that libpcap lent for them; and if they may be read, the FLOW_MOD installs the flow
-- in place of one that is strictly the same, and, if the packet passes the flow with the bytes that it
-- has now, sends those by the flow's actions and deletes the packet.
pub flow_mod-captured :
    (lib : MsgLib) (n : ℕ) (d : Datapath) (port_no : ℕ) (bytes : List ℕ) (wire_len : ℕ)
    {d' : Datapath} (msg : List ℕ)
    → n < 0xff00
    → Reach lib (init n) d
    → find (next_id d) d.pkt_buffer ≡ none
    → next_id d ≢ no_buffer
    → (later : Reach lib (missed port_no bytes wire_len d) d')
    → (lib.unpack_flow_mod msg).command ≡ add
    → (lib.unpack_flow_mod msg).buffer_id ≡ next_id d
    → All
        (IsForward n (record { in_port = port_no; readable = true; bytes = bytes }))
        (lib.unpack_flow_mod msg).actions
    → IsReleasedOrGone lib msg
        (length d.heap)
        (Reuses (λ i. i ≢ length d.heap) later)
        (record { in_port = port_no; readable = true; bytes = bytes })
        d'
unfolding new_flow
flow_mod-captured lib n d port_no bytes wire_len {d'} msg fits r free_id real later adds named fwd =
    let captured : Packet = record { in_port = port_no; readable = true; bytes = bytes } in
    let i = length d.heap in
    let fm = lib.unpack_flow_mod msg in
    let flow = flow_of fm in
    let (parked, kept) = Reach-missed-IsHeld lib d port_no bytes wire_len free_id later in
    let same = Reach-missed_ports lib n d port_no bytes wire_len r later in
    let found : find fm.buffer_id d'.pkt_buffer ≡ some (suc i) = rw named parked in
    let handled = handle_flow_mod-add lib msg d' adds (rw named real) in
    elim kept [
      | inl (now, live, held) ↦ inl (
        now,
        live,
        held,
        (λ readable.
            let (fields, e) = extract_flow_fields_total now.bytes in
            (
              fields,
              e,
              handled
                  ∙ release_buffered-Live lib n i now (installed flow d') fits readable same live
                      flow fm.buffer_id fields e found
                      (All-IsForward-same_port n captured now _ (sym held.same_port) fwd),
            )),
      )
      | inr gone ↦ inr (
        gone,
        handled ∙ release_buffered-Gone lib flow fm.buffer_id i (installed flow d') found gone,
      )
    ]
