-- ===== src/Switch/Datapath/Served.antt =====
-- Every event that the switch of examples/switch may expect is handled without undefined behaviour.
use libfluid.Prelude.{
  ℕ, ◌<◌, ◌≡◌, ◌≢◌, refl, sym, subst, ◌∙◌, inl, inr, Bool, true, some, List, [], ◌∷◌, ◌++◌, arith,
  ==_iff, Bool-cases,
}
use libfluid.Switch.Extract.Total.{extract_flow_fields_total}
use libfluid.Switch.Flow.{
  Flow, new_flow, pkt_match, erase_matching, Command, add, modify, modify_strict, delete,
  delete_strict, FlowMod, MsgLib,
}
use libfluid.Switch.Flow.Table.{All-insert, All-erase_strict, All-erase_matching}
use libfluid.Switch.State.{Memory, reuse, Datapath, M, send_controller, barrier_reply}
use libfluid.Switch.Datapath.{
  delete_flows, flow_mod, handle_flow_mod, add_flow, handle_barrier_request, message_callback,
  packet_handler, release_buffered,
}
use libfluid.Switch.Datapath.Forwarding.{IsPort, forward_all}
use libfluid.Switch.Datapath.Priority.{match_of}
use libfluid.Switch.Datapath.Released.{released, release_buffered-Live}
use libfluid.Switch.Datapath.Installed.{installed, flow_of, handle_flow_mod-add}
use libfluid.Switch.Datapath.Safe.{
  IsSafeFlow, IsTame, Serves, NamesLive, IsFitPacketOut, IsFitAdd, All-IsForward, capture-Serves,
  packet_out-Serves,
}

module _ (lib : MsgLib) (n : ℕ) (fits : n < 0xff00) where
  installed-IsTame :
      (d : Datapath) (flow : Flow) → IsTame n d → IsSafeFlow n flow → IsTame n (installed flow d)
  installed-IsTame d flow t safe = record {
    ports = t.ports;
    flows =
        All-insert (IsSafeFlow n) flow _ safe
          (All-erase_strict (IsSafeFlow n) flow d.flow_table t.flows);
  }

  release-Serves :
      (d : Datapath) (flow : Flow) (id : ℕ)
      → IsTame n d
      → IsSafeFlow n flow
      → NamesLive n id d
      → Serves n (release_buffered lib flow id) d
  release-Serves d flow id t safe names =
      let (fields, e) = extract_flow_fields_total names.pkt.bytes in
      let fwd = All-IsForward n names.pkt flow.actions names.captured safe in
      let does =
        release_buffered-Live lib n names.i names.pkt d fits names.readable t.ports names.live flow
          id fields e names.found fwd in
      elim (Bool-cases (pkt_match flow (match_of lib names.pkt.in_port fields))) [
        | inl passes ↦ record {
          after = released names.i (forward_all d.ports names.pkt flow.actions) d;
          returns = ground (arith, does, passes);
          tame = record { ports = t.ports; flows = t.flows };
        }
        | inr fails ↦ record { after = d; returns = ground (arith, does, fails); tame = t }
      ]

  add_flow-Serves :
      (d : Datapath) (msg : List ℕ)
      → IsTame n d
      → (lib.unpack_flow_mod msg).command ≡ add
      → IsFitAdd n (lib.unpack_flow_mod msg) d
      → Serves n (handle_flow_mod lib msg) d
  unfolding handle_flow_mod flow_mod add_flow new_flow
  add_flow-Serves d msg t adds (safe, inl b) =
      let flow = flow_of (lib.unpack_flow_mod msg) in
      record {
        after = installed flow d;
        returns = ground (arith, adds, b);
        tame = installed-IsTame d flow t safe;
      }
  add_flow-Serves d msg t adds (safe, inr (b, names)) =
      let flow = flow_of (lib.unpack_flow_mod msg) in
      let named : NamesLive n (lib.unpack_flow_mod msg).buffer_id (installed flow d) = record {
        i = names.i;
        pkt = names.pkt;
        found = names.found;
        live = names.live;
        readable = names.readable;
        captured = names.captured;
      } in
      let s =
        release-Serves (installed flow d) flow (lib.unpack_flow_mod msg).buffer_id
          (installed-IsTame d flow t safe) safe named in
      record {
        after = s.after;
        returns = handle_flow_mod-add lib msg d adds b ∙ s.returns;
        tame = s.tame;
      }

  delete-Serves : (d : Datapath) (fm : FlowMod) → IsTame n d → Serves n (delete_flows fm) d
  unfolding delete_flows
  delete-Serves d fm t = record {
    after = record d { flow_table = erase_matching (new_flow 0 fm.match []) d.flow_table };
    returns = refl;
    tame = record {
      ports = t.ports;
      flows = All-erase_matching (IsSafeFlow n) _ d.flow_table t.flows;
    };
  }

-- What a FLOW_MOD may ask for: only an ADD sends anything.
abbrev pub IsFitFlowMod : ℕ → FlowMod → Command → Datapath → Type 0
IsFitFlowMod n fm add d = IsFitAdd n fm d
IsFitFlowMod n fm modify d = Unit
IsFitFlowMod n fm modify_strict d = Unit
IsFitFlowMod n fm delete d = Unit
IsFitFlowMod n fm delete_strict d = Unit

-- What reaches the datapath: a message of the controller, a captured packet, a change of the connection, and
-- what becomes of the memory that libpcap lent for a packet.
pub data DatapathEvent : Type 0 where
  message : (type : ℕ) (msg : List ℕ) → DatapathEvent
  capture : (port_no : ℕ) (bytes : List ℕ) (wire_len : ℕ) → DatapathEvent
  connection : (up : Bool) → DatapathEvent
  reused : (i : ℕ) (readable : Bool) (memory : Memory) → DatapathEvent

abbrev pub handle : MsgLib → DatapathEvent → M (Unit {0})
handle lib (message type msg) = message_callback lib type msg
handle lib (capture port_no bytes wire_len) = packet_handler lib port_no bytes wire_len
handle lib (connection up) = λ d. some (tt, record d { conn = up })
handle lib (reused i readable memory) = λ d. some (tt, reuse i readable memory d)

-- By the type of the message.
pub data IsFitMessage (lib : MsgLib) (n : ℕ) (d : Datapath) (msg : List ℕ) : ℕ → Type 0 where
  barrier : d.conn ≡ true → IsFitMessage lib n d msg 18
  packet_out : IsFitPacketOut n (lib.unpack_packet_out msg) d → IsFitMessage lib n d msg 13
  flow_mods :
      IsFitFlowMod n (lib.unpack_flow_mod msg) (lib.unpack_flow_mod msg).command d
      → IsFitMessage lib n d msg 14
  ignored : {type : ℕ} → type ≢ 18 → type ≢ 13 → type ≢ 14 → IsFitMessage lib n d msg type

abbrev pub IsExpected : MsgLib → ℕ → DatapathEvent → Datapath → Type 0
IsExpected lib n (message type msg) d = IsFitMessage lib n d msg type
IsExpected lib n (capture port_no bytes wire_len) d = IsPort n port_no
IsExpected lib n (connection up) d = Unit
IsExpected lib n (reused i readable memory) d = Unit

module _ (lib : MsgLib) (n : ℕ) (fits : n < 0xff00) where
  flow_mod-Serves :
      (d : Datapath) (msg : List ℕ) (c : Command)
      → IsTame n d
      → (lib.unpack_flow_mod msg).command ≡ c
      → IsFitFlowMod n (lib.unpack_flow_mod msg) c d
      → Serves n (handle_flow_mod lib msg) d
  unfolding handle_flow_mod flow_mod
  flow_mod-Serves d msg add t e h = add_flow-Serves lib n fits d msg t e h
  flow_mod-Serves d msg modify t e h = record { after = d; returns = rw e refl; tame = t }
  flow_mod-Serves d msg modify_strict t e h = record { after = d; returns = rw e refl; tame = t }
  flow_mod-Serves d msg delete_strict t e h = record { after = d; returns = rw e refl; tame = t }
  flow_mod-Serves d msg delete t e h =
      let s = delete-Serves lib n fits d (lib.unpack_flow_mod msg) t in
      let does =
        subst
          (λ c.
            flow_mod lib c (lib.unpack_flow_mod msg) d ≡ delete_flows (lib.unpack_flow_mod msg) d)
          (sym e) refl in
      record { after = s.after; returns = does ∙ s.returns; tame = s.tame }

  message-Serves :
      (type : ℕ) (msg : List ℕ) (d : Datapath)
      → IsTame n d
      → IsFitMessage lib n d msg type
      → Serves n (message_callback lib type msg) d
  unfolding message_callback handle_barrier_request send_controller
  message-Serves _ msg d t (barrier up) = record {
    after = record d { sent = d.sent ++ barrier_reply (lib.unpack_xid msg) ∷ [] };
    returns = ground (arith, up);
    tame = record { ports = t.ports; flows = t.flows };
  }
  message-Serves _ msg d t (packet_out h) =
      let s = packet_out-Serves lib n fits d msg t h in
      record { after = s.after; returns = ground (arith, s.returns); tame = s.tame }
  message-Serves _ msg d t (flow_mods h) =
      let s = flow_mod-Serves d msg (lib.unpack_flow_mod msg).command t refl h in
      record { after = s.after; returns = s.returns; tame = s.tame }
  message-Serves type msg d t (ignored a b c) = record {
    after = d;
    returns = ground (arith, ==_iff type 18, ==_iff type 13, ==_iff type 14);
    tame = t;
  }

  pub handle-Serves :
      (e : DatapathEvent) (d : Datapath)
      → IsTame n d
      → IsExpected lib n e d
      → Serves n (handle lib e) d
  handle-Serves (message type msg) d t h = message-Serves type msg d t h
  handle-Serves (capture port_no bytes wire_len) d t h =
      capture-Serves lib n fits d port_no bytes wire_len t h
  handle-Serves (connection up) d t h = record {
    after = record d { conn = up };
    returns = refl;
    tame = record { ports = t.ports; flows = t.flows };
  }
  handle-Serves (reused i readable memory) d t h = record {
    after = reuse i readable memory d;
    returns = refl;
    tame = record { ports = t.ports; flows = t.flows };
  }
