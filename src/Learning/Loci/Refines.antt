-- ===== src/Learning/Loci/Refines.antt =====
-- LociLearningSwitch against RawLearningSwitch (examples/controller/loci/LociApps.hh and
-- examples/controller/raw/RawApps.hh).
use libfluid.Prelude.{
  ℕ, ◌+◌, ◌≡◌, refl, sym, ap, ◌∙◌, true, Option, none, some, List, [], ◌∷◌, inl, inr, arith, set,
  get_elem?, load16, load32, ntoh16, Option-cases, bind-some, memcpy,
}
use libfluid.Client.{ntoh32}
use libfluid.Learning.{
  L2Table, find, assign, LearningSwitch, ControllerEvent, packet_in, switch_up, switch_down,
  get_l2table, base_event_callback, load_address,
}
use libfluid.Learning.Raw
use libfluid.Learning.Raw.{
  RawSwitch, new_raw_switch, address_bytes, in_port_at, data_at, flood_bytes,
}
use libfluid.Learning.Loci
use libfluid.Learning.Loci.{LociSwitch, new_loci_switch}

-- A reply of the raw switch leaves its tables.
raw_reply-base :
    (o : ℕ) (message : List ℕ) (src dst : ℕ) (hit : Option ℕ) (r r' : RawSwitch)
    → Raw.reply o message src dst hit r ≡ some r'
    → r'.base ≡ r.base
unfolding Raw.reply Raw.flood Raw.install_flow_mod
raw_reply-base o message src dst none r r' e =
    let (raw, _, e1) = bind-some (flood_bytes message) _ e in ground (arith, e1)
raw_reply-base o message src dst (some p) r r' e =
    let (xid, _, e1) = bind-some (load32 message 4) _ e in
    let (buffer_id, _, e2) = bind-some (load32 message 8) _ e1 in
    let (raw, _, e3) = bind-some (memcpy _ 0 (Raw.flow_mod_bytes xid buffer_id src dst)) _ e2 in
    let (raw', _, e4) = bind-some (memcpy raw 72 (Raw.output_bytes p)) _ e3 in ground (arith, e4)

-- A reply of the raw switch has read the buffer's id.
raw_reply_read :
    (o : ℕ) (message : List ℕ) (src dst : ℕ) (hit : Option ℕ) (r r' : RawSwitch)
    → Raw.reply o message src dst hit r ≡ some r'
    → (buffer_id : ℕ) × (load32 message 8 ≡ some buffer_id)
unfolding Raw.reply Raw.flood Raw.install_flow_mod flood_bytes
raw_reply_read o message src dst none r r' e =
    let (raw, made, _) = bind-some (flood_bytes message) _ e in
    let (raw_len, _, e1) = bind-some (load16 message Raw.total_len_at) _ made in
    let (xid, _, e2) = bind-some (load32 message 4) _ e1 in
    let (buffer_id, b, _) = bind-some (load32 message 8) _ e2 in (buffer_id, b)
raw_reply_read o message src dst (some p) r r' e =
    let (xid, _, e1) = bind-some (load32 message 4) _ e in
    let (buffer_id, b, _) = bind-some (load32 message 8) _ e1 in (buffer_id, b)

-- With it the switch on LOCI replies, and leaves its tables.
loci_reply_total :
    (o : ℕ) (message : List ℕ) (src dst in_port buffer_id : ℕ) (hit : Option ℕ) (l : LociSwitch)
    → load16 message in_port_at ≡ some in_port
    → load32 message 8 ≡ some buffer_id
    → (l' : LociSwitch) × (Loci.reply true o message src dst hit l ≡ some l') × (l'.base ≡ l.base)
unfolding Loci.reply Loci.flood Loci.install_flow_mod
loci_reply_total o message src dst in_port buffer_id none l p b = (
  Loci.send o (Loci.packet_out (ntoh32 buffer_id) (ntoh16 in_port) 0xfffb) l,
  rw (b, p) refl,
  refl,
)
loci_reply_total o message src dst in_port buffer_id (some out) l p b = (
  Loci.send o
      (Loci.flow_add 123 5 10 100 (ntoh32 buffer_id) (address_bytes src) (address_bytes dst) out) l,
  rw b refl,
  refl,
)

loci_handled :
    (o i : ℕ) (message : List ℕ) (dst src in_port : ℕ) (table : L2Table) (l l' : LociSwitch)
    → load_address message data_at ≡ some dst
    → load_address message (data_at + 6) ≡ some src
    → load16 message in_port_at ≡ some in_port
    → get_elem? l.base.l2tables i ≡ some table
    → Loci.reply true o message src dst (find dst (assign src (ntoh16 in_port) table)) (record l {
      base = record l.base { l2tables = set l.base.l2tables i (assign src (ntoh16 in_port) table) };
    })
      ≡ some l'
    → Loci.handle_packet_in true o message i l ≡ some l'
unfolding Loci.handle_packet_in
loci_handled o i message dst src in_port table l l' d s p t replied = rw (d, s, p, t) replied

handled_base :
    (o i : ℕ) (message : List ℕ) (r r' : RawSwitch) (l : LociSwitch)
    → l.base ≡ r.base
    → Raw.handle_packet_in o message i r ≡ some r'
    → (l' : LociSwitch) × (Loci.handle_packet_in true o message i l ≡ some l') × (l'.base ≡ r'.base)
unfolding Raw.handle_packet_in Loci.handle_packet_in
handled_base o i message r r' l same e =
    let (dst, d, e1) = bind-some (load_address message data_at) _ e in
    let (src, s, e2) = bind-some (load_address message (data_at + 6)) _ e1 in
    let (in_port, p, e3) = bind-some (load16 message in_port_at) _ e2 in
    let (table, t, e4) = bind-some (get_elem? r.base.l2tables i) _ e3 in
    let table' = assign src (ntoh16 in_port) table in
    let write = λ (b : LearningSwitch). record b { l2tables = set b.l2tables i table' } in
    let (buffer_id, b) = raw_reply_read o message src dst (find dst table') _ r' e4 in
    let (l', replied, kept) =
      loci_reply_total o message src dst in_port buffer_id (find dst table')
        (record l { base = write l.base }) p b in
    let t' : get_elem? l.base.l2tables i ≡ some table = ap (λ b. get_elem? b.l2tables i) same ∙ t in
    (
      l',
      loci_handled o i message dst src in_port table l l' d s p t' replied,
      kept ∙ ap write same ∙ sym (raw_reply-base o message src dst (find dst table') _ r' e4),
    )

step_base :
    (ev : ControllerEvent) (r r' : RawSwitch) (l : LociSwitch)
    → l.base ≡ r.base
    → Raw.event_callback ev r ≡ some r'
    → (l' : LociSwitch) × (Loci.event_callback true ev l ≡ some l') × (l'.base ≡ r'.base)
unfolding Raw.event_callback Loci.event_callback
step_base (packet_in o version message) r r' l same e =
    let found : get_l2table o l.base ≡ get_l2table o r.base = ap (get_l2table o) same in
    elim (Option-cases (get_l2table o r.base)) [
      | inl missing ↦
          let stays : r ≡ r' = ground (arith, e, missing) in
          (l, rw (found ∙ missing, Loci.event_callback) refl, same ∙ ap (λ q. q.base) stays)
      | inr (i, there) ↦
          let ran : Raw.handle_packet_in o message i r ≡ some r' = ground (arith, e, there) in
          let (l', done, same') = handled_base o i message r r' l same ran in
          (l', rw (found ∙ there, done, Loci.event_callback) refl, same')
    ]
step_base (switch_up o version) r r' l same e =
    let up : record r { base = base_event_callback (switch_up o version) r.base } ≡ r' =
      ground (arith, e) in
    (_, refl, ap (base_event_callback (switch_up o version)) same ∙ ap (λ q. q.base) up)
step_base (switch_down o version) r r' l same e =
    let down : record r { base = base_event_callback (switch_down o version) r.base } ≡ r' =
      ground (arith, e) in
    (_, refl, ap (base_event_callback (switch_down o version)) same ∙ ap (λ q. q.base) down)

-- If LOCI sets every match, then whatever events the raw switch handles without undefined behaviour, the
-- switch on LOCI handles too, and both have learned the same tables.
pub run-base :
    (es : List ControllerEvent) (r : RawSwitch)
    → Raw.run es ≡ some r
    → (l : LociSwitch) × (Loci.run true es ≡ some l) × (l.base ≡ r.base)
unfolding Raw.run Loci.run new_raw_switch new_loci_switch
run-base [] r e = (new_loci_switch, refl, ground (arith, e))
run-base (ev ∷ es) r e =
    let (before, ran, e1) = bind-some (Raw.run es) _ e in
    let (l, ran', same) = run-base es before ran in
    let (l', done, same') = step_base ev before r l same e1 in (l', rw ran' done, same')
