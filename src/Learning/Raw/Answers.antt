-- ===== src/Learning/Raw/Answers.antt =====
-- The bytes of RawLearningSwitch against the objects of MultiLearningSwitch
-- (examples/controller/raw/RawApps.hh and examples/controller/msg/MsgApps.hh).
use libfluid.Prelude.{
  ◌%◌, ℕ, suc, ◌+◌, ◌*◌, ◌/◌, ◌^◌, ◌≡◌, refl, sym, ap, ◌∙◌, Option, some, List, [], ◌∷◌, ◌++◌,
  arith, length, get_elem?, bind-some, load8, load16, ntoh16,
}
use libfluid.Learning.{
  PacketInLib, Message, flow_mod10, packet_out, flood, number, LearningSwitch, ControllerEvent,
  packet_in, switch_up, switch_down, load_address,
}
use libfluid.Learning.Raw.FlowMod.{read_flow_mod}
use libfluid.Learning.Raw.{RawSwitch}
use libfluid.Learning.Raw.Flood.{IsPacketOut}

-- The bytes say what the object of libfluid_msg does: to flood, or the same flow, as a switch of OpenFlow 1.0
-- reads it, between the same addresses and out of the same port, with the same priority, timeouts and
-- flags. What they hand back of the packet in, the cookie and the `max_len` of the action are not compared.
pub data IsAnswer : List ℕ → Message → Type 0 where
  same_flow :
      {raw : List ℕ}
      {xid cookie idle hard priority buffer_id out_port flags dl_src dl_dst p max_len : ℕ}
      {xid' buffer_id' : ℕ}
      → read_flow_mod raw
        ≡ some (record {
          xid = xid';
          wildcards = 0x3ffff3;
          dl_src = dl_src % 2 ^ 48 * 2 ^ 16;
          dl_dst = dl_dst % 2 ^ 48 * 2 ^ 16;
          command = 0;
          idle_timeout = idle;
          hard_timeout = hard;
          priority = priority;
          buffer_id = buffer_id';
          flags = flags;
          port = p % 2 ^ 16;
          max_len = 0;
        })
      → IsAnswer raw (
          flow_mod10 xid cookie idle hard priority buffer_id out_port flags dl_src dl_dst
            (number p)
            max_len)
  both_flood :
      {raw : List ℕ} {xid buffer_id in_port max_len : ℕ} {payload : Option (List ℕ)}
      → IsPacketOut raw
      → IsAnswer raw (packet_out xid buffer_id in_port payload flood max_len)

-- The same answers, one by one, on the same connections.
abbrev pub AreAnswers : List (ℕ × List ℕ) → List (ℕ × Message) → Type 0
AreAnswers [] [] = Unit
AreAnswers [] (m ∷ ms) = ⊥
AreAnswers (r ∷ rs) [] = ⊥
AreAnswers (r ∷ rs) (m ∷ ms) = (r.0 ≡ m.0) × IsAnswer r.1 m.1 × AreAnswers rs ms

pub snoc-AreAnswers :
    (rs : List (ℕ × List ℕ)) (ms : List (ℕ × Message)) (o : ℕ) (raw : List ℕ) (m : Message)
    → AreAnswers rs ms
    → IsAnswer raw m
    → AreAnswers (rs ++ (o, raw) ∷ []) (ms ++ (o, m) ∷ [])
snoc-AreAnswers [] [] o raw m h k = (refl, k, tt)
snoc-AreAnswers [] (n ∷ ms) o raw m h k = absurd h
snoc-AreAnswers (r ∷ rs) [] o raw m h k = absurd h
snoc-AreAnswers (r ∷ rs) (n ∷ ms) o raw m h k = (h.0, h.1, snoc-AreAnswers rs ms o raw m h.2 k)

-- The two switches have learned the same, and have sent the same.
pub record Matches (r : RawSwitch) (st : LearningSwitch) : Type 0 where
  pub tables : r.base.l2tables ≡ st.l2tables
  pub owners : r.base.application_data ≡ st.application_data
  pub answers : AreAnswers r.sent st.sent

-- `of10::PacketIn::unpack` takes the port from the bytes at 14, and the packet from those at 18.
pub record IsUnpacked (lib : PacketInLib) (message : List ℕ) : Type 0 where
  pub head : List ℕ
  pub head_length : length head ≡ 18
  pub split : message ≡ head ++ (lib.unpack10 message).bytes
  pub port :
      (raw : ℕ) → load16 message 14 ≡ some raw → (lib.unpack10 message).in_port ≡ some (ntoh16 raw)

-- An event of a switch of version 1.
abbrev pub IsTen : PacketInLib → ControllerEvent → Type 0
IsTen lib (packet_in o version message) = (version ≡ 1) × IsUnpacked lib message
IsTen lib (switch_up o version) = version ≡ 1
IsTen lib (switch_down o version) = Unit

get_elem?-append : (xs ys : List ℕ) (i : ℕ) → get_elem? (xs ++ ys) (length xs + i) ≡ get_elem? ys i
get_elem?-append [] ys i = let same : 0 + i ≡ i = omega arith in rw same refl
get_elem?-append (x ∷ xs) ys i =
    let next : suc (length xs) + i ≡ suc (length xs + i) = omega arith in
    rw (next, get_elem?-append xs ys i) refl

pub load_address-append :
    (head bytes : List ℕ) (off : ℕ)
    → load_address (head ++ bytes) (length head + off) ≡ load_address bytes off
unfolding load_address load8
load_address-append head bytes off =
    let next : (k : ℕ)
        → get_elem? (head ++ bytes) (length head + off + k) ≡ get_elem? bytes (off + k) =
      λ k.
        let moved : length head + off + k ≡ length head + (off + k) = omega arith in
        rw moved (get_elem?-append head bytes (off + k)) in
    rw (get_elem?-append head bytes off, next 1, next 2, next 3, next 4, next 5) refl

pub load_address-unpacked :
    (lib : PacketInLib) (message : List ℕ) (off : ℕ)
    → IsUnpacked lib message
    → load_address message (18 + off) ≡ load_address (lib.unpack10 message).bytes off
load_address-unpacked lib message off h =
    ap (λ m. load_address m (18 + off)) h.split
    ∙ ap (λ n. load_address (h.head ++ (lib.unpack10 message).bytes) (n + off)) (sym h.head_length)
    ∙ load_address-append h.head (lib.unpack10 message).bytes off

-- The low 16 bits of an address that was read are 0.
pub load_address-low :
    (buf : List ℕ) (off a : ℕ) → load_address buf off ≡ some a → a / 2 ^ 16 * 2 ^ 16 ≡ a
unfolding load_address
load_address-low buf off a e =
    let (b0, _, e0) = bind-some (load8 buf off) _ e in
    let (b1, _, e1) = bind-some (load8 buf (off + 1)) _ e0 in
    let (b2, _, e2) = bind-some (load8 buf (off + 2)) _ e1 in
    let (b3, _, e3) = bind-some (load8 buf (off + 3)) _ e2 in
    let (b4, _, e4) = bind-some (load8 buf (off + 4)) _ e3 in
    let (b5, _, e5) = bind-some (load8 buf (off + 5)) _ e4 in
    let sum : b0 * 2 ^ 16 + b1 * 2 ^ 24 + b2 * 2 ^ 32 + b3 * 2 ^ 40 + b4 * 2 ^ 48 + b5 * 2 ^ 56
        ≡ a =
      ground (arith, e5) in
    omega arith
