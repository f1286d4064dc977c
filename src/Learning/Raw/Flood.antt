-- ===== src/Learning/Raw/Flood.antt =====
-- The buffer on the stack that RawLearningSwitch::flood fills (examples/controller/raw/RawApps.hh).
use libfluid.Prelude.{
  ℕ, ◌+◌, ◌^◌, ◌≤◌, ◌<◌, ◌≡◌, refl, ◌∙◌, ◌↔◌, Option, some, List, [], ◌++◌, arith, length,
  length-append, ◌>>=◌, bind-some, load16, load32, ntoh16, zeros, prefix, memcpy, length-zeros,
  prefix_total, prefix-length, memcpy-zeros, memcpy-length, load16_total, load32_total, subst, sym,
  append_assoc, append-nil,
}
use libfluid.Learning.Raw.{
  header_bytes, packet_out_bytes, output_bytes, flood_len, flood_bytes, total_len_at, in_port_at,
}

-- The three copies of `flood`, into a buffer of so many zeros.
abbrev copies : (n total_len : ℕ) (po act message : List ℕ) → Option (List ℕ)
copies n total_len po act message = do
  raw ← memcpy (zeros n) 0 po
  raw' ← memcpy raw 16 act
  content ← prefix total_len message
  memcpy raw' 24 content

-- They stay in the buffer only if the whole packet fits, and only if the message has as many bytes.
copies_fit :
    (n total_len : ℕ) (po act message out : List ℕ)
    → copies n total_len po act message ≡ some out
    → (24 + total_len ≤ n) × (total_len ≤ length message)
copies_fit n total_len po act message out e =
    let (raw, first, e1) = bind-some (memcpy (zeros n) 0 po) _ e in
    let (raw', second, e2) = bind-some (memcpy raw 16 act) _ e1 in
    let (content, read, last) = bind-some (prefix total_len message) _ e2 in
    let (_, len) = memcpy-length (zeros n) 0 po raw first in
    let (_, len') = memcpy-length raw 16 act raw' second in
    let (room, _) = memcpy-length raw' 24 content out last in
    let (there, taken) = prefix-length total_len message content read in
    let size = length-zeros n in (omega arith, there)

-- Copies that fit put the three parts one after the other.
copied :
    (t : ℕ) (po act message content : List ℕ)
    → length po ≡ 16
    → length act ≡ 8
    → prefix t message ≡ some content
    → copies (24 + t) t po act message ≡ some (po ++ (act ++ content))
copied t po act message content size_po size_act read =
    let size = (prefix-length t message content read).1 in
    let whole : 24 + t ≡ length po + (length act + (length content + 0)) = omega arith in
    let at_act : length po ≡ 16 = size_po in
    let first : memcpy (zeros (24 + t)) 0 po
        ≡ some (po ++ zeros (length act + (length content + 0))) =
      rw whole (memcpy-zeros [] po (length act + (length content + 0))) in
    let second : memcpy (po ++ zeros (length act + (length content + 0))) 16 act
        ≡ some (po ++ (act ++ zeros (length content + 0))) =
      subst
        (λ n.
          memcpy (po ++ zeros (length act + (length content + 0))) n act
          ≡ some (po ++ (act ++ zeros (length content + 0))))
        size_po (memcpy-zeros po act (length content + 0)) in
    let end : length (po ++ act) ≡ 24 = length-append po act ∙ omega arith in
    let third = memcpy-zeros (po ++ act) content 0 in
    let joined = append_assoc po act (zeros (length content + 0)) in
    let joined' = append_assoc po act (content ++ []) in
    let closed = append-nil content in
    rw (first, second, read) (cc (third, end, joined, joined', closed))

-- A packet that fits is sent behind the PACKET_OUT and its action: the bytes are the head of the packet
-- in, its own header included, as many as the frame has.
pub flood_bytes-prefix :
    (message content : List ℕ) (raw_len xid buffer_id in_port : ℕ)
    → load16 message total_len_at ≡ some raw_len
    → load32 message 4 ≡ some xid
    → load32 message 8 ≡ some buffer_id
    → load16 message in_port_at ≡ some in_port
    → 24 + ntoh16 raw_len < 2 ^ 16
    → prefix (ntoh16 raw_len) message ≡ some content
    → flood_bytes message
      ≡ some (
          packet_out_bytes (24 + ntoh16 raw_len) xid buffer_id in_port
          ++ (output_bytes 0xfffb ++ content))
unfolding flood_bytes
flood_bytes-prefix message content raw_len xid buffer_id in_port len x b p fits read =
    let whole : flood_len (ntoh16 raw_len) ≡ 24 + ntoh16 raw_len = omega arith in
    rw (len, x, b, p, whole)
      (copied (ntoh16 raw_len) _ _ message content (unfold packet_out_bytes header_bytes in refl)
        (unfold output_bytes in refl) read)

-- The flooding of a packet in that holds its own fixed part stays in its buffers exactly if the packet
-- and the 24 bytes in front of it are no longer than a `uint16_t` can say, and the message is at least as
-- long as the packet; otherwise it writes past the buffer on the stack, or reads past the message.
pub flood_bytes_iff :
    (message : List ℕ) (raw_len : ℕ)
    → 16 ≤ length message
    → load16 message total_len_at ≡ some raw_len
    → ((sent : List ℕ) × (flood_bytes message ≡ some sent))
      ↔ (24 + ntoh16 raw_len < 2 ^ 16) × (ntoh16 raw_len ≤ length message)
unfolding flood_bytes
flood_bytes_iff message raw_len long len =
    let (xid, x) = load32_total message 4 (omega arith) in
    let (buffer_id, b) = load32_total message 8 (omega arith) in
    let (in_port, p) = load16_total message in_port_at (omega arith) in
    (
      (λ (out, e).
          let n = flood_len (ntoh16 raw_len) in
          let ran : copies n (ntoh16 raw_len) (packet_out_bytes n xid buffer_id in_port)
                (output_bytes 0xfffb) message
              ≡ some out =
            sym (rw (len, x, b, p) refl) ∙ e in
          let (room, there) = copies_fit n (ntoh16 raw_len) _ _ message out ran in
          (omega arith, there)),
      (λ (fits, there).
          let (content, read) = prefix_total (ntoh16 raw_len) message there in
          (
            _,
            flood_bytes-prefix message content raw_len xid buffer_id in_port len x b p fits read,
          )),
    )

-- The bytes of a PACKET_OUT that floods.
pub record IsPacketOut (raw : List ℕ) : Type 0 where
  pub len : ℕ
  pub xid : ℕ
  pub buffer_id : ℕ
  pub in_port : ℕ
  pub content : List ℕ
  pub copied : raw ≡ packet_out_bytes len xid buffer_id in_port ++ (output_bytes 0xfffb ++ content)

-- Whatever is sent has the three parts.
pub flood_bytes-IsPacketOut :
    (message raw : List ℕ) → flood_bytes message ≡ some raw → IsPacketOut raw
unfolding flood_bytes
flood_bytes-IsPacketOut message raw e =
    let (raw_len, len, e1) = bind-some (load16 message total_len_at) _ e in
    let (xid, x, e2) = bind-some (load32 message 4) _ e1 in
    let (buffer_id, b, e3) = bind-some (load32 message 8) _ e2 in
    let (in_port, p, e4) = bind-some (load16 message in_port_at) _ e3 in
    let n = flood_len (ntoh16 raw_len) in
    let (room, there) =
      copies_fit n (ntoh16 raw_len) (packet_out_bytes n xid buffer_id in_port) (output_bytes 0xfffb)
        message raw e4 in
    let (content, read) = prefix_total (ntoh16 raw_len) message there in
    let whole : 24 + ntoh16 raw_len < 2 ^ 16 = omega arith in
    let sent =
      flood_bytes-prefix message content raw_len xid buffer_id in_port len x b p whole read in
    record {
      len = 24 + ntoh16 raw_len;
      xid = xid;
      buffer_id = buffer_id;
      in_port = in_port;
      content = content;
      copied = ground (arith, sent, e);
    }
