-- ===== src/Client/Echo.antt =====
-- Two OFClients that check each other (examples/switch/client/OFClient.cc), and the HELLO of another
-- version.
use libfluid.Prelude.{
  ℕ, ◌%◌, ◌^◌, ◌<◌, ◌≤◌, ◌≡◌, ◌≢◌, refl, Bool, true, false, some, List, [], ◌∷◌, ◌++◌, arith, ◌==◌,
  ==_iff, ltb, ◌||◌, ◌&&◌, load8, load32, word_joined,
}
use libfluid.Client.{
  Settings, Libfluid, OfConnection, send, Client, act, set_connection, finish, header_bytes, ntoh32,
  echo_request, is_refused, hello, echo_reply, base_message_callback, send_echo,
}

ntoh32_twice : (v : ℕ) → v < 2 ^ 32 → ntoh32 (ntoh32 v) ≡ v
ntoh32_twice v h = omega arith

ntoh32-lt : (v : ℕ) → ntoh32 v < 2 ^ 32
ntoh32-lt v = omega arith

-- The echo of a connection, and its answer.
abbrev pub ping : Libfluid → OfConnection → List ℕ
ping lib cc = header_bytes cc.version 2 8 (ntoh32 lib.echo_xid)

abbrev pub pong : Libfluid → OfConnection → List ℕ
pong lib cc = header_bytes cc.version 3 8 (ntoh32 lib.echo_xid)

header_xid :
    (version type len xid : ℕ)
    → xid < 2 ^ 32
    → load32 (header_bytes version type len xid) 4 ≡ some xid
unfolding header_bytes load32
header_xid version type len xid h = rw (word_joined xid h) refl

header_version :
    (version type len xid : ℕ)
    → load8 (header_bytes version type len xid) 0 ≡ some (version % 2 ^ 8)
unfolding header_bytes load8
header_version version type len xid = refl

header_type : (version type len xid : ℕ) → load8 (header_bytes version type len xid) 1 ≡ some type
unfolding header_bytes load8
header_type version type len xid = refl

header_narrow :
    (version type len xid : ℕ)
    → header_bytes (version % 2 ^ 8) type len xid ≡ header_bytes version type len xid
unfolding header_bytes
header_narrow version type len xid =
    let same : version % 2 ^ 8 % 2 ^ 8 ≡ version % 2 ^ 8 = omega arith in rw same refl

and_false : (b : Bool) → (b && false) ≡ false
and_false true = refl
and_false false = refl

ping_answered :
    (lib lib' : Libfluid) (s' : Settings) (cc : OfConnection) (b : Client) (p : ℕ)
    → s'.liveness_check ≡ true
    → base_message_callback lib' s' p (ping lib cc) b
      ≡ some (finish s'.dispatch_all_messages 2 (ping lib cc) p (act (send (pong lib cc) ∷ []) b))
unfolding base_message_callback echo_request
ping_answered lib lib' s' cc b p check =
    let x = ntoh32 lib.echo_xid in
    rw
      (
        header_type cc.version 2 8 x,
        check,
        header_version cc.version 2 8 x,
        header_xid cc.version 2 8 x (ntoh32-lt lib.echo_xid),
        header_narrow cc.version 3 8 x,
      )
      refl

pong_taken :
    (lib : Libfluid) (s : Settings) (cc : OfConnection) (a : Client) (q : ℕ)
    → s.liveness_check ≡ true
    → lib.echo_xid < 2 ^ 32
    → a.conn ≡ some (record cc { alive = false })
    → base_message_callback lib s q (pong lib cc) a
      ≡ some (
          finish s.dispatch_all_messages 3
            (pong lib cc)
            q
            (record a { conn = some (record cc { alive = true }) }))
unfolding base_message_callback echo_reply set_connection
pong_taken lib s cc a q check fits waits =
    let x = ntoh32 lib.echo_xid in
    let ours : (ntoh32 (ntoh32 lib.echo_xid) == lib.echo_xid) ≡ true =
      (==_iff (ntoh32 (ntoh32 lib.echo_xid)) lib.echo_xid).1 (ntoh32_twice lib.echo_xid fits) in
    rw
      (
        header_type cc.version 3 8 x,
        check,
        and_false s.handshake,
        header_xid cc.version 3 8 x (ntoh32-lt lib.echo_xid),
        ours,
        waits,
      )
      refl

-- An OFClient with a live connection sends an echo; any other OFClient that checks liveness answers its
-- bytes, whatever its state; and when these bytes are back the connection is alive again.
pub send_echo-answered :
    (lib lib' : Libfluid) (s s' : Settings) (cc : OfConnection) (a b : Client) (p q : ℕ)
    → s.liveness_check ≡ true
    → s'.liveness_check ≡ true
    → lib.echo_xid < 2 ^ 32
    → a.conn ≡ some cc
    → cc.alive ≡ true
    → (a' : Client) × (send_echo lib a ≡ some a')
      × (a'.actions ≡ a.actions ++ send (ping lib cc) ∷ [])
      × (a'.conn ≡ some (record cc { alive = false }))
      × (base_message_callback lib' s' p (ping lib cc) b
          ≡ some
              (finish s'.dispatch_all_messages 2 (ping lib cc) p (act (send (pong lib cc) ∷ []) b)))
      × (base_message_callback lib s q (pong lib cc) a'
          ≡ some (
              finish s.dispatch_all_messages 3
                (pong lib cc)
                q
                (record a' { conn = some (record cc { alive = true }) })))
unfolding send_echo
send_echo-answered lib lib' s s' cc a b p q check check' fits there live =
    let a' =
      act (send (ping lib cc) ∷ []) (record a { conn = some (record cc { alive = false }) }) in
    (
      a',
      rw (there, live) refl,
      refl,
      refl,
      ping_answered lib lib' s' cc b p check',
      pong_taken lib s cc a' q check fits refl,
    )

-- Under a handshake, if the client supports any version at all, a HELLO of any version from 1 to 32 is
-- accepted without a word, whatever versions the client supports: nothing is sent, and the connection is
-- neither closed nor marked as failed.
pub hello-accepted :
    (lib : Libfluid) (s : Settings) (pointer version : ℕ) (bytes : List ℕ) (st : Client)
    → s.handshake ≡ true
    → s.supported_versions ≢ 0
    → load8 bytes 0 ≡ some version
    → load8 bytes 1 ≡ some 0
    → 1 ≤ version
    → version ≤ 32
    → base_message_callback lib s pointer bytes st
      ≡ some (finish s.dispatch_all_messages 0 bytes pointer st)
unfolding base_message_callback hello is_refused
hello-accepted lib s pointer version bytes st shakes some_version v type low high =
    let shift : (version == 0 || ltb 32 version) ≡ false = ground arith in
    let supports : (s.supported_versions == 0) ≡ false = ground arith in
    rw (type, and_false s.liveness_check, shakes, v, shift, supports) refl
