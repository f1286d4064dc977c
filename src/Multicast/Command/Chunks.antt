-- ===== src/Multicast/Command/Chunks.antt =====
-- Commands that arrive in pieces (examples/controller/mc-agent/MCNWClient.hh).
use libfluid.Prelude.{
  Option-cases, inl, inr, ℕ, ◌+◌, ◌*◌, ◌/◌, ◌%◌, ◌^◌, ◌<◌, ◌≤◌, ◌≡◌, refl, sym, ap, ◌∙◌, false,
  Option, some, All, List, [], ◌∷◌, ◌++◌, append-nil, arith, ◌==◌, length, length-append, load16,
  load32, ntoh16, half_bytes, word_bytes, word_joined, ◌>>=◌,
}
use libfluid.Multicast.Membership.{App, create_group}
use libfluid.Multicast.Command.{EvBuffer, IsEvBuffer, command, Connection, read_cb, receive}

-- A command as the network controller means it: addresses as they lie in memory, the rest as numbers.
pub record Command : Type 0 where
  pub sip : ℕ
  pub dip : ℕ
  pub sport : ℕ
  pub dport : ℕ
  pub up_intf : ℕ
  pub is_root : ℕ

-- Each field in its width.
pub record IsCommand (c : Command) : Type 0 where
  pub sip_fits : c.sip < 2 ^ 32
  pub dip_fits : c.dip < 2 ^ 32
  pub sport_fits : c.sport < 2 ^ 16
  pub dport_fits : c.dport < 2 ^ 16
  pub up_intf_fits : c.up_intf < 2 ^ 16
  pub is_root_fits : c.is_root < 2 ^ 16

abbrev pub command_bytes : Command → List ℕ
command_bytes c =
    word_bytes c.sip
    ++ word_bytes c.dip
    ++ half_bytes (ntoh16 c.sport)
    ++ half_bytes (ntoh16 c.dport)
    ++ half_bytes (ntoh16 c.up_intf)
    ++ half_bytes (ntoh16 c.is_root)

-- What arrives at once: a command, or less than the bytes of one.
pub data Chunk : Type 0 where
  whole : Command → Chunk
  part : List ℕ → Chunk

abbrev pub chunk_bytes : Chunk → List ℕ
chunk_bytes (whole c) = command_bytes c
chunk_bytes (part bytes) = bytes

abbrev pub IsChunk : Chunk → Type 0
IsChunk (whole c) = IsCommand c
IsChunk (part bytes) = length bytes < 16

-- The agent after the commands that are whole.
abbrev pub executed : List Chunk → App → Option App
executed [] a = some a
executed (whole c ∷ ks) a =
    create_group c.sip c.dip c.sport c.dport c.up_intf c.is_root a >>= executed ks
executed (part bytes ∷ ks) a = executed ks a

-- The chunks arrive one by one.
abbrev pub receive_all : EvBuffer → List Chunk → Connection → Option Connection
receive_all lib [] c = some c
receive_all lib (k ∷ ks) c = receive lib (chunk_bytes k) c >>= receive_all lib ks

swapped : (v : ℕ) → v < 2 ^ 16 → ntoh16 (ntoh16 v % 2 ^ 8 + ntoh16 v / 2 ^ 8 % 2 ^ 8 * 2 ^ 8) ≡ v
swapped v h = omega arith

-- The agent does what the bytes of a command mean.
command-command_bytes :
    (c : Command) (a : App)
    → IsCommand c
    → command (command_bytes c) a ≡ create_group c.sip c.dip c.sport c.dport c.up_intf c.is_root a
unfolding command load16 load32
command-command_bytes c a h =
    rw
      (
        word_joined c.sip h.sip_fits,
        word_joined c.dip h.dip_fits,
        swapped c.sport h.sport_fits,
        swapped c.dport h.dport_fits,
        swapped c.up_intf h.up_intf_fits,
        swapped c.is_root h.is_root_fits,
      )
      refl

nothing : (xs : List ℕ) → length xs ≡ 0 → xs ≡ []
nothing [] h = refl
nothing (x ∷ xs) h = absurd (omega arith)

-- A buffer with no more than the size is taken whole.
takes_all :
    (lib : EvBuffer) (bytes : List ℕ)
    → IsEvBuffer lib
    → length bytes ≤ 16
    → (lib.removed 16 bytes ≡ bytes) × (lib.kept 16 bytes ≡ [])
takes_all lib bytes h short =
    let split = h.split 16 bytes in
    let size = h.measured 16 bytes in
    let sum : length bytes ≡ length (lib.removed 16 bytes) + length (lib.kept 16 bytes) =
      ap length split ∙ length-append (lib.removed 16 bytes) (lib.kept 16 bytes) in
    let rest : lib.kept 16 bytes ≡ [] = nothing (lib.kept 16 bytes) (omega arith) in
    (
      sym (append-nil (lib.removed 16 bytes))
          ∙ ap (λ ys. lib.removed 16 bytes ++ ys) (sym rest)
          ∙ sym split,
      rest,
    )

-- The connection with an empty buffer, and an agent.
abbrev pub with_agent : Connection → App → Connection
with_agent c a = record c { input = []; mgma = a }

receive-whole :
    (lib : EvBuffer) (cmd : Command) (c : Connection)
    → IsEvBuffer lib
    → IsCommand cmd
    → c.input ≡ []
    → receive lib (command_bytes cmd) c ≡ (
        create_group cmd.sip cmd.dip cmd.sport cmd.dport cmd.up_intf cmd.is_root c.mgma >>= λ a.
        some (with_agent c a))
unfolding receive read_cb
receive-whole lib cmd c h fits empty =
    let (taken, left) = takes_all lib (command_bytes cmd) h (omega arith) in
    rw (empty, taken, left, command-command_bytes cmd c.mgma fits) refl

receive-part :
    (lib : EvBuffer) (bytes : List ℕ) (c : Connection)
    → IsEvBuffer lib
    → length bytes < 16
    → c.input ≡ []
    → receive lib bytes c ≡ some (with_agent c c.mgma)
unfolding receive read_cb
receive-part lib bytes c h short empty =
    let (taken, left) = takes_all lib bytes h (omega arith) in
    let lost : (length bytes == 16) ≡ false = ground arith in rw (empty, taken, left, lost) refl

-- Let what arrives at once be either the 16 bytes of one command or fewer than 16. Then the agent carries
-- out, in order, exactly the commands that arrive whole, and its behaviour is undefined where that of one
-- of them is; a shorter piece is taken out of the buffer and lost, so that the rest of its command is a
-- piece of its own.
pub receive_all-executed :
    (lib : EvBuffer) (ks : List Chunk) (c : Connection)
    → IsEvBuffer lib
    → All IsChunk ks
    → c.input ≡ []
    → receive_all lib ks c ≡ (executed ks c.mgma >>= λ a. some (with_agent c a))
receive_all-executed lib [] c h fits empty = rw empty refl
receive_all-executed lib (whole cmd ∷ ks) c h fits empty =
    let made = create_group cmd.sip cmd.dip cmd.sport cmd.dport cmd.up_intf cmd.is_root c.mgma in
    rw (receive-whole lib cmd c h fits.0 empty) (elim (Option-cases made) [
      | inl stuck ↦ rw stuck refl
      | inr (a, done) ↦ rw done (receive_all-executed lib ks (with_agent c a) h fits.1 refl)
    ])
receive_all-executed lib (part bytes ∷ ks) c h fits empty =
    rw (receive-part lib bytes c h fits.0 empty)
      (receive_all-executed lib ks (with_agent c c.mgma) h fits.1 refl)
