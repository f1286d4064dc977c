-- ===== src/Controller/Main.antt =====
-- The main programs examples/controller/msg/MsgController.cc, examples/controller/raw/RawController.cc and
-- examples/controller/mc-agent/MulticastController.cc, up to the start of the controller: which
-- applications they register, by their arguments, and where they exit. `argv` holds the program's name.
use libfluid.Prelude.{
  ℕ, Bool, false, not, ◌&&◌, ◌||◌, Option, none, some, List, [], ◌∷◌, leb, ltb, ◌==◌, if◌then◌else◌,
  length, get_elem?,
}
use Prim.Native.String.{String}
use text.Mathlib.Text.{◌==◌ as str_eq}
use libfluid.Controller.{Input, register}
use libfluid.Controller.Apps.{registrations}

-- A program exits with a status, or registers applications and runs, the last registration first.
pub data Start : Type 0 where
  exits : (status : ℕ) → Start
  runs : List Input → Start

abbrev pub l2 : ℕ
l2 = 0

abbrev pub cbench : ℕ
cbench = 1

-- The multicast agent.
abbrev pub agent : ℕ
agent = 2

-- `main` of MsgController.cc.
unfoldable pub msg_main : (argv : List String) → Start
msg_main argv = elim (get_elem? argv 1) [
  | none ↦ exits 0
  | some arg ↦
      if str_eq arg "l2"
      then runs (registrations l2)
      else if str_eq arg "cbench"
      then runs (register cbench 0 ∷ [])
      else exits 0
]

-- `main` of RawController.cc.
unfoldable pub raw_main : (argv : List String) → Start
raw_main argv = elim (get_elem? argv 1) [
  | none ↦ exits 0
  | some arg ↦
      if str_eq arg "l2"
      then runs (registrations l2)
      else if str_eq arg "cbench"
      then runs (register cbench 0 ∷ [])
      else exits 0
]

-- `atoi`, as a sign and a magnitude, and whether `inet_aton` takes a text for an address.
pub data ℤ : Type 0 where
  pos negsuc : ℕ → ℤ

pub record Libc : Type 0 where
  pub atoi : String → ℤ
  pub inet_aton : String → Bool

-- What parse_commandline_args comes to; `undefined` is a NULL that is read.
pub data Parsed : Type 0 where
  exit : (status : ℕ) → Parsed
  parsed : List String → Parsed
  undefined : Parsed

-- `not (atoi(s) > 65535 || atoi(s) < 1000)`
unfoldable pub is_port : ℤ → Bool
is_port (pos n) = leb n 65535 && leb 1000 n
is_port (negsuc n) = false

unfoldable pub parse_ports : Libc → List String → (app ip : String) → Parsed
parse_ports libc argv app ip = elim (get_elem? argv 3) [
  | none ↦ undefined
  | some port ↦ if not (is_port (libc.atoi port)) then exit 1 else elim (get_elem? argv 4) [
    | none ↦ undefined
    | some of_port ↦
        if not (is_port (libc.atoi of_port))
        then exit 1
        else parsed (app ∷ ip ∷ port ∷ of_port ∷ [])
  ]
]

unfoldable pub parse_address : Libc → List String → (app : String) → Parsed
parse_address libc argv app = elim (get_elem? argv 2) [
  | none ↦ undefined
  | some ip ↦ if not (libc.inet_aton ip) then exit 1 else parse_ports libc argv app ip
]

unfoldable pub parse_commandline_args : Libc → List String → Parsed
parse_commandline_args libc argv = elim (get_elem? argv 1) [
  | none ↦ exit 1
  | some app ↦
      if str_eq app "cbench"
      then parsed (app ∷ [])
      else if str_eq app "mc-app" && (ltb (length argv) 5 || ltb 5 (length argv))
      then exit 1
      else parse_address libc argv app
]

-- `main` of MulticastController.cc: by the number of arguments that were parsed.
unfoldable pub mc_main : Libc → List String → Option Start
mc_main libc argv = elim (parse_commandline_args libc argv) [
  | undefined ↦ none
  | exit status ↦ some (exits status)
  | parsed args ↦
      if length args == 1
      then some (runs (register cbench 0 ∷ []))
      else if length args == 4
      then some (runs (registrations agent))
      else some (runs [])
]
