-- ===== src/Switch/Main.antt =====
-- The arguments of examples/switch/Switch.cc, and the ports of examples/switch/port.cc with libpcap as a
-- parameter. A text that `main` gets is a list of characters; `argv` holds the program's name.
use libfluid.Prelude.{
  ℕ, ◌+◌, Bool, not, ◌==◌, Option, none, some, List, [], ◌∷◌, if◌then◌else◌, ◌>>=◌,
}
use Prim.Native.String.{String}
use text.Mathlib.Text.{◌==◌ as str_eq}

pub data SwitchStart : Type 0 where
  exits : SwitchStart
  starts : (ports : List String) (dp_id : Option ℕ) → SwitchStart

-- The loop over the arguments: the ports up to a `-d`, and what follows it.
unfoldable pub split_ports : List String → List String × Option (List String)
split_ports [] = ([], none)
split_ports (arg ∷ args) =
    let rest = split_ports args in
    if str_eq arg "-d" then ([], some args) else (arg ∷ rest.0, rest.1)

-- The datapath id behind a `-d`, where 0 and nothing are refused.
unfoldable pub start_with :
    (str_to_uint64 : String → ℕ) → List String → Option (List String) → SwitchStart
start_with str_to_uint64 ports none = starts ports none
start_with str_to_uint64 ports (some []) = exits
start_with str_to_uint64 ports (some (text ∷ rest)) =
    let dpid = str_to_uint64 text in if dpid == 0 then exits else starts ports (some dpid)

-- `main`, up to `start`, with the conversion of `strtoull`.
unfoldable pub main : (str_to_uint64 : String → ℕ) → (argv : List String) → SwitchStart
main str_to_uint64 [] = exits
main str_to_uint64 (name ∷ []) = exits
main str_to_uint64 (name ∷ flag ∷ args) =
    if not (str_eq flag "-i")
    then exits
    else start_with str_to_uint64 (split_ports args).0 (split_ports args).1

-- libpcap: `pcap_open_live`, and whether `pcap_setdirection` succeeds.
pub record Libpcap : Type 0 where
  pub open_live : String → Option ℕ
  pub set_direction : ℕ → Bool

pub record SwPort : Type 0 where
  pub port_no : ℕ
  pub name : String
  pub pcap : Option ℕ

unfoldable pub new_port : ℕ → String → SwPort
new_port port_no name = record { port_no = port_no; name = name; pcap = none }

-- `SwPort::open`: `none` is `exit(1)`. A direction that is not set is printed, and the port is used.
unfoldable pub open_port : Libpcap → SwPort → Option SwPort
open_port lib p = lib.open_live p.name >>= λ handle. some (record p { pcap = some handle })

-- The loops of the constructor of Switch over its ports: they are numbered from 1, and then opened.
unfoldable pub new_ports : ℕ → List String → List SwPort
new_ports i [] = []
new_ports i (name ∷ names) = new_port (i + 1) name ∷ new_ports (i + 1) names

unfoldable pub open_all : Libpcap → List SwPort → Option (List SwPort)
open_all lib [] = some []
open_all lib (p ∷ ps) =
    open_port lib p >>= λ opened. open_all lib ps >>= λ rest. some (opened ∷ rest)
