-- ===== src/Multicast/Command/Tests.antt =====
-- The theorem on examples/controller/mc-agent/MCNWClient.hh at a concrete input, with a buffer as libevent
-- documents it.
use libfluid.Prelude.{
  ◌>>=◌, ℕ, zero, suc, ◌≡◌, refl, ap, min, some, List, [], ◌∷◌, ◌++◌, length, arith,
}
use libfluid.Multicast.Membership.{null, connection, new_app}
use libfluid.Multicast.Command.{EvBuffer, IsEvBuffer, Connection}
use libfluid.Multicast.Command.Chunks.{
  Command, IsCommand, Chunk, whole, part, executed, with_agent, receive_all, receive_all-executed,
}

abbrev first : ℕ → List ℕ → List ℕ
first zero xs = []
first (suc n) [] = []
first (suc n) (x ∷ xs) = x ∷ first n xs

abbrev after : ℕ → List ℕ → List ℕ
after zero xs = xs
after (suc n) [] = []
after (suc n) (x ∷ xs) = after n xs

rejoined : (n : ℕ) (xs : List ℕ) → xs ≡ first n xs ++ after n xs
rejoined zero xs = refl
rejoined (suc n) [] = refl
rejoined (suc n) (x ∷ xs) = ap (λ ys. x ∷ ys) (rejoined n xs)

length-first : (n : ℕ) (xs : List ℕ) → length (first n xs) ≡ min n (length xs)
length-first zero xs = omega arith
length-first (suc n) [] = omega arith
length-first (suc n) (x ∷ xs) = omega (arith, length-first n xs)

abbrev lib : EvBuffer
lib = record { removed = first; kept = after }

lib-IsEvBuffer : IsEvBuffer lib
lib-IsEvBuffer = record { split = rejoined; measured = length-first }

abbrev ten_to_eleven : Command
ten_to_eleven = record {
  sip = 0x0100000a;
  dip = 0x0200000a;
  sport = 5000;
  dport = 6000;
  up_intf = 3;
  is_root = 1;
}

ten_to_eleven-IsCommand : IsCommand ten_to_eleven
ten_to_eleven-IsCommand = record {
  sip_fits = omega arith;
  dip_fits = omega arith;
  sport_fits = omega arith;
  dport_fits = omega arith;
  up_intf_fits = omega arith;
  is_root_fits = omega arith;
}

abbrev connected : Connection
connected = record {
  input = [];
  output = [];
  mgma = record (new_app null) { ofconn = connection 1 };
}

-- Half a command, and then a whole one.
abbrev chunks : List Chunk
chunks = part (1 ∷ 2 ∷ 3 ∷ 4 ∷ 5 ∷ 6 ∷ 7 ∷ 8 ∷ []) ∷ whole ten_to_eleven ∷ []

receive_all-executed_example :
    receive_all lib chunks connected
    ≡ (executed chunks connected.mgma >>= λ a. some (with_agent connected a))
receive_all-executed_example =
    receive_all-executed lib chunks connected lib-IsEvBuffer
      (omega arith, (ten_to_eleven-IsCommand, tt)) refl
