-- ===== src/Client/Log.antt =====
-- The frees and the calls of the application among the actions of an OFClient (examples/switch/client/OFClient.cc).
use libfluid.Prelude.{
  ℕ, ◌≡◌, refl, sym, ap, ◌∙◌, Bool, not, ◌&&◌, ◌||◌, List, [], ◌∷◌, ◌++◌, append-nil, append_assoc,
  ◌==◌,
}
use libfluid.Client.{
  Settings, Action, send, close, start_echoes, delete_connection, connection_callback,
  message_callback, free_data, Client, act,
}

-- The pointers that were freed, in order.
abbrev pub freed : List Action → List ℕ
freed [] = []
freed (send bytes ∷ xs) = freed xs
freed (close ∷ xs) = freed xs
freed (start_echoes ∷ xs) = freed xs
freed (delete_connection ∷ xs) = freed xs
freed (connection_callback e ∷ xs) = freed xs
freed (message_callback type bytes ∷ xs) = freed xs
freed (free_data pointer ∷ xs) = pointer ∷ freed xs

-- The messages that the application got, in order.
abbrev pub given : List Action → List (List ℕ)
given [] = []
given (send bytes ∷ xs) = given xs
given (close ∷ xs) = given xs
given (start_echoes ∷ xs) = given xs
given (delete_connection ∷ xs) = given xs
given (connection_callback e ∷ xs) = given xs
given (message_callback type bytes ∷ xs) = bytes ∷ given xs
given (free_data pointer ∷ xs) = given xs

freed-append : (xs ys : List Action) → freed (xs ++ ys) ≡ freed xs ++ freed ys
freed-append [] ys = refl
freed-append (send bytes ∷ xs) ys = freed-append xs ys
freed-append (close ∷ xs) ys = freed-append xs ys
freed-append (start_echoes ∷ xs) ys = freed-append xs ys
freed-append (delete_connection ∷ xs) ys = freed-append xs ys
freed-append (connection_callback e ∷ xs) ys = freed-append xs ys
freed-append (message_callback type bytes ∷ xs) ys = freed-append xs ys
freed-append (free_data pointer ∷ xs) ys = ap (λ ps. pointer ∷ ps) (freed-append xs ys)

given-append : (xs ys : List Action) → given (xs ++ ys) ≡ given xs ++ given ys
given-append [] ys = refl
given-append (send bytes ∷ xs) ys = given-append xs ys
given-append (close ∷ xs) ys = given-append xs ys
given-append (start_echoes ∷ xs) ys = given-append xs ys
given-append (delete_connection ∷ xs) ys = given-append xs ys
given-append (connection_callback e ∷ xs) ys = given-append xs ys
given-append (message_callback type bytes ∷ xs) ys = ap (λ bs. bytes ∷ bs) (given-append xs ys)
given-append (free_data pointer ∷ xs) ys = given-append xs ys

-- A type that the client answers by itself: echoes, and the HELLO of a handshake.
abbrev pub is_internal : Settings → ℕ → Bool
is_internal s type = (s.liveness_check && (type == 2 || type == 3)) || (s.handshake && type == 0)

-- Whether the application gets a message with this type.
abbrev pub is_given : Settings → ℕ → Bool
is_given s type = not (is_internal s type) || s.dispatch_all_messages

-- These messages and pointers more than before.
pub record Adds (more : List (List ℕ)) (pointers : List ℕ) (st st' : Client) : Type 0 where
  pub frees : freed st'.actions ≡ freed st.actions ++ pointers
  pub gives : given st'.actions ≡ given st.actions ++ more

pub act-Adds : (xs : List Action) (st : Client) → Adds (given xs) (freed xs) st (act xs st)
act-Adds xs st = record { frees = freed-append st.actions xs; gives = given-append st.actions xs }

pub same-Adds : (st : Client) → Adds [] [] st st
same-Adds st = record {
  frees = sym (append-nil (freed st.actions));
  gives = sym (append-nil (given st.actions));
}

pub trans-Adds :
    {m m' : List (List ℕ)} {p p' : List ℕ} {a b c : Client}
    → Adds m p a b
    → Adds m' p' b c
    → Adds (m ++ m') (p ++ p') a c
trans-Adds {m} {m'} {p} {p'} {a} h k = record {
  frees = k.frees ∙ ap (λ xs. xs ++ p') h.frees ∙ append_assoc (freed a.actions) p p';
  gives = k.gives ∙ ap (λ xs. xs ++ m') h.gives ∙ append_assoc (given a.actions) m m';
}
