-- ===== src/Multicast/Membership/Others.antt =====
-- Group messages and the groups that they do not name.
use libfluid.Prelude.{
  ℕ, ◌≤◌, ◌<◌, ◌≡◌, ◌≢◌, refl, sym, ap, ◌∙◌, subst, Option, none, some, List, [], ◌∷◌, ◌++◌, arith,
  All, ◌>>=◌,
}
use libfluid.Multicast.Types.{Wire, Sent, group_mod, flow_mod, packet_out, role_request}
use libfluid.Multicast.Membership.{Session}
use libfluid.Multicast.Membership.Buckets.{IsConsistent}
use libfluid.Multicast.Membership.GroupTable.{Entry, receive, receive_all, About, Follows, view}

pub All-map :
    {A : Type 0} (P Q : A → Type 0) (f : (x : A) → P x → Q x) (xs : List A) → All P xs → All Q xs
All-map P Q f [] h = tt
All-map P Q f (x ∷ xs) h = (f x h.0, All-map P Q f xs h.1)

-- A message that does not name a group.
abbrev pub Spares : ℕ → Sent → Type 0
Spares id (group_mod gm) = gm.group_id ≢ id
Spares id (flow_mod fm) = Unit
Spares id (packet_out xid buffer_id in_port payload port max_len) = Unit
Spares id (role_request xid) = Unit

-- A message that names no group past the ids drawn so far.
abbrev pub IsUpTo : ℕ → Sent → Type 0
IsUpTo n (group_mod gm) = gm.group_id ≤ n
IsUpTo n (flow_mod fm) = Unit
IsUpTo n (packet_out xid buffer_id in_port payload port max_len) = Unit
IsUpTo n (role_request xid) = Unit

pub About-Spares : (j id : ℕ) → j ≢ id → (m : Sent) → About j m → Spares id m
About-Spares j id h (group_mod gm) e = λ k. h (sym e ∙ k)
About-Spares j id h (flow_mod fm) e = tt
About-Spares j id h (packet_out xid buffer_id in_port payload port max_len) e = tt
About-Spares j id h (role_request xid) e = tt

pub IsUpTo-Spares : (n id : ℕ) → n < id → (m : Sent) → IsUpTo n m → Spares id m
IsUpTo-Spares n id h (group_mod gm) e = λ k. absurd (omega (arith, k))
IsUpTo-Spares n id h (flow_mod fm) e = tt
IsUpTo-Spares n id h (packet_out xid buffer_id in_port payload port max_len) e = tt
IsUpTo-Spares n id h (role_request xid) e = tt

pub About-IsUpTo : (j n : ℕ) → j ≤ n → (m : Sent) → About j m → IsUpTo n m
About-IsUpTo j n h (group_mod gm) e = omega arith
About-IsUpTo j n h (flow_mod fm) e = tt
About-IsUpTo j n h (packet_out xid buffer_id in_port payload port max_len) e = tt
About-IsUpTo j n h (role_request xid) e = tt

pub IsUpTo-le : (m n : ℕ) → m ≤ n → (x : Sent) → IsUpTo m x → IsUpTo n x
IsUpTo-le m n h (group_mod gm) e = omega arith
IsUpTo-le m n h (flow_mod fm) e = tt
IsUpTo-le m n h (packet_out xid buffer_id in_port payload port max_len) e = tt
IsUpTo-le m n h (role_request xid) e = tt

receive-Spares : (id : ℕ) (m : Sent) (e : Entry) → Spares id m → receive id m e ≡ some e
receive-Spares id (group_mod gm) e h = ground (arith, h)
receive-Spares id (flow_mod fm) e h = refl
receive-Spares id (packet_out xid buffer_id in_port payload port max_len) e h = refl
receive-Spares id (role_request xid) e h = refl

-- Messages that do not name a group leave the switch's entry for it alone.
pub receive_all-Spares :
    (id : ℕ) (ms : List Sent) (e : Entry) → All (Spares id) ms → receive_all id ms e ≡ some e
receive_all-Spares id [] e h = refl
receive_all-Spares id (m ∷ ms) e h = rw (receive-Spares id m e h.0) (receive_all-Spares id ms e h.1)

-- Messages in two parts are received one part after the other.
continue_after :
    (r : Option Entry) (f g : Entry → Option Entry) (e' : Entry) (z : Option Entry)
    → ((e : Entry) → f e ≡ some e' → g e ≡ z)
    → (r >>= f) ≡ some e'
    → (r >>= g) ≡ z
continue_after none f g e' z k h = cc
continue_after (some e) f g e' z k h = k e h

pub receive_all-append :
    (id : ℕ) (xs ys : List Sent) (e e' : Entry)
    → receive_all id xs e ≡ some e'
    → receive_all id (xs ++ ys) e ≡ receive_all id ys e'
receive_all-append id [] ys e e' h = let same : e ≡ e' = ground arith in ap (receive_all id ys) same
receive_all-append id (x ∷ xs) ys e e' h =
    continue_after (receive id x e) (receive_all id xs) (receive_all id (xs ++ ys)) e'
      (receive_all id ys e') (λ e1. receive_all-append id xs ys e1 e') h

-- A consistent session that a switch which has received all of `sent` holds.
pub record IsServed (sent : List Sent) (s : Session) : Type 0 where
  pub consistent : IsConsistent s
  pub held : receive_all s.group.groupid sent none ≡ some (view s)

pub IsServed-other :
    (sent ms : List Sent) (s : Session)
    → All (Spares s.group.groupid) ms
    → IsServed sent s
    → IsServed (sent ++ ms) s
IsServed-other sent ms s h k = record {
  consistent = k.consistent;
  held =
      receive_all-append s.group.groupid sent ms none (view s) k.held
      ∙ receive_all-Spares s.group.groupid ms (view s) h;
}

pub IsServed-self :
    (s s' : Session) (w w' : Wire)
    → Follows s s' w w'
    → IsConsistent s'
    → IsServed w.sent s
    → IsServed w'.sent s'
IsServed-self s s' w w' f c k = record {
  consistent = c;
  held =
      subst (λ i. receive_all i w'.sent none ≡ some (view s')) (ap (λ g. g.groupid) (sym f.group))
        (rw f.appended
          (receive_all-append s.group.groupid w.sent f.messages none (view s) k.held ∙ f.received));
}
