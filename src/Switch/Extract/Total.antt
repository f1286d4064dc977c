-- ===== src/Switch/Extract/Total.antt =====
-- `extract_flow_fields` reads inside the packet and its loop ends, for every packet.
use libfluid.Prelude.{
  ℕ, zero, suc, ◌+◌, ◌≤◌, ◌<◌, ◌≡◌, refl, Bool, true, false, Option, none, some, List, [], arith,
  ltb, leb, not, ◌&&◌, ◌==◌, length, load8_total, load16_total, load32_total, ◌>>=◌, if◌then◌else◌,
  ntoh16,
}
use libfluid.Switch.Match.{EthAddress}
use libfluid.Switch.Extract.{
  MatchField, eth_type_vlan, eth_type_ip, eth_type_arp, eth_type_ii_start, ip_type_icmp,
  ip_type_tcp, ip_type_udp, is_fragment, load_address, ports, icmp, transport, ipv4, network,
  arp_header, arp, vlan_tags, vlan_header, vlan, fuel_for, snap, llc, ethernet, extract_flow_fields,
}

-- A computation returned a list of setter calls.
abbrev pub Returns : Option (List MatchField) → Type 0
Returns r = (out : List MatchField) × (r ≡ some out)

if-Returns :
    (b : Bool) (x y : Option (List MatchField))
    → (b ≡ true → Returns x)
    → (b ≡ false → Returns y)
    → Returns (if b then x else y)
if-Returns true x y p q = p refl
if-Returns false x y p q = q refl

case-Returns :
    (b : Bool) (x y : Option (List MatchField))
    → (b ≡ true → Returns x)
    → (b ≡ false → Returns y)
    → Returns (elim b [ true ↦ x | false ↦ y ])
case-Returns true x y p q = p refl
case-Returns false x y p q = q refl

clash : {b : Bool} → b ≡ false → b ≡ true → ⊥
clash e t = cc

-- A read that succeeds, and what follows it.
bind-Returns :
    {A : Type 0} (r : Option A) (k : A → Option (List MatchField))
    → ((a : A) × (r ≡ some a))
    → ((a : A) → Returns (k a))
    → Returns (r >>= k)
bind-Returns none k (a, e) h = cc
bind-Returns (some x) k (a, e) h = h x

ltb-false : (a b : ℕ) → ltb a b ≡ false → b ≤ a
ltb-false a b h = ground arith

address_total :
    (pkt : List ℕ) (off : ℕ)
    → off + 6 ≤ length pkt
    → (a : EthAddress) × (load_address pkt off ≡ some a)
unfolding load_address
address_total pkt off h =
    let (a, p) = load8_total pkt off (omega arith) in
    let (b, q) = load8_total pkt (off + 1) (omega arith) in
    let (c, r) = load8_total pkt (off + 2) (omega arith) in
    let (d, s) = load8_total pkt (off + 3) (omega arith) in
    let (e, t) = load8_total pkt (off + 4) (omega arith) in
    let (f, u) = load8_total pkt (off + 5) (omega arith) in
    (record { b0 = a; b1 = b; b2 = c; b3 = d; b4 = e; b5 = f }, rw (p, q, r, s, t, u))

module _ (pkt : List ℕ) where
  short-Returns :
      (off n : ℕ) (out : List MatchField) (next : Option (List MatchField))
      → (off + n ≤ length pkt → Returns next)
      → Returns (if ltb (length pkt) (off + n) then some out else next)
  short-Returns off n out next h = if-Returns _ _ _ (λ _. (out, refl)) (λ e. h (ltb-false _ _ e))

  ports-Returns :
      (off : ℕ) (out : List MatchField) → off + 4 ≤ length pkt → Returns (ports pkt off out)
  unfolding ports
  ports-Returns off out h =
      bind-Returns _ _ (load16_total pkt off (omega arith))
        λ src. bind-Returns _ _ (load16_total pkt (off + 2) (omega arith)) λ dst. (_, refl)

  icmp-Returns :
      (off : ℕ) (out : List MatchField) → off + 4 ≤ length pkt → Returns (icmp pkt off out)
  unfolding icmp
  icmp-Returns off out h =
      bind-Returns _ _ (load8_total pkt off (omega arith))
        λ type. bind-Returns _ _ (load8_total pkt (off + 1) (omega arith)) λ code. (_, refl)

  transport-Returns :
      (proto off : ℕ) (out : List MatchField) → Returns (transport pkt proto off out)
  unfolding transport
  transport-Returns proto off out =
      if-Returns (proto == ip_type_icmp) _ _ (λ _. short-Returns off 4 out _ (icmp-Returns off out))
        λ _.
          if-Returns (proto == ip_type_tcp) _ _
            (λ _. short-Returns off 20 out _ (λ h. ports-Returns off out (omega arith)))
            λ _.
              if-Returns (proto == ip_type_udp) _ _
                (λ _. short-Returns off 8 out _ (λ h. ports-Returns off out (omega arith)))
                (λ _. (out, refl))

  ipv4-Returns :
      (off : ℕ) (out : List MatchField) → off + 20 ≤ length pkt → Returns (ipv4 pkt off out)
  unfolding ipv4
  ipv4-Returns off out h = bind-Returns _ _ (load32_total pkt (off + 12) (omega arith)) λ src.
      bind-Returns _ _ (load32_total pkt (off + 16) (omega arith)) λ dst.
        bind-Returns _ _ (load8_total pkt (off + 9) (omega arith)) λ proto.
          bind-Returns _ _ (load8_total pkt (off + 1) (omega arith)) λ tos.
            bind-Returns _ _ (load16_total pkt (off + 6) (omega arith)) λ frag_off.
              if-Returns (is_fragment frag_off) _ _ (λ _. (_, refl))
                (λ _. transport-Returns proto (off + 20) _)

  network-Returns :
      (eth_type off : ℕ) (out : List MatchField) → Returns (network pkt eth_type off out)
  unfolding network
  network-Returns eth_type off out =
      if-Returns (eth_type == eth_type_ip) _ _
        (λ _. short-Returns off 20 out _ (ipv4-Returns off out)) (λ _. transport-Returns 0 off out)

  arp_header-Returns :
      (off : ℕ) (out : List MatchField) → off + 28 ≤ length pkt → Returns (arp_header pkt off out)
  unfolding arp_header
  arp_header-Returns off out h = bind-Returns _ _ (load32_total pkt (off + 14) (omega arith)) λ spa.
      bind-Returns _ _ (load32_total pkt (off + 24) (omega arith))
        λ tpa. bind-Returns _ _ (load16_total pkt (off + 6) (omega arith)) λ op. (_, refl)

  arp-Returns : (eth_type off : ℕ) (out : List MatchField) → Returns (arp pkt eth_type off out)
  unfolding arp
  arp-Returns eth_type off out =
      if-Returns (eth_type == eth_type_arp) _ _
        (λ _. short-Returns off 28 out _ (arp_header-Returns off out))
        (λ _. network-Returns eth_type off out)

  -- The fuel is more than the bytes that are left, and each round takes four of them.
  vlan_tags-Returns :
      (fuel eth_type tag off : ℕ) (out : List MatchField)
      → length pkt < fuel + off
      → off ≤ length pkt
      → ((eth_type == eth_type_vlan) ≡ true → tag + 4 ≤ length pkt)
      → Returns (vlan_tags fuel pkt eth_type tag off out)
  unfolding vlan_tags
  vlan_tags-Returns zero eth_type tag off out enough inside first = absurd (omega arith)
  vlan_tags-Returns (suc fuel) eth_type tag off out enough inside first =
      case-Returns (eth_type == eth_type_vlan) _ _
        (λ e.
          case-Returns (ltb (length pkt) (off + 4)) _ _ (λ _. (out, refl))
            λ f.
              let room : off + 4 ≤ length pkt = ltb-false _ _ f in
              let read = load16_total pkt (tag + 2) (omega (arith, first e)) in
              bind-Returns _ _ read
                λ next. vlan_tags-Returns fuel eth_type tag (off + 4) _ (omega arith) room first)
        (λ _. arp-Returns eth_type off out)

  vlan-Returns :
      (eth_type off : ℕ) (out : List MatchField)
      → off ≤ length pkt
      → Returns (vlan pkt eth_type off out)
  unfolding vlan vlan_header
  vlan-Returns eth_type off out inside =
      if-Returns (eth_type == eth_type_vlan) _ _
        (λ e. short-Returns off 4 out _ λ room.
          bind-Returns _ _ (load16_total pkt off (omega arith)) λ tci.
            bind-Returns _ _ (load16_total pkt (off + 2) (omega arith)) λ next.
              vlan_tags-Returns (fuel_for pkt) eth_type off (off + 4) _ (omega arith) room
                (λ _. room))
        (λ e.
          vlan_tags-Returns (fuel_for pkt) eth_type off off _ (omega arith) inside
            (λ t. absurd (clash e t)))

  snap-Returns :
      (src dst : EthAddress) (eth_type : ℕ) → 22 ≤ length pkt → Returns (snap pkt src dst eth_type)
  unfolding snap
  snap-Returns src dst eth_type h = bind-Returns _ _ (load8_total pkt 17 (omega arith)) λ a.
      bind-Returns _ _ (load8_total pkt 18 (omega arith)) λ b.
        bind-Returns _ _ (load8_total pkt 19 (omega arith)) λ c.
          if-Returns (not (a == 0 && b == 0 && c == 0)) _ _ (λ _. (_, refl))
            (λ _. vlan-Returns eth_type 22 _ h)

  llc-Returns :
      (src dst : EthAddress) (eth_type : ℕ) → 17 ≤ length pkt → Returns (llc pkt src dst eth_type)
  unfolding llc
  llc-Returns src dst eth_type h = bind-Returns _ _ (load8_total pkt 14 (omega arith)) λ a.
      bind-Returns _ _ (load8_total pkt 15 (omega arith)) λ b.
        bind-Returns _ _ (load8_total pkt 16 (omega arith)) λ c.
          if-Returns (not (a == 0xaa && b == 0xaa && c == 3)) _ _ (λ _. (_, refl))
            λ _.
              if-Returns (ltb (length pkt) 22) _ _ (λ _. (_, refl))
                (λ e. snap-Returns src dst eth_type (ltb-false _ _ e))

  ethernet-Returns : 14 ≤ length pkt → Returns (ethernet pkt)
  unfolding ethernet
  ethernet-Returns h = bind-Returns _ _ (address_total pkt 0 (omega arith)) λ dst.
      bind-Returns _ _ (address_total pkt 6 (omega arith)) λ src.
        bind-Returns _ _ (load16_total pkt 12 (omega arith)) λ raw_type.
          if-Returns (leb eth_type_ii_start (ntoh16 raw_type)) _ _
            (λ _. vlan-Returns (ntoh16 raw_type) 14 _ h)
            λ _.
              if-Returns (ltb (length pkt) 17) _ _ (λ _. (_, refl))
                (λ e. llc-Returns src dst (ntoh16 raw_type) (ltb-false _ _ e))

-- Whatever the bytes of a packet, the extraction of its fields ends, and reads no byte outside the
-- packet.
pub extract_flow_fields_total :
    (pkt : List ℕ) → (out : List MatchField) × (extract_flow_fields pkt ≡ some out)
unfolding extract_flow_fields
extract_flow_fields_total pkt =
    if-Returns (ltb (length pkt) 14) _ _ (λ _. ([], refl))
      (λ e. ethernet-Returns pkt (ltb-false _ _ e))
