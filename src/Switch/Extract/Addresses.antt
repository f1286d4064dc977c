-- ===== src/Switch/Extract/Addresses.antt =====
-- The two hardware addresses that `extract_flow_fields` of examples/switch/flow.cc sets for an Ethernet II
-- frame are those at its head, and no later layer sets them again.
use libfluid.Prelude.{
  ℕ, zero, suc, ◌+◌, ◌≤◌, ◌%◌, ◌/◌, ◌^◌, bit_and, All-append, ◌≡◌, refl, ap, Bool, true, false,
  Option, none, some, List, [], ◌∷◌, ◌++◌, arith, ltb, leb, ◌==◌, length, load8, load16, load32,
  ntoh16, ◌>>=◌, if◌then◌else◌, All,
}
use libfluid.Switch.Match.{EthAddress}
use libfluid.Switch.Extract.{
  MatchField, dl_vlan, dl_vlan_pcp, dl_type, nw_tos, nw_proto, nw_src, nw_dst, tp_src, tp_dst,
  dl_src, dl_dst, eth_type_vlan, eth_type_ip, eth_type_arp, eth_type_ii_start, ip_type_icmp,
  ip_type_tcp, ip_type_udp, is_fragment, load_address, ports, icmp, transport, ipv4, network,
  arp_header, arp, vlan_tags, vlan_header, vlan, fuel_for, ethernet, extract_flow_fields,
}

-- A setter of something else than a hardware address.
abbrev pub IsUpper : MatchField → Type 0
IsUpper (dl_src a) = ⊥
IsUpper (dl_dst a) = ⊥
IsUpper other = Unit

-- The setters for the two addresses come first, and they are the only ones.
pub record IsLinked (src dst : EthAddress) (fields : List MatchField) : Type 0 where
  pub rest : List MatchField
  pub split : fields ≡ dl_src src ∷ dl_dst dst ∷ rest
  pub upper : All IsUpper rest

-- Whatever is returned has P.
abbrev Yields : (List MatchField → Type 0) → Option (List MatchField) → Type 0
Yields P r = (fields : List MatchField) → r ≡ some fields → P fields

if-Yields :
    (P : List MatchField → Type 0) (b : Bool) (x y : Option (List MatchField))
    → Yields P x
    → Yields P y
    → Yields P (if b then x else y)
if-Yields P true x y p q = p
if-Yields P false x y p q = q

case-Yields :
    (P : List MatchField → Type 0) (b : Bool) (x y : Option (List MatchField))
    → Yields P x
    → Yields P y
    → Yields P (elim b [ true ↦ x | false ↦ y ])
case-Yields P true x y p q = p
case-Yields P false x y p q = q

bind-Yields :
    {A : Type 0} (P : List MatchField → Type 0) (r : Option A) (k : A → Option (List MatchField))
    → ((a : A) → Yields P (k a))
    → Yields P (r >>= k)
bind-Yields P none k h = λ fields e. cc
bind-Yields P (some a) k h = h a

some-Yields : (P : List MatchField → Type 0) (out : List MatchField) → P out → Yields P (some out)
some-Yields P out h fields e = ground (arith, e, h)

module _ (P : List MatchField → Type 0)
    (grow : (out more : List MatchField) → P out → All IsUpper more → P (out ++ more))
    (pkt : List ℕ) where
  ports-Yields : (off : ℕ) (out : List MatchField) → P out → Yields P (ports pkt off out)
  unfolding ports
  ports-Yields off out h = bind-Yields P (load16 pkt off) _ λ src.
      bind-Yields P (load16 pkt (off + 2)) _ λ dst.
        some-Yields P _ (grow out (tp_src (ntoh16 src) ∷ tp_dst (ntoh16 dst) ∷ []) h (tt, (tt, tt)))

  icmp-Yields : (off : ℕ) (out : List MatchField) → P out → Yields P (icmp pkt off out)
  unfolding icmp
  icmp-Yields off out h = bind-Yields P (load8 pkt off) _ λ type.
      bind-Yields P (load8 pkt (off + 1)) _
        λ code. some-Yields P _ (grow out (tp_src type ∷ tp_dst code ∷ []) h (tt, (tt, tt)))

  -- A header that is cut off ends the extraction.
  short-Yields :
      (b : Bool) (out : List MatchField) (next : Option (List MatchField))
      → P out
      → Yields P next
      → Yields P (if b then some out else next)
  short-Yields b out next h k = if-Yields P b _ _ (some-Yields P out h) k

  transport-Yields :
      (proto off : ℕ) (out : List MatchField) → P out → Yields P (transport pkt proto off out)
  unfolding transport
  transport-Yields proto off out h =
      if-Yields P (proto == ip_type_icmp) _ _ (short-Yields _ out _ h (icmp-Yields off out h)) (
        if-Yields P (proto == ip_type_tcp) _ _ (short-Yields _ out _ h (ports-Yields off out h)) (
          if-Yields P (proto == ip_type_udp) _ _ (short-Yields _ out _ h (ports-Yields off out h))
            (some-Yields P out h)))

  ipv4-Yields : (off : ℕ) (out : List MatchField) → P out → Yields P (ipv4 pkt off out)
  unfolding ipv4
  ipv4-Yields off out h = bind-Yields P (load32 pkt (off + 12)) _ λ src.
      bind-Yields P (load32 pkt (off + 16)) _ λ dst. bind-Yields P (load8 pkt (off + 9)) _ λ proto.
        bind-Yields P (load8 pkt (off + 1)) _ λ tos.
          bind-Yields P (load16 pkt (off + 6)) _ λ frag_off.
            let more =
              grow out (nw_src src ∷ nw_dst dst ∷ nw_proto proto ∷ nw_tos (tos / 4) ∷ []) h
                (tt, (tt, (tt, (tt, tt)))) in
            if-Yields P (is_fragment frag_off) _ _ (some-Yields P _ more)
              (transport-Yields proto (off + 20) _ more)

  network-Yields :
      (eth_type off : ℕ) (out : List MatchField) → P out → Yields P (network pkt eth_type off out)
  unfolding network
  network-Yields eth_type off out h =
      if-Yields P (eth_type == eth_type_ip) _ _ (short-Yields _ out _ h (ipv4-Yields off out h))
        (transport-Yields 0 off out h)

  arp_header-Yields : (off : ℕ) (out : List MatchField) → P out → Yields P (arp_header pkt off out)
  unfolding arp_header
  arp_header-Yields off out h = bind-Yields P (load32 pkt (off + 14)) _ λ spa.
      bind-Yields P (load32 pkt (off + 24)) _ λ tpa. bind-Yields P (load16 pkt (off + 6)) _ λ op.
        some-Yields P _ (
          grow out (nw_src spa ∷ nw_dst tpa ∷ nw_proto (ntoh16 op % 2 ^ 8) ∷ []) h
            (tt, (tt, (tt, tt))))

  arp-Yields :
      (eth_type off : ℕ) (out : List MatchField) → P out → Yields P (arp pkt eth_type off out)
  unfolding arp
  arp-Yields eth_type off out h =
      if-Yields P (eth_type == eth_type_arp) _ _
        (short-Yields _ out _ h (arp_header-Yields off out h)) (network-Yields eth_type off out h)

  vlan_tags-Yields :
      (fuel eth_type tag off : ℕ) (out : List MatchField)
      → P out
      → Yields P (vlan_tags fuel pkt eth_type tag off out)
  unfolding vlan_tags
  vlan_tags-Yields zero eth_type tag off out h = λ fields e. cc
  vlan_tags-Yields (suc fuel) eth_type tag off out h =
      case-Yields P (eth_type == eth_type_vlan) _ _
        (case-Yields P (ltb (length pkt) (off + 4)) _ _ (some-Yields P out h) (
          bind-Yields P (load16 pkt (tag + 2)) _ λ next.
            vlan_tags-Yields fuel eth_type tag (off + 4) (out ++ dl_type (ntoh16 next) ∷ [])
              (grow out (dl_type (ntoh16 next) ∷ []) h (tt, tt))))
        (arp-Yields eth_type off out h)

  vlan-Yields :
      (eth_type off : ℕ) (out : List MatchField) → P out → Yields P (vlan pkt eth_type off out)
  unfolding vlan vlan_header
  vlan-Yields eth_type off out h =
      if-Yields P (eth_type == eth_type_vlan) _ _
        (short-Yields _ out _ h (
          bind-Yields P (load16 pkt off) _ λ tci. bind-Yields P (load16 pkt (off + 2)) _ λ next.
            vlan_tags-Yields (fuel_for pkt) eth_type off (off + 4) _ (
              grow out
                (dl_vlan (bit_and (ntoh16 tci) 0x0fff)
                  ∷ dl_vlan_pcp (bit_and (ntoh16 tci) 0xe000 / 2 ^ 13)
                  ∷ dl_type (ntoh16 next)
                  ∷ [])
                h (tt, (tt, (tt, tt))))))
        (vlan_tags-Yields (fuel_for pkt) eth_type off off _
          (grow out (dl_vlan 0xffff ∷ []) h (tt, tt)))

IsLinked-grow :
    (src dst : EthAddress) (out more : List MatchField)
    → IsLinked src dst out
    → All IsUpper more
    → IsLinked src dst (out ++ more)
IsLinked-grow src dst out more h all = record {
  rest = h.rest ++ more;
  split = ap (λ l. l ++ more) h.split;
  upper = All-append IsUpper h.rest more h.upper all;
}

-- For an Ethernet II frame the setters begin with those of the two addresses at its head, and set no
-- hardware address again.
pub extract_flow_fields-IsLinked :
    (pkt : List ℕ) (src dst : EthAddress) (eth_type : ℕ) (fields : List MatchField)
    → 14 ≤ length pkt
    → load_address pkt 0 ≡ some dst
    → load_address pkt 6 ≡ some src
    → load16 pkt 12 ≡ some eth_type
    → leb eth_type_ii_start (ntoh16 eth_type) ≡ true
    → extract_flow_fields pkt ≡ some fields
    → IsLinked src dst fields
unfolding extract_flow_fields ethernet
extract_flow_fields-IsLinked pkt src dst eth_type fields h d s t ii e =
    let whole : ltb (length pkt) 14 ≡ false = ground arith in
    let front : IsLinked src dst (dl_src src ∷ dl_dst dst ∷ dl_type (ntoh16 eth_type) ∷ []) =
      record { rest = dl_type (ntoh16 eth_type) ∷ []; split = refl; upper = (tt, tt) } in
    vlan-Yields (IsLinked src dst) (IsLinked-grow src dst) pkt (ntoh16 eth_type) 14 _ front fields
      (ground (arith, e, whole, d, s, t, ii))
