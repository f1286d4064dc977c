-- ===== src/Switch/Extract/Tagged.antt =====
-- What is extracted from a frame with a VLAN tag (examples/switch/flow.cc): the loop over the tags
-- tests a type that it does not change, and takes the rest of the frame for tags.
use libfluid.Prelude.{
  half_joined, ℕ, zero, suc, ◌+◌, ◌≡◌, refl, true, false, Option, none, some, List, [], ◌∷◌, ◌++◌,
  ltb, length, load8, load16, ntoh16, ◌^◌, ◌<◌, subst, sym, ◌∙◌, ◌>>=◌, All, if◌then◌else◌,
}
use libfluid.Switch.Packets.{EthHeader, eth_header}
use libfluid.Switch.Extract.Frames.{extract_flow_fields_long}
use libfluid.Switch.Extract.{
  MatchField, dl_src, dl_dst, dl_type, dl_vlan, dl_vlan_pcp, eth_type_vlan, vlan_tags, vlan_header,
  vlan, ethernet, load_address, extract_flow_fields,
}

-- A setter for the link layer.
abbrev pub IsLink : MatchField → Type 0
IsLink (dl_src a) = Unit
IsLink (dl_dst a) = Unit
IsLink (dl_type n) = Unit
IsLink (dl_vlan n) = Unit
IsLink (dl_vlan_pcp n) = Unit
IsLink (MatchField.in_port n) = ⊥
IsLink (MatchField.nw_tos n) = ⊥
IsLink (MatchField.nw_proto n) = ⊥
IsLink (MatchField.nw_src n) = ⊥
IsLink (MatchField.nw_dst n) = ⊥
IsLink (MatchField.tp_src n) = ⊥
IsLink (MatchField.tp_dst n) = ⊥

-- If it returns, it has called setters for the link layer alone.
abbrev pub LinkOnly : Option (List MatchField) → Type 0
LinkOnly none = Unit
LinkOnly (some out) = All IsLink out

append-All :
    (out more : List MatchField) → All IsLink out → All IsLink more → All IsLink (out ++ more)
append-All [] more h k = k
append-All (x ∷ out) more h k = (h.0, append-All out more h.1 k)

bind-LinkOnly :
    (r : Option ℕ) (f : ℕ → Option (List MatchField))
    → ((v : ℕ) → LinkOnly (f v))
    → LinkOnly (r >>= f)
bind-LinkOnly none f h = tt
bind-LinkOnly (some v) f h = h v

vlan_tags-LinkOnly :
    (fuel : ℕ) (pkt : List ℕ) (tag off : ℕ) (out : List MatchField)
    → All IsLink out
    → LinkOnly (vlan_tags fuel pkt eth_type_vlan tag off out)
unfolding vlan_tags
vlan_tags-LinkOnly zero pkt tag off out h = tt
vlan_tags-LinkOnly (suc fuel) pkt tag off out h =
    elim (ltb (length pkt) (off + 4))
      as (λ b. LinkOnly (elim b [
        | true ↦ some out
        | false ↦ load16 pkt (tag + 2) >>= λ next.
            vlan_tags fuel pkt eth_type_vlan tag (off + 4) (out ++ dl_type (ntoh16 next) ∷ [])
      ])) [
        | true ↦ h
        | false ↦ bind-LinkOnly (load16 pkt (tag + 2)) _ λ next.
            vlan_tags-LinkOnly fuel pkt tag (off + 4) (out ++ dl_type (ntoh16 next) ∷ [])
              (append-All out (dl_type (ntoh16 next) ∷ []) h (tt, tt))
      ]

vlan_header-LinkOnly :
    (pkt : List ℕ) (off : ℕ) (out : List MatchField)
    → All IsLink out
    → LinkOnly (vlan_header pkt eth_type_vlan off out)
unfolding vlan_header
vlan_header-LinkOnly pkt off out h = bind-LinkOnly (load16 pkt off) _ λ tci.
    bind-LinkOnly (load16 pkt (off + 2)) _
      λ next. vlan_tags-LinkOnly _ pkt off (off + 4) _ (append-All out _ h (tt, (tt, (tt, tt))))

vlan-LinkOnly :
    (pkt : List ℕ) (off : ℕ) (out : List MatchField)
    → All IsLink out
    → LinkOnly (vlan pkt eth_type_vlan off out)
unfolding vlan
vlan-LinkOnly pkt off out h =
    elim (ltb (length pkt) (off + 4))
      as (λ b. LinkOnly (if b then some out else vlan_header pkt eth_type_vlan off out)) [
        | true ↦ h
        | false ↦ vlan_header-LinkOnly pkt off out h
      ]

ethernet_tagged :
    (e : EthHeader) (rest : List ℕ)
    → e.eth_type < 2 ^ 16
    → ntoh16 e.eth_type ≡ eth_type_vlan
    → ethernet (eth_header e ++ rest)
      ≡ vlan
          (eth_header e ++ rest)
          eth_type_vlan
          14
          (dl_src e.eth_src ∷ dl_dst e.eth_dst ∷ dl_type eth_type_vlan ∷ [])
unfolding ethernet load_address load8 load16
ethernet_tagged e rest fits typed = rw (half_joined e.eth_type fits) (rw typed refl)

-- From an Ethernet frame whose type is that of a VLAN tag, whatever follows it, the extraction calls
-- setters of the link layer alone: no address, protocol or port of an upper layer is extracted.
pub extract_flow_fields-LinkOnly :
    (e : EthHeader) (rest : List ℕ)
    → e.eth_type < 2 ^ 16
    → ntoh16 e.eth_type ≡ eth_type_vlan
    → LinkOnly (extract_flow_fields (eth_header e ++ rest))
extract_flow_fields-LinkOnly e rest fits typed =
    subst LinkOnly (sym (extract_flow_fields_long e rest ∙ ethernet_tagged e rest fits typed))
      (vlan-LinkOnly _ 14 _ (tt, (tt, (tt, tt))))
