-- ===== src/Switch/Match.antt =====
-- The match tests of examples/switch/flow.hh. `Match` holds what the getters of `of10::Match`
-- return; the class itself belongs to libfluid_msg. The variants of a test for 8, 16 and 32 bits
-- differ in the width of the compared values only, and are one function here.
pub mod Address
pub mod Packet
pub mod Strict
pub mod Nonstrict
use libfluid.Switch.Ofpfw
use libfluid.Prelude.{
  ℕ, ◌+◌, ◌*◌, ◌^◌, Bool, not, ◌&&◌, ◌||◌, bit_and, bit_or, bit_xor, ◌==◌, bit_not, if◌then◌else◌,
}

-- The six bytes of a hardware address.
pub record EthAddress : Type 0 where
  pub b0 : ℕ
  pub b1 : ℕ
  pub b2 : ℕ
  pub b3 : ℕ
  pub b4 : ℕ
  pub b5 : ℕ

pub record Match : Type 0 where
  pub wildcards : ℕ
  pub in_port : ℕ
  pub dl_src : EthAddress
  pub dl_dst : EthAddress
  pub dl_vlan : ℕ
  pub dl_vlan_pcp : ℕ
  pub dl_type : ℕ
  pub nw_tos : ℕ
  pub nw_proto : ℕ
  pub nw_src : ℕ
  pub nw_dst : ℕ
  pub tp_src : ℕ
  pub tp_dst : ℕ

unfoldable pub wc : ℕ → ℕ → Bool
wc wildcards field = not (bit_and wildcards field == 0)

-- `~b` for a `bool`: the operand is promoted to a 32-bit int, complemented, and tested against 0.
unfoldable pub compl : Bool → Bool
compl b = not (bit_not 32 (if b then 1 else 0) == 0)

-- `*((uint32_t *)a)` and `*((uint16_t *)(a+4))` on a little-endian host.
unfoldable pub low_word : EthAddress → ℕ
low_word a = a.b0 + a.b1 * 2 ^ 8 + a.b2 * 2 ^ 16 + a.b3 * 2 ^ 24

unfoldable pub high_half : EthAddress → ℕ
high_half a = a.b4 + a.b5 * 2 ^ 8

unfoldable pub strict_wild : ℕ → ℕ → ℕ → ℕ → ℕ → Bool
strict_wild a b aw bw f = wc aw f && wc bw f || compl (wc aw f) && compl (wc bw f) && a == b

unfoldable pub strict_nw : ℕ → ℕ → ℕ → ℕ → Bool
strict_nw a b am bm = am == bm && bit_and (bit_xor a b) (bit_not 32 am) == 0

unfoldable pub strict_dladdr : EthAddress → EthAddress → ℕ → ℕ → ℕ → Bool
strict_dladdr a b aw bw f =
    strict_wild (low_word a) (low_word b) aw bw f && strict_wild (high_half a) (high_half b) aw bw f

unfoldable pub match_std_strict : Match → Match → ℕ → ℕ → ℕ → ℕ → Bool
match_std_strict a b nw_src_mask_a nw_src_mask_b nw_dst_mask_a nw_dst_mask_b =
    strict_wild a.in_port b.in_port a.wildcards b.wildcards Ofpfw.in_port
    && strict_dladdr a.dl_src b.dl_src a.wildcards b.wildcards Ofpfw.dl_src
    && strict_dladdr a.dl_dst b.dl_dst a.wildcards b.wildcards Ofpfw.dl_dst
    && strict_wild a.dl_vlan b.dl_vlan a.wildcards b.wildcards Ofpfw.dl_vlan
    && strict_wild a.dl_vlan_pcp b.dl_vlan_pcp a.wildcards b.wildcards Ofpfw.dl_vlan_pcp
    && strict_wild a.dl_type b.dl_type a.wildcards b.wildcards Ofpfw.dl_type
    && strict_wild a.nw_tos b.nw_tos a.wildcards b.wildcards Ofpfw.nw_tos
    && strict_wild a.nw_proto b.nw_proto a.wildcards b.wildcards Ofpfw.nw_proto
    && strict_nw a.nw_src b.nw_src nw_src_mask_a nw_src_mask_b
    && strict_nw a.nw_dst b.nw_dst nw_dst_mask_a nw_dst_mask_b
    && strict_wild a.tp_src b.tp_src a.wildcards b.wildcards Ofpfw.tp_src
    && strict_wild a.tp_dst b.tp_dst a.wildcards b.wildcards Ofpfw.tp_dst

unfoldable pub nonstrict_wild : ℕ → ℕ → ℕ → ℕ → ℕ → Bool
nonstrict_wild a b aw bw f = wc bw f && wc aw f || compl (wc bw f) && (wc aw f || a == b)

unfoldable pub nonstrict_nw : ℕ → ℕ → ℕ → ℕ → Bool
nonstrict_nw a b am bm =
    bit_and (bit_and (bit_not 32 am) (bit_or (bit_or (bit_not 32 a) (bit_not 32 b)) bm))
      (bit_or (bit_or a b) bm)
    == 0

unfoldable pub nonstrict_dladdr : EthAddress → EthAddress → ℕ → ℕ → ℕ → Bool
nonstrict_dladdr a b aw bw f =
    nonstrict_wild (low_word a) (low_word b) aw bw f
    && nonstrict_wild (high_half a) (high_half b) aw bw f

unfoldable pub match_std_nonstrict : Match → Match → ℕ → ℕ → ℕ → ℕ → Bool
match_std_nonstrict a b nw_src_mask_a nw_src_mask_b nw_dst_mask_a nw_dst_mask_b =
    nonstrict_wild a.in_port b.in_port a.wildcards b.wildcards Ofpfw.in_port
    && nonstrict_dladdr a.dl_src b.dl_src a.wildcards b.wildcards Ofpfw.dl_src
    && nonstrict_dladdr a.dl_dst b.dl_dst a.wildcards b.wildcards Ofpfw.dl_dst
    && nonstrict_wild a.dl_vlan b.dl_vlan a.wildcards b.wildcards Ofpfw.dl_vlan
    && nonstrict_wild a.dl_vlan_pcp b.dl_vlan_pcp a.wildcards b.wildcards Ofpfw.dl_vlan_pcp
    && nonstrict_wild a.dl_type b.dl_type a.wildcards b.wildcards Ofpfw.dl_type
    && nonstrict_wild a.nw_tos b.nw_tos a.wildcards b.wildcards Ofpfw.nw_tos
    && nonstrict_wild a.nw_proto b.nw_proto a.wildcards b.wildcards Ofpfw.nw_proto
    && nonstrict_nw a.nw_src b.nw_src nw_src_mask_a nw_src_mask_b
    && nonstrict_nw a.nw_dst b.nw_dst nw_dst_mask_a nw_dst_mask_b
    && nonstrict_wild a.tp_src b.tp_src a.wildcards b.wildcards Ofpfw.tp_src
    && nonstrict_wild a.tp_dst b.tp_dst a.wildcards b.wildcards Ofpfw.tp_dst

unfoldable pub pkt_wild : ℕ → ℕ → ℕ → ℕ → Bool
pkt_wild a b aw f = wc aw f || a == b

unfoldable pub pkt_nw : ℕ → ℕ → ℕ → Bool
pkt_nw a b am = bit_and (bit_not 32 am) (bit_xor a b) == 0

unfoldable pub pkt_dladdr : EthAddress → EthAddress → ℕ → ℕ → Bool
pkt_dladdr a b am f =
    pkt_wild (low_word a) (low_word b) am f && pkt_wild (high_half a) (high_half b) am f

-- The message to stderr for ICMP matches is not modelled.
unfoldable pub match_std_pkt : Match → Match → ℕ → ℕ → Bool
match_std_pkt a b nw_src_mask nw_dst_mask =
    pkt_wild a.in_port b.in_port a.wildcards Ofpfw.in_port
    && pkt_dladdr a.dl_src b.dl_src a.wildcards Ofpfw.dl_src
    && pkt_dladdr a.dl_dst b.dl_dst a.wildcards Ofpfw.dl_dst
    && pkt_wild a.dl_vlan b.dl_vlan a.wildcards Ofpfw.dl_vlan
    && pkt_wild a.dl_vlan_pcp b.dl_vlan_pcp a.wildcards Ofpfw.dl_vlan_pcp
    && pkt_wild a.dl_type b.dl_type a.wildcards Ofpfw.dl_type
    && pkt_wild a.nw_tos b.nw_tos a.wildcards Ofpfw.nw_tos
    && pkt_wild a.nw_proto b.nw_proto a.wildcards Ofpfw.nw_proto
    && pkt_nw a.nw_src b.nw_src nw_src_mask
    && pkt_nw a.nw_dst b.nw_dst nw_dst_mask
    && pkt_wild a.tp_src b.tp_src a.wildcards Ofpfw.tp_src
    && pkt_wild a.tp_dst b.tp_dst a.wildcards Ofpfw.tp_dst

-- The last argument of the second call is the mask of the source of b, as in the code.
unfoldable pub match_std_overlap : Match → Match → ℕ → ℕ → ℕ → ℕ → Bool
match_std_overlap a b nw_src_mask_a nw_src_mask_b nw_dst_mask_a nw_dst_mask_b =
    match_std_nonstrict a b nw_src_mask_a nw_src_mask_b nw_dst_mask_a nw_dst_mask_b
    || match_std_nonstrict b a nw_src_mask_b nw_src_mask_a nw_dst_mask_b nw_src_mask_b
