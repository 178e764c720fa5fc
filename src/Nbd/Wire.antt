-- ===== src/Nbd/Wire.antt =====
-- Handles and requests of targets/nbd/ublk.nbd.cpp: req_to_nbd_cmd_type, nbd_cmd_handle and its
-- inverses, __nbd_build_req. Fields are as the host sees them, before htonl and cpu_to_be64.
use s3blk.Base.{
  ℕ, ◌+◌, ◌*◌, ◌^◌, ◌<◌, ◌≡◌, ◌⊎◌, inl, inr, refl, ◌∙◌, Bool-cases, arith, ◌==◌, if◌then◌else◌,
  Option, none, some, bit_or, u32, u64, ◌<<◌, ◌>>◌, has_bit,
}
use s3blk.Bits.{bit_or-high_low, bit_or-low_high}
use s3blk.Ublk.{
  IoDesc, get_op, op_read, op_write, op_flush, op_discard, f_fua, unique_tag, unique_tag_to_hwq,
  unique_tag_to_tag,
}
use s3blk.Ublk.Tags.{unique_tag_fields}

abbrev pub cmd_read : ℕ
cmd_read = 0

abbrev pub cmd_write : ℕ
cmd_write = 1

abbrev pub cmd_flush : ℕ
cmd_flush = 3

abbrev pub cmd_trim : ℕ
cmd_trim = 4

-- req_to_nbd_cmd_type; `none` is -1.
unfoldable pub req_to_nbd_cmd_type : IoDesc → Option ℕ
req_to_nbd_cmd_type iod =
    if get_op iod == op_discard
    then some cmd_trim
    else if get_op iod == op_flush
    then some cmd_flush
    else if get_op iod == op_write
    then some cmd_write
    else if get_op iod == op_read
    then some cmd_read
    else none

-- nbd_cmd_handle
unfoldable pub cmd_handle : ℕ → ℕ → ℕ → ℕ
cmd_handle q_id tag cookie = bit_or (u64 (cookie << 32)) (unique_tag q_id tag)

unfoldable pub handle_to_cookie : ℕ → ℕ
handle_to_cookie handle = u32 (handle >> 32)

unfoldable pub handle_to_tag : ℕ → ℕ
handle_to_tag handle = u32 handle

-- `struct nbd_request`
pub record Request : Type 0 where
  pub kind : ℕ
  pub from : ℕ
  pub len : ℕ
  pub handle : ℕ

-- __nbd_build_req, on a request that is zero but for its magic.
unfoldable pub build_req : ℕ → ℕ → ℕ → IoDesc → ℕ → Request
build_req q_id tag cookie iod kind = record {
  kind = bit_or kind (if has_bit iod.op_flags f_fua then 2 ^ 16 else 0);
  from = if kind == cmd_flush then 0 else u64 (iod.start_sector << 9);
  len = if kind == cmd_flush then 0 else u32 (iod.nr_sectors << 9);
  handle = cmd_handle q_id tag cookie;
}

-- For a 16-bit queue and tag and a 32-bit cookie, a handle gives back the cookie, and, through the
-- unique tag, the queue and the tag that it was made of.
pub cmd_handle_fields :
    (q_id tag cookie : ℕ)
    → q_id < 2 ^ 16
    → tag < 2 ^ 16
    → cookie < 2 ^ 32
    → let h = cmd_handle q_id tag cookie in
      (handle_to_cookie h ≡ cookie)
      × (unique_tag_to_hwq (handle_to_tag h) ≡ q_id)
      × (unique_tag_to_tag (handle_to_tag h) ≡ tag)
unfolding cmd_handle handle_to_cookie handle_to_tag
cmd_handle_fields q_id tag cookie hq ht hc =
    let f = unique_tag_fields q_id tag hq ht in
    let fits : u64 (cookie << 32) ≡ cookie << 32 = omega arith in
    let sum : cmd_handle q_id tag cookie ≡ cookie * 2 ^ 32 + unique_tag q_id tag =
      rw fits (bit_or-high_low 32 cookie (unique_tag q_id tag) (omega (arith, f.2))) in
    let low : u32 (cookie * 2 ^ 32 + unique_tag q_id tag) ≡ unique_tag q_id tag =
      omega (arith, f.2) in
    rw (sum, low) (omega (arith, f.2), f.0, f.1)

kind_small : (iod : IoDesc) (kind : ℕ) → req_to_nbd_cmd_type iod ≡ some kind → kind < 5
unfolding req_to_nbd_cmd_type
kind_small iod kind e = ground arith

marked : (kind : ℕ) → kind < 5 → bit_or kind (2 ^ 16) ≡ kind + 2 ^ 16
marked kind h = bit_or-low_high 16 1 kind (omega arith)

unmarked : (kind : ℕ) → kind < 5 → bit_or kind 0 ≡ kind
unmarked kind h = bit_or-low_high 16 0 kind (omega arith) ∙ omega arith

-- The type field of a request carries the command in its low 16 bits, and the FUA flag exactly
-- if the io asks for force unit access.
pub build_req_kind :
    (q_id tag cookie : ℕ) (iod : IoDesc) (kind : ℕ)
    → req_to_nbd_cmd_type iod ≡ some kind
    → let r = build_req q_id tag cookie iod kind in
      (has_bit r.kind 16 ≡ has_bit iod.op_flags f_fua) × (r.kind ≡ kind ⊎ r.kind ≡ kind + 2 ^ 16)
unfolding build_req
build_req_kind q_id tag cookie iod kind e = elim (Bool-cases (has_bit iod.op_flags f_fua)) [
  | inl fua ↦
      rw (fua, marked kind (kind_small iod kind e))
        (ground (arith, kind_small iod kind e), inr refl)
  | inr plain ↦
      rw (plain, unmarked kind (kind_small iod kind e))
        (ground (arith, kind_small iod kind e), inl refl)
]
