-- ===== src/Ublk/Tags.antt =====
-- The encodings of include/ublksrv.h, include/ublksrv_aio.h and targets/include/ublksrv_tgt.h
-- keep every field apart.
use s3blk.Base.{ℕ, ◌+◌, ◌*◌, ◌^◌, ◌<◌, ◌≤◌, ◌≡◌, ◌==◌, arith, false}
use s3blk.Bits.{bit_or-low_high, bit_or-high_low}
use s3blk.Ublk.{
  build_user_data, user_data_to_tag, user_data_to_op, user_data_to_tgt_data, is_target_io,
  is_internal_io, ublk_pos, unique_tag, unique_tag_to_hwq, unique_tag_to_tag, aio_pid_tag, aio_qid,
  aio_tag, io_buf_offset, io_buf_bits, qid_off,
}

-- The `|`s of `build_user_data` are sums.
pub build_user_data_sum :
    (tag op tgt_data is_tgt : ℕ)
    → tag < 2 ^ 16
    → op < 2 ^ 8
    → tgt_data < 2 ^ 16
    → is_tgt < 2
    → build_user_data tag op tgt_data is_tgt
      ≡ tag + op * 2 ^ 16 + tgt_data * 2 ^ 24 + is_tgt * 2 ^ 63
unfolding build_user_data
build_user_data_sum tag op tgt_data is_tgt ht ho hd hi = ground (
  arith,
  bit_or-low_high 16 op tag,
  bit_or-low_high 24 tgt_data (tag + op * 2 ^ 16),
  bit_or-low_high 63 is_tgt (tag + op * 2 ^ 16 + tgt_data * 2 ^ 24),
)

-- Fields within the limits that `build_user_data` asserts are read back from the user_data, the
-- bit of a target io is the one given, and the bit of internal data stays clear.
pub user_data-build_user_data :
    (tag op tgt_data is_tgt : ℕ)
    → tag < 2 ^ 16
    → op < 2 ^ 8
    → tgt_data < 2 ^ 16
    → is_tgt < 2
    → let d = build_user_data tag op tgt_data is_tgt in
      (user_data_to_tag d ≡ tag)
      × (user_data_to_op d ≡ op)
      × (user_data_to_tgt_data d ≡ tgt_data)
      × (is_internal_io d ≡ false)
      × (is_target_io d ≡ (is_tgt == 1))
unfolding user_data_to_tag user_data_to_op user_data_to_tgt_data is_internal_io is_target_io
user_data-build_user_data tag op tgt_data is_tgt ht ho hd hi =
    ground (arith, build_user_data_sum tag op tgt_data is_tgt ht ho hd hi)

ublk_pos_sum :
    (q_id tag offset : ℕ)
    → q_id < 2 ^ 16
    → tag < 2 ^ 16
    → offset < 2 ^ io_buf_bits
    → ublk_pos q_id tag offset
      ≡ io_buf_offset + (q_id * 2 ^ qid_off + tag * 2 ^ io_buf_bits) + offset
unfolding ublk_pos
ublk_pos_sum q_id tag offset hq ht ho =
    ground (
      arith,
      bit_or-high_low 41 q_id (tag * 2 ^ 25),
      bit_or-high_low 25 (q_id * 2 ^ 16 + tag) offset,
    )

-- For 16-bit queues and tags and offsets below 2^25, two buffer offsets of the ublk char device
-- coincide only for the same queue, tag and offset, so
-- the data windows of different requests are disjoint; each lies above UBLKSRV_IO_BUF_OFFSET, and
-- nothing wraps.
pub ublk_pos_injective :
    (q t o q' t' o' : ℕ)
    → (q < 2 ^ 16) × (t < 2 ^ 16) × (o < 2 ^ io_buf_bits)
    → (q' < 2 ^ 16) × (t' < 2 ^ 16) × (o' < 2 ^ io_buf_bits)
    → ublk_pos q t o ≡ ublk_pos q' t' o'
    → (q ≡ q') × (t ≡ t') × (o ≡ o') × (io_buf_offset ≤ ublk_pos q t o)
ublk_pos_injective q t o q' t' o' h h' e =
    omega (arith, ublk_pos_sum q t o h.0 h.1 h.2, ublk_pos_sum q' t' o' h'.0 h'.1 h'.2)

-- The unique tag keeps the hardware queue and the tag of every pair of 16-bit values.
pub unique_tag_fields :
    (hwq tag : ℕ)
    → hwq < 2 ^ 16
    → tag < 2 ^ 16
    → (unique_tag_to_hwq (unique_tag hwq tag) ≡ hwq)
      × (unique_tag_to_tag (unique_tag hwq tag) ≡ tag)
      × (unique_tag hwq tag ≡ hwq * 2 ^ 16 + tag)
unfolding unique_tag unique_tag_to_hwq unique_tag_to_tag
unique_tag_fields hwq tag hh ht = ground (arith, bit_or-high_low 16 hwq tag)

-- An aio id keeps a queue id below 2^11 and a tag below 2^13.
pub aio_pid_tag_fields :
    (qid tag : ℕ)
    → qid < 2 ^ 11
    → tag < 2 ^ 13
    → (aio_qid (aio_pid_tag qid tag) ≡ qid) × (aio_tag (aio_pid_tag qid tag) ≡ tag)
unfolding aio_pid_tag aio_qid aio_tag
aio_pid_tag_fields qid tag hq ht = ground (arith, bit_or-low_high 13 qid tag)
