-- ===== src/Ublk.antt =====
-- What every target shares: the io descriptor of include/ublk_cmd.h, the `user_data` of a target
-- sqe and the data offsets of include/ublksrv.h, the unique tags of
-- targets/include/ublksrv_tgt.h, and the ids of include/ublksrv_aio.h.
pub mod Tags
use s3blk.Base.{
  ℕ, ◌+◌, ◌*◌, ◌/◌, ◌%◌, ◌^◌, Bool, bit_or, u16, u32, u64, low_bits, has_bit, ◌<<◌, ◌>>◌, ltb, leb,
  ◌-◌, not, ◌&&◌, if◌then◌else◌,
}

-- `struct ublksrv_io_desc`.
pub record IoDesc : Type 0 where
  pub op_flags : ℕ  -- u32
  pub nr_sectors : ℕ  -- u32
  pub start_sector : ℕ  -- u64
  pub addr : ℕ  -- u64

abbrev pub op_read : ℕ
op_read = 0

abbrev pub op_write : ℕ
op_write = 1

abbrev pub op_flush : ℕ
op_flush = 2

abbrev pub op_discard : ℕ
op_discard = 3

abbrev pub op_write_zeroes : ℕ
op_write_zeroes = 5

-- The bit numbers of UBLK_IO_F_FUA and UBLK_IO_F_NOUNMAP.
abbrev pub f_fua : ℕ
f_fua = 13

abbrev pub f_nounmap : ℕ
f_nounmap = 15

abbrev pub get_op : IoDesc → ℕ
get_op iod = low_bits iod.op_flags 8

abbrev pub get_flags : IoDesc → ℕ
get_flags iod = iod.op_flags >> 8

-- `nr_sectors << 9` in a `__u32`.
abbrev pub io_bytes : IoDesc → ℕ
io_bytes iod = u32 (iod.nr_sectors << 9)

-- Its shifts and `|` are done in `unsigned` for the first two fields, in `__u64` for the others.
unfoldable pub build_user_data : ℕ → ℕ → ℕ → ℕ → ℕ
build_user_data tag op tgt_data is_target_io =
    bit_or (bit_or (bit_or tag (u32 (op << 16))) (u64 (tgt_data << 24))) (u64 (is_target_io << 63))

unfoldable pub user_data_to_tag : ℕ → ℕ
user_data_to_tag user_data = low_bits user_data 16

unfoldable pub user_data_to_op : ℕ → ℕ
user_data_to_op user_data = low_bits (user_data >> 16) 8

unfoldable pub user_data_to_tgt_data : ℕ → ℕ
user_data_to_tgt_data user_data = low_bits (user_data >> 24) 16

unfoldable pub is_target_io : ℕ → Bool
is_target_io user_data = has_bit user_data 63

unfoldable pub is_internal_io : ℕ → Bool
is_internal_io user_data = has_bit user_data 62

-- UBLK_IO_BUF_BITS, UBLK_TAG_OFF and UBLK_QID_OFF.
abbrev pub io_buf_bits : ℕ
io_buf_bits = 25

abbrev pub qid_off : ℕ
qid_off = io_buf_bits + 16

abbrev pub io_buf_offset : ℕ
io_buf_offset = 0x80000000

unfoldable pub ublk_pos : ℕ → ℕ → ℕ → ℕ
ublk_pos q_id tag offset =
    u64 (io_buf_offset + bit_or (bit_or (u64 (q_id << qid_off)) (u64 (tag << io_buf_bits))) offset)

unfoldable pub unique_tag : ℕ → ℕ → ℕ
unique_tag hwq tag = bit_or (u32 (hwq << 16)) (low_bits tag 16)

unfoldable pub unique_tag_to_hwq : ℕ → ℕ
unique_tag_to_hwq t = u16 (t >> 16)

unfoldable pub unique_tag_to_tag : ℕ → ℕ
unique_tag_to_tag t = u16 (low_bits t 16)

unfoldable pub aio_pid_tag : ℕ → ℕ → ℕ
aio_pid_tag qid tag = bit_or tag (u32 (qid << 13))

unfoldable pub aio_qid : ℕ → ℕ
aio_qid val = low_bits (val >> 13) 11

unfoldable pub aio_tag : ℕ → ℕ
aio_tag val = low_bits val 13
