-- ===== src/Sheep/Types.antt =====
-- Object ids of targets/sheepdog/sheepdog_proto.h, the structures of the target, and one exchange
-- with the cluster: sd_submit and sd_result_to_errno of targets/sheepdog/sheep.c.
use s3blk.Base.{
  ℕ, ◌^◌, ◌||◌, ◌==◌, if◌then◌else◌, List, [], ◌∷◌, ◌++◌, bit_or, low_bits, u64, ◌<<◌, ◌>>◌,
}
use s3blk.Base.Int.{ℤ, pos, minus, eio, einval}

-- VDI_BIT, and the object ids of an inode and of its data.
unfoldable pub vid_to_vdi_oid : ℕ → ℕ
vid_to_vdi_oid vid = bit_or (2 ^ 63) (u64 (vid << 32))

unfoldable pub vid_to_data_oid : ℕ → ℕ → ℕ
vid_to_data_oid vid idx = bit_or (u64 (vid << 32)) idx

-- `oid & (MAX_DATA_OBJS - 1)` and `(oid & SD_VDI_MASK) >> VDI_SPACE_SHIFT`
unfoldable pub data_oid_to_idx : ℕ → ℕ
data_oid_to_idx oid = low_bits oid 32

unfoldable pub oid_to_vid : ℕ → ℕ
oid_to_vid oid = low_bits (oid >> 32) 24

-- `struct sd_inode`, the fields that are read, and `struct sheepdog_vdi`. `data_vdi_id` gives the
-- inode whose object holds a part of the data, or 0.
pub record Inode : Type 0 where
  pub snap_ctime : ℕ
  pub nr_copies : ℕ
  pub block_size_shift : ℕ
  pub data_vdi_id : ℕ → ℕ

pub record Vdi : Type 0 where
  pub vid : ℕ
  pub inode : Inode

-- What is sent or received behind a request: nothing, the buffer of the io, a vdi id, or an inode.
pub data Payload : Type 0 where
  no_payload : Payload
  io_buffer : Payload
  vid_word : ℕ → Payload
  inode_words : Payload

-- `struct sd_req` for the requests on objects; that of sd_vdi_lookup has the other form.
pub data Request : Type 0 where
  on_object : (opcode flags id data_length oid cow_oid copies offset : ℕ) → Payload → Request
  lookup : (opcode : ℕ) → Request

-- What becomes of a request: sending it or receiving the response fails with an errno; the
-- connection is closed and no response is stored; a response with a result; or such a response
-- whose data cannot be received.
pub data Outcome : Type 0 where
  failed : ℕ → Outcome
  closed : Outcome
  replied : ℕ → Outcome
  cut_off : ℕ → ℕ → Outcome

-- With it, the vdi id of the response and the inode that the buffer then holds, where these are
-- asked for.
pub record Answer : Type 0 where
  pub outcome : Outcome
  pub vdi_id : ℕ
  pub inode : Inode

abbrev pub Cluster : Type 0
Cluster = List Request → Request → Answer

-- The requests that were sent, and `rsp.result` of the io context.
pub record Session : Type 0 where
  pub sent : List Request
  pub result : ℕ

-- sd_result_to_errno
unfoldable pub result_to_errno : ℕ → ℤ
result_to_errno result =
    if result == 0x00
    then pos 0
    else if (result == 0x02) || ((result == 0x08) || (result == 0x09))
    then minus 2
    else if result == 0x04
    then minus 17
    else if result == 0x05
    then einval
    else if result == 0x07
    then minus 84
    else eio

-- The return value of sd_submit, and `rsp.result` after it.
unfoldable pub submitted : Outcome → ℕ → ℤ × ℕ
submitted (failed errno) result = (minus errno, result)
submitted closed result = (result_to_errno result, result)
submitted (replied r) result = (result_to_errno r, r)
submitted (cut_off r errno) result = (minus errno, r)

-- sd_submit
unfoldable pub submit : Cluster → Session → Request → ℤ × Answer × Session
submit cluster s req =
    let a = cluster s.sent req in
    let (ret, result) = submitted a.outcome s.result in
    (ret, a, record { sent = s.sent ++ req ∷ []; result = result })

-- A context that was cleared.
abbrev pub fresh : List Request → Session
fresh sent = record { sent = sent; result = 0 }
