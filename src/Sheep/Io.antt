-- ===== src/Sheep/Io.antt =====
-- The execution of an io: sd_exec_read, sd_exec_discard, sd_prep_write and sd_exec_write of
-- targets/sheepdog/sheep.c, and sheepdog_queue_tgt_io of targets/sheepdog/ublk.sheepdog.cpp.
use s3blk.Base.{
  ℕ, zero, suc, ◌+◌, ◌*◌, ◌^◌, ◌%◌, ◌/◌, Bool, true, false, not, ◌&&◌, ◌||◌, ◌==◌, if◌then◌else◌,
  Option, none, some, List, u32, u64, ◌<<◌,
}
use s3blk.Base.Int.{ℤ, pos, minus, negsuc, is_neg, int_of_u32}
use s3blk.Ublk.{IoDesc, get_op, io_bytes, op_read, op_write, op_discard, op_write_zeroes}
use s3blk.Sheep.Types.{
  Inode, Vdi, vid_word, io_buffer, Request, on_object, Cluster, Session, submit, fresh,
  vid_to_vdi_oid, vid_to_data_oid,
}
use s3blk.Sheep.Inodes.{
  and_then, invalidated, readonly, read_object, read_inode, resolve_vid, update_inode,
}

abbrev pub is_zero : ℤ → Bool
is_zero (pos k) = k == 0
is_zero (negsuc k) = false

-- -EOPNOTSUPP
abbrev pub eopnotsupp : ℤ
eopnotsupp = minus 95

-- How an io ends: its result, the vdi with what is known of its inode, the requests that were
-- sent, and whether the io's buffer was cleared instead.
pub record Done : Type 0 where
  pub ret : ℤ
  pub vdi : Vdi
  pub sent : List Request
  pub zeroed : Bool

-- SD_OBJECT_SIZE, for a shift below 32
unfoldable pub object_size : Vdi → ℕ
object_size vdi = 2 ^ vdi.inode.block_size_shift

-- `offset`, `start` and `idx` of an io.
unfoldable pub byte_offset : IoDesc → ℕ
byte_offset iod = u64 (iod.start_sector << 9)

unfoldable pub object_start : Vdi → IoDesc → ℕ
object_start vdi iod = byte_offset iod % object_size vdi

unfoldable pub object_idx : Vdi → IoDesc → ℕ
object_idx vdi iod = u32 (byte_offset iod / object_size vdi)

-- `sd_vdi->inode.data_vdi_id[idx] = vid`
unfoldable pub with_data_vdi : Vdi → ℕ → ℕ → Vdi
with_data_vdi vdi idx vid =
    let inode : Inode = record vdi.inode {
      data_vdi_id = λ i. if i == idx then vid else vdi.inode.data_vdi_id i;
    } in
    record vdi { inode = inode }

-- What sd_prep_write puts into a request.
pub record Prepared : Type 0 where
  pub opcode : ℕ
  pub flags : ℕ
  pub oid : ℕ
  pub cow_oid : ℕ

-- sd_prep_write
unfoldable pub prep_write : Vdi → ℕ → Prepared × Vdi
prep_write vdi idx =
    let vid = vdi.inode.data_vdi_id idx in
    let own = vid_to_data_oid vdi.vid idx in
    let mapped = with_data_vdi vdi idx vdi.vid in
    if vid == 0
    then (record { opcode = 0x01; flags = 0x29; oid = own; cow_oid = 0 }, mapped)
    else if not (vdi.vid == vid)
    then (
      record { opcode = 0x01; flags = 0x2B; oid = own; cow_oid = vid_to_data_oid vid idx },
      mapped,
    )
    else (record { opcode = 0x03; flags = 0x29; oid = vid_to_data_oid vid idx; cow_oid = 0 }, vdi)

module _ (cluster : Cluster) (inode_size header_size : ℕ) where
  -- sd_exec_read, with the context of the io
  unfoldable pub exec_read : ℕ → List Request → ℕ → Vdi → IoDesc → Option Done
  exec_read n sent tag vdi iod =
      let idx = object_idx vdi iod in
      and_then (resolve_vid cluster inode_size header_size n sent vdi idx) λ (ret, vdi1, sent1).
        if is_neg ret
        then some (record { ret = ret; vdi = vdi1; sent = sent1; zeroed = false })
        else if is_zero ret
        then some (record { ret = pos 0; vdi = vdi1; sent = sent1; zeroed = true })
        else and_then
            (read_object cluster n (fresh sent1) tag (vid_to_data_oid (u32_of ret) idx)
              (object_start vdi iod) (io_bytes iod) io_buffer)
            λ r. some (record { ret = r.ret; vdi = vdi1; sent = r.session.sent; zeroed = false })
    where
      u32_of : ℤ → ℕ
      u32_of (pos k) = k
      u32_of _ = 0

  -- The request of sd_exec_discard and what is known of the inode then.
  unfoldable pub discard_object : ℕ → Session → ℕ → Vdi → ℕ → Option (ℤ × Vdi × List Request)
  discard_object zero s tag vdi idx = none
  discard_object (suc n) s tag vdi idx =
      let orig_vid = vdi.inode.data_vdi_id idx in
      let vdi1 = with_data_vdi vdi idx 0 in
      let req =
        on_object 0x03 0x21 tag 4 (vid_to_vdi_oid orig_vid) 0 vdi1.inode.nr_copies
          (u32 (header_size + 4 * idx)) (vid_word 0) in
      let (ret, a, s1) = submit cluster s req in
      let reloaded =
        and_then (read_inode cluster inode_size header_size n s1.sent vdi1 false)
          λ (ret1, vdi2, sent).
            let again = discard_object n (record s1 { sent = sent }) tag vdi2 idx in
            if is_neg ret1 || (vdi2.inode.data_vdi_id idx == 0)
            then some (ret1, vdi2, sent)
            else again in
      if (s1.result == invalidated) || ((s1.result == readonly) || is_neg ret)
      then reloaded
      else some (ret, vdi1, s1.sent)

  -- sd_exec_discard
  unfoldable pub exec_discard : ℕ → List Request → ℕ → Vdi → IoDesc → Bool → Option Done
  exec_discard n sent tag vdi iod write_zeroes =
      let idx = object_idx vdi iod in
      and_then (resolve_vid cluster inode_size header_size n sent vdi idx) λ (ret, vdi1, sent1).
        if is_neg ret
        then some (record { ret = ret; vdi = vdi1; sent = sent1; zeroed = false })
        else if is_zero ret && write_zeroes
        then some (record { ret = pos 0; vdi = vdi1; sent = sent1; zeroed = true })
        else and_then (discard_object n (fresh sent1) tag vdi1 idx) λ (ret1, vdi2, sent2).
          some (record { ret = ret1; vdi = vdi2; sent = sent2; zeroed = false })

  -- sd_exec_write from `retry` on: it clears the context, with it the tag.
  unfoldable pub write_object : ℕ → List Request → Vdi → ℕ → ℕ → ℕ → Option (ℤ × Vdi × List Request)
  write_object zero sent vdi idx start total = none
  write_object (suc n) sent vdi idx start total =
      let (p, vdi1) = prep_write vdi idx in
      let req = on_object p.opcode p.flags 0 total 0 0 vdi1.inode.nr_copies (u32 start) io_buffer in
      let (ret, a, s1) = submit cluster (fresh sent) req in
      let is_snapshot = s1.result == readonly in
      let reloaded =
        and_then (read_inode cluster inode_size header_size n s1.sent vdi1 is_snapshot)
          λ (ret1, vdi2, sent2).
            let again = write_object n sent2 vdi2 idx start total in
            if is_neg ret1 then some (ret1, vdi2, sent2) else again in
      let updated = update_inode cluster inode_size header_size n (fresh s1.sent) vdi1 0 in
      if (s1.result == invalidated) || is_snapshot
      then reloaded
      else if is_neg ret || not (p.opcode == 0x01)
      then some (ret, vdi1, s1.sent)
      else updated

  -- sd_exec_write
  unfoldable pub exec_write : ℕ → List Request → Vdi → IoDesc → Option Done
  exec_write n sent vdi iod =
      and_then (write_object n sent vdi (object_idx vdi iod) (object_start vdi iod) (io_bytes iod))
        λ (ret, vdi1, sent1). some (record { ret = ret; vdi = vdi1; sent = sent1; zeroed = false })

  -- sheepdog_queue_tgt_io: the result of the io, and how its execution ended.
  unfoldable pub queue_tgt_io : ℕ → List Request → ℕ → Vdi → IoDesc → Option (ℤ × Done)
  queue_tgt_io n sent tag vdi iod =
      let op = get_op iod in
      let unsupported : Done = record {
        ret = eopnotsupp;
        vdi = vdi;
        sent = sent;
        zeroed = false;
      } in
      let executed =
        if op == op_write
        then exec_write n sent vdi iod
        else if op == op_read
        then exec_read n sent tag vdi iod
        else if (op == op_discard) || (op == op_write_zeroes)
        then exec_discard n sent tag vdi iod (not (op == op_discard))
        else some unsupported in
      and_then executed λ d. some (if is_neg d.ret then d.ret else int_of_u32 (io_bytes iod), d)
