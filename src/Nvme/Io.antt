-- ===== src/Nvme/Io.antt =====
-- The io path of targets/nvme/ublk.nvme_vfio.cpp: nvme_queue_rw_io, nvme_queue_flush_io,
-- nvme_queue_discard_io, nvme_vfio_queue_io and nvme_vfio_handle_io_async.
pub mod Branches
pub mod Commands
use s3blk.Base.{
  ℕ, ◌+◌, ◌-◌, ◌^◌, false, ◌&&◌, ◌==◌, if◌then◌else◌, u16, u32, has_bit, ◌>>◌, List, [], ◌∷◌, ◌||◌,
}
use s3blk.Base.Int.{ℤ, pos, is_neg, enomem, einval}
use s3blk.Ublk.{IoDesc, op_read, op_write, op_flush, op_discard, f_fua, get_op, get_flags, io_bytes}
use s3blk.Nvme.Types.{
  SglDesc, Dptr, sgl, RwCommand, CommonCommand, rw_command, common_command, DmaMapping, TgtData,
}
use s3blk.Nvme.Ring.{sq_push}
use s3blk.Nvme.Pool.{pool_get_io_buf}
use s3blk.Nvme.Dma.{map_dma, sgl_supported}
use s3blk.Nvme.Prp.{setup_prps}
use s3blk.Nvme.Sgl.{setup_sgl}
use s3blk.Nvme.State.{
  DsmRange, ListPage, prp_list, sgl_list, dsm_range, IoPriv, Env, State, set_priv, user_copy_sync,
  complete_io,
}

-- The data pointers of a command: the end of nvme_queue_rw_io's preparation, with the page that
-- is left behind.
pub record Pointers : Type 0 where
  pub ret : ℤ
  pub dptr : Dptr
  pub page : ListPage

-- The list is written only where the setup builds one.
abbrev pub prp_page : ListPage → List ℕ → ListPage
prp_page old [] = old
prp_page old (e ∷ es) = prp_list (e ∷ es)

abbrev pub sgl_page : ListPage → List SglDesc → ListPage
sgl_page old [] = old
sgl_page old (e ∷ es) = sgl_list (e ∷ es)

-- NVME_CMD_SGL_METABUF, NVME_RW_FUA and NVME_DSMGMT_AD.
abbrev pub cmd_sgl_metabuf : ℕ
cmd_sgl_metabuf = 0x40

abbrev pub rw_fua : ℕ
rw_fua = 0x4000

abbrev pub dsmgmt_ad : ℕ
dsmgmt_ad = 4

abbrev pub cmd_flush : ℕ
cmd_flush = 0

abbrev pub cmd_write : ℕ
cmd_write = 1

abbrev pub cmd_read : ℕ
cmd_read = 2

abbrev pub cmd_dsm : ℕ
cmd_dsm = 9

-- "use SGL if supported, otherwise PRP"
unfoldable pub data_pointers : TgtData → IoPriv → ℕ → ℕ → ℕ → Pointers
data_pointers d priv io_buf iova len =
    if sgl_supported d
    then (let r = setup_sgl d priv.prp_mapping.iova io_buf iova len in
        record { ret = r.ret; dptr = sgl r.desc; page = sgl_page priv.page r.list })
    else (let r = setup_prps d priv.prp_mapping.iova io_buf iova len in
        record { ret = r.ret; dptr = r.dptr; page = prp_page priv.page r.entries })

-- The shift from sectors to logical blocks.
abbrev pub lba_of : TgtData → ℕ → ℕ
lba_of d sectors = sectors >> (d.lba_shift - 9)

-- The command that nvme_queue_rw_io builds on its stack.
unfoldable pub rw_cmd : TgtData → IoDesc → ℕ → Dptr → RwCommand
rw_cmd d iod tag dptr = record {
  opcode = if get_op iod == op_write then cmd_write else cmd_read;
  flags = if sgl_supported d then cmd_sgl_metabuf else 0;
  cid = u16 tag;
  nsid = d.nsid;
  dptr = dptr;
  slba = lba_of d iod.start_sector;
  nlb = u16 (u32 (lba_of d iod.nr_sectors + 2 ^ 32 - 1));
  control = if has_bit (get_flags iod) f_fua then rw_fua else 0;
}

-- nvme_queue_rw_io: "get or create DMA mapping".
unfoldable pub data_iova : Env → TgtData → IoPriv → ℕ → ℕ × DmaMapping × TgtData
data_iova env d priv io_buf =
    if priv.data_mapping.iova == 0
    then map_dma env.map_ok d io_buf d.max_io_buf_bytes priv.data_mapping
    else (priv.data_mapping.iova, priv.data_mapping, d)

-- nvme_queue_rw_io
unfoldable pub queue_rw_io : Env → ℕ → State → ℕ → ℤ × State
queue_rw_io env q_id s tag =
    let iod = env.iods tag in
    let priv = s.priv tag in
    let io_buf = pool_get_io_buf s.tgt q_id tag in
    let (iova, mapping, tgt) = data_iova env s.tgt priv io_buf in
    let priv1 = record priv { data_mapping = mapping } in
    let s1 = record s { tgt = tgt; priv = set_priv s.priv tag priv1 } in
    let copied = user_copy_sync env q_id tag io_buf (io_bytes iod) false in
    let p = data_pointers tgt priv1 io_buf iova (io_bytes iod) in
    let s2 = record s1 { priv = set_priv s1.priv tag (record priv1 { page = p.page }) } in
    if iova == 0
    then (enomem, s1)
    else if (tgt.user_copy && get_op iod == op_write) && is_neg copied
    then (copied, s1)
    else if is_neg p.ret
    then (einval, s2)
    else (pos 0, record s2 { nvmeq = sq_push s2.nvmeq (rw_command (rw_cmd tgt iod tag p.dptr)) })

-- nvme_queue_flush_io
unfoldable pub queue_flush_io : State → ℕ → ℤ × State
queue_flush_io s tag =
    let cmd : CommonCommand = record {
      opcode = cmd_flush;
      cid = u16 tag;
      nsid = s.tgt.nsid;
      prp1 = 0;
      cdw10 = 0;
      cdw11 = 0;
    } in
    (pos 0, record s { nvmeq = sq_push s.nvmeq (common_command cmd) })

-- nvme_queue_discard_io
unfoldable pub queue_discard_io : Env → State → ℕ → ℤ × State
queue_discard_io env s tag =
    let iod = env.iods tag in
    let priv = s.priv tag in
    let range : DsmRange = record {
      nlb = lba_of s.tgt iod.nr_sectors;
      slba = lba_of s.tgt iod.start_sector;
    } in
    let cmd : CommonCommand = record {
      opcode = cmd_dsm;
      cid = u16 tag;
      nsid = s.tgt.nsid;
      prp1 = priv.prp_mapping.iova;
      cdw10 = 0;
      cdw11 = dsmgmt_ad;
    } in
    (
      pos 0,
      record s {
        priv = set_priv s.priv tag (record priv { page = dsm_range range });
        nvmeq = sq_push s.nvmeq (common_command cmd);
      },
    )

-- The `switch` of nvme_vfio_queue_io.
unfoldable pub dispatch : Env → ℕ → State → ℕ → ℤ × State
dispatch env q_id s tag =
    let op = get_op (env.iods tag) in
    if op == op_read || op == op_write
    then queue_rw_io env q_id s tag
    else if op == op_flush
    then queue_flush_io s tag
    else if op == op_discard
    then queue_discard_io env s tag
    else (einval, s)

-- nvme_vfio_queue_io
unfoldable pub queue_io : Env → ℕ → State → ℕ → ℤ × State
queue_io env q_id s tag =
    let (ret, s') = dispatch env q_id s tag in
    if is_neg ret
    then (ret, complete_io s' tag ret)
    else (ret, record s' { inflight = u32 (s'.inflight + 1) })

-- nvme_vfio_handle_io_async
unfoldable pub handle_io_async : Env → ℕ → State → ℕ → ℤ × State
handle_io_async env q_id s tag =
    let (ret, s') = queue_io env q_id s tag in (if is_neg ret then ret else pos 0, s')
