-- ===== src/Sheep/Served.antt =====
-- What is sent for an io, and that a cluster which answers serves every io.
use s3blk.Base.{
  ℕ, suc, ◌+◌, ◌*◌, ◌^◌, ◌/◌, ◌<◌, Bool, false, Option, none, some, ◌≡◌, arith, List, [], ◌∷◌, ◌++◌,
  u32, has_bit,
}
use mathlib.Core.Option
use native.Mathlib.Nat.{div-add-mod'}
use s3blk.Base.Int.{pos, int_of_u32}
use s3blk.Ublk.{IoDesc, io_bytes}
use s3blk.Sheep.Types.{
  Vdi, Payload, io_buffer, Request, Cluster, Session, submit, fresh, vid_to_data_oid,
}
use s3blk.Sheep.Inodes.{and_then, read_request, read_object, resolve_vid, Read}
use s3blk.Sheep.Io.{Done, exec_read, object_idx, object_start, object_size, byte_offset}
use s3blk.Sheep.Objects.{data_oid-vid_to_data_oid}

-- A read of an object that is not an inode sends one request, whatever the answer.
read_object-once :
    (cluster : Cluster) (n : ℕ) (s : Session) (id oid offset len : ℕ) (buf : Payload)
    → has_bit oid 63 ≡ false
    → and_then (read_object cluster (suc n) s id oid offset len buf) (λ r. some r.session.sent)
      ≡ some (s.sent ++ read_request id oid offset len buf ∷ [])
unfolding read_object submit
read_object-once cluster n s id oid offset len buf h = ground arith

resolve_vid-mapped :
    (cluster : Cluster) (inode_size header_size n : ℕ) (sent : List Request) (vdi : Vdi) (idx : ℕ)
    → ¬ (vdi.inode.data_vdi_id idx ≡ 0)
    → resolve_vid cluster inode_size header_size (suc n) sent vdi idx
      ≡ some (int_of_u32 (vdi.inode.data_vdi_id idx), vdi, sent)
unfolding resolve_vid
resolve_vid-mapped cluster inode_size header_size n sent vdi idx h = ground arith

-- What was sent for an io, and whether its buffer was cleared.
abbrev pub trace : Done → List Request × Bool
trace d = (d.sent, d.zeroed)

and_then-sent :
    (vdi : Vdi) (o : Option Read) (sent : List Request)
    → and_then o (λ r. some r.session.sent) ≡ some sent
    → Option.map trace (
        and_then o
          λ r. some (record { ret = r.ret; vdi = vdi; sent = r.session.sent; zeroed = false }))
      ≡ some (sent, false)
and_then-sent vdi none sent e = absurd (grind arith)
and_then-sent vdi (some r) sent e = grind arith

pub pos_of_small : (k : ℕ) → k < 2 ^ 24 → int_of_u32 k ≡ pos k
pos_of_small k h = ground arith

exec_read_mapped :
    (cluster : Cluster) (inode_size header_size n : ℕ) (sent : List Request) (tag : ℕ) (vdi : Vdi)
    (iod : IoDesc)
    → let vid = vdi.inode.data_vdi_id (object_idx vdi iod) in
      ¬ (vid ≡ 0)
      → vid < 2 ^ 24
      → exec_read cluster inode_size header_size (suc n) sent tag vdi iod
        ≡ and_then
            (read_object cluster
              (suc n)
              (fresh sent)
              tag
              (vid_to_data_oid vid (object_idx vdi iod))
              (object_start vdi iod)
              (io_bytes iod)
              io_buffer)
            λ r. some (record { ret = r.ret; vdi = vdi; sent = r.session.sent; zeroed = false })
unfolding exec_read
exec_read_mapped cluster inode_size header_size n sent tag vdi iod h hv =
    rw
      (
        resolve_vid-mapped cluster inode_size header_size n sent vdi (object_idx vdi iod) h,
        pos_of_small (vdi.inode.data_vdi_id (object_idx vdi iod)) hv,
      )
      (ground arith)

exec_read-trace :
    (cluster : Cluster) (inode_size header_size n : ℕ) (sent : List Request) (tag : ℕ) (vdi : Vdi)
    (iod : IoDesc)
    → let vid = vdi.inode.data_vdi_id (object_idx vdi iod) in
      ¬ (vid ≡ 0)
      → vid < 2 ^ 24
      → object_idx vdi iod < 2 ^ 32
      → let oid = vid_to_data_oid vid (object_idx vdi iod) in
        Option.map trace (exec_read cluster inode_size header_size (suc n) sent tag vdi iod)
        ≡ some (
          sent ++ read_request tag oid (object_start vdi iod) (io_bytes iod) io_buffer ∷ [],
          false,
        )
exec_read-trace cluster inode_size header_size n sent tag vdi iod h hv hi =
    let idx = object_idx vdi iod in
    let vid = vdi.inode.data_vdi_id idx in
    let (_, _, data_object) = data_oid-vid_to_data_oid vid idx hv hi in
    rw (exec_read_mapped cluster inode_size header_size n sent tag vdi iod h hv) (
      and_then-sent vdi _ _ (
        read_object-once cluster n (fresh sent) tag (vid_to_data_oid vid idx) (object_start vdi iod)
          (io_bytes iod) io_buffer data_object))

object_position :
    (vdi : Vdi) (iod : IoDesc)
    → byte_offset iod / object_size vdi < 2 ^ 32
    → object_idx vdi iod * object_size vdi + object_start vdi iod ≡ byte_offset iod
unfolding object_idx object_start
object_position vdi iod h =
    let whole : u32 (byte_offset iod / object_size vdi) ≡ byte_offset iod / object_size vdi =
      ground arith in
    rw whole (div-add-mod' (byte_offset iod) (object_size vdi))

-- For a 24-bit vdi id, reading a mapped part of the device sends one request, whatever the cluster
-- answers: a read of the io's bytes, at its place in the object that is mapped there; and the
-- buffer is not cleared.
pub exec_read-mapped :
    (cluster : Cluster) (inode_size header_size n : ℕ) (sent : List Request) (tag : ℕ) (vdi : Vdi)
    (iod : IoDesc)
    → let idx = object_idx vdi iod in
      let vid = vdi.inode.data_vdi_id idx in
      ¬ (vid ≡ 0)
      → vid < 2 ^ 24
      → byte_offset iod / object_size vdi < 2 ^ 32
      → let req =
          read_request tag
            (vid_to_data_oid vid idx)
            (object_start vdi iod)
            (io_bytes iod)
            io_buffer in
        (Option.map trace (exec_read cluster inode_size header_size (suc n) sent tag vdi iod)
          ≡ some (sent ++ req ∷ [], false))
        × (idx * object_size vdi + object_start vdi iod ≡ byte_offset iod)
unfolding object_idx
exec_read-mapped cluster inode_size header_size n sent tag vdi iod h hv hi = (
  exec_read-trace cluster inode_size header_size n sent tag vdi iod h hv (ground arith),
  object_position vdi iod hi,
)
