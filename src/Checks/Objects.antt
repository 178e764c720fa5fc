-- ===== src/Checks/Objects.antt =====
-- A vdi of 4 MiB objects, the first of which is mapped to an older vdi.
use s3blk.Base.{arith, ℕ, zero, suc, ◌*◌, ◌+◌, ◌≡◌, refl, false, [], ◌∷◌, some}
use mathlib.Core.Option
use s3blk.Base.Int.{pos}
use s3blk.Ublk.{IoDesc, io_bytes}
use s3blk.Sheep.Types.{Inode, Vdi, Cluster, replied, io_buffer, vid_to_data_oid}
use s3blk.Sheep.Inodes.{read_request}
use s3blk.Sheep.Written.{write_requests, Maps, exec_write-write_requests}
use s3blk.Sheep.Io.{
  exec_write, exec_read, object_idx, object_start, object_size, byte_offset, queue_tgt_io,
}
use s3blk.Sheep.Served.{trace, exec_read-mapped}
use s3blk.Sheep.Answered.{result_of, queue_tgt_io_answered}

abbrev older : ℕ → ℕ
older zero = 7
older (suc idx) = 0

abbrev inode : Inode
inode = record { snap_ctime = 0; nr_copies = 3; block_size_shift = 22; data_vdi_id = older }

abbrev vdi : Vdi
vdi = record { vid = 9; inode = inode }

-- A read of 4 KiB at 1 MiB.
abbrev read_io : IoDesc
read_io = record { op_flags = 0; nr_sectors = 8; start_sector = 2048; addr = 0 }

abbrev ready : Cluster
ready sent req = record { outcome = replied 0; vdi_id = 0; inode = inode }

exec_write-write_requests_example :
    (vdi1 : Vdi) × (exec_write ready 4200000 600 2 [] vdi read_io
      ≡ some (record {
        ret = pos 0;
        vdi = vdi1;
        sent = write_requests vdi 600 7 (object_start vdi read_io) (io_bytes read_io);
        zeroed = false;
      }))
    × Maps vdi vdi1 0
unfolding object_idx object_size byte_offset
exec_write-write_requests_example =
    exec_write-write_requests ready (λ sent req. refl) 4200000 600 0 [] vdi read_io

exec_read-mapped_example :
    (Option.map trace (exec_read ready 4200000 600 1 [] 4 vdi read_io)
      ≡ some (
        read_request 4
              (vid_to_data_oid 7 (object_idx vdi read_io))
              (object_start vdi read_io)
              (io_bytes read_io)
              io_buffer
            ∷ [],
        false,
      ))
    × (object_idx vdi read_io * object_size vdi + object_start vdi read_io ≡ byte_offset read_io)
unfolding object_idx object_size byte_offset
exec_read-mapped_example =
    exec_read-mapped ready 4200000 600 0 [] 4 vdi read_io (ground arith) (ground arith)
      (ground arith)

queue_tgt_io_answered_example :
    Option.map result_of (queue_tgt_io ready 4200000 600 2 [] 4 vdi read_io) ≡ some (pos 4096)
unfolding object_idx object_size byte_offset
queue_tgt_io_answered_example =
    queue_tgt_io_answered ready (λ sent req. refl) 4200000 600 0 [] 4 vdi read_io (ground arith)
