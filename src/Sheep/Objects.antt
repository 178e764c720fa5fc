-- ===== src/Sheep/Objects.antt =====
-- Object ids, and which objects reads and writes name.
use s3blk.Base.{ℕ, ◌+◌, ◌*◌, ◌^◌, ◌<◌, false, ◌==◌, ◌||◌, if◌then◌else◌, ◌≡◌, arith, has_bit}
use s3blk.Bits.{bit_or-high_low}
use s3blk.Sheep.Types.{Vdi, vid_to_data_oid, data_oid_to_idx, oid_to_vid}
use s3blk.Sheep.Io.{prep_write, with_data_vdi}

pub vid_to_data_oid-sum :
    (vid idx : ℕ) → vid < 2 ^ 24 → idx < 2 ^ 32 → vid_to_data_oid vid idx ≡ vid * 2 ^ 32 + idx
unfolding vid_to_data_oid
vid_to_data_oid-sum vid idx hv hi = ground (arith, bit_or-high_low 32 vid idx hi)

-- A vdi id below 2 ^ 24 and an index below 2 ^ 32 are read back from the id of a data object, and
-- that is not the id of an inode object.
pub data_oid-vid_to_data_oid :
    (vid idx : ℕ)
    → vid < 2 ^ 24
    → idx < 2 ^ 32
    → (data_oid_to_idx (vid_to_data_oid vid idx) ≡ idx)
      × (oid_to_vid (vid_to_data_oid vid idx) ≡ vid)
      × (has_bit (vid_to_data_oid vid idx) 63 ≡ false)
unfolding data_oid_to_idx oid_to_vid
data_oid-vid_to_data_oid vid idx hv hi = ground (arith, vid_to_data_oid-sum vid idx hv hi)

-- However an object was mapped, sd_prep_write prepares a write to the vdi's own object of that
-- index, as a copy of the object that was mapped there if that belongs to another vdi. The vdi's
-- own object is what is mapped there afterwards, and nowhere else does the mapping change; the next
-- write is prepared as one in place, unless the vdi has no id.
pub prep_write-own :
    (vdi : Vdi) (idx : ℕ)
    → let (p, vdi1) = prep_write vdi idx in
      let vid = vdi.inode.data_vdi_id idx in
      (p.oid ≡ vid_to_data_oid vdi.vid idx)
      × (p.cow_oid ≡ (if (vid == 0) || (vid == vdi.vid) then 0 else vid_to_data_oid vid idx))
      × (vdi1.vid ≡ vdi.vid)
      × ((i : ℕ)
          → vdi1.inode.data_vdi_id i ≡ (if i == idx then vdi.vid else vdi.inode.data_vdi_id i))
      × (¬ (vdi.vid ≡ 0)
          → prep_write vdi1 idx ≡ (
            record { opcode = 0x03; flags = 0x29; oid = vid_to_data_oid vdi.vid idx; cow_oid = 0 },
            vdi1,
          ))
unfolding prep_write with_data_vdi
prep_write-own vdi idx = ground arith
