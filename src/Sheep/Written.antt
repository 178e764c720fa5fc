-- ===== src/Sheep/Written.antt =====
-- What sd_exec_write sends.
use s3blk.Base.{
  ℕ, suc, ◌+◌, ◌*◌, ◌≡◌, refl, ◌∙◌, arith, false, not, ◌&&◌, ◌==◌, if◌then◌else◌, Bool-cases, inl,
  inr, some, List, [], ◌∷◌, ◌++◌, append_assoc, u32,
}
use s3blk.Base.Int.{pos}
use s3blk.Ublk.{IoDesc, io_bytes}
use s3blk.Sheep.Types.{
  Vdi, Request, on_object, io_buffer, vid_word, Cluster, fresh, vid_to_vdi_oid, vid_to_data_oid,
  data_oid_to_idx,
}
use s3blk.Sheep.Inodes.{update_inode}
use s3blk.Sheep.Io.{
  Prepared, prep_write, with_data_vdi, exec_write, write_object, object_idx, object_start,
}
use s3blk.Sheep.Answered.{Answers, submit_answered}

-- The requests of a write to a vdi: the write itself, for the object that is given, which is one
-- in place if the part is mapped to the vdi itself, one with a copy if it is mapped to another, and
-- creates an object otherwise; and, unless in place, the update of an index of the vdi's inode.
abbrev pub write_request : Vdi → ℕ → ℕ → ℕ → ℕ → Request
write_request vdi vid oid start total =
    let in_place = not (vid == 0) && vdi.vid == vid in
    let copies = not (vid == 0) && not (vdi.vid == vid) in
    on_object (if in_place then 0x03 else 0x01) (if copies then 0x2B else 0x29) 0 total oid 0
      vdi.inode.nr_copies (u32 start) io_buffer

abbrev pub index_request : Vdi → ℕ → ℕ → Request
index_request vdi header_size idx =
    on_object 0x03 0x21 0 4 (vid_to_vdi_oid vdi.vid) 0 0 (u32 (header_size + 4 * idx))
      (vid_word vdi.vid)

abbrev pub write_requests : Vdi → ℕ → ℕ → ℕ → ℕ → List Request
write_requests vdi header_size vid start total =
    write_request vdi vid 0 start total
    ∷ (if not (vid == 0) && vdi.vid == vid then [] else index_request vdi header_size 0 ∷ [])

-- The second vdi maps an index to itself, and every other as the first.
abbrev pub Maps : Vdi → Vdi → ℕ → Type 0
Maps vdi vdi1 idx =
    (i : ℕ) → vdi1.inode.data_vdi_id i ≡ (if i == idx then vdi.vid else vdi.inode.data_vdi_id i)

two : (l : List Request) (a b : Request) → (l ++ a ∷ []) ++ b ∷ [] ≡ l ++ a ∷ b ∷ []
two l a b = append_assoc l (a ∷ []) (b ∷ [])

module _ (cluster : Cluster) (answers : Answers cluster) (inode_size header_size : ℕ) where
  update_inode_answered :
      (n : ℕ) (sent : List Request) (vdi : Vdi)
      → update_inode cluster inode_size header_size (suc n) (fresh sent) vdi 0
        ≡ some (pos 0, vdi, sent ++ index_request vdi header_size 0 ∷ [])
  unfolding update_inode data_oid_to_idx
  update_inode_answered n sent vdi = simp (submit_answered cluster answers (fresh sent)) refl

  write_object_prepared :
      (n : ℕ) (sent : List Request) (vdi vdi1 : Vdi) (idx start total : ℕ) (p : Prepared)
      → prep_write vdi idx ≡ (p, vdi1)
      → let req =
          on_object p.opcode p.flags 0 total 0 0 vdi1.inode.nr_copies (u32 start) io_buffer in
        write_object cluster inode_size header_size (suc (suc n)) sent vdi idx start total ≡ (
          if not (p.opcode == 0x01)
          then some (pos 0, vdi1, sent ++ req ∷ [])
          else some (pos 0, vdi1, (sent ++ req ∷ []) ++ index_request vdi1 header_size 0 ∷ []))
  unfolding write_object
  write_object_prepared n sent vdi vdi1 idx start total p e =
      simp (e, submit_answered cluster answers (fresh sent), update_inode_answered n) refl

  write_object_answered :
      (n : ℕ) (sent : List Request) (vdi : Vdi) (idx start total : ℕ)
      → (vdi1 : Vdi) × (write_object cluster inode_size header_size
            (suc (suc n))
            sent
            vdi
            idx
            start
            total
          ≡ some (
            pos 0,
            vdi1,
            sent ++ write_requests vdi header_size (vdi.inode.data_vdi_id idx) start total,
          ))
        × Maps vdi vdi1 idx
  unfolding prep_write with_data_vdi
  write_object_answered n sent vdi idx start total =
      let vid = vdi.inode.data_vdi_id idx in
      let own = vid_to_data_oid vdi.vid idx in
      let mapped = with_data_vdi vdi idx vdi.vid in
      let go = write_object_prepared n sent vdi in
      elim (Bool-cases (vid == 0)) [
        | inl e ↦
            let p : Prepared = record { opcode = 0x01; flags = 0x29; oid = own; cow_oid = 0 } in
            (mapped, go mapped idx start total p (rw e refl) ∙ rw (two sent _ _, e) refl, λ i. refl)
        | inr e ↦ elim (Bool-cases (vdi.vid == vid)) [
          | inl e' ↦
              let p : Prepared = record {
                opcode = 0x03;
                flags = 0x29;
                oid = vid_to_data_oid vid idx;
                cow_oid = 0;
              } in
              (vdi, go vdi idx start total p (rw (e, e') refl) ∙ rw (e, e') refl, λ i. grind arith)
          | inr e' ↦
              let p : Prepared = record {
                opcode = 0x01;
                flags = 0x2B;
                oid = own;
                cow_oid = vid_to_data_oid vid idx;
              } in
              (
                mapped,
                go mapped idx start total p (rw (e, e') refl) ∙ rw (two sent _ _, e, e') refl,
                λ i. refl,
              )
        ]
      ]

  -- If the cluster carries out every request, two rounds of each loop are enough for a write, which
  -- succeeds: it sends the io's bytes, at its place in an object, in place if the object of that
  -- index is the vdi's own, as a copy if it is another vdi's, and to be created otherwise; and
  -- unless in place, an update of the vdi's inode. But both are sent for object 0 and index 0,
  -- whatever the index is. The vdi maps that index to itself afterwards, and no other differently.
  pub exec_write-write_requests :
      (n : ℕ) (sent : List Request) (vdi : Vdi) (iod : IoDesc)
      → let idx = object_idx vdi iod in
        let vid = vdi.inode.data_vdi_id idx in
        let reqs = write_requests vdi header_size vid (object_start vdi iod) (io_bytes iod) in
        (vdi1 : Vdi) × (exec_write cluster inode_size header_size (suc (suc n)) sent vdi iod
          ≡ some (record { ret = pos 0; vdi = vdi1; sent = sent ++ reqs; zeroed = false }))
        × Maps vdi vdi1 idx
  unfolding exec_write
  exec_write-write_requests n sent vdi iod =
      let w =
        write_object_answered n sent vdi (object_idx vdi iod) (object_start vdi iod)
          (io_bytes iod) in
      (w.0, rw w.1 refl, w.2)
