-- ===== src/Sheep/Answered.antt =====
-- A cluster that answers every request serves every io.
use s3blk.Base.{
  ℕ, suc, ◌^◌, ◌<◌, Bool, true, false, ◌==◌, ◌||◌, ◌&&◌, if◌then◌else◌, Option, none, some, ◌≡◌,
  refl, arith, List, [], ◌∷◌, ◌++◌, Bool-cases, inl, inr,
}
use mathlib.Core.Option
use s3blk.Base.Int.{ℤ, pos, is_neg, int_of_u32}
use s3blk.Ublk.{IoDesc, get_op, io_bytes, op_read, op_write, op_discard, op_write_zeroes}
use s3blk.Sheep.Types.{
  Vdi, Payload, no_payload, Request, Cluster, Session, submit, submitted, result_to_errno, fresh,
  replied, vid_to_vdi_oid, vid_to_data_oid, io_buffer,
}
use s3blk.Sheep.Inodes.{
  and_then, read_request, read_object, refresh_required, resolve_vid, update_inode,
}
use s3blk.Sheep.Io.{
  Done, exec_read, exec_write, exec_discard, write_object, discard_object, queue_tgt_io, object_idx,
  object_start, eopnotsupp,
}
use s3blk.Sheep.Served.{pos_of_small}

-- Every request is carried out.
abbrev pub Answers : Cluster → Type 0
Answers cluster = (sent : List Request) (req : Request) → (cluster sent req).outcome ≡ replied 0

-- A result that is not an error.
data Succeeds : Option (ℤ × Vdi × List Request) → Type 0 where
  found : (k : ℕ) (vdi : Vdi) (sent : List Request) → Succeeds (some (pos k, vdi, sent))

if-Succeeds :
    (b : Bool) (o p : Option (ℤ × Vdi × List Request))
    → Succeeds o
    → Succeeds p
    → Succeeds (if b then o else p)
if-Succeeds true o p h k = h
if-Succeeds false o p h k = k

abbrev fails : Done → Bool
fails d = is_neg d.ret

if_fails :
    (b : Bool) (o p : Option Done)
    → Option.map fails o ≡ some false
    → Option.map fails p ≡ some false
    → Option.map fails (if b then o else p) ≡ some false
if_fails true o p h k = h
if_fails false o p h k = k

and_then-Succeeds :
    (f : ℤ × Vdi × List Request → Option Done) (o : Option (ℤ × Vdi × List Request))
    → ((k : ℕ) (vdi : Vdi) (sent : List Request)
        → Option.map fails (f (pos k, vdi, sent)) ≡ some false)
    → Succeeds o
    → Option.map fails (and_then o f) ≡ some false
and_then-Succeeds f _ h (found k vdi sent) = h k vdi sent

abbrev pub result_of : ℤ × Done → ℤ
result_of (ret, d) = ret

and_then_served :
    (iod : IoDesc) (o : Option Done)
    → Option.map fails o ≡ some false
    → Option.map result_of
        (and_then o λ d. some (if is_neg d.ret then d.ret else int_of_u32 (io_bytes iod), d))
      ≡ some (int_of_u32 (io_bytes iod))
and_then_served iod none e = absurd (grind arith)
and_then_served iod (some d) e = grind arith

-- The operations of the target.
abbrev pub is_served : ℕ → Bool
is_served op =
    (op == op_write) || ((op == op_read) || ((op == op_discard) || (op == op_write_zeroes)))

module _ (cluster : Cluster) (answers : Answers cluster) where
  pub submit_answered :
      (s : Session) (req : Request)
      → submit cluster s req
        ≡ (pos 0, cluster s.sent req, record { sent = s.sent ++ req ∷ []; result = 0 })
  unfolding submit submitted result_to_errno
  submit_answered s req = simp (answers s.sent req) refl

  read_object_answered :
      (n : ℕ) (s : Session) (id oid offset len : ℕ) (buf : Payload)
      → let req = read_request id oid offset len buf in
        read_object cluster (suc n) s id oid offset len buf
        ≡ some (record {
          ret = pos 0;
          need_reload = 0;
          answer = cluster s.sent req;
          session = record { sent = s.sent ++ req ∷ []; result = 0 };
        })
  unfolding read_object
  read_object_answered n s id oid offset len buf =
      rw (submit_answered s (read_request id oid offset len buf)) refl

  module _ (inode_size header_size : ℕ) where
    resolve_vid-Succeeds :
        (n : ℕ) (sent : List Request) (vdi : Vdi) (idx : ℕ)
        → vdi.inode.data_vdi_id idx < 2 ^ 24
        → Succeeds (resolve_vid cluster inode_size header_size (suc (suc n)) sent vdi idx)
    unfolding resolve_vid refresh_required
    resolve_vid-Succeeds n sent vdi idx h = elim (Bool-cases (vdi.inode.data_vdi_id idx == 0)) [
      | inl e ↦
          simp (e, read_object_answered n (fresh sent) 0 (vid_to_vdi_oid vdi.vid) 0 4 no_payload)
            (found _ _ _)
      | inr e ↦ simp (e, pos_of_small (vdi.inode.data_vdi_id idx) h) (found _ _ _)
    ]

    update_inode-Succeeds :
        (n : ℕ) (s : Session) (vdi : Vdi) (oid : ℕ)
        → Succeeds (update_inode cluster inode_size header_size (suc n) s vdi oid)
    unfolding update_inode
    update_inode-Succeeds n s vdi oid = simp (submit_answered s) (found _ _ _)

    discard_object-Succeeds :
        (n : ℕ) (s : Session) (tag : ℕ) (vdi : Vdi) (idx : ℕ)
        → Succeeds (discard_object cluster inode_size header_size (suc n) s tag vdi idx)
    unfolding discard_object
    discard_object-Succeeds n s tag vdi idx = simp (submit_answered s) (found _ _ _)

    write_object-Succeeds :
        (n : ℕ) (sent : List Request) (vdi : Vdi) (idx start total : ℕ)
        → Succeeds
            (write_object cluster inode_size header_size (suc (suc n)) sent vdi idx start total)
    unfolding write_object
    write_object-Succeeds n sent vdi idx start total =
        simp (submit_answered (fresh sent))
          (if-Succeeds _ _ _ (found _ _ _) (update_inode-Succeeds n _ _ 0))

    exec_write_answered :
        (n : ℕ) (sent : List Request) (vdi : Vdi) (iod : IoDesc)
        → Option.map fails (exec_write cluster inode_size header_size (suc (suc n)) sent vdi iod)
          ≡ some false
    unfolding exec_write
    exec_write_answered n sent vdi iod =
        and_then-Succeeds _ _ (λ k vdi1 sent1. refl) (write_object-Succeeds n sent vdi _ _ _)

    exec_read_answered :
        (n : ℕ) (sent : List Request) (tag : ℕ) (vdi : Vdi) (iod : IoDesc)
        → vdi.inode.data_vdi_id (object_idx vdi iod) < 2 ^ 24
        → Option.map fails (exec_read cluster inode_size header_size (suc (suc n)) sent tag vdi iod)
          ≡ some false
    unfolding exec_read
    exec_read_answered n sent tag vdi iod h =
        and_then-Succeeds _ _
          (λ k vdi1 sent1. if_fails (k == 0) _ _ refl (
            simp
              (read_object_answered (suc n) (fresh sent1) tag
                (vid_to_data_oid k (object_idx vdi iod)) (object_start vdi iod) (io_bytes iod)
                io_buffer)
              refl))
          (resolve_vid-Succeeds n sent vdi _ h)

    exec_discard_answered :
        (n : ℕ) (sent : List Request) (tag : ℕ) (vdi : Vdi) (iod : IoDesc) (write_zeroes : Bool)
        → vdi.inode.data_vdi_id (object_idx vdi iod) < 2 ^ 24
        → Option.map fails (
            exec_discard cluster inode_size header_size (suc (suc n)) sent tag vdi iod write_zeroes)
          ≡ some false
    unfolding exec_discard
    exec_discard_answered n sent tag vdi iod write_zeroes h =
        and_then-Succeeds _ _
          (λ k vdi1 sent1. if_fails ((k == 0) && write_zeroes) _ _ refl (
            and_then-Succeeds _ _ (λ k1 vdi2 sent2. refl)
              (discard_object-Succeeds (suc n) _ tag vdi1 _)))
          (resolve_vid-Succeeds n sent vdi _ h)

    -- If the cluster carries out every request and the part of the device is mapped to a 24-bit
    -- vdi id, or to none, then two rounds of each loop are enough for every io: a read, a write, a
    -- discard and a write of zeroes give the number of bytes, and any other io -EOPNOTSUPP.
    pub queue_tgt_io_answered :
        (n : ℕ) (sent : List Request) (tag : ℕ) (vdi : Vdi) (iod : IoDesc)
        → vdi.inode.data_vdi_id (object_idx vdi iod) < 2 ^ 24
        → Option.map result_of
            (queue_tgt_io cluster inode_size header_size (suc (suc n)) sent tag vdi iod)
          ≡ some (if is_served (get_op iod) then int_of_u32 (io_bytes iod) else eopnotsupp)
    unfolding queue_tgt_io
    queue_tgt_io_answered n sent tag vdi iod h = elim (Bool-cases (get_op iod == op_write)) [
      | inl e ↦ simp e (and_then_served iod _ (exec_write_answered n sent vdi iod))
      | inr e ↦ elim (Bool-cases (get_op iod == op_read)) [
        | inl e1 ↦ simp (e, e1) (and_then_served iod _ (exec_read_answered n sent tag vdi iod h))
        | inr e1 ↦
            elim (Bool-cases ((get_op iod == op_discard) || (get_op iod == op_write_zeroes))) [
              | inl e2 ↦
                  simp (e, e1, e2)
                    (and_then_served iod _ (exec_discard_answered n sent tag vdi iod _ h))
              | inr e2 ↦ simp (e, e1, e2) refl
            ]
      ]
    ]
